-- ===== src/SubKey/Label.antt =====
-- When `label` panics: it slices a user at fixed bytes.
use hypeha.Base.{
  ℕ, suc, zero, ◌-◌, ◌<◌, ◌≤◌, ◌≡◌, ◌≢◌, refl, inl, inr, Bool, true, false, not, ◌&&◌, [], ◌∷◌,
  Option, none, some, ltb, arith, Text, length, is_char_boundary, Bool-cases,
}
use hypeha.SubKey.{SubKey, label, short_user}

-- All bytes are ASCII.
abbrev pub IsAscii : Text → Type 0
IsAscii [] = Unit {0}
IsAscii (c ∷ t) = (c < 128) × IsAscii t

ascii_boundary : (t : Text) (i : ℕ) → IsAscii t → i ≤ length t → is_char_boundary t i ≡ true
ascii_boundary [] zero a h = refl
ascii_boundary [] (suc i) a h = absurd (omega arith)
ascii_boundary (c ∷ t) zero a h = ground arith
ascii_boundary (c ∷ t) (suc i) a h = ground (arith, ascii_boundary t i a.1 (omega arith))

abbrev pub is_none : Option Text → Bool
is_none none = true
is_none (some t) = false

-- The label of a user panics exactly if the user is longer than ten bytes and has the middle of a
-- character at byte 6 or four bytes before its end.
pub label_panics :
    (user : Text)
    → is_none (label (SubKey.order_updates user)) ≡ (
        ltb 10 (length user)
        && not (is_char_boundary user 6 && is_char_boundary user (length user - 4)))
unfolding label short_user
label_panics user = ground arith

-- The label of an ASCII user is printed, whatever its length.
label_ascii : (user : Text) → IsAscii user → label (SubKey.order_updates user) ≢ none
unfolding label short_user
label_ascii user a = elim (Bool-cases (ltb 10 (length user))) [
  | inl long ↦
      let head : is_char_boundary user 6 ≡ true = ascii_boundary user 6 a (ground arith) in
      let tail : is_char_boundary user (length user - 4) ≡ true =
        ascii_boundary user (length user - 4) a (omega arith) in
      ground (arith, head, tail)
  | inr short ↦ ground arith
]
