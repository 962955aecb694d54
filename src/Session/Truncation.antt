-- ===== src/Session/Truncation.antt =====
-- `truncate`: a request cut for the log.
use hypeha.Base.{
  ℕ, zero, suc, ◌≤◌, ◌≡◌, refl, ◌⊎◌, inl, inr, true, false, ◌++◌, leb, arith, Text, length, take,
  is_char_boundary, Bool-cases,
}
use hypeha.Session.{truncate, boundary_below, truncate_max, ellipsis}

boundary_below_lem :
    (s : Text) (i : ℕ)
    → (boundary_below s i ≤ i)
      × ((boundary_below s i ≡ 0) ⊎ (is_char_boundary s (boundary_below s i) ≡ true))
unfolding boundary_below
boundary_below_lem s zero = (omega arith, inl refl)
boundary_below_lem s (suc i) = elim (Bool-cases (is_char_boundary s (suc i))) [
  | inl here ↦ rw here (omega arith, inr here)
  | inr off ↦ let (low, bound) = boundary_below_lem s i in rw off (omega (arith, low), bound)
]

short_lem : (n : ℕ) → leb n truncate_max ≡ true → n ≤ 200
short_lem n h = ground arith

long_lem : (n : ℕ) → leb n truncate_max ≡ false → 201 ≤ n
long_lem n h = ground arith

-- A text of at most 200 bytes is kept; a longer one is cut at byte 200 or before it, at the start
-- of the text or between two characters, and marked with an ellipsis.
truncate_lem :
    (s : Text)
    → ((length s ≤ 200) × (truncate s ≡ s))
      ⊎ ((201 ≤ length s)
          × (n : ℕ) × (n ≤ 200)
          × ((n ≡ 0) ⊎ (is_char_boundary s n ≡ true))
          × (truncate s ≡ take n s ++ ellipsis))
unfolding truncate
truncate_lem s = elim (Bool-cases (leb (length s) truncate_max)) [
  | inl short ↦ inl (short_lem (length s) short, rw short refl)
  | inr long ↦
      let (low, bound) = boundary_below_lem s truncate_max in
      inr (long_lem (length s) long, boundary_below s truncate_max, low, bound, rw long refl)
]
