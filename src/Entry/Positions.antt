-- ===== src/Entry/Positions.antt =====
-- `Block`: the positions of one block, raced by the sources.
use hypeha.Base.{
  ℕ, zero, suc, ◌+◌, ◌-◌, ◌^◌, ◌≤◌, ◌<◌, ◌≡◌, refl, ◌∙◌, ap, sym, inl, inr, Bool, false, List, [],
  ◌∷◌, map, ltb, ◌==◌, if◌then◌else◌, max, arith, Bool-cases, Text, length, get_or, replicate,
  add_u32, get_or-append_default, length-replicate, length-append, get_or-set,
}
use hypeha.Mask.{is_marked}
use hypeha.SubKey.{SubKey}
use hypeha.Entry.{
  Seq, SubEntry, Verdict, arbitrate, on_block, grown, bump_block_count, open_block, reopened, won,
}

abbrev count_of : List ℕ → ℕ → ℕ
count_of seen s = get_or seen s 0

count_of-grown : (seen : List ℕ) (id s : ℕ) → count_of (grown seen id) s ≡ count_of seen s
count_of-grown seen id s = ground (arith, get_or-append_default seen (id + 1 - length seen) s 0)

length-grown : (seen : List ℕ) (id : ℕ) → id < length (grown seen id)
length-grown seen id = ground (
  arith,
  length-append seen (replicate (id + 1 - length seen) 0),
  length-replicate (id + 1 - length seen) (zero),
)

-- The counts after one more message: that of the source is one higher, the others stay.
bump-count_of :
    (seen : List ℕ) (id s : ℕ)
    → count_of (bump_block_count seen id).1 s
      ≡ (if id == s then add_u32 (count_of seen id) 1 else count_of seen s)
unfolding bump_block_count
bump-count_of seen id s =
    get_or-set (grown seen id) id s (add_u32 (count_of (grown seen id) id) 1) 0
      (length-grown seen id)
    ∙ rw (count_of-grown seen id id, count_of-grown seen id s)

bump-total : (seen : List ℕ) (id : ℕ) → (bump_block_count seen id).0 ≡ add_u32 (count_of seen id) 1
unfolding bump_block_count
bump-total seen id = rw (count_of-grown seen id id)

count_of-zeroed : (seen : List ℕ) (s : ℕ) → count_of (map (λ _. 0) seen) s ≡ 0
count_of-zeroed [] s = refl
count_of-zeroed (x ∷ seen) zero = refl
count_of-zeroed (x ∷ seen) (suc s) = count_of-zeroed seen s

-- How far each source is in the open block, counted by the frames that came in.
abbrev pub one_more : ℕ → (ℕ → ℕ) → ℕ → ℕ
one_more s counts i = if s == i then counts i + 1 else counts i

-- The text of a frame is `message k` if it is the k-th of its block from its source. `raced` is
-- what goes out as the sources of the list send one frame each, in that order.
unfoldable pub raced : SubKey → ℕ → ℕ → (ℕ → Text) → List ℕ → (ℕ → ℕ) → SubEntry → List Text
raced key h now message [] counts e = []
raced key h now message (s ∷ ss) counts e =
    let (e', v) = arbitrate key s (Seq.block h) now e in
    let rest = raced key h now message ss (one_more s counts) e' in
    if v.deliver then message (counts s + 1) ∷ rest else rest

-- The furthest position that a source reaches.
unfoldable pub furthest : List ℕ → (ℕ → ℕ) → ℕ → ℕ
furthest [] counts m = m
furthest (s ∷ ss) counts m = furthest ss (one_more s counts) (max m (counts s + 1))

-- `message m`, `message (m + 1)`, … n of them.
unfoldable pub messages : (ℕ → Text) → ℕ → ℕ → List Text
messages message m zero = []
messages message m (suc n) = message m ∷ messages message (m + 1) n

abbrev pub AllClear : ℕ → List ℕ → Type 0
AllClear mask [] = Unit {0}
AllClear mask (s ∷ ss) = (is_marked mask s ≡ false) × AllClear mask ss

-- The entry agrees with the counts of the frames that came in.
record InStep (h : ℕ) (counts : ℕ → ℕ) (e : SubEntry) : Type 0 where
  open_at : e.last ≡ h
  counted : (s : ℕ) → count_of e.block_seen s ≡ counts s
  bounded : (s : ℕ) → counts s ≤ e.block_sent

furthest-le : (ss : List ℕ) (counts : ℕ → ℕ) (m : ℕ) → m ≤ furthest ss counts m
unfolding furthest
furthest-le [] counts m = omega arith
furthest-le (s ∷ ss) counts m =
    omega (arith, furthest-le ss (one_more s counts) (max m (counts s + 1)))

-- One frame of the open block: what it does to the entry, and when it goes out.
abbrev PositionStep : ℕ → (ℕ → ℕ) → SubEntry → SubEntry × Verdict → Type 0
PositionStep s counts e (e', v) =
    (e'.last ≡ e.last)
    × (e'.block_seen ≡ (bump_block_count e.block_seen s).1)
    × (e'.needs_snapshot ≡ e.needs_snapshot)
    × (e'.block_sent ≡ max e.block_sent (counts s + 1))
    × (v.deliver ≡ ltb e.block_sent (counts s + 1))

module _ (key : SubKey) (h now s : ℕ) (counts : ℕ → ℕ) (e : SubEntry) (i : InStep h counts e) where
  position_step :
      is_marked e.needs_snapshot s ≡ false
      → e.block_sent + 1 < 2 ^ 32
      → PositionStep s counts e (arbitrate key s (Seq.block h) now e)
  unfolding arbitrate on_block
  position_step clear small =
      ground (arith, i.open_at, i.counted s, i.bounded s, bump-total e.block_seen s)

  position-InStep :
      is_marked e.needs_snapshot s ≡ false
      → e.block_sent + 1 < 2 ^ 32
      → InStep h (one_more s counts) (arbitrate key s (Seq.block h) now e).0
  position-InStep clear small =
      let (kept, seen, marks, sent, out) = position_step clear small in
      record {
        open_at = kept ∙ i.open_at;
        counted = λ t.
            ap (λ l. count_of l t) seen
            ∙ bump-count_of e.block_seen s t
            ∙ ground (arith, i.counted s, i.counted t, i.bounded s);
        bounded = λ t. ground (arith, i.bounded t, i.bounded s, sent);
      }

AllClear-subst : (m n : ℕ) (ss : List ℕ) → m ≡ n → AllClear n ss → AllClear m ss
AllClear-subst m n ss e a = rw e a

messages-none : (message : ℕ → Text) (m : ℕ) → messages message m 0 ≡ []
unfolding messages
messages-none message m = refl

messages-cons :
    (message : ℕ → Text) (m f : ℕ)
    → m + 1 ≤ f
    → messages message (m + 1) (f - m)
      ≡ message (m + 1) ∷ messages message (m + 1 + 1) (f - (m + 1))
unfolding messages
messages-cons message m f h = let e : f - m ≡ suc (f - (m + 1)) = omega arith in rw e

raced_step :
    (message : ℕ → Text) (d : Bool) (c m x : ℕ) (out : List Text) (far : ℕ → ℕ)
    → x ≡ max m (c + 1)
    → d ≡ ltb m (c + 1)
    → c ≤ m
    → x ≤ far x
    → out ≡ messages message (x + 1) (far x - x)
    → (if d then message (c + 1) ∷ out else out)
      ≡ messages message (m + 1) (far (max m (c + 1)) - m)
raced_step message d c m x out far sent test low high step = elim (Bool-cases (ltb m (c + 1))) [
  | inl ahead ↦
      let at : c ≡ m = ground arith in
      let next : x ≡ m + 1 = ground arith in
      rw (test, ahead) (cc (messages-cons message m (far x) (omega arith), at, next, sent, step))
  | inr behind ↦ let stays : x ≡ m = ground arith in rw (test, behind) (cc (stays, sent, step))
]

-- From the open block on: the positions past those sent go out, in order and once.
raced-open :
    (key : SubKey) (h now : ℕ) (message : ℕ → Text) (ss : List ℕ) (counts : ℕ → ℕ) (e : SubEntry)
    → InStep h counts e
    → AllClear e.needs_snapshot ss
    → e.block_sent + length ss + 1 < 2 ^ 32
    → raced key h now message ss counts e
      ≡ messages message (e.block_sent + 1) (furthest ss counts e.block_sent - e.block_sent)
unfolding raced furthest
raced-open key h now message [] counts e i a small =
    let e0 : e.block_sent - e.block_sent ≡ 0 = omega arith in rw e0 (sym (messages-none message _))
raced-open key h now message (s ∷ ss) counts e i a small =
    let (kept, seen, marks, sent, out) = position_step key h now s counts e i a.0 (omega arith) in
    let e' = (arbitrate key s (Seq.block h) now e).0 in
    let step : raced key h now message ss (one_more s counts) e'
        ≡ messages message (e'.block_sent + 1)
            (furthest ss (one_more s counts) e'.block_sent - e'.block_sent) =
      raced-open key h now message ss (one_more s counts) e'
        (position-InStep key h now s counts e i a.0 (omega arith)) (AllClear-subst _ _ ss marks a.1)
        (omega (arith, sent, i.bounded s)) in
    raced_step message _ (counts s) e.block_sent e'.block_sent _ (furthest ss (one_more s counts))
      sent out (i.bounded s) (furthest-le ss (one_more s counts) e'.block_sent) step

opening-InStep : (h now s : ℕ) (e : SubEntry) → InStep h (one_more s (λ _. 0)) (reopened s h now e)
unfolding open_block
opening-InStep h now s e = record {
  open_at = refl;
  counted = λ t.
      bump-count_of (map (λ _. 0) e.block_seen) s t
      ∙ ground (arith, count_of-zeroed e.block_seen s, count_of-zeroed e.block_seen t);
  bounded = λ t. ground arith;
}

block_opens :
    (key : SubKey) (h now s : ℕ) (e : SubEntry)
    → e.last < h
    → is_marked e.needs_snapshot s ≡ false
    → arbitrate key s (Seq.block h) now e ≡ (reopened s h now e, won)
unfolding arbitrate on_block
block_opens key h now s e new clear = ground arith

messages-one :
    (message : ℕ → Text) (f : ℕ)
    → 1 ≤ f
    → messages message 1 f ≡ message 1 ∷ messages message 2 (f - 1)
unfolding messages
messages-one message f h = ap (messages message 1) {y = suc (f - 1)} (omega arith)

-- A whole block: for a height above the last one, sources that are not written off and fewer than 2
-- ^ 32 - 3 further frames, whatever the order in which the sources send their frames of the block,
-- what goes out is its first, second, … message, each once and in order, as far as any source has
-- come.
pub raced_block :
    (key : SubKey) (h now : ℕ) (message : ℕ → Text) (s : ℕ) (ss : List ℕ) (e : SubEntry)
    → e.last < h
    → AllClear e.needs_snapshot (s ∷ ss)
    → length ss + 3 < 2 ^ 32
    → raced key h now message (s ∷ ss) (λ _. 0) e
      ≡ messages message 1 (furthest (s ∷ ss) (λ _. 0) 0)
unfolding raced furthest
raced_block key h now message s ss e new a small =
    let opened =
      raced-open key h now message ss (one_more s (λ _. 0)) (reopened s h now e)
        (opening-InStep h now s e) a.1 (omega arith) in
    let starts : arbitrate key s (Seq.block h) now e ≡ (reopened s h now e, won) =
      block_opens key h now s e new a.0 in
    rw (starts, opened) (sym (messages-one message _ (furthest-le ss (one_more s (λ _. 0)) 1)))
