-- ===== src/LoadTest/Pairs.antt =====
-- The counters of the blocks in a pass of `sweeper`, of src/bin/loadtest.rs.
use hypeha.Base.{
  ℕ, ◌+◌, ◌%◌, ◌^◌, ◌≡◌, refl, ◌∙◌, Bool, true, false, List, [], ◌∷◌, Option, none, some, ltb, ◌==◌,
  arith, get_or, any, take, if_cases, subst, not, ◌&&◌, leb, Option-cases, inl, inr, sym,
}
use hypeha.LoadTest.Sweep.{
  Seen, Block, ByMode, Verdict, Setup, Blocks, bump_mode, count_twin, judge_twin, count_missing,
  count_match, judge, judge_block, judge_same, judge_short, judge_cross, sweep_seen, sweep_blocks,
  sweep, is_young, is_carried, compared, largest, is_passed, u32_max,
}

abbrev at_mode : Bool → ByMode → ℕ
at_mode true m = m.raced
at_mode false m = m.led

-- In each mode, two counters that add up to a third, which wraps around.
abbrev pub Adds : ByMode → ByMode → ByMode → Type 0
Adds seen agree differ = (m : Bool) → at_mode m seen ≡ (at_mode m agree + at_mode m differ) % 2 ^ 64

bump-agree :
    (raced : Bool) (seen agree differ : ByMode)
    → Adds seen agree differ
    → Adds (bump_mode raced seen) (bump_mode raced agree) differ
bump-agree true seen agree differ h true = let same = h true in omega arith
bump-agree true seen agree differ h false = h false
bump-agree false seen agree differ h true = h true
bump-agree false seen agree differ h false = let same = h false in omega arith

bump-differ :
    (raced : Bool) (seen agree differ : ByMode)
    → Adds seen agree differ
    → Adds (bump_mode raced seen) agree (bump_mode raced differ)
bump-differ true seen agree differ h true = let same = h true in omega arith
bump-differ true seen agree differ h false = h false
bump-differ false seen agree differ h true = h true
bump-differ false seen agree differ h false = let same = h false in omega arith

-- The blocks that every stream carried are those on which the two connections to one node agree
-- and those on which they do not.
abbrev pub SameAdds : Verdict → Type 0
SameAdds v = Adds v.blk_seen v.blk_same_agree v.blk_same_differ

-- The same of the first two compared nodes.
abbrev pub CrossAdds : Verdict → Type 0
CrossAdds v = Adds v.blk_seen v.blk_cross_agree v.blk_cross_differ

-- The same while the third counter is already one ahead.
abbrev Owes : Bool → ByMode → ByMode → ByMode → Type 0
Owes raced seen agree differ =
    Adds seen (bump_mode raced agree) differ × Adds seen agree (bump_mode raced differ)

owe :
    (raced : Bool) (seen agree differ : ByMode)
    → Adds seen agree differ
    → Owes raced (bump_mode raced seen) agree differ
owe raced seen agree differ h =
    (bump-agree raced seen agree differ h, bump-differ raced seen agree differ h)

abbrev SameOwes : Bool → Verdict → Type 0
SameOwes raced v = Owes raced v.blk_seen v.blk_same_agree v.blk_same_differ

abbrev CrossOwes : Bool → Verdict → Type 0
CrossOwes raced v = Owes raced v.blk_seen v.blk_cross_agree v.blk_cross_differ

module _ (s : Setup) (b : Block) where
  judge_same-pays :
      (twin : ℕ) (v : Verdict)
      → s.noise_slot ≡ some twin
      → SameOwes b.raced v × CrossOwes b.raced v
      → SameAdds (judge_same s b v) × CrossOwes b.raced (judge_same s b v)
  unfolding judge_same
  judge_same-pays twin v paired ((agree, differ), cross) = rw (paired) (
      if_cases (λ (w : Verdict). SameAdds w × CrossOwes b.raced w)
        (get_or b.n s.start 0 == get_or b.n twin 0) (λ _. (agree, cross)) (λ _. (differ, cross)))

  judge_short-keeps :
      (v : Verdict)
      → SameAdds v × CrossOwes b.raced v
      → SameAdds (judge_short s b v) × CrossOwes b.raced (judge_short s b v)
  unfolding judge_short
  judge_short-keeps v h =
      if_cases (λ (w : Verdict). SameAdds w × CrossOwes b.raced w)
        (ltb (get_or b.n 0 0) (largest (compared s b.n))) (λ _. h) (λ _. h)

  judge_cross-pays :
      (v : Verdict)
      → ltb (s.start + 1) s.stop ≡ true
      → SameAdds v × CrossOwes b.raced v
      → SameAdds (judge_cross s b v) × CrossAdds (judge_cross s b v)
  unfolding judge_cross
  judge_cross-pays v two (same, (agree, differ)) = rw (two) (
      if_cases (λ (w : Verdict). SameAdds w × CrossAdds w)
        (get_or b.n s.start 0 == get_or b.n (s.start + 1) 0) (λ _. (same, agree))
        (λ _. (same, differ)))

  judge_block-adds :
      (twin : ℕ) (v : Verdict)
      → s.noise_slot ≡ some twin
      → ltb (s.start + 1) s.stop ≡ true
      → SameAdds v × CrossAdds v
      → SameAdds (judge_block s b v) × CrossAdds (judge_block s b v)
  unfolding judge_block
  judge_block-adds twin v paired two (same, cross) =
      if_cases (λ (w : Verdict). SameAdds w × CrossAdds w)
        (any (λ n. n == 0) (take s.used_slots b.n)) (λ _. (same, cross))
        (λ _. judge_cross-pays _ two (
          judge_short-keeps _ (
            judge_same-pays twin _ paired (
              owe b.raced v.blk_seen v.blk_same_agree v.blk_same_differ same,
              owe b.raced v.blk_seen v.blk_cross_agree v.blk_cross_differ cross,
            ))))

-- The counters of the blocks.
abbrev Counters : Type 0
Counters = ByMode × ByMode × ByMode × ByMode × ByMode

abbrev counters : Verdict → Counters
counters v =
    (v.blk_seen, v.blk_same_agree, v.blk_same_differ, v.blk_cross_agree, v.blk_cross_differ)

-- Judging a frame leaves them alone.
count_twin-counters : (b a : Option ℕ) (v : Verdict) → counters (count_twin b a v) ≡ counters v
unfolding count_twin
count_twin-counters (some b) (some a) v =
    if_cases (λ (w : Verdict). counters w ≡ counters v) (ltb a b) (λ _. refl) (λ _. refl)
count_twin-counters (some b) none v = refl
count_twin-counters none (some a) v = refl
count_twin-counters none none v = refl

judge_twin-counters :
    (s : Setup) (e : Seen) (v : Verdict) → counters (judge_twin s e v) ≡ counters v
unfolding judge_twin
judge_twin-counters s e v = elim (Option-cases s.noise_slot) [
  | inl single ↦ rw (single) refl
  | inr (twin, paired) ↦
      rw (paired) (count_twin-counters (get_or e.at s.start none) (get_or e.at twin none) v)
]

count_missing-counters :
    (blocks : Blocks) (wsarb_max : List ℕ) (e : Seen) (v : Verdict)
    → counters (count_missing blocks wsarb_max e v) ≡ counters v
unfolding count_missing
count_missing-counters blocks wsarb_max e v =
    if_cases same (not (e.key == u32_max) && ltb e.seq e.born_max) (λ _. refl)
      (λ _.
        if_cases same (is_carried blocks e) (λ _. refl)
          (λ _. if_cases same (is_passed wsarb_max e) (λ _. refl) (λ _. refl)))
  where
    same : Verdict → Type 0
    same w = counters w ≡ counters v

count_match-counters :
    (blocks : Blocks) (wsarb_max : List ℕ) (e : Seen) (o t : Option ℕ) (v : Verdict)
    → counters (count_match blocks wsarb_max e o t v) ≡ counters v
unfolding count_match
count_match-counters blocks wsarb_max e (some o) (some t) v =
    if_cases (λ (w : Verdict). counters w ≡ counters v) (leb t o) (λ _. refl) (λ _. refl)
count_match-counters blocks wsarb_max e none (some t) v =
    count_missing-counters blocks wsarb_max e v
count_match-counters blocks wsarb_max e (some o) none v = refl
count_match-counters blocks wsarb_max e none none v = refl

module _ (s : Setup) (now : ℕ) (finishing : Bool) where
  sweep_seen-counters :
      (blocks : Blocks) (wsarb_max : List ℕ) (es : List (ℕ × Seen)) (v : Verdict)
      (ages : List (List ℕ))
      → counters (sweep_seen s now finishing blocks wsarb_max es v ages).1 ≡ counters v
  unfolding sweep_seen judge
  sweep_seen-counters blocks wsarb_max [] v ages = refl
  sweep_seen-counters blocks wsarb_max ((h, e) ∷ es) v ages =
      sweep_seen-counters blocks wsarb_max es _ _
      ∙ if_cases (λ (w : Verdict). counters w ≡ counters v) (is_young s now e.born)
          (λ _.
            if_cases (λ (w : Verdict). counters w ≡ counters v) finishing (λ _. refl) (λ _. refl))
          (λ _. judge-counters blocks wsarb_max e v)
    where
      judge-counters :
          (bs : Blocks) (maxes : List ℕ) (f : Seen) (w : Verdict)
          → counters (judge s bs maxes f w) ≡ counters w
      judge-counters bs maxes f w =
          count_match-counters bs maxes f _ _ _ ∙ judge_twin-counters s f w

  sweep_blocks-adds :
      (twin : ℕ) (bs : Blocks) (v : Verdict)
      → s.noise_slot ≡ some twin
      → ltb (s.start + 1) s.stop ≡ true
      → SameAdds v × CrossAdds v
      → let done = (sweep_blocks s now finishing bs v).1 in SameAdds done × CrossAdds done
  unfolding sweep_blocks
  sweep_blocks-adds twin [] v paired two adds = adds
  sweep_blocks-adds twin ((k, b) ∷ bs) v paired two adds = sweep_blocks-adds twin bs _ paired two (
      if_cases (λ (w : Verdict). SameAdds w × CrossAdds w) (is_young s now b.born) (λ _. adds)
        (λ _. judge_block-adds s b twin v paired two adds))

  -- With a second connection to the first node and a second node, a pass keeps this, in each of the
  -- two modes and modulo 2 ^ 64: the blocks that every stream carried are those on which the two
  -- connections agree and those on which they differ, and they are those on which the two nodes
  -- agree and those on which they differ.
  sweep-adds :
      (twin : ℕ) (wsarb_max : List ℕ) (seen : List (ℕ × Seen)) (blocks : Blocks) (v : Verdict)
      (ages : List (List ℕ))
      → s.noise_slot ≡ some twin
      → ltb (s.start + 1) s.stop ≡ true
      → SameAdds v × CrossAdds v
      → let done = (sweep s now finishing wsarb_max seen blocks v ages).2 in
        SameAdds done × CrossAdds done
  unfolding sweep
  sweep-adds twin wsarb_max seen blocks v ages paired two adds =
      sweep_blocks-adds twin blocks _ paired two
        (subst AddsIn (sym (sweep_seen-counters blocks wsarb_max seen v ages)) adds)
    where
      AddsIn : Counters → Type 0
      AddsIn (seen, agree, differ, more, less) = Adds seen agree differ × Adds seen more less
