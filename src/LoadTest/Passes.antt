-- ===== src/LoadTest/Passes.antt =====
-- What a pass of `sweeper`, of src/bin/loadtest.rs, counts and leaves.
use hypeha.Base.{
  ℕ, suc, ◌+◌, ◌%◌, ◌^◌, ◌≡◌, refl, ap, Bool, true, false, not, ◌&&◌, List, [], ◌∷◌, if◌then◌else◌,
  arith, length, retain,
}
use hypeha.LoadTest.Sweep.{
  Seen, Block, Verdict, Setup, Blocks, bump, judge, is_young, sweep_seen, sweep_blocks, sweep,
  judge_ages,
}
use hypeha.LoadTest.Judged.{total, is_had, is_missed, judge_lem, ours, theirs}

-- One frame more on both sides of an account.
one_frame :
    (d k nobody j t n : ℕ) (had : Bool)
    → (d + k + nobody) % 2 ^ 64 ≡ (j + n) % 2 ^ 64
    → (j + (if had then 0 else 1)) % 2 ^ 64 ≡ (t + 1) % 2 ^ 64
    → (d + k + ((if not had then 1 else 0) + nobody)) % 2 ^ 64 ≡ (t + suc n) % 2 ^ 64
one_frame d k nobody j t n true a b = omega arith
one_frame d k nobody j t n false a b = omega arith

one_hole :
    (hole : Bool) (l more d j : ℕ)
    → d % 2 ^ 64 ≡ (j + more) % 2 ^ 64
    → j ≡ (if hole then bump l else l)
    → d % 2 ^ 64 ≡ (l + ((if hole then 1 else 0) + more)) % 2 ^ 64
one_hole true l more d j a b = omega arith
one_hole false l more d j a b = omega arith

abbrev pub count_of : (Seen → Bool) → List (ℕ × Seen) → ℕ
count_of p es = length (retain (λ (f : ℕ × Seen). p f.1) es)

count_of_cons :
    (p : Seen → Bool) (h : ℕ) (e : Seen) (es : List (ℕ × Seen))
    → count_of p ((h, e) ∷ es) ≡ (if p e then 1 else 0) + count_of p es
count_of_cons p h e es = by_test (p e)
  where
    by_test :
        (b : Bool)
        → length (
            if b
            then (h, e) ∷ retain (λ (f : ℕ × Seen). p f.1) es
            else retain (λ (f : ℕ × Seen). p f.1) es)
          ≡ (if b then 1 else 0) + count_of p es
    by_test true = omega arith
    by_test false = omega arith

module _ (s : Setup) (now : ℕ) where
  -- A frame whose window is over, and that neither the proxy nor a compared node had.
  abbrev pub is_unclaimed : Seen → Bool
  is_unclaimed e = not (is_young s now e.born) && not (is_had (ours e) (theirs s e))

  -- A frame whose window is over, that a compared node had and the proxy did not, and that is a
  -- hole in the proxy's stream.
  abbrev pub is_lost : Blocks → List ℕ → Seen → Bool
  is_lost blocks wsarb_max e = not (is_young s now e.born) && is_missed s blocks wsarb_max e

  -- The counters after one frame.
  abbrev next : Bool → Bool → Blocks → List ℕ → Seen → Verdict → Verdict
  next finishing young blocks wsarb_max e v =
      if young
      then (if finishing then record v { undecided = bump v.undecided } else v)
      else judge s blocks wsarb_max e v

  -- A pass of the comparison accounts for each frame once: what it counted as matched, lost, stale,
  -- superseded, skipped, invented or undecided, what it keeps, and those whose window is over and
  -- that neither the proxy nor a compared node had, are together what was counted before and the
  -- frames it was given, modulo 2 ^ 64; and the lost ones rise, modulo 2 ^ 64, by exactly the
  -- frames whose window is over, that a compared node had and the proxy had not, and whose
  -- subscription is not known, or for whose stamp the map of the blocks counts no frame of the
  -- proxy's and which the proxy was not past when they first came and is not past now.
  pub sweep_seen-accounts :
      (finishing : Bool) (blocks : Blocks) (wsarb_max : List ℕ) (es : List (ℕ × Seen)) (v : Verdict)
      (ages : List (List ℕ))
      → let swept = sweep_seen s now finishing blocks wsarb_max es v ages in
        ((total swept.1 + length swept.0 + count_of is_unclaimed es) % 2 ^ 64
          ≡ (total v + length es) % 2 ^ 64)
        × (swept.1.lost % 2 ^ 64 ≡ (v.lost + count_of (is_lost blocks wsarb_max) es) % 2 ^ 64)
  unfolding sweep_seen
  sweep_seen-accounts finishing blocks wsarb_max [] v ages = (omega arith, omega arith)
  sweep_seen-accounts finishing blocks wsarb_max ((h, e) ∷ es) v ages =
      let v' = next finishing (is_young s now e.born) blocks wsarb_max e v in
      let ages' = if is_young s now e.born then ages else judge_ages s e ages in
      let swept = sweep_seen s now finishing blocks wsarb_max es v' ages' in
      rw (count_of_cons is_unclaimed h e es, count_of_cons (is_lost blocks wsarb_max) h e es)
        (by_test finishing (is_young s now e.born) swept.0 swept.1 _ _
          (sweep_seen-accounts finishing blocks wsarb_max es v' ages'))
    where
      by_test :
          (finishing young : Bool) (kept : List (ℕ × Seen)) (done : Verdict) (nobody lost : ℕ)
          → ((total done + length kept + nobody) % 2 ^ 64
              ≡ (total (next finishing young blocks wsarb_max e v) + length es) % 2 ^ 64)
            × (done.lost % 2 ^ 64
                ≡ ((next finishing young blocks wsarb_max e v).lost + lost) % 2 ^ 64)
          → ((total done
                  + length (if young && not finishing then (h, e) ∷ kept else kept)
                  + ((if not young && not (is_had (ours e) (theirs s e)) then 1 else 0) + nobody))
                % 2 ^ 64
              ≡ (total v + suc (length es)) % 2 ^ 64)
            × (done.lost % 2 ^ 64
                ≡ (v.lost + ((if not young && is_missed s blocks wsarb_max e then 1 else 0) + lost))
                  % 2 ^ 64)
      by_test true true kept done nobody lost (a, b) = (omega arith, omega arith)
      by_test false true kept done nobody lost (a, b) = (omega arith, omega arith)
      by_test finishing false kept done nobody lost (a, b) =
          let (one, more) = judge_lem s blocks wsarb_max e v in
          (
            one_frame (total done) (length kept) nobody (total (judge s blocks wsarb_max e v))
                (total v) (length es) (is_had (ours e) (theirs s e)) a one,
            one_hole (is_missed s blocks wsarb_max e) v.lost lost done.lost
                (judge s blocks wsarb_max e v).lost b more,
          )

keep_some {ℓ} :
    {A : Type ℓ} (finishing young : Bool) (x : A) (kept xs : List A)
    → kept ≡ (if finishing then [] else xs)
    → (if young && not finishing then x ∷ kept else kept)
      ≡ (if finishing then [] else if young then x ∷ xs else xs)
keep_some true true x kept xs same = same
keep_some true false x kept xs same = same
keep_some false true x kept xs same = ap (λ ys. x ∷ ys) same
keep_some false false x kept xs same = same

keep_none {ℓ} : {A : Type ℓ} (finishing : Bool) → ◌≡◌ {A = List A} [] (if finishing then [] else [])
keep_none true = refl
keep_none false = refl

module _ (s : Setup) (now : ℕ) (finishing : Bool) where
  sweep_seen-keeps :
      (blocks : Blocks) (wsarb_max : List ℕ) (es : List (ℕ × Seen)) (v : Verdict)
      (ages : List (List ℕ))
      → (sweep_seen s now finishing blocks wsarb_max es v ages).0
        ≡ (if finishing then [] else retain (λ (f : ℕ × Seen). is_young s now f.1.born) es)
  unfolding sweep_seen
  sweep_seen-keeps blocks wsarb_max [] v ages = keep_none finishing
  sweep_seen-keeps blocks wsarb_max ((h, e) ∷ es) v ages =
      keep_some finishing (is_young s now e.born) (h, e)
        (sweep_seen s now finishing blocks wsarb_max es _ _).0
        (retain (λ (f : ℕ × Seen). is_young s now f.1.born) es)
        (sweep_seen-keeps blocks wsarb_max es _ _)

  sweep_blocks-keeps :
      (bs : Blocks) (v : Verdict)
      → (sweep_blocks s now finishing bs v).0
        ≡ (if finishing then [] else retain (λ (f : (ℕ × ℕ) × Block). is_young s now f.1.born) bs)
  unfolding sweep_blocks
  sweep_blocks-keeps [] v = keep_none finishing
  sweep_blocks-keeps ((k, b) ∷ bs) v =
      keep_some finishing (is_young s now b.born) (k, b) (sweep_blocks s now finishing bs _).0
        (retain (λ (f : (ℕ × ℕ) × Block). is_young s now f.1.born) bs) (sweep_blocks-keeps bs _)

  -- A pass keeps exactly the messages and the blocks whose window is not over, in their order, and
  -- the finishing pass keeps none.
  sweep-keeps :
      (wsarb_max : List ℕ) (seen : List (ℕ × Seen)) (blocks : Blocks) (v : Verdict)
      (ages : List (List ℕ))
      → let swept = sweep s now finishing wsarb_max seen blocks v ages in
        (swept.0
          ≡ (if finishing then [] else retain (λ (f : ℕ × Seen). is_young s now f.1.born) seen))
        × (swept.1 ≡ (
            if finishing
            then []
            else retain (λ (f : (ℕ × ℕ) × Block). is_young s now f.1.born) blocks))
  unfolding sweep
  sweep-keeps wsarb_max seen blocks v ages = (
    sweep_seen-keeps blocks wsarb_max seen v ages,
    sweep_blocks-keeps blocks (sweep_seen s now finishing blocks wsarb_max seen v ages).1,
  )
