-- ===== src/LoadTest/Stalls.antt =====
-- The samples that `note` keeps.
use hypeha.Base.{
  ℕ, ◌-◌, ◌≤◌, inl, inr, List, [], ◌∷◌, Option, none, some, ltb, leb, arith, add_u64, add_u32, ◌/◌,
  if_cases, length, length-append, Bool-cases,
}
use hypeha.LoadTest.{
  KeyStats, note, refresh_limit, push_below, note_stall, is_stall, note_gap, new_limit,
  gap_quantile, count_second,
}

-- The samples are within their caps.
pub record IsCapped (s : KeyStats) : Type 0 where
  pub gaps : length s.gaps ≤ 10_000
  pub stalls : length s.stalls ≤ 64
  pub violations : length s.violations ≤ 64

push_below_lem :
    {A : Type 0} (top : ℕ) (xs : List A) (x : A)
    → length xs ≤ top
    → length (push_below top xs x) ≤ top
push_below_lem top xs x h = elim (Bool-cases (ltb (length xs) top)) [
  | inl room ↦ rw room (ground (arith, length-append xs (x ∷ [])))
  | inr full ↦ rw full h
]

stall-IsCapped :
    (prev start gap : ℕ) (s : KeyStats) → IsCapped s → IsCapped (note_stall prev start gap s)
stall-IsCapped prev start gap s c = elim (Bool-cases (is_stall s.limit gap)) [
  | inl stalled ↦ rw stalled (record {
    gaps = c.gaps;
    stalls = push_below_lem 64 s.stalls (prev - start, gap) c.stalls;
    violations = c.violations;
  })
  | inr fine ↦ rw fine c
]

module _ (index scale : ℕ → ℕ) where
  limit-IsCapped : (s : KeyStats) → IsCapped s → IsCapped (refresh_limit index scale s)
  unfolding refresh_limit
  limit-IsCapped s c =
      if_cases IsCapped (leb 256 (add_u32 s.since_limit 1))
        {x = record s { since_limit = 0; limit = new_limit index scale (gap_quantile index s) }}
        {y = record s { since_limit = add_u32 s.since_limit 1 }}
        (λ due. record { gaps = c.gaps; stalls = c.stalls; violations = c.violations })
        (λ early. record { gaps = c.gaps; stalls = c.stalls; violations = c.violations })

  gap-IsCapped :
      (prev now start : ℕ) (s : KeyStats)
      → IsCapped s
      → IsCapped (note_gap index scale prev now start s)
  gap-IsCapped prev now start s c =
      let judged = note_stall prev start (now - prev) (refresh_limit index scale s) in
      let capped =
        stall-IsCapped prev start (now - prev) (refresh_limit index scale s) (limit-IsCapped s c) in
      record {
        gaps = push_below_lem 10_000 judged.gaps (now - prev) capped.gaps;
        stalls = capped.stalls;
        violations = capped.violations;
      }

  last-IsCapped :
      (last : Option ℕ) (now start : ℕ) (s : KeyStats)
      → IsCapped s
      → let gapped : KeyStats = elim last [
        | none ↦ s
        | some prev ↦ note_gap index scale prev now start s
      ] in
        IsCapped gapped
  last-IsCapped none now start s c = c
  last-IsCapped (some prev) now start s c = gap-IsCapped prev now start s c

  -- A message leaves the samples within their caps, whatever the quantile and the factor are.
  note-IsCapped :
      (now start len : ℕ) (s : KeyStats) → IsCapped s → IsCapped (note index scale now start len s)
  unfolding note
  note-IsCapped now start len s c =
      let counted = record s {
        msgs = add_u64 s.msgs 1;
        bytes = add_u64 s.bytes len;
        per_second = count_second ((now - start) / 1_000_000_000) s.per_second;
      } in
      let capped =
        last-IsCapped s.last_at now start counted
          (record { gaps = c.gaps; stalls = c.stalls; violations = c.violations }) in
      record { gaps = capped.gaps; stalls = capped.stalls; violations = capped.violations }
