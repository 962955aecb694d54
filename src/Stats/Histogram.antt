-- ===== src/Stats/Histogram.antt =====
-- The delay histogram: `record_delay`.
use hypeha.Base.{
  ℕ, zero, suc, ◌+◌, ◌-◌, ◌/◌, ◌%◌, ◌^◌, ◌≤◌, ◌<◌, ◌≡◌, ◌∙◌, ◌⊎◌, List, [], ◌∷◌, arith, length, set,
  get_or, add_u64, length-set,
}
use hypeha.Stats.{SourceStats, bucket_of, bucket_edges_us, num_buckets, record_delay}

abbrev pub sum : List ℕ → ℕ
sum [] = 0
sum (x ∷ xs) = x + sum xs

sum-set : (xs : List ℕ) (i v : ℕ) → i < length xs → sum (set xs i v) + get_or xs i 0 ≡ sum xs + v
sum-set [] i v h = elim h [ ]
sum-set (x ∷ xs) zero v h = omega arith
sum-set (x ∷ xs) (suc i) v h = omega (arith, sum-set xs i v (omega arith))

-- A delay falls into a bucket whose lower edge it reaches, and either lies below the bucket's upper
-- edge, or has reached 500 ms and falls into the last bucket.
bucket_of_lem :
    (us : ℕ)
    → (get_or (0 ∷ bucket_edges_us) (bucket_of us) 0 ≤ us)
      × (((us < 500_000) × (us < get_or bucket_edges_us (bucket_of us) 0))
          ⊎ ((500_000 ≤ us) × (bucket_of us ≡ num_buckets - 1)))
unfolding bucket_of
bucket_of_lem us = ground arith

bucket_of-lt : (us : ℕ) → bucket_of us < num_buckets
unfolding bucket_of
bucket_of-lt us = ground arith

-- The buckets hold all the late frames there were, modulo 2 ^ 64.
pub record IsTallied (s : SourceStats) : Type 0 where
  pub buckets : length s.hist ≡ num_buckets
  pub counted : sum s.hist % 2 ^ 64 ≡ s.duplicates
  pub timed : s.delay_count ≡ s.duplicates

-- Recording a delay keeps the histogram's sum equal to the duplicates, modulo 2 ^ 64, and so the
-- number of delays averaged over.
record_delay-IsTallied : (d : ℕ) (s : SourceStats) → IsTallied s → IsTallied (record_delay d s)
unfolding record_delay
record_delay-IsTallied d s t =
    let idx = bucket_of (d / 1_000 % 2 ^ 64) in
    let one = add_u64 (get_or s.hist idx 0) 1 in
    record {
      buckets = length-set s.hist idx one ∙ t.buckets;
      counted = omega (
        arith,
        t.counted,
        t.buckets,
        sum-set s.hist idx one (omega (arith, bucket_of-lt (d / 1_000 % 2 ^ 64), t.buckets)),
      );
      timed = omega (arith, t.timed);
    }
