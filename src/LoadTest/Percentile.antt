-- ===== src/LoadTest/Percentile.antt =====
-- A percentile read off a histogram: `pct_of` of src/bin/loadtest.rs. Floating point is a
-- parameter: `rank` is `(n as f64 * p) as u64`.
use hypeha.Base.{
  ℕ, suc, ◌+◌, ◌-◌, ◌%◌, ◌^◌, ◌≤◌, ◌<◌, ◌≡◌, refl, subst, List, [], ◌∷◌, ltb, ◌==◌, if◌then◌else◌,
  arith, length, take, add_u64, if_cases, ltb→lt,
}

-- `iter().sum()` on a u64.
unfoldable pub sum_u64 : List ℕ → ℕ
sum_u64 [] = 0
sum_u64 (c ∷ cs) = add_u64 c (sum_u64 cs)

-- The first index at which more than `want` have been counted, else `last`.
unfoldable pub pct_scan : ℕ → ℕ → ℕ → ℕ → List ℕ → ℕ
pct_scan want last seen i [] = last
pct_scan want last seen i (c ∷ cs) =
    let later = pct_scan want last (add_u64 seen c) (suc i) cs in
    if ltb want (add_u64 seen c) then i % 2 ^ 32 else later

unfoldable pub pct_of : (ℕ → ℕ) → List ℕ → ℕ
unfolding sum_u64 pct_scan
pct_of rank hist =
    let total = sum_u64 hist in
    if total == 0 then 0 else pct_scan (rank (total - 1)) ((length hist - 1) % 2 ^ 32) 0 0 hist

-- How many samples the buckets hold.
abbrev pub samples : List ℕ → ℕ
samples [] = 0
samples (c ∷ cs) = c + samples cs

pub sum_u64_lem : (hist : List ℕ) → samples hist < 2 ^ 64 → sum_u64 hist ≡ samples hist
unfolding sum_u64
sum_u64_lem [] h = refl
sum_u64_lem (c ∷ cs) h = let rest = sum_u64_lem cs (omega arith) in omega arith

-- The bucket of the sample with so many before it.
abbrev pub Holds : ℕ → List ℕ → ℕ → Type 0
Holds want hist i = (samples (take i hist) ≤ want) × (want < samples (take (suc i) hist))

pct_scan_lem :
    (want last seen i : ℕ) (cs : List ℕ)
    → seen + samples cs < 2 ^ 64
    → seen ≤ want
    → want < seen + samples cs
    → (r : ℕ) × (pct_scan want last seen i cs ≡ (i + r) % 2 ^ 32)
      × (r < length cs)
      × (seen + samples (take r cs) ≤ want)
      × (want < seen + samples (take (suc r) cs))
unfolding pct_scan
pct_scan_lem want last seen i [] small low high = ground arith
pct_scan_lem want last seen i (c ∷ cs) small low high =
    let fits : add_u64 seen c ≡ seen + c = omega arith in
    rw (fits) (
      if_cases
        (λ (n : ℕ).
          (r : ℕ) × (n ≡ (i + r) % 2 ^ 32)
          × (r < suc (length cs))
          × (seen + samples (take r (c ∷ cs)) ≤ want)
          × (want < seen + (c + samples (take r cs))))
        (ltb want (seen + c))
        (λ here.
          let above = ltb→lt want (seen + c) here in
          (0, omega arith, omega arith, omega arith, omega arith))
        (λ on.
          let past : seen + c ≤ want = ground arith in
          let (r, is, inside, below, above) =
            pct_scan_lem want last (seen + c) (suc i) cs (omega arith) past (omega arith) in
          (suc r, omega arith, omega arith, omega arith, omega arith)))

-- The percentile of a histogram of at most 2 ^ 32 buckets and fewer than 2 ^ 64 samples, of which
-- there are some, is the bucket of the sample whose rank is asked for, if that rank is below the
-- number of samples: at most so many samples lie in the buckets before it, and more with it.
pub pct_of_lem :
    (rank : ℕ → ℕ) (hist : List ℕ)
    → 0 < samples hist
    → samples hist < 2 ^ 64
    → length hist ≤ 2 ^ 32
    → rank (samples hist - 1) < samples hist
    → Holds (rank (samples hist - 1)) hist (pct_of rank hist)
unfolding pct_of
pct_of_lem rank hist some_sample small short ranked =
    let total = sum_u64_lem hist small in
    let want = rank (samples hist - 1) in
    let (r, is, inside, below, above) =
      pct_scan_lem want ((length hist - 1) % 2 ^ 32) 0 0 hist (omega arith) (omega arith)
        (omega arith) in
    rw (total) (
      if_cases (λ (n : ℕ). Holds want hist n) (samples hist == 0) (λ empty. ground arith)
        (λ filled.
          let index : r ≡ pct_scan want ((length hist - 1) % 2 ^ 32) 0 0 hist = omega arith in
          subst (Holds want hist) index (omega arith, omega arith)))
