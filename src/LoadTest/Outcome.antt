-- ===== src/LoadTest/Outcome.antt =====
-- How the load test of src/bin/loadtest.rs ends: whether the run failed, as the report at the end of
-- `main` finds it. A stall's time is in nanoseconds; whether two are near each other, which the code
-- tests in floating point, is a parameter.
use hypeha.Base.{
  ℕ, ◌-◌, ◌*◌, ◌/◌, ◌%◌, ◌^◌, Bool, false, not, ◌&&◌, ◌||◌, List, [], ◌∷◌, ◌++◌, map, Option, none,
  some, ltb, if◌then◌else◌, is_empty, any, max, length, take, drop, add_u64, Text,
}
use hypeha.Base.KeyMap.{get}
use hypeha.LoadTest.{KeyStats, close}
use hypeha.LoadTest.Arrivals.{Stream, text_discrete}
use hypeha.LoadTest.Percentile.{sum_u64}
use hypeha.LoadTest.Plan.{chunks}
use hypeha.LoadTest.Sweep.{Verdict}

-- The gap that runs to the end of the run, closed for each subscription of a stream.
unfoldable pub close_all : ℕ → ℕ → Stream → Stream
close_all end start s = record s { keys = map (λ (name, k). (name, close end start k)) s.keys }

abbrev pub counts_of : List (Text × KeyStats) → List ℕ
counts_of = map (λ p. p.1.violation_count)

unfoldable pub violations_of : Stream → ℕ
unfolding sum_u64
violations_of s = sum_u64 (counts_of s.keys)

-- The sum and the number of the ages of several seconds.
unfoldable pub add_seconds : List (ℕ × ℕ) → ℕ × ℕ → ℕ × ℕ
add_seconds [] total = total
add_seconds ((sum, n) ∷ rest) (a, b) = add_seconds rest (add_u64 a sum, add_u64 b n)

-- Their mean, if there are any.
unfoldable pub mean_age : List (ℕ × ℕ) → Option ℕ
unfolding add_seconds
mean_age w = let (sum, n) = add_seconds w (0, 0) in if ltb 0 n then some (sum / n) else none

unfoldable pub flatten : List (Option ℕ) → List ℕ
flatten [] = []
flatten (none ∷ ms) = flatten ms
flatten (some m ∷ ms) = m ∷ flatten ms

-- `known`: the mean age of each ten seconds in which there is one.
unfoldable pub known_ages : Stream → List ℕ
unfolding mean_age flatten
known_ages s = flatten (map mean_age (chunks 10 s.age_by_sec))

-- The mean of the first quarter, and of the last.
abbrev pub head_of : List ℕ → ℕ
head_of known = sum_u64 (take (length known / 4) known) / (length known / 4)

abbrev pub tail_of : List ℕ → ℕ
tail_of known = sum_u64 (drop (length known - length known / 4) known) / (length known / 4)

-- The age climbed and never came back.
unfoldable pub has_climbed : List ℕ → Bool
has_climbed known =
    ltb 0 (length known / 4)
    && (ltb (max (head_of known) 1 * 3 % 2 ^ 64) (tail_of known) && ltb 2000 (tail_of known))

module _ (near : ℕ → ℕ → Bool) where
  -- A stream has a stall of a subscription near a time.
  unfoldable pub has_stall : Text → ℕ → Stream → Bool
  has_stall name at s = elim (get text_discrete name s.keys) [
    | none ↦ false
    | some k ↦ any (λ (stall : ℕ × ℕ). near stall.0 at) k.stalls
  ]

  abbrev pub is_shared : List Stream → Text → ℕ → Bool
  is_shared others name at = any (has_stall name at) others

  unfoldable pub alone_of : List Stream → Text → List (ℕ × ℕ) → List (Text × ℕ × ℕ)
  alone_of others name [] = []
  alone_of others name ((at, len) ∷ stalls) =
      let rest = alone_of others name stalls in
      if is_shared others name at then rest else (name, at, len) ∷ rest

  -- The stalls that the proxy had and the other streams did not.
  unfoldable pub alone : List Stream → List (Text × KeyStats) → List (Text × ℕ × ℕ)
  unfolding alone_of
  alone others [] = []
  alone others ((name, k) ∷ keys) = alone_of others name k.stalls ++ alone others keys

  -- Whether the run failed, by the proxy's stream, the others', whether there was anything to
  -- compare with, and the verdict.
  unfoldable pub has_failed : Bool → Stream → List Stream → Verdict → Bool
  unfolding violations_of known_ages has_climbed alone
  has_failed compared wsarb others verdict =
      not (is_empty wsarb.ended)
      || (ltb 0 (violations_of wsarb)
          || (has_climbed (known_ages wsarb)
              || (compared && (not (is_empty (alone others wsarb.keys)) || ltb 0 verdict.lost))))

  -- `std::process::exit(i32::from(failed))`, after the streams are closed.
  unfoldable pub exit_code : Bool → ℕ → ℕ → Stream → List Stream → Verdict → ℕ
  unfolding close_all has_failed
  exit_code compared end start wsarb others verdict =
      if has_failed compared (close_all end start wsarb) (map (close_all end start) others) verdict
      then 1
      else 0
