-- ===== src/LoadTest/Passed.antt =====
-- What it means that the load test of src/bin/loadtest.rs passes. A connection that ends in the
-- run's last two seconds, or that cannot be made, leaves no end in the streams' records.
use hypeha.Base.{
  ℕ, ◌*◌, ◌%◌, ◌^◌, ◌≤◌, ◌<◌, ◌≡◌, Bool, true, List, ◌⊎◌, is_empty, max, length, Text,
}
use hypeha.LoadTest.{KeyStats}
use hypeha.LoadTest.Arrivals.{Stream}
use hypeha.LoadTest.Chunks.{Every}
use hypeha.LoadTest.Sweep.{Verdict}
use hypeha.LoadTest.Outcome.{known_ages, head_of, tail_of, is_shared}

module _ (near : ℕ → ℕ → Bool) where
  -- Every stall of a subscription that is recorded is near one of another stream.
  abbrev pub HasCompany : List Stream → Text × KeyStats → Type 0
  HasCompany others p =
      Every (λ (stall : ℕ × ℕ). is_shared near others p.0 stall.0 ≡ true) p.1.stalls

-- The mean age did not climb: there are fewer than four of them, or the last quarter is at most
-- three times the first, or it is at most two seconds.
abbrev pub Steady : List ℕ → Type 0
Steady known =
    (length known < 4)
    ⊎ ((tail_of known ≤ max (head_of known) 1 * 3 % 2 ^ 64) ⊎ (tail_of known ≤ 2000))

-- What a pass of the run says: the proxy's connections lasted, no frame came out of order, each
-- stall recorded was near one of another stream, the ages are steady, and nothing was lost.
pub record IsPassed (near : ℕ → ℕ → Bool) (wsarb : Stream) (others : List Stream)
    (verdict : Verdict) : Type 0 where
  pub lasted : is_empty wsarb.ended ≡ true
  pub ordered : Every (λ (p : Text × KeyStats). p.1.violation_count ≡ 0) wsarb.keys
  pub shared : Every (HasCompany near others) wsarb.keys
  pub fresh : Steady (known_ages wsarb)
  pub complete : verdict.lost ≡ 0
