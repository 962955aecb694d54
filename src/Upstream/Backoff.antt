-- ===== src/Upstream/Backoff.antt =====
-- The delay before a reconnect.
use hypeha.Base.{ℕ, zero, suc, ◌*◌, ◌^◌, ◌≡◌, min, arith}
use hypeha.Upstream.Connection.{backoff_after, reconnect_min, reconnect_max}
use native.Mathlib.Nat.{pow-suc}

-- After n failed attempts in a row the delay is 250 ms times 2 ^ n, and never more than 10 s.
backoff_after_lem : (n : ℕ) → backoff_after n ≡ min (reconnect_min * 2 ^ n) reconnect_max
unfolding backoff_after
backoff_after_lem zero = omega arith
backoff_after_lem (suc n) = omega (arith, pow-suc 2 n, backoff_after_lem n)
