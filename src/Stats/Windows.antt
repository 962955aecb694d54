-- ===== src/Stats/Windows.antt =====
-- Silence, seen window by window: `roll_window` and `idle_for`.
use hypeha.Base.{ℕ, zero, suc, ◌+◌, ◌*◌, ◌^◌, ◌<◌, ◌≡◌, refl, ◌∙◌, some, arith, add_u64}
use hypeha.Stats.{SourceStats, window, roll_window, idle_for}

-- n packets come in.
abbrev pub receive : ℕ → SourceStats → SourceStats
receive n s = record s { packets = add_u64 s.packets n }

-- A window in which n packets come in, and its end.
unfoldable pub pass_window : ℕ → SourceStats → SourceStats
unfolding roll_window
pass_window n s = roll_window (receive n s)

-- k windows with nothing in them.
unfoldable pub pass_quiet : ℕ → SourceStats → SourceStats
unfolding pass_window
pass_quiet zero s = s
pass_quiet (suc k) s = pass_quiet k (pass_window 0 s)

-- Between two windows everything that came in has been seen.
pub record IsRolled (s : SourceStats) : Type 0 where
  pub in_range : s.packets < 2 ^ 64
  pub seen : s.prev_packets ≡ s.packets

quiet_step :
    (s : SourceStats)
    → IsRolled s
    → s.silent_windows + 1 < 2 ^ 64
    → IsRolled (pass_window 0 s)
      × ((pass_window 0 s).silent_windows ≡ s.silent_windows + 1)
      × ((pass_window 0 s).packets ≡ s.packets)
unfolding pass_window
quiet_step s r h = ground (arith, r.in_range, r.seen)

busy_step :
    (n : ℕ) (s : SourceStats)
    → IsRolled s
    → 0 < n
    → s.packets + n < 2 ^ 64
    → IsRolled (pass_window n s)
      × ((pass_window n s).silent_windows ≡ 0)
      × ((pass_window n s).packets ≡ s.packets + n)
unfolding pass_window
busy_step n s r pos small = ground (arith, r.in_range, r.seen)

pass_quiet_lem :
    (k : ℕ) (s : SourceStats)
    → IsRolled s
    → s.silent_windows + k < 2 ^ 32
    → ((pass_quiet k s).silent_windows ≡ s.silent_windows + k)
      × ((pass_quiet k s).packets ≡ s.packets)
unfolding pass_quiet
pass_quiet_lem zero s r h = (omega arith, refl)
pass_quiet_lem (suc k) s r h =
    let (rolled, silent, packets) = quiet_step s r (omega arith) in
    let (silent', packets') = pass_quiet_lem k (pass_window 0 s) rolled (omega arith) in
    (omega arith, packets' ∙ packets)

-- A source that at the end of a window has no packets unseen, delivers some in the next window and
-- then nothing for k windows, with fewer than 2 ^ 64 packets in all and k below 2 ^ 32, has been
-- idle for k windows.
pub idle_for-pass_quiet :
    (n k : ℕ) (s : SourceStats)
    → IsRolled s
    → 0 < n
    → s.packets + n < 2 ^ 64
    → k < 2 ^ 32
    → idle_for (pass_quiet k (pass_window n s)) ≡ some (window * k)
unfolding idle_for
idle_for-pass_quiet n k s r pos small short =
    let (rolled, silent, packets) = busy_step n s r pos small in
    let (silent', packets') = pass_quiet_lem k (pass_window n s) rolled (omega arith) in
    ground arith
