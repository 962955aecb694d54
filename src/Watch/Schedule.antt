-- ===== src/Watch/Schedule.antt =====
-- `is_due`: when a silent source is told to reconnect.
use hypeha.Base.{ℕ, ◌+◌, ◌-◌, ◌*◌, ◌/◌, ◌≡◌, ◌↔◌, true, arith}
use hypeha.Watch.{is_due}

due_at : (w k : ℕ) → w ≡ 6 + 60 * k → is_due w ≡ true
unfolding is_due
due_at w k h = ground arith

due_form : (w : ℕ) → is_due w ≡ true → w ≡ 6 + 60 * ((w - 6) / 60)
unfolding is_due
due_form w h = ground arith

-- A reconnect is asked for exactly after 6, 66, 126, … silent windows in a row.
is_due_iff : (w : ℕ) → (is_due w ≡ true) ↔ ((k : ℕ) × (w ≡ 6 + 60 * k))
is_due_iff w = (λ h. ((w - 6) / 60, due_form w h), λ (k, h). due_at w k h)
