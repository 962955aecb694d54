-- ===== src/Upstream/Order.antt =====
-- `fetch_order`: which sources are asked for a snapshot, and in which order.
use hypeha.Base.{ℕ, ◌≤◌, ◌<◌, ◌≡◌, ◌⊎◌, List, [], ◌∷◌, leb, Bool, ◌&&◌, if◌then◌else◌, ◌+◌}
use hypeha.Stats.{silence_limit, idle_for}
use hypeha.Hub.{Source}
use hypeha.Upstream.Fetch.{Ranked, idle_or_max}

-- Each is idle for at least a bound and at least as long as the one before.
abbrev pub SortedFrom : ℕ → List Ranked → Type 0
SortedFrom m [] = Unit {0}
SortedFrom m (r ∷ rs) = (m ≤ r.idle) × SortedFrom r.idle rs

abbrev pub count_if : (Ranked → Bool) → List Ranked → ℕ
count_if p [] = 0
count_if p (r ∷ rs) = (if p r then 1 else 0) + count_if p rs

-- How many connected sources rank so that a test holds.
abbrev pub count_connected : (Ranked → Bool) → List Source → ℕ
count_connected p [] = 0
count_connected p (s ∷ ss) =
    let r : Ranked = record { idle = idle_or_max (idle_for s.stats); id = s.id; url = s.url } in
    (if s.stats.connected && p r then 1 else 0) + count_connected p ss

abbrev pub is_fresh : Ranked → Bool
is_fresh r = leb r.idle silence_limit

-- Each fresh connected source is in the order as often as among the sources, and nobody else, or
-- no connected source is fresh and the order has each connected one as often.
abbrev pub HasEach : (Ranked → Bool) → List Source → List Ranked → Type 0
HasEach p sources order =
    ((0 < count_connected is_fresh sources)
      × (count_if p order ≡ count_connected (λ r. p r && is_fresh r) sources))
    ⊎ ((count_connected is_fresh sources ≡ 0) × (count_if p order ≡ count_connected p sources))
