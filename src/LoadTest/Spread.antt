-- ===== src/LoadTest/Spread.antt =====
-- How the load test of src/bin/loadtest.rs spreads its subscriptions over the connections.
use hypeha.Base.{
  ℕ, ◌≤◌, ◌≡◌, Bool, true, false, List, map, ◌⊎◌, ◌==◌, is_empty, max, length, retain,
}
use hypeha.SubKey.{SubKey}
use hypeha.LoadTest.Args.{Args, concat}
use hypeha.LoadTest.Plan.{Plan, Spawned}
use hypeha.LoadTest.Chunks.{Every}

abbrev pub is_proxy : Spawned → Bool
is_proxy s = s.slot == 0

-- The connections to the proxy.
abbrev pub proxies : List Spawned → List Spawned
proxies = retain is_proxy

-- A connection to the proxy, or one that subscribes to everything.
abbrev pub Whole : List SubKey → Spawned → Type 0
Whole subs s = (is_proxy s ≡ true) ⊎ (s.subs ≡ subs)

-- The connections of a layout: those to the proxy subscribe to each subscription once, in order,
-- are no more than asked for and have something to subscribe to; any other subscribes to all.
pub record IsSpread (connections : ℕ) (subs : List SubKey) (plan : Plan) : Type 0 where
  pub all : concat (map (λ s. s.subs) (proxies plan.spawned)) ≡ subs
  pub busy : Every (λ (s : Spawned). is_empty s.subs ≡ false) (proxies plan.spawned)
  pub few : length (proxies plan.spawned) ≤ max connections 1
  pub whole : Every (Whole subs) plan.spawned
