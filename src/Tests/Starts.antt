-- ===== src/Tests/Starts.antt =====
-- Examples of the programs' starts and ends.
use hypeha.Base.{◌≡◌, refl, false, [], ◌∷◌, codes}
use hypeha.SubKey.{SubKey}
use hypeha.Base.KeyMap.{get}
use hypeha.Hub.{AppState, find_entry, register_client, new}
use hypeha.Hub.Distinct.{DistinctKeys}
use hypeha.Hub.Members.{Registered}
use hypeha.Hub.Members.Runs.{Run}
use hypeha.Hub.Reach.{Step}
use hypeha.Hub.Registry.{subscribe, pin, broadcast_ctrl}
use hypeha.Startup.{Args, start_up}
use hypeha.Startup.Ids.{ids}
use hypeha.Startup.Running.{from, started-Registered}
use hypeha.Tests.Data.{Queue, two_at_most, book, coin}

abbrev two_nodes : Args
two_nodes = record {
  sources = codes "ws://a" ∷ codes "ws://b" ∷ [];
  listen = codes "0.0.0.0:8080";
  dashboard_listen = codes "0.0.0.0:48090";
  probe_coin = coin;
  no_probe = false;
  max_age = 60;
}

abbrev begun : AppState Queue
begun = start_up [] 0 two_nodes

abbrev joined_in : AppState Queue
joined_in = (subscribe 3 1 book (register_client (λ id. []) 2 (codes "10.0.0.2") begun).0).0

joined_run : Run two_at_most begun joined_in
unfolding start_up pin broadcast_ctrl get new
joined_run =
    Run.then_step
      (Run.then_step Run.start (Step.registers (λ id. []) 2 (codes "10.0.0.2") begun) refl)
      (Step.subscribes 3 1 book (register_client (λ id. []) 2 (codes "10.0.0.2") begun).0) tt

started-Registered_example :
    ((k : SubKey) → Registered k (find_entry k joined_in) joined_in.heap)
    × (DistinctKeys joined_in.subs)
    × (ids joined_in.sources ≡ from 0 2)
started-Registered_example = started-Registered [] 0 two_nodes joined_run
