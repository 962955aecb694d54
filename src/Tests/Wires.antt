-- ===== src/Tests/Wires.antt =====
-- What a source is sent, and how a fetch ends.
use hypeha.Base.{◌+◌, ℕ, ◌≡◌, refl, false, List, [], ◌∷◌, ◌++◌, Option, none, some, Text, codes}
use hypeha.Base.KeyMap.{get}
use hypeha.SubKey.{SubKey, SubRequest, SubKey-discrete}
use hypeha.Hub.{AppState, new_source}
use hypeha.Hub.Registry.{subscribe, subscribed_requests, holds_key, broadcast_ctrl}
use hypeha.Hub.Control.{told, is_live}
use hypeha.Hub.Reach.{Step}
use hypeha.Hub.Distinct.{DistinctKeys}
use hypeha.Upstream.Connection.{on_connect, drain}
use hypeha.Upstream.Fetch.{Ranked}
use hypeha.Upstream.Wire.{OnWire, Subscribes, Queued, take_request, OnWire-Subscribes}
use hypeha.Upstream.Twice.{subscribes, unsubscribes, subscribed_twice}
use hypeha.Tests.Data.{book, Queue, two_at_most, hub, busy_hub}

abbrev connected_hub : AppState Queue
connected_hub = (on_connect 1 (busy_hub book)).0

abbrev later_hub : AppState Queue
later_hub = (subscribe 0 7 (SubKey.trades (codes "ETH")) connected_hub).0

-- The second source connects, a client subscribes to a new key, and that request is sent.
a_life :
    OnWire two_at_most 1
      (record later_hub { sources = take_request 1 later_hub.sources })
      ((on_connect 1 (busy_hub book)).1
        ++ (SubRequest.subscribe (SubKey.trades (codes "ETH")) ∷ []))
unfolding get subscribe on_connect drain holds_key broadcast_ctrl take_request SubKey-discrete
a_life =
    OnWire.sends later_hub (on_connect 1 (busy_hub book)).1
      (OnWire.operates
        (OnWire.connects 1 (busy_hub book) (new_source 1 (codes "ws://b")) (refl, tt) refl refl)
        (Step.subscribes 0 7 (SubKey.trades (codes "ETH")) connected_hub))
      (SubRequest.subscribe (SubKey.trades (codes "ETH"))) [] refl

OnWire-Subscribes_example :
    DistinctKeys later_hub.subs
    × ((k : SubKey)
        → Subscribes k 1
            (record later_hub { sources = take_request 1 later_hub.sources })
            ((on_connect 1 (busy_hub book)).1
              ++ (SubRequest.subscribe (SubKey.trades (codes "ETH")) ∷ [])))
OnWire-Subscribes_example = OnWire-Subscribes 1 a_life

abbrev nobody_answers : Ranked → Option (ℕ × Text)
nobody_answers r = none

subscribed_twice_example :
    let st' = (subscribe 0 1 book (drain 0 hub)).0 in
    (c : List SubRequest) × (Queued 0 st'.sources c)
    × (told book (some false) (subscribed_requests st' ++ c) ≡ none)
    × (subscribes book (subscribed_requests st' ++ c)
        ≡ unsubscribes book (subscribed_requests st' ++ c) + 2)
unfolding holds_key is_live get
subscribed_twice_example =
    subscribed_twice 0 1 book 0 0 (new_source 0 (codes "ws://a")) hub tt refl refl refl refl
