-- ===== src/Tests/Members.antt =====
-- Who is on a key's entry.
use hypeha.Base.{◌∷◌, ◌++◌, map, Option, none, some, Text, [], ◌≡◌, refl, true, false, codes}
use hypeha.Base.KeyMap.{get}
use hypeha.Hub.{AppState, find_entry, register_client}
use hypeha.Hub.Registry
use hypeha.Hub.Erased.{leave_locked, finish_leaving, erased_subscription}
use hypeha.Hub.Control.{ctrls}
use hypeha.Entry.{SubEntry, default_entry}
use hypeha.Hub.Registry.{leave_entry, detach, subscribe, broadcast_ctrl, holds_key, is_attached}
use hypeha.Hub.Reach.{Step}
use hypeha.Hub.Members.{Registered, present, holds}
use hypeha.Hub.Members.Calls.{cleanup-Registered}
use hypeha.Hub.Members.Runs.{Run, run-Registered, late_subscribe_joins}
use hypeha.Session.{ClientMessage, Method, Reply, handle_request, unsupported}
use hypeha.Session.Requests.{handle_request-Agree}
use hypeha.SubKey.{SubKey, SubRequest, SubKey-discrete, normalized, label}
use hypeha.Tests.Data.{book, Queue, two_at_most, hub}

-- Nobody is on a key that has no entry.
nobody_yet : Registered book (find_entry book hub) hub.heap
unfolding get holds_key
nobody_yet = record {
  no_ghost = λ id p. cc;
  kept = λ id h. cc;
  served = λ id p. cc;
  needed = λ live. cc;
}

-- A client registers and subscribes.
abbrev registered_hub : AppState Queue
registered_hub = (register_client (λ id. []) 0 (codes "10.0.0.2") hub).0

abbrev member_hub : AppState Queue
member_hub = (subscribe 0 1 book registered_hub).0

abbrev joins_run : Run two_at_most hub member_hub
joins_run =
    Run.then_step
      (Run.then_step Run.start (Step.registers (λ id. []) 0 (codes "10.0.0.2") hub) refl)
      (Step.subscribes 0 1 book registered_hub) tt

cleanup-Registered_example :
    Registered book
      (find_entry book (Registry.cleanup_client 1 member_hub))
      (Registry.cleanup_client 1 member_hub).heap
    × (present 1 (find_entry book (Registry.cleanup_client 1 member_hub)) ≡ false)
cleanup-Registered_example =
    cleanup-Registered book 1 member_hub (run-Registered book nobody_yet joins_run)

late_subscribe_joins_example :
    let st' = (subscribe 0 1 book (Registry.cleanup_client 1 member_hub)).0 in
    (present 1 (find_entry book st') ≡ true) × (is_attached 1 st'.clients ≡ false)
late_subscribe_joins_example = late_subscribe_joins 0 1 book member_hub

abbrev wants_in : Text → Option ClientMessage
wants_in text = some (ClientMessage.subscribe book)

abbrev plain_ack : Method → SubKey → Option Text
plain_ack method key = some (codes "ack")

abbrev or_before : AppState Queue → Option (Reply Queue) → Reply Queue
or_before st none = (st, [])
or_before st (some reply) = reply

abbrev answered : Reply Queue
answered =
    or_before registered_hub
      (handle_request two_at_most wants_in plain_ack 0 1 (codes "{}") registered_hub)

registered_run : Run two_at_most hub registered_hub
registered_run = Run.then_step Run.start (Step.registers (λ id. []) 0 (codes "10.0.0.2") hub) refl

handle_request-Agree_example : Registered book (find_entry book answered.0) answered.0.heap
unfolding handle_request normalized label subscribe broadcast_ctrl get holds_key SubKey-discrete
    unsupported register_client
handle_request-Agree_example =
    handle_request-Agree two_at_most wants_in plain_ack book 0 1 (codes "{}") registered_hub
      answered (run-Registered book nobody_yet registered_run) refl

-- A hub where client 1 is the only one on a key.
abbrev sole_entry : SubEntry
sole_entry = record (default_entry 0) { last = 7; upstream_subscribed = true; subscribers = 1 ∷ [] }

abbrev sole_hub : AppState Queue
sole_hub = record hub { subs = (book, sole_entry) ∷ [] }

erased_subscription_example :
    let between = (subscribe 5 2 book (leave_locked 1 book sole_hub).0).0 in
    let after = finish_leaving book between in
    (detach 1 book sole_hub ≡ finish_leaving book (leave_locked 1 book sole_hub).0)
    × (present 2 (find_entry book between) ≡ true)
    × (find_entry book after ≡ none)
    × (holds book 2 after.heap ≡ true)
    × ((after.heap 2).kill ≡ false)
    × (ctrls after.sources
        ≡ map
            (λ c. c ++ (SubRequest.subscribe book ∷ SubRequest.unsubscribe book ∷ []))
            (ctrls sole_hub.sources))
unfolding get SubKey-discrete leave_entry holds_key
erased_subscription_example = erased_subscription 5 1 2 book sole_hub sole_entry refl refl refl
