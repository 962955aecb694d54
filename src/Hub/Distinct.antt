-- ===== src/Hub/Distinct.antt =====
-- The map of the entries has each key once, whatever operations have run.
use hypeha.Base.{
  ℕ, ◌≡◌, refl, ◌∙◌, ap, sym, inl, inr, Bool, List, [], ◌∷◌, Option, none, some, ite, if_neg,
  Option-cases, if_cases, ite_cases, Text,
}
use hypeha.Base.KeyMap.{
  get, put, remove, map_values, get-put, get-remove, get-map_values, lift_value,
}
use hypeha.SubKey.{SubKey, SubKey-discrete}
use hypeha.Entry.{SubEntry}
use hypeha.Hub.{AppState, entry_of, find_entry, register_client}
use hypeha.Hub.Registry.{
  subscribe, unsubscribe, pin, detach, detach_all, cleanup_client, holds_key, broadcast_ctrl,
  leave_entry, SubscribeOutcome,
}
use hypeha.Hub.Update.{on_update, deliver_snapshot, take_pending}
use hypeha.Hub.Recovery.{resync_after_source_loss, fail_pending}
use hypeha.Hub.Reach.{Step}

abbrev pub Entries : Type 0
Entries = List (SubKey × SubEntry)

-- No key stands in the map twice.
abbrev pub DistinctKeys : Entries → Type 0
DistinctKeys [] = Unit {0}
DistinctKeys ((key, e) ∷ m) = (get SubKey-discrete key m ≡ none) × DistinctKeys m

put-DistinctKeys :
    (key : SubKey) (e : SubEntry) (m : Entries)
    → DistinctKeys m
    → DistinctKeys (put SubKey-discrete key e m)
unfolding put get
put-DistinctKeys key e [] d = (refl, tt)
put-DistinctKeys key e ((j, old) ∷ m) (new, d) =
    elim (SubKey-discrete j key)
      as (λ dec. DistinctKeys (ite dec ((key, e) ∷ m) ((j, old) ∷ put SubKey-discrete key e m))) [
        | yes same ↦ (ap (λ k. get SubKey-discrete k m) (sym same) ∙ new, d)
        | no differ ↦ (
          get-put SubKey-discrete j key e m
              ∙ if_neg (SubKey-discrete key j) (λ s. differ (sym s)) (some e)
                  (get SubKey-discrete j m)
              ∙ new,
          put-DistinctKeys key e m d,
        )
      ]

remove-DistinctKeys :
    (key : SubKey) (m : Entries) → DistinctKeys m → DistinctKeys (remove SubKey-discrete key m)
unfolding remove
remove-DistinctKeys key [] d = tt
remove-DistinctKeys key ((j, old) ∷ m) (new, d) =
    ite_cases DistinctKeys (SubKey-discrete j key) (λ _. remove-DistinctKeys key m d)
      (λ _. (
        get-remove SubKey-discrete j key m
            ∙ ite_cases (λ (o : Option SubEntry). o ≡ none) (SubKey-discrete key j) (λ _. refl)
                (λ _. new),
        remove-DistinctKeys key m d,
      ))

map_values-DistinctKeys :
    (f : SubKey → SubEntry → SubEntry) (m : Entries)
    → DistinctKeys m
    → DistinctKeys (map_values f m)
unfolding map_values
map_values-DistinctKeys f [] d = tt
map_values-DistinctKeys f ((j, old) ∷ m) (new, d) = (
  get-map_values SubKey-discrete f j m ∙ ap (lift_value (f j)) new,
  map_values-DistinctKeys f m d,
)

module _ {Q : Type 0} where
  detach-DistinctKeys :
      (id : ℕ) (key : SubKey) (st : AppState Q)
      → DistinctKeys st.subs
      → DistinctKeys (detach id key st).subs
  unfolding detach broadcast_ctrl
  detach-DistinctKeys id key st d = elim (Option-cases (find_entry key st)) [
    | inl missing ↦ rw (missing, detach) d
    | inr (e, found) ↦
        rw (found, detach)
          (if_cases (λ (t : AppState Q). DistinctKeys t.subs) (leave_entry id e).1
            (λ last. remove-DistinctKeys key _ (put-DistinctKeys key _ st.subs d))
            (λ others. put-DistinctKeys key _ st.subs d))
  ]

  detach_all-DistinctKeys :
      (id : ℕ) (keys : List SubKey) (st : AppState Q)
      → DistinctKeys st.subs
      → DistinctKeys (detach_all id keys st).subs
  unfolding detach_all
  detach_all-DistinctKeys id [] st d = d
  detach_all-DistinctKeys id (key ∷ keys) st d =
      detach_all-DistinctKeys id keys (detach id key st) (detach-DistinctKeys id key st d)

  pub subscribe-DistinctKeys :
      (now id : ℕ) (key : SubKey) (st : AppState Q)
      → DistinctKeys st.subs
      → DistinctKeys (subscribe now id key st).0.subs
  unfolding subscribe broadcast_ctrl
  subscribe-DistinctKeys now id key st d =
      let P = λ (r : AppState Q × SubscribeOutcome). DistinctKeys r.0.subs in
      let more = put-DistinctKeys key _ st.subs d in
      if_cases P (holds_key key (st.heap id).subscriptions) (λ held. d)
        (λ joins. if_cases P (entry_of now key st).upstream_subscribed (λ old. more) (λ new. more))

  unsubscribe-DistinctKeys :
      (id : ℕ) (key : SubKey) (st : AppState Q)
      → DistinctKeys st.subs
      → DistinctKeys (unsubscribe id key st).0.subs
  unfolding unsubscribe
  unsubscribe-DistinctKeys id key st d =
      if_cases (λ (r : AppState Q × Bool). DistinctKeys r.0.subs)
        (holds_key key (st.heap id).subscriptions) (λ held. detach-DistinctKeys id key _ d)
        (λ free. d)

  pin-DistinctKeys :
      (now : ℕ) (key : SubKey) (st : AppState Q)
      → DistinctKeys st.subs
      → DistinctKeys (pin now key st).subs
  unfolding pin broadcast_ctrl
  pin-DistinctKeys now key st d =
      let more = put-DistinctKeys key _ st.subs d in
      if_cases (λ (t : AppState Q). DistinctKeys t.subs) (entry_of now key st).upstream_subscribed
        (λ old. more) (λ new. more)

module _ {Q : Type 0} (try_send : Q → Text → Option Q) where
  deliver-DistinctKeys :
      (key : SubKey) (id source height : ℕ) (snapshot : Text) (st : AppState Q)
      → DistinctKeys st.subs
      → DistinctKeys (deliver_snapshot try_send key id source height snapshot st).subs
  unfolding deliver_snapshot
  deliver-DistinctKeys key id source height snapshot st d =
      elim (Option-cases (find_entry key st)) [
        | inl missing ↦ rw (missing, deliver_snapshot) d
        | inr (e, found) ↦ elim (Option-cases (take_pending id e.pending)) [
          | inl absent ↦ rw (found, deliver_snapshot) (rw (absent, deliver_snapshot) d)
          | inr ((p, rest), taken) ↦
              rw (found, deliver_snapshot)
                (rw (taken, deliver_snapshot) (put-DistinctKeys key _ st.subs d))
        ]
      ]

  fail-DistinctKeys :
      (key : SubKey) (id : ℕ) (st : AppState Q)
      → DistinctKeys st.subs
      → DistinctKeys (fail_pending key id st).subs
  unfolding fail_pending
  fail-DistinctKeys key id st d = elim (Option-cases (find_entry key st)) [
    | inl missing ↦ rw (missing, fail_pending) d
    | inr (e, found) ↦ elim (Option-cases (take_pending id e.pending)) [
      | inl absent ↦ rw (found, fail_pending) (rw (absent, fail_pending) d)
      | inr ((p, rest), taken) ↦
          rw (found, fail_pending) (rw (taken, fail_pending) (put-DistinctKeys key _ st.subs d))
    ]
  ]

-- Every operation keeps the keys apart.
pub Step-DistinctKeys :
    {Q : Type 0} {try_send : Q → Text → Option Q} {t u : AppState Q}
    → Step try_send t u
    → DistinctKeys t.subs
    → DistinctKeys u.subs
unfolding register_client cleanup_client on_update resync_after_source_loss
Step-DistinctKeys (Step.registers channel now ip st) d = d
Step-DistinctKeys (Step.subscribes now id key st) d = subscribe-DistinctKeys now id key st d
Step-DistinctKeys (Step.unsubscribes id key st) d = unsubscribe-DistinctKeys id key st d
Step-DistinctKeys (Step.pins now key st) d = pin-DistinctKeys now key st d
Step-DistinctKeys (Step.leaves id st) d = detach_all-DistinctKeys id (st.heap id).subscriptions _ d
Step-DistinctKeys (Step.updates src key seq now payload st) d = put-DistinctKeys key _ st.subs d
Step-DistinctKeys {try_send} (Step.delivers key id source height snapshot st) d =
    deliver-DistinctKeys try_send key id source height snapshot st d
Step-DistinctKeys (Step.loses source st) d = map_values-DistinctKeys _ st.subs d
Step-DistinctKeys {try_send} (Step.fails key id st) d = fail-DistinctKeys try_send key id st d
