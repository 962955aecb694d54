-- ===== src/Hub/Members/Runs.antt =====
-- Runs of the hub in which the ids that the registry hands out are not in use.
use hypeha.Base.{
  ℕ, ◌≡◌, refl, ◌∙◌, ap, sym, inl, inr, true, false, not, List, [], ◌∷◌, Option, some, ◌==◌, arith,
  Text, if_cases, ==_refl, retain, if_pos, Option-cases, subst,
}
use hypeha.Base.KeyMap.{get-put}
use hypeha.SubKey.{SubKey, SubKey-discrete, SubRequest}
use hypeha.Hub.{Client, AppState, find_entry, entry_of, put_entry, with_client, register_client}
use hypeha.Hub.Registry
use hypeha.Hub.Registry.{
  SubscribeOutcome, fresh, joined, duplicate, holds_key, detach, detach_all, is_attached,
  join_entry, broadcast_ctrl, add_key, leave_entry,
}
use hypeha.Hub.Reach.{
  Step, registers, subscribes, unsubscribes, pins, leaves, updates, delivers, loses, fails,
}
use hypeha.Hub.Members.{present, holds, Registered}
use hypeha.Hub.Members.Joining.{join_entry-on_entry}
use hypeha.Hub.Members.Leaving.{detach-heap}
use hypeha.Hub.Members.Calls.{
  Registered-heap, subscribe-Registered, unsubscribe-Registered, cleanup-Registered, pin-Registered,
}
use hypeha.Hub.Members.Frames.{
  on_update-Registered, deliver-Registered, fail-Registered, resync-Registered,
}

-- A new client's id holds no keys: the counter of ids has not come round to one in use.
abbrev pub IdIsFree :
    {Q : Type 0} {try_send : Q → Text → Option Q} {s t : AppState Q} → Step try_send s t → Type 0
IdIsFree (registers channel now ip st) =
    ◌≡◌ {A = List SubKey} (st.heap st.next_client_id).subscriptions []
IdIsFree (subscribes now id key st) = Unit {0}
IdIsFree (unsubscribes id key st) = Unit {0}
IdIsFree (pins now key st) = Unit {0}
IdIsFree (leaves id st) = Unit {0}
IdIsFree (updates src key seq now payload st) = Unit {0}
IdIsFree (delivers key id source height snapshot st) = Unit {0}
IdIsFree (loses source st) = Unit {0}
IdIsFree (fails key id st) = Unit {0}

pub data Run {Q : Type 0} (try_send : Q → Text → Option Q) (s : AppState Q)
    : AppState Q → Type 0 where
  start : Run try_send s s
  then_step :
      {t u : AppState Q}
      → Run try_send s t
      → (step : Step try_send t u) → IdIsFree step
      → Run try_send s u

abbrev Agrees : {Q : Type 0} → SubKey → AppState Q → Type 0
Agrees k st = Registered k (find_entry k st) st.heap

register-Agrees :
    {Q : Type 0} (k : SubKey) (channel : ℕ → Q) (now : ℕ) (ip : Text) (st : AppState Q)
    → (st.heap st.next_client_id).subscriptions ≡ []
    → Agrees k st
    → Agrees k (register_client channel now ip st).0
unfolding register_client holds_key
register-Agrees {Q} k channel now ip st free r =
    let next = st.next_client_id in
    let heap' = (register_client channel now ip st).0.heap in
    let none_held : holds k next st.heap ≡ false = ap (holds_key k) free in
    Registered-heap k (find_entry k st) st.heap heap'
      (λ i.
        if_cases (λ (c : Client Q). holds_key k c.subscriptions ≡ holds k i st.heap) (i == next)
          (λ same.
            let e : next ≡ i = ground arith in
            sym (subst (λ (j : ℕ). holds k j st.heap ≡ false) e none_held))
          (λ other. refl))
      (λ i h dead.
        if_cases (λ (c : Client Q). c.kill ≡ true) (i == next)
          (λ same.
            let e : next ≡ i = ground arith in
            cc (subst (λ (j : ℕ). holds k j st.heap ≡ false) e none_held, h))
          (λ other. dead))
      r

step-Agrees :
    {Q : Type 0} {try_send : Q → Text → Option Q} (k : SubKey) {t u : AppState Q}
    (step : Step try_send t u)
    → IdIsFree step
    → Agrees k t
    → Agrees k u
step-Agrees k (registers channel now ip st) free r = register-Agrees k channel now ip st free r
step-Agrees k (subscribes now id key st) free r = subscribe-Registered k now id key st r
step-Agrees k (unsubscribes id key st) free r = unsubscribe-Registered k id key st r
step-Agrees k (pins now key st) free r = pin-Registered k now key st r
step-Agrees k (leaves id st) free r = (cleanup-Registered k id st r).0
step-Agrees {try_send} k (updates src key seq now payload st) free r =
    on_update-Registered try_send k src key seq now payload st r
step-Agrees {try_send} k (delivers key id source height snapshot st) free r =
    deliver-Registered try_send k key id source height snapshot st r
step-Agrees {try_send} k (loses source st) free r = resync-Registered try_send k source st r
step-Agrees {try_send} k (fails key id st) free r = fail-Registered try_send k key id st r

-- Whatever operations have run since a state in which this held, where a client is only registered
-- under an id that holds no key: who is attached to a key's entry or parked there holds the key and
-- the key is subscribed upstream; who holds the key is there or has been told to hang up; and a key
-- that is subscribed upstream is pinned or held by somebody.
pub run-Registered :
    {Q : Type 0} {try_send : Q → Text → Option Q} (k : SubKey) {s t : AppState Q}
    → Registered k (find_entry k s) s.heap
    → Run try_send s t
    → Registered k (find_entry k t) t.heap
run-Registered k r start = r
run-Registered k r (then_step run step free) = step-Agrees k step free (run-Registered k r run)

detach_all-heap :
    {Q : Type 0} (id : ℕ) (keys : List SubKey) (st : AppState Q)
    → (detach_all id keys st).heap ≡ st.heap
unfolding detach_all
detach_all-heap id [] st = refl
detach_all-heap id (key ∷ keys) st =
    detach_all-heap id keys (detach id key st) ∙ detach-heap id key st

detach-clients :
    {Q : Type 0} (id : ℕ) (key : SubKey) (st : AppState Q) → (detach id key st).clients ≡ st.clients
unfolding detach broadcast_ctrl
detach-clients {Q} id key st = elim (Option-cases (find_entry key st)) [
  | inl missing ↦ rw (missing, detach) refl
  | inr (e, found) ↦
      rw (found, detach)
        (if_cases (λ (t : AppState Q). t.clients ≡ st.clients) (leave_entry id e).1 (λ last. refl)
          (λ others. refl))
]

detach_all-clients :
    {Q : Type 0} (id : ℕ) (keys : List SubKey) (st : AppState Q)
    → (detach_all id keys st).clients ≡ st.clients
unfolding detach_all
detach_all-clients id [] st = refl
detach_all-clients id (key ∷ keys) st =
    detach_all-clients id keys (detach id key st) ∙ detach-clients id key st

not_left : (id : ℕ) (ids : List ℕ) → is_attached id (retain (λ c. not (c == id)) ids) ≡ false
not_left id [] = refl
not_left id (i ∷ ids) = ground (arith, not_left id ids)

module _ {Q : Type 0} (now id : ℕ) (key : SubKey) (st : AppState Q) where
  subscribe-present :
      holds key id st.heap ≡ false
      → present id (find_entry key (Registry.subscribe now id key st).0) ≡ true
  unfolding Registry.subscribe broadcast_ctrl
  subscribe-present free =
      let entry = entry_of now key st in
      let e = join_entry key id entry in
      let joining : AppState Q = put_entry key e (with_client id (add_key key) st) in
      let told : AppState Q = broadcast_ctrl (SubRequest.subscribe key) joining in
      let P = λ (r : AppState Q × SubscribeOutcome). present id (find_entry key r.0) ≡ true in
      let after : present id (find_entry key joining) ≡ true =
        ap (present id) (
          get-put SubKey-discrete key key e st.subs
          ∙ if_pos (SubKey-discrete key key) refl (some e) (find_entry key st))
        ∙ join_entry-on_entry key id id entry
        ∙ ground arith in
      if_cases P (holds_key key (st.heap id).subscriptions) {x = (st, duplicate)}
        (λ held. cc (free, held))
        (λ joins.
          if_cases P entry.upstream_subscribed {x = (joining, joined)} {y = (told, fresh)}
            (λ old. after) (λ new. after))

  subscribe-clients : (Registry.subscribe now id key st).0.clients ≡ st.clients
  unfolding Registry.subscribe broadcast_ctrl
  subscribe-clients =
      let entry = entry_of now key st in
      let joining : AppState Q =
        put_entry key (join_entry key id entry) (with_client id (add_key key) st) in
      let told : AppState Q = broadcast_ctrl (SubRequest.subscribe key) joining in
      let P = λ (r : AppState Q × SubscribeOutcome). r.0.clients ≡ st.clients in
      if_cases P (holds_key key (st.heap id).subscriptions) {x = (st, duplicate)} (λ held. refl)
        (λ joins.
          if_cases P entry.upstream_subscribed {x = (joining, joined)} {y = (told, fresh)}
            (λ old. refl) (λ new. refl))

  cleanup-forgets :
      (holds key id (Registry.cleanup_client id st).heap ≡ false)
      × (is_attached id (Registry.cleanup_client id st).clients ≡ false)
  unfolding Registry.cleanup_client holds_key
  cleanup-forgets = (
    ap (λ (h : ℕ → Client Q). holds_key key (h id).subscriptions)
          (detach_all-heap id (st.heap id).subscriptions _)
        ∙ rw (==_refl id) refl,
    ap (is_attached id) (detach_all-clients id (st.heap id).subscriptions _)
        ∙ not_left id st.clients,
  )

-- A subscription of a client that is carried out after the client was cleaned up puts it on the
-- key's entry, while it is not among the clients.
pub late_subscribe_joins :
    {Q : Type 0} (now id : ℕ) (key : SubKey) (st : AppState Q)
    → let st' = (Registry.subscribe now id key (Registry.cleanup_client id st)).0 in
      (present id (find_entry key st') ≡ true) × (is_attached id st'.clients ≡ false)
late_subscribe_joins now id key st =
    let gone = Registry.cleanup_client id st in
    (
      subscribe-present now id key gone (cleanup-forgets now id key st).0,
      ap (is_attached id) (subscribe-clients now id key gone) ∙ (cleanup-forgets now id key st).1,
    )
