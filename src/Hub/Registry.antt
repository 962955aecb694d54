-- ===== src/Hub/Registry.antt =====
-- Subscriptions: `subscribe`, `pin`, `unsubscribe`, `detach`, `broadcast_ctrl`,
-- `subscribed_requests` and `cleanup_client` of `AppState`, from src/state.rs.
use hypeha.Base.{
  ℕ, Bool, true, false, not, ◌&&◌, List, [], ◌∷◌, ◌++◌, map, none, some, ◌==◌, if◌then◌else◌,
  retain, is_empty, any, ite,
}
use hypeha.Base.KeyMap.{remove}
use hypeha.SubKey.{SubKey, SubKey-discrete, SubRequest, is_incremental}
use hypeha.Entry.{SubEntry, Pending, parked}
use hypeha.Hub.{Source, Client, AppState, entry_of, find_entry, put_entry, with_client}

pub data SubscribeOutcome : Type 0 where
  fresh joined duplicate : SubscribeOutcome

-- A `HashSet` of keys as a list with no key twice.
unfoldable pub holds_key : SubKey → List SubKey → Bool
holds_key key [] = false
holds_key key (k ∷ ks) = ite (SubKey-discrete k key) true (holds_key key ks)

unfoldable pub drop_key : SubKey → List SubKey → List SubKey
drop_key key [] = []
drop_key key (k ∷ ks) = let rest = drop_key key ks in ite (SubKey-discrete k key) rest (k ∷ rest)

abbrev pub is_parked : ℕ → List Pending → Bool
is_parked id = any (λ p. p.client == id)

abbrev pub is_attached : ℕ → List ℕ → Bool
is_attached id = any (λ c. c == id)

abbrev park_once : ℕ → SubEntry → SubEntry
park_once id e =
    if is_parked id e.pending then e else record e { pending = e.pending ++ (parked id ∷ []) }

abbrev attach_once : ℕ → SubEntry → SubEntry
attach_once id e =
    if is_attached id e.subscribers
    then e
    else record e { subscribers = e.subscribers ++ (id ∷ []) }

-- What a new subscription does to the entry of its key: a late joiner of an incremental stream
-- is parked, any other client attached.
unfoldable pub join_entry : SubKey → ℕ → SubEntry → SubEntry
join_entry key id e =
    if e.upstream_subscribed && is_incremental key
    then park_once id e
    else record (attach_once id e) { upstream_subscribed = true }

-- What a leaving client does to the entry of its key, and whether it was the last one.
unfoldable pub leave_entry : ℕ → SubEntry → SubEntry × Bool
leave_entry id e =
    let subscribers = retain (λ c. not (c == id)) e.subscribers in
    let pending = retain (λ p. not (p.client == id)) e.pending in
    let last_one =
      is_empty subscribers && is_empty pending && e.upstream_subscribed && not e.pinned in
    (
      record e {
        subscribers = subscribers;
        pending = pending;
        upstream_subscribed = if last_one then false else e.upstream_subscribed;
      },
      last_one,
    )

abbrev pub send_ctrl : SubRequest → Source → Source
send_ctrl req s = record s { ctrl = s.ctrl ++ (req ∷ []) }

-- The requests that subscribe a reconnected source to everything live.
unfoldable pub live_requests : List (SubKey × SubEntry) → List SubRequest
live_requests [] = []
live_requests ((key, e) ∷ m) =
    let rest = live_requests m in
    if e.upstream_subscribed then SubRequest.subscribe key ∷ rest else rest

module _ {Q : Type 0} where
  unfoldable pub broadcast_ctrl : SubRequest → AppState Q → AppState Q
  broadcast_ctrl req st = record st { sources = map (send_ctrl req) st.sources }

  abbrev pub add_key : SubKey → Client Q → Client Q
  add_key key c = record c { subscriptions = key ∷ c.subscriptions }

  abbrev pub forget_key : SubKey → Client Q → Client Q
  forget_key key c = record c { subscriptions = drop_key key c.subscriptions }

  unfoldable pub subscribe : ℕ → ℕ → SubKey → AppState Q → AppState Q × SubscribeOutcome
  subscribe now id key st =
      let entry = entry_of now key st in
      let joining = put_entry key (join_entry key id entry) (with_client id (add_key key) st) in
      if holds_key key (st.heap id).subscriptions
      then (st, duplicate)
      else if entry.upstream_subscribed
      then (joining, joined)
      else (broadcast_ctrl (SubRequest.subscribe key) joining, fresh)

  unfoldable pub pin : ℕ → SubKey → AppState Q → AppState Q
  pin now key st =
      let entry = entry_of now key st in
      let pinned = put_entry key (record entry { pinned = true; upstream_subscribed = true }) st in
      if entry.upstream_subscribed then pinned else broadcast_ctrl (SubRequest.subscribe key) pinned

  unfoldable pub detach : ℕ → SubKey → AppState Q → AppState Q
  detach id key st = elim (find_entry key st) [
    | none ↦ st
    | some entry ↦
        let (left, last_one) = leave_entry id entry in
        let st' = put_entry key left st in
        if last_one
        then (let told = broadcast_ctrl (SubRequest.unsubscribe key) st' in
            record told { subs = remove SubKey-discrete key told.subs })
        else st'
  ]

  unfoldable pub unsubscribe : ℕ → SubKey → AppState Q → AppState Q × Bool
  unsubscribe id key st =
      if holds_key key (st.heap id).subscriptions
      then (detach id key (with_client id (forget_key key) st), true)
      else (st, false)

  unfoldable pub subscribed_requests : AppState Q → List SubRequest
  subscribed_requests st = live_requests st.subs

  unfoldable pub detach_all : ℕ → List SubKey → AppState Q → AppState Q
  detach_all id [] st = st
  detach_all id (key ∷ keys) st = detach_all id keys (detach id key st)

  abbrev pub forget_all : Client Q → Client Q
  forget_all c = record c { subscriptions = [] }

  unfoldable pub cleanup_client : ℕ → AppState Q → AppState Q
  cleanup_client id st =
      detach_all id (st.heap id).subscriptions
        (with_client id forget_all (record st { clients = retain (λ c. not (c == id)) st.clients }))
