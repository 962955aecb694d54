-- ===== src/Upstream/Wire.antt =====
-- What is sent on a source's connection, from src/upstream.rs, `run`: the subscriptions when it is
-- made, and then the requests that are queued for the source, in order.
use hypeha.Base.{
  ℕ, zero, suc, ◌≡◌, refl, ◌∙◌, ap, sym, Bool, true, false, List, [], ◌∷◌, ◌++◌, map, append-nil,
  append_assoc, Option, none, some, Text, arith, get_elem?,
}
use hypeha.Base.KeyMap.{get}
use hypeha.SubKey.{SubKey, SubRequest, SubKey-discrete}
use hypeha.Hub.{AppState, Source, on_source}
use hypeha.Hub.Registry.{live_requests, subscribed_requests}
use hypeha.Hub.Control.{told, ctrls, is_live, flag_of}
use hypeha.Hub.Reach.{Step}
use hypeha.Hub.Distinct.{DistinctKeys, Entries, Step-DistinctKeys}
use hypeha.Upstream.Connection.{on_connect, drain, drain_ctrl, mark_up}
use hypeha.Upstream.Spoken.{Spoke, Step-Spoke, told-++}

-- The first request that is queued at a position is taken: `ctrl_rx.recv()`.
abbrev rest_of : List SubRequest → List SubRequest
rest_of [] = []
rest_of (req ∷ reqs) = reqs

unfoldable pub take_request : ℕ → List Source → List Source
take_request i [] = []
take_request zero (s ∷ ss) = record s { ctrl = rest_of s.ctrl } ∷ ss
take_request (suc i) (s ∷ ss) = s ∷ take_request i ss

-- A state of the hub, and what was sent on the connection of the source at a position since it was
-- made. Other sources' connections only change what is queued for them.
pub data OnWire {Q : Type 0} (try_send : Q → Text → Option Q) (i : ℕ)
    : AppState Q → List SubRequest → Type 0 where
  connects :
      (src : ℕ) (st : AppState Q) (s : Source)
      → DistinctKeys st.subs
      → get_elem? st.sources i ≡ some s
      → s.id ≡ src
      → OnWire try_send i (on_connect src st).0 (on_connect src st).1
  operates :
      {st st' : AppState Q} {wire : List SubRequest}
      → OnWire try_send i st wire
      → Step try_send st st'
      → OnWire try_send i st' wire
  sends :
      (st : AppState Q) (wire : List SubRequest)
      → OnWire try_send i st wire
      → (req : SubRequest) (rest : List SubRequest)
      → get_elem? (ctrls st.sources) i ≡ some (req ∷ rest)
      → OnWire try_send i (record st { sources = take_request i st.sources }) (wire ++ (req ∷ []))
  elsewhere :
      {st : AppState Q} {wire : List SubRequest}
      → OnWire try_send i st wire
      → (ss : List Source) → get_elem? (ctrls ss) i ≡ get_elem? (ctrls st.sources) i
      → OnWire try_send i (record st { sources = ss }) wire

-- A key that the map does not have is not among the requests.
live_requests-absent :
    (k : SubKey) (view : Bool) (m : Entries)
    → get SubKey-discrete k m ≡ none
    → told k (some view) (live_requests m) ≡ some view
unfolding live_requests told get
live_requests-absent k view [] absent = refl
live_requests-absent k view ((j, e) ∷ m) absent = ground (arith, live_requests-absent k view m)

-- The subscriptions that a new connection is sent name each live key once, and no other.
pub live_requests_lem :
    (k : SubKey) (m : Entries)
    → DistinctKeys m
    → told k (some false) (live_requests m) ≡ some (flag_of (get SubKey-discrete k m))
unfolding live_requests told get
live_requests_lem k [] d = refl
live_requests_lem k ((j, e) ∷ m) (new, d) = ground (
  arith,
  live_requests_lem k m d,
  live_requests-absent k true m,
  live_requests-absent k false m,
  new,
)

pub get_elem?-map {ℓ κ} :
    {A : Type ℓ} {B : Type κ} (f : A → B) (xs : List A) (i : ℕ) (x : A)
    → get_elem? xs i ≡ some x
    → get_elem? (map f xs) i ≡ some (f x)
get_elem?-map f [] i x h = cc
get_elem?-map f (y ∷ xs) zero x h = cc
get_elem?-map f (y ∷ xs) (suc i) x h = get_elem?-map f xs i x h

take_request_lem :
    (ss : List Source) (i : ℕ) (req : SubRequest) (rest : List SubRequest)
    → get_elem? (ctrls ss) i ≡ some (req ∷ rest)
    → get_elem? (ctrls (take_request i ss)) i ≡ some rest
unfolding take_request
take_request_lem [] i req rest h = cc
take_request_lem (s ∷ ss) zero req rest h =
    let first : s.ctrl ≡ req ∷ rest = cc in ap (λ c. some (rest_of c)) first
take_request_lem (s ∷ ss) (suc i) req rest h = take_request_lem ss i req rest h

-- What is queued at a position.
abbrev pub Queued : ℕ → List Source → List SubRequest → Type 0
Queued i ss c = get_elem? (ctrls ss) i ≡ some c

drained_lem :
    (src : ℕ) (s : Source) → s.id ≡ src → (drain_ctrl src (on_source src mark_up s)).ctrl ≡ []
drained_lem src s is = ground arith

pub drain-Queued :
    {Q : Type 0} (i src : ℕ) (st : AppState Q) (s : Source)
    → get_elem? st.sources i ≡ some s
    → s.id ≡ src
    → Queued i (drain src st).sources []
unfolding drain
drain-Queued i src st s at is =
    get_elem?-map (λ (t : Source). t.ctrl) _ i _
      (get_elem?-map (drain_ctrl src) _ i _
        (get_elem?-map (on_source src mark_up) st.sources i s at))
    ∙ ap some (drained_lem src s is)

module _ {Q : Type 0} (k : SubKey) (i : ℕ) where
  -- The requests sent on the connection, and then those queued, subscribe and unsubscribe the key
  -- in turn, and leave it subscribed exactly if it is live.
  abbrev pub Subscribes : AppState Q → List SubRequest → Type 0
  Subscribes st wire =
      (c : List SubRequest) × (Queued i st.sources c)
      × (told k (some false) (wire ++ c) ≡ some (is_live k st))

  operates-Subscribes :
      (st st' : AppState Q) (wire : List SubRequest)
      → Spoke k st st'
      → Subscribes st wire
      → Subscribes st' wire
  operates-Subscribes st st' wire spoke (c, queued, heard) = (
    c ++ spoke.more,
    ap (λ cs. get_elem? cs i) spoke.sent
        ∙ get_elem?-map (λ d. d ++ spoke.more) (ctrls st.sources) i c queued,
    ap (told k (some false)) (sym (append_assoc wire c spoke.more))
        ∙ told-++ k (some false) (wire ++ c) spoke.more
        ∙ ap (λ v. told k v spoke.more) heard
        ∙ spoke.heard,
  )

  sends-Subscribes :
      (st : AppState Q) (wire : List SubRequest) (req : SubRequest) (rest : List SubRequest)
      → Queued i st.sources (req ∷ rest)
      → Subscribes st wire
      → Subscribes (record st { sources = take_request i st.sources }) (wire ++ (req ∷ []))
  unfolding is_live
  sends-Subscribes st wire req rest first (c, queued, heard) =
      let same : c ≡ req ∷ rest = cc in
      (
        rest,
        take_request_lem st.sources i req rest first,
        ap (told k (some false))
              (append_assoc wire (req ∷ []) rest ∙ ap (λ d. wire ++ d) (sym same))
            ∙ heard,
      )

-- From a connect on, where no key stood twice among the entries, whatever operations of the hub
-- run, whatever is taken from the queue and sent, and whatever becomes of the other sources: no key
-- stands twice, and for each key, what was sent on the connection and what is still queued for the
-- source subscribe and unsubscribe in turn, and leave it subscribed exactly if the key's entry is
-- marked as subscribed upstream.
pub OnWire-Subscribes :
    {Q : Type 0} {try_send : Q → Text → Option Q} (i : ℕ) {st : AppState Q} {wire : List SubRequest}
    → OnWire try_send i st wire
    → DistinctKeys st.subs × ((k : SubKey) → Subscribes k i st wire)
unfolding on_connect drain is_live subscribed_requests
OnWire-Subscribes i (OnWire.connects src st s distinct at is) = (
  distinct,
  λ k. (
    [],
    drain-Queued i src st s at is,
    ap (told k (some false)) (append-nil (live_requests st.subs))
        ∙ live_requests_lem k st.subs distinct,
  ),
)
OnWire-Subscribes i (OnWire.operates on step) =
    let (distinct, subscribes) = OnWire-Subscribes i on in
    (
      Step-DistinctKeys step distinct,
      λ k. operates-Subscribes k i _ _ _ (Step-Spoke k step) (subscribes k),
    )
OnWire-Subscribes i (OnWire.sends st wire on req rest queued) =
    let (distinct, subscribes) = OnWire-Subscribes i on in
    (distinct, λ k. sends-Subscribes k i st wire req rest queued (subscribes k))
OnWire-Subscribes i (OnWire.elsewhere on ss same) =
    let (distinct, subscribes) = OnWire-Subscribes i on in
    (distinct, λ k. let (c, queued, heard) = subscribes k in (c, same ∙ queued, heard))
