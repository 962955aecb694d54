-- ===== src/Upstream/Twice.antt =====
-- A subscription in the middle of a reconnect: of `run`, src/upstream.rs, between the draining of
-- what was queued and the reading of what is live.
use hypeha.Base.{
  ℕ, ◌≡◌, refl, ◌∙◌, ap, sym, inl, inr, true, false, List, [], ◌∷◌, ◌++◌, none, some, if_cases,
  get_elem?, arith, if_pos, Bool, suc, ◌+◌, if◌then◌else◌, ite,
}
use hypeha.Base.KeyMap.{get, get-put}
use hypeha.Hub.Members.Joining.{join_entry-flag}
use hypeha.SubKey.{SubKey, SubKey-discrete, SubRequest}
use hypeha.Hub.{AppState, Source, entry_of, put_entry, with_client}
use hypeha.Hub.Registry.{
  SubscribeOutcome, subscribe, subscribed_requests, holds_key, broadcast_ctrl, join_entry, add_key,
}
use hypeha.Hub.Control.{told, hear, extend, ctrls, flag_of, is_live, Speaks, subscribe-Speaks}
use hypeha.Hub.Distinct.{DistinctKeys, subscribe-DistinctKeys}
use hypeha.Upstream.Connection.{drain}
use hypeha.Upstream.Spoken.{told-++}
use hypeha.Upstream.Wire.{Queued, drain-Queued, get_elem?-map, live_requests_lem}

-- A request that subscribes a key is one too many where the key is subscribed.
hear-twice :
    (k : SubKey) (req : SubRequest)
    → hear k req (some false) ≡ some true
    → hear k req (some true) ≡ none
hear-twice k (SubRequest.subscribe j) h = ground arith
hear-twice k (SubRequest.unsubscribe j) h = ground arith

-- How often a key is subscribed and unsubscribed.
abbrev pub subscribes : SubKey → List SubRequest → ℕ
subscribes key [] = 0
subscribes key (SubRequest.subscribe k ∷ reqs) =
    let rest = subscribes key reqs in ite (SubKey-discrete k key) (suc rest) rest
subscribes key (SubRequest.unsubscribe k ∷ reqs) = subscribes key reqs

abbrev pub unsubscribes : SubKey → List SubRequest → ℕ
unsubscribes key [] = 0
unsubscribes key (SubRequest.subscribe k ∷ reqs) = unsubscribes key reqs
unsubscribes key (SubRequest.unsubscribe k ∷ reqs) =
    let rest = unsubscribes key reqs in ite (SubKey-discrete k key) (suc rest) rest

subscribes-++ :
    (key : SubKey) (a b : List SubRequest)
    → subscribes key (a ++ b) ≡ subscribes key a + subscribes key b
subscribes-++ key [] b = omega arith
subscribes-++ key (SubRequest.subscribe k ∷ a) b = ground (arith, subscribes-++ key a b)
subscribes-++ key (SubRequest.unsubscribe k ∷ a) b = subscribes-++ key a b

unsubscribes-++ :
    (key : SubKey) (a b : List SubRequest)
    → unsubscribes key (a ++ b) ≡ unsubscribes key a + unsubscribes key b
unsubscribes-++ key [] b = omega arith
unsubscribes-++ key (SubRequest.subscribe k ∷ a) b = unsubscribes-++ key a b
unsubscribes-++ key (SubRequest.unsubscribe k ∷ a) b = ground (arith, unsubscribes-++ key a b)

told-none : (key : SubKey) (reqs : List SubRequest) → told key none reqs ≡ none
unfolding told
told-none key [] = refl
told-none key (req ∷ reqs) = told-none key reqs

abbrev one_if : Bool → ℕ
one_if b = if b then 1 else 0

-- Requests none of which is too many subscribe a key as often as they unsubscribe it, but for the
-- state before and after.
told-count :
    (key : SubKey) (b b' : Bool) (reqs : List SubRequest)
    → told key (some b) reqs ≡ some b'
    → subscribes key reqs + one_if b ≡ unsubscribes key reqs + one_if b'
unfolding told
told-count key b b' [] h = ground arith
told-count key true b' (SubRequest.subscribe k ∷ reqs) h =
    ground (arith, told-none key reqs, told-count key true b' reqs)
told-count key false b' (SubRequest.subscribe k ∷ reqs) h =
    ground (arith, told-count key true b' reqs, told-count key false b' reqs)
told-count key true b' (SubRequest.unsubscribe k ∷ reqs) h =
    ground (arith, told-count key true b' reqs, told-count key false b' reqs)
told-count key false b' (SubRequest.unsubscribe k ∷ reqs) h =
    ground (arith, told-none key reqs, told-count key false b' reqs)

two_more :
    (key : SubKey) (a b : List SubRequest)
    → told key (some false) a ≡ some true
    → told key (some false) b ≡ some true
    → subscribes key (a ++ b) ≡ unsubscribes key (a ++ b) + 2
two_more key a b sent queued = omega (
  arith,
  subscribes-++ key a b,
  unsubscribes-++ key a b,
  told-count key false true a sent,
  told-count key false true b queued,
)

module _ {Q : Type 0} (now id : ℕ) (key : SubKey) (st : AppState Q) where
  subscribe-is_live :
      holds_key key (st.heap id).subscriptions ≡ false
      → is_live key (subscribe now id key st).0 ≡ true
  unfolding subscribe broadcast_ctrl is_live
  subscribe-is_live free =
      let entry = entry_of now key st in
      let joining : AppState Q =
        put_entry key (join_entry key id entry) (with_client id (add_key key) st) in
      let P = λ (r : AppState Q × SubscribeOutcome). is_live key r.0 ≡ true in
      let after : is_live key joining ≡ true =
        ap flag_of (
          get-put SubKey-discrete key key (join_entry key id entry) st.subs
          ∙ if_pos (SubKey-discrete key key) refl (some (join_entry key id entry))
              (get SubKey-discrete key st.subs))
        ∙ join_entry-flag key id entry in
      if_cases P (holds_key key (st.heap id).subscriptions) (λ held. cc (free, held))
        (λ joins. if_cases P entry.upstream_subscribed (λ old. after) (λ new. after))

  subscribe-twice :
      (i : ℕ) (wire : List SubRequest)
      → holds_key key (st.heap id).subscriptions ≡ false
      → is_live key st ≡ false
      → Queued i st.sources []
      → told key (some false) wire ≡ some true
      → (c : List SubRequest) × (Queued i (subscribe now id key st).0.sources c)
        × (told key (some false) (wire ++ c) ≡ none)
        × (subscribes key (wire ++ c) ≡ unsubscribes key (wire ++ c) + 2)
  unfolding told
  subscribe-twice i wire free dead queued sent = by_words (subscribe-Speaks key key st now id)
    where
      by_words :
          Speaks key st (subscribe now id key st).0
          → (c : List SubRequest) × (Queued i (subscribe now id key st).0.sources c)
            × (told key (some false) (wire ++ c) ≡ none)
            × (subscribes key (wire ++ c) ≡ unsubscribes key (wire ++ c) + 2)
      by_words (inl (same, live)) = cc (live, dead, subscribe-is_live free)
      by_words (inr (req, told_all, heard)) =
          let once : hear key req (some false) ≡ some true =
            ap (λ b. hear key req (some b)) (sym dead) ∙ heard ∙ ap some (subscribe-is_live free) in
          (
            req ∷ [],
            ap (λ cs. get_elem? cs i) told_all
                ∙ get_elem?-map (extend req) (ctrls st.sources) i [] queued,
            told-++ key (some false) wire (req ∷ [])
                ∙ ap (hear key req) sent
                ∙ hear-twice key req once,
            two_more key wire (req ∷ []) sent once,
          )

-- Where no key stands twice among the entries and the key is not live: if a client that does not
-- hold the key subscribes after a source's queue was drained and before the live keys are read,
-- then what is sent on the new connection and what is queued subscribe the key twice more than they
-- unsubscribe it: to a source that keeps track of the key, one of the requests is one too many.
pub subscribed_twice :
    {Q : Type 0} (now id : ℕ) (key : SubKey) (i src : ℕ) (s : Source) (st : AppState Q)
    → DistinctKeys st.subs
    → get_elem? st.sources i ≡ some s
    → s.id ≡ src
    → holds_key key (st.heap id).subscriptions ≡ false
    → is_live key st ≡ false
    → let st' = (subscribe now id key (drain src st)).0 in
      (c : List SubRequest) × (Queued i st'.sources c)
      × (told key (some false) (subscribed_requests st' ++ c) ≡ none)
      × (subscribes key (subscribed_requests st' ++ c)
          ≡ unsubscribes key (subscribed_requests st' ++ c) + 2)
unfolding drain subscribed_requests is_live
subscribed_twice now id key i src s st distinct at is free dead =
    subscribe-twice now id key (drain src st) i _ free dead (drain-Queued i src st s at is) (
      live_requests_lem key _ (subscribe-DistinctKeys now id key (drain src st) distinct)
      ∙ ap some (subscribe-is_live now id key (drain src st) free))
