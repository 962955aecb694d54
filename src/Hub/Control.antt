-- ===== src/Hub/Control.antt =====
-- What the sources are told, and how it compares with the entries.
use hypeha.Base.{
  ℕ, ◌≡◌, refl, ◌∙◌, ap, sym, subst, ◌⊎◌, inl, inr, Bool, true, false, List, [], ◌∷◌, ◌++◌, map,
  Option, none, some, if◌then◌else◌, arith, ite, Option-cases, if_cases,
}
use hypeha.Base.KeyMap.{put, remove, get-put, get-remove}
use hypeha.SubKey.{SubKey, SubKey-discrete, SubRequest}
use hypeha.Entry.{SubEntry}
use hypeha.Hub.{Source, AppState, find_entry, entry_of, put_entry, with_client}
use hypeha.Hub.Registry.{
  SubscribeOutcome, fresh, joined, subscribe, pin, detach, broadcast_ctrl, send_ctrl, holds_key,
  join_entry, leave_entry,
}

-- A source's view of one key after one more request. `none` is an error: it was subscribed
-- already, or was not subscribed.
abbrev pub hear : SubKey → SubRequest → Option Bool → Option Bool
hear key req none = none
hear key (SubRequest.subscribe k) (some live) =
    ite (SubKey-discrete k key) (if live then none else some true) (some live)
hear key (SubRequest.unsubscribe k) (some live) =
    ite (SubKey-discrete k key) (if live then some false else none) (some live)

unfoldable pub told : SubKey → Option Bool → List SubRequest → Option Bool
told key view [] = view
told key view (req ∷ reqs) = told key (hear key req view) reqs

pub told-append :
    (key : SubKey) (view : Option Bool) (reqs : List SubRequest) (req : SubRequest)
    → told key view (reqs ++ (req ∷ [])) ≡ hear key req (told key view reqs)
unfolding told
told-append key view [] req = refl
told-append key view (r ∷ reqs) req = told-append key (hear key r view) reqs req

abbrev pub flag_of : Option SubEntry → Bool
flag_of none = false
flag_of (some e) = e.upstream_subscribed

-- Whether a key is held subscribed at the sources.
unfoldable pub is_live : {Q : Type 0} → SubKey → AppState Q → Bool
is_live key st = flag_of (find_entry key st)

-- Each source has been told, with no request too many, that the key is live or is not.
abbrev pub Told : SubKey → Bool → List (List SubRequest) → Type 0
Told key live [] = Unit {0}
Told key live (c ∷ cs) = (told key (some false) c ≡ some live) × Told key live cs

abbrev pub extend : SubRequest → List SubRequest → List SubRequest
extend req c = c ++ (req ∷ [])

-- What was sent to each source.
abbrev pub ctrls : List Source → List (List SubRequest)
ctrls = map (λ s. s.ctrl)

ctrls-send :
    (req : SubRequest) (ss : List Source)
    → ctrls (map (send_ctrl req) ss) ≡ map (extend req) (ctrls ss)
ctrls-send req [] = refl
ctrls-send req (s ∷ ss) = ap (◌∷◌ (s.ctrl ++ (req ∷ []))) (ctrls-send req ss)

Told-send :
    (key : SubKey) (req : SubRequest) (live live' : Bool) (cs : List (List SubRequest))
    → hear key req (some live) ≡ some live'
    → Told key live cs
    → Told key live' (map (extend req) cs)
Told-send key req live live' [] h t = tt
Told-send key req live live' (c ∷ cs) h (t, ts) = (
  told-append key (some false) c req ∙ ap (hear key req) t ∙ h,
  Told-send key req live live' cs h ts,
)

-- A step says nothing and leaves the key as it was, or sends all sources one request that takes
-- the key from what it was to what it is.
abbrev pub Speaks : {Q : Type 0} → SubKey → AppState Q → AppState Q → Type 0
Speaks k st st' =
    ((ctrls st'.sources ≡ ctrls st.sources) × (is_live k st' ≡ is_live k st))
    ⊎ ((req : SubRequest) × (ctrls st'.sources ≡ map (extend req) (ctrls st.sources))
        × (hear k req (some (is_live k st)) ≡ some (is_live k st')))

pub Told-Speaks :
    {Q : Type 0} (k : SubKey) (st st' : AppState Q)
    → Speaks k st st'
    → Told k (is_live k st) (ctrls st.sources)
    → Told k (is_live k st') (ctrls st'.sources)
Told-Speaks k st st' (inl (same, live)) t =
    rw live (subst (λ l. Told k (is_live k st) l) (sym same) t)
Told-Speaks k st st' (inr (req, sent, heard)) t =
    subst (λ l. Told k (is_live k st') l) (sym sent)
      (Told-send k req (is_live k st) (is_live k st') (ctrls st.sources) heard t)

module _ {Q : Type 0} (key k : SubKey) (st : AppState Q) where
  pub is_live-put :
      (e : SubEntry)
      → is_live k (put_entry key e st)
        ≡ ite (SubKey-discrete key k) e.upstream_subscribed (is_live k st)
  unfolding is_live
  is_live-put e = ground (arith, get-put SubKey-discrete k key e st.subs)

  is_live-remove :
      is_live k (record st { subs = remove SubKey-discrete key st.subs })
      ≡ ite (SubKey-discrete key k) false (is_live k st)
  unfolding is_live
  is_live-remove = ground (arith, get-remove SubKey-discrete k key st.subs)

  pub flag-entry_of : (now : ℕ) → (entry_of now key st).upstream_subscribed ≡ is_live key st
  unfolding is_live
  flag-entry_of now = ground arith

  pub live_found :
      (e : SubEntry) → find_entry key st ≡ some e → is_live key st ≡ e.upstream_subscribed
  unfolding is_live
  live_found e found = ap flag_of found

  pub put-Speaks :
      (e : SubEntry) (st' : AppState Q)
      → e.upstream_subscribed ≡ is_live key st
      → ctrls st'.sources ≡ ctrls st.sources
      → st'.subs ≡ (put_entry key e st).subs
      → Speaks k st st'
  unfolding is_live
  put-Speaks e st' h same subs = inl (same, ground (arith, get-put SubKey-discrete k key e st.subs))

  told_on-Speaks :
      (e : SubEntry) (st' : AppState Q)
      → e.upstream_subscribed ≡ true
      → is_live key st ≡ false
      → st'.sources ≡ map (send_ctrl (SubRequest.subscribe key)) st.sources
      → st'.subs ≡ (put_entry key e st).subs
      → Speaks k st st'
  unfolding is_live
  told_on-Speaks e st' on off sent subs = inr (
    SubRequest.subscribe key,
    ap ctrls sent ∙ ctrls-send _ st.sources,
    ground (arith, get-put SubKey-discrete k key e st.subs),
  )

  -- The entry after a client has joined, live in any case.
  join-live : (id : ℕ) (e : SubEntry) → (join_entry key id e).upstream_subscribed ≡ true
  unfolding join_entry
  join-live id e = ground arith

  pub subscribe-Speaks : (now id : ℕ) → Speaks k st (subscribe now id key st).0
  unfolding subscribe broadcast_ctrl
  subscribe-Speaks now id =
      let entry = entry_of now key st in
      let e = join_entry key id entry in
      let live : e.upstream_subscribed ≡ true = join-live id entry in
      let joining : AppState Q =
        put_entry key e
          (with_client id (λ c. record c { subscriptions = key ∷ c.subscriptions }) st) in
      let told_all : AppState Q = broadcast_ctrl (SubRequest.subscribe key) joining in
      let P = λ (r : AppState Q × SubscribeOutcome). Speaks k st r.0 in
      if_cases P (holds_key key (st.heap id).subscriptions) (λ held. inl (refl, refl))
        (λ free.
          if_cases P entry.upstream_subscribed {x = (joining, joined)} {y = (told_all, fresh)}
            (λ old. put-Speaks e joining (live ∙ sym old ∙ flag-entry_of now) refl refl)
            (λ new. told_on-Speaks e told_all live (sym (flag-entry_of now) ∙ new) refl refl))

  pub pin-Speaks : (now : ℕ) → Speaks k st (pin now key st)
  unfolding pin broadcast_ctrl
  pin-Speaks now =
      let entry = entry_of now key st in
      let e : SubEntry = record entry { pinned = true; upstream_subscribed = true } in
      if_cases (Speaks k st) entry.upstream_subscribed
        (λ old. put-Speaks e _ (sym old ∙ flag-entry_of now) refl refl)
        (λ new. told_on-Speaks e _ refl (sym (flag-entry_of now) ∙ new) refl refl)

  -- The entry after a client has left: live as before, unless it was the last one of a live key.
  leave-live :
      (id : ℕ) (e : SubEntry)
      → ((leave_entry id e).1 ≡ true → e.upstream_subscribed ≡ true)
        × ((leave_entry id e).1 ≡ false
            → (leave_entry id e).0.upstream_subscribed ≡ e.upstream_subscribed)
  unfolding leave_entry
  leave-live id e = (λ h. ground arith, λ h. ground arith)

  told_off-Speaks :
      (e : SubEntry) (st' : AppState Q)
      → is_live key st ≡ true
      → st'.sources ≡ map (send_ctrl (SubRequest.unsubscribe key)) st.sources
      → st'.subs ≡ remove SubKey-discrete key (put_entry key e st).subs
      → Speaks k st st'
  unfolding is_live
  told_off-Speaks e st' on sent subs = inr (
    SubRequest.unsubscribe key,
    ap ctrls sent ∙ ctrls-send _ st.sources,
    ground (
      arith,
      get-put SubKey-discrete k key e st.subs,
      get-remove SubKey-discrete k key (put SubKey-discrete key e st.subs),
    ),
  )

  pub detach-Speaks : (id : ℕ) → Speaks k st (detach id key st)
  unfolding detach broadcast_ctrl
  detach-Speaks id = elim (Option-cases (find_entry key st)) [
    | inl missing ↦ rw (missing, detach) (inl (refl, refl))
    | inr (e, found) ↦
        let live : is_live key st ≡ e.upstream_subscribed = live_found e found in
        rw (found, detach)
          (if_cases (Speaks k st) (leave_entry id e).1
            (λ last_one.
              told_off-Speaks (leave_entry id e).0 _ (live ∙ (leave-live id e).0 last_one) refl
                refl)
            (λ others.
              put-Speaks (leave_entry id e).0 _ ((leave-live id e).1 others ∙ sym live) refl refl))
  ]
