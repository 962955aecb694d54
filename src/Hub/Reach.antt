-- ===== src/Hub/Reach.antt =====
-- Every sequence of the hub's operations, and what holds after all of them.
use hypeha.Base.{
  ℕ, ◌≡◌, refl, ◌∙◌, ap, sym, inl, inr, Bool, true, false, List, [], ◌∷◌, map, Option, none, some,
  arith, Option-cases, if_cases, Text,
}
use hypeha.Base.KeyMap.{get, get-map_values, lift_value}
use hypeha.SubKey.{SubKey, SubKey-discrete}
use hypeha.Stats.{SourceStats}
use hypeha.Entry.{
  SubEntry, Seq, arbitrate, hold, on_point, on_lead, on_sticky, on_snapshot, on_block,
}
use hypeha.Hub.{Source, AppState, on_source, entry_of, find_entry, register_client, with_client}
use hypeha.Hub.Registry.{
  subscribe, unsubscribe, pin, detach, detach_all, cleanup_client, holds_key, drop_key,
}
use hypeha.Hub.Update.{on_update, deliver_snapshot, update_entry, attach_rebuilt, take_pending}
use hypeha.Hub.Recovery.{resync_after_source_loss, fail_pending, lose_source}
use hypeha.Hub.Control.{
  Told, Told-Speaks, Speaks, ctrls, is_live, flag_of, subscribe-Speaks, pin-Speaks, detach-Speaks,
  put-Speaks, flag-entry_of, live_found,
}

flag-arbitrate :
    (key : SubKey) (src : ℕ) (seq : Seq) (now : ℕ) (e : SubEntry)
    → (arbitrate key src seq now e).0.upstream_subscribed ≡ e.upstream_subscribed
unfolding arbitrate on_point on_lead on_sticky on_snapshot on_block
flag-arbitrate key src (Seq.point v) now e = ground arith
flag-arbitrate key src (Seq.lead v) now e = ground arith
flag-arbitrate key src (Seq.sticky v) now e = ground arith
flag-arbitrate key src (Seq.snapshot v) now e = ground arith
flag-arbitrate key src (Seq.block v) now e = ground arith

flag-hold :
    (src : ℕ) (seq : Seq) (payload : Text) (e : SubEntry)
    → (hold src seq payload e).0.upstream_subscribed ≡ e.upstream_subscribed
unfolding hold
flag-hold src seq payload e = ground arith

flag-update_entry :
    (key : SubKey) (src : ℕ) (seq : Seq) (now : ℕ) (payload : Text) (e : SubEntry)
    → (update_entry key src seq now payload e).0.upstream_subscribed ≡ e.upstream_subscribed
unfolding update_entry
flag-update_entry key src seq now payload e = ground (
  arith,
  flag-arbitrate key src seq now e,
  flag-hold src seq payload (arbitrate key src seq now e).0,
)

ctrls-on_source :
    (id : ℕ) (f : SourceStats → SourceStats) (ss : List Source)
    → ctrls (map (on_source id f) ss) ≡ ctrls ss
ctrls-on_source id f [] = refl
ctrls-on_source id f (s ∷ ss) = ground (arith, ctrls-on_source id f ss)

flag-lose_source :
    (source : ℕ) (key : SubKey) (e : SubEntry)
    → (lose_source source key e).upstream_subscribed ≡ e.upstream_subscribed
unfolding lose_source
flag-lose_source source key e = ground arith

flag-lifted :
    (source : ℕ) (key : SubKey) (o : Option SubEntry)
    → flag_of (lift_value (lose_source source key) o) ≡ flag_of o
flag-lifted source key none = refl
flag-lifted source key (some e) = flag-lose_source source key e

abbrev Agrees : {Q : Type 0} → SubKey → AppState Q → Type 0
Agrees k st = Told k (is_live k st) (ctrls st.sources)

detach_all-Agrees :
    {Q : Type 0} (k : SubKey) (id : ℕ) (keys : List SubKey) (st : AppState Q)
    → Agrees k st
    → Agrees k (detach_all id keys st)
unfolding detach_all
detach_all-Agrees k id [] st t = t
detach_all-Agrees k id (key ∷ keys) st t =
    detach_all-Agrees k id keys (detach id key st)
      (Told-Speaks k st (detach id key st) (detach-Speaks key k st id) t)

module _ {Q : Type 0} (try_send : Q → Text → Option Q) (k : SubKey) (st : AppState Q) where
  pub update-Speaks :
      (src : ℕ) (key : SubKey) (seq : Seq) (now : ℕ) (payload : Text)
      → Speaks k st (on_update try_send src key seq now payload st)
  unfolding on_update
  update-Speaks src key seq now payload =
      put-Speaks key k st (update_entry key src seq now payload (entry_of now key st)).0 _
        (flag-update_entry key src seq now payload (entry_of now key st)
          ∙ flag-entry_of key k st now)
        (ctrls-on_source src _ st.sources) refl

  pub deliver-Speaks :
      (key : SubKey) (id source height : ℕ) (snapshot : Text)
      → Speaks k st (deliver_snapshot try_send key id source height snapshot st)
  unfolding deliver_snapshot attach_rebuilt
  deliver-Speaks key id source height snapshot = elim (Option-cases (find_entry key st)) [
    | inl missing ↦ rw (missing, deliver_snapshot) (inl (refl, refl))
    | inr (e, found) ↦ elim (Option-cases (take_pending id e.pending)) [
      | inl absent ↦ rw (found, deliver_snapshot) (rw (absent, deliver_snapshot) (inl (refl, refl)))
      | inr (p, taken) ↦
          rw (found, deliver_snapshot)
            (rw (taken, deliver_snapshot)
              (put-Speaks key k st _ _ (sym (live_found key k st e found)) refl refl))
    ]
  ]

  pub fail-Speaks : (key : SubKey) (id : ℕ) → Speaks k st (fail_pending key id st)
  unfolding fail_pending
  fail-Speaks key id = elim (Option-cases (find_entry key st)) [
    | inl missing ↦ rw (missing, fail_pending) (inl (refl, refl))
    | inr (e, found) ↦ elim (Option-cases (take_pending id e.pending)) [
      | inl absent ↦ rw (found, fail_pending) (rw (absent, fail_pending) (inl (refl, refl)))
      | inr (p, taken) ↦
          rw (found, fail_pending)
            (rw (taken, fail_pending)
              (put-Speaks key k st _ _ (sym (live_found key k st e found)) refl refl))
    ]
  ]

  pub resync-Speaks : (source : ℕ) → Speaks k st (resync_after_source_loss source st).0
  unfolding resync_after_source_loss is_live
  resync-Speaks source = inl (
    refl,
    ap flag_of (get-map_values SubKey-discrete (lose_source source) k st.subs)
        ∙ flag-lifted source k (get SubKey-discrete k st.subs),
  )

-- The operations of the hub, in any order: the calls of the clients and of the sources, the
-- snapshots that arrive and those that do not, and the losses of sources. `Upstream/Wire` adds the
-- reconnects, which empty what was queued for a source and subscribe it anew.
pub data Step {Q : Type 0} (try_send : Q → Text → Option Q) : AppState Q → AppState Q → Type 0 where
  registers :
      (channel : ℕ → Q) (now : ℕ) (ip : Text) (st : AppState Q)
      → Step try_send st (register_client channel now ip st).0
  subscribes :
      (now id : ℕ) (key : SubKey) (st : AppState Q) → Step try_send st (subscribe now id key st).0
  unsubscribes :
      (id : ℕ) (key : SubKey) (st : AppState Q) → Step try_send st (unsubscribe id key st).0
  pins : (now : ℕ) (key : SubKey) (st : AppState Q) → Step try_send st (pin now key st)
  leaves : (id : ℕ) (st : AppState Q) → Step try_send st (cleanup_client id st)
  updates :
      (src : ℕ) (key : SubKey) (seq : Seq) (now : ℕ) (payload : Text) (st : AppState Q)
      → Step try_send st (on_update try_send src key seq now payload st)
  delivers :
      (key : SubKey) (id source height : ℕ) (snapshot : Text) (st : AppState Q)
      → Step try_send st (deliver_snapshot try_send key id source height snapshot st)
  loses : (source : ℕ) (st : AppState Q) → Step try_send st (resync_after_source_loss source st).0
  fails : (key : SubKey) (id : ℕ) (st : AppState Q) → Step try_send st (fail_pending key id st)

pub data Reach {Q : Type 0} (try_send : Q → Text → Option Q) (s : AppState Q)
    : AppState Q → Type 0 where
  here : Reach try_send s s
  next : {t u : AppState Q} → Reach try_send s t → Step try_send t u → Reach try_send s u

Step-Agrees :
    {Q : Type 0} {try_send : Q → Text → Option Q} (k : SubKey) {t u : AppState Q}
    → Step try_send t u
    → Agrees k t
    → Agrees k u
unfolding register_client unsubscribe cleanup_client is_live
Step-Agrees k (registers channel now ip st) t = t
Step-Agrees k (subscribes now id key st) t =
    Told-Speaks k st (subscribe now id key st).0 (subscribe-Speaks key k st now id) t
Step-Agrees k (unsubscribes id key st) t =
    let freed : AppState _ =
      with_client id (λ c. record c { subscriptions = drop_key key c.subscriptions }) st in
    if_cases (λ (r : AppState _ × Bool). Agrees k r.0) (holds_key key (st.heap id).subscriptions)
      {x = (detach id key freed, true)} {y = (st, false)}
      (λ held. Told-Speaks k freed (detach id key freed) (detach-Speaks key k freed id) t)
      (λ free. t)
Step-Agrees k (pins now key st) t = Told-Speaks k st (pin now key st) (pin-Speaks key k st now) t
Step-Agrees k (leaves id st) t = detach_all-Agrees k id (st.heap id).subscriptions _ t
Step-Agrees {try_send} k (updates src key seq now payload st) t =
    Told-Speaks k st (on_update try_send src key seq now payload st)
      (update-Speaks try_send k st src key seq now payload) t
Step-Agrees {try_send} k (delivers key id source height snapshot st) t =
    Told-Speaks k st (deliver_snapshot try_send key id source height snapshot st)
      (deliver-Speaks try_send k st key id source height snapshot) t
Step-Agrees {try_send} k (loses source st) t =
    Told-Speaks k st (resync_after_source_loss source st).0 (resync-Speaks try_send k st source) t
Step-Agrees {try_send} k (fails key id st) t =
    Told-Speaks k st (fail_pending key id st) (fail-Speaks try_send k st key id) t

-- Whatever operations have run since a state in which this held, each source has been sent, for
-- each key, requests that subscribe and unsubscribe in turn, and the last of them is a subscription
-- exactly if the key's entry is marked as subscribed upstream.
Reach-Told :
    {Q : Type 0} {try_send : Q → Text → Option Q} (k : SubKey) {s t : AppState Q}
    → Told k (is_live k s) (ctrls s.sources)
    → Reach try_send s t
    → Told k (is_live k t) (ctrls t.sources)
Reach-Told k h here = h
Reach-Told k h (next r step) = Step-Agrees k step (Reach-Told k h r)
