-- ===== src/Hub/Erased.antt =====
-- A subscription between the two halves of `AppState::detach`, from src/state.rs: the last client of
-- a key is taken off its entry under the lock, and the sources are told and the entry removed after
-- the lock is released.
use hypeha.Base.{
  ℕ, ◌≡◌, refl, ◌∙◌, ap, sym, Bool, true, false, List, [], ◌∷◌, ◌++◌, map, none, some,
  if◌then◌else◌, if_pos, Option-cases, inl, inr, append_assoc, ==_refl, arith, subst,
}
use hypeha.Base.KeyMap.{get-put, get-remove, remove}
use hypeha.SubKey.{SubKey, SubKey-discrete, SubRequest}
use hypeha.Entry.{SubEntry}
use hypeha.Hub.{Source, AppState, find_entry, put_entry, with_client}
use hypeha.Hub.Registry.{
  subscribe, holds_key, join_entry, leave_entry, add_key, detach, broadcast_ctrl, send_ctrl,
}
use hypeha.Hub.Control.{ctrls}
use hypeha.Hub.Members.{holds, present}
use hypeha.Hub.Members.Joining.{join_entry-on_entry}
use hypeha.Hub.Members.Calls.{holds-add}

module _ {Q : Type 0} where
  -- What `detach` does while it has the entry, with whether the client was the last one.
  unfoldable pub leave_locked : ℕ → SubKey → AppState Q → AppState Q × Bool
  leave_locked id key st = elim (find_entry key st) [
    | none ↦ (st, false)
    | some entry ↦ let (left, last_one) = leave_entry id entry in (put_entry key left st, last_one)
  ]

  -- What it does after that, if the client was the last one.
  unfoldable pub finish_leaving : SubKey → AppState Q → AppState Q
  finish_leaving key st =
      let told = broadcast_ctrl (SubRequest.unsubscribe key) st in
      record told { subs = remove SubKey-discrete key told.subs }

  detach-halves :
      (id : ℕ) (key : SubKey) (st : AppState Q)
      → detach id key st ≡ (
          if (leave_locked id key st).1
          then finish_leaving key (leave_locked id key st).0
          else (leave_locked id key st).0)
  unfolding detach leave_locked finish_leaving
  detach-halves id key st = elim (Option-cases (find_entry key st)) [
    | inl missing ↦ rw (missing, detach, leave_locked) refl
    | inr (e, found) ↦ rw (found, detach, leave_locked) refl
  ]

  subscribe_fresh :
      (now id : ℕ) (key : SubKey) (st : AppState Q) (e : SubEntry)
      → find_entry key st ≡ some e
      → e.upstream_subscribed ≡ false
      → holds_key key (st.heap id).subscriptions ≡ false
      → (subscribe now id key st).0
        ≡ broadcast_ctrl
            (SubRequest.subscribe key)
            (put_entry key (join_entry key id e) (with_client id (add_key key) st))
  unfolding subscribe
  subscribe_fresh now id key st e found quiet free = rw (free, found) (rw quiet refl)

  leave_locked_last :
      (id : ℕ) (key : SubKey) (st : AppState Q) (e : SubEntry)
      → find_entry key st ≡ some e
      → (leave_entry id e).1 ≡ true
      → leave_locked id key st ≡ (put_entry key (leave_entry id e).0 st, true)
  unfolding leave_locked
  leave_locked_last id key st e found last =
      rw (found, leave_locked) (ap (λ b. (put_entry key (leave_entry id e).0 st, b)) last)

left-quiet :
    (id : ℕ) (e : SubEntry)
    → (leave_entry id e).1 ≡ true
    → (leave_entry id e).0.upstream_subscribed ≡ false
unfolding leave_entry
left-quiet id e last = ground (arith, last)

twice-ctrls :
    (a b : SubRequest) (ss : List Source)
    → ctrls (map (send_ctrl b) (map (send_ctrl a) ss)) ≡ map (λ c. c ++ (a ∷ b ∷ [])) (ctrls ss)
twice-ctrls a b [] = refl
twice-ctrls a b (s ∷ ss) = cc (append_assoc s.ctrl (a ∷ []) (b ∷ []), twice-ctrls a b ss)

-- Where a client is the last one on a key, `detach` is a half that ends with the release of the
-- entry's lock and a half after it. If a client that does not hold the key subscribes between them,
-- it is on the entry then; but after the second half the key has no entry, while that client holds
-- the key and is told to hang up only if it was before, and every source has been told to subscribe
-- the key and then to unsubscribe it.
pub erased_subscription :
    {Q : Type 0} (now id other : ℕ) (key : SubKey) (st : AppState Q) (e : SubEntry)
    → find_entry key st ≡ some e
    → (leave_entry id e).1 ≡ true
    → holds_key key (st.heap other).subscriptions ≡ false
    → let between = (subscribe now other key (leave_locked id key st).0).0 in
      let after = finish_leaving key between in
      (detach id key st ≡ finish_leaving key (leave_locked id key st).0)
      × (present other (find_entry key between) ≡ true)
      × (find_entry key after ≡ none)
      × (holds key other after.heap ≡ true)
      × ((after.heap other).kill ≡ (st.heap other).kill)
      × (ctrls after.sources
          ≡ map
              (λ c. c ++ (SubRequest.subscribe key ∷ SubRequest.unsubscribe key ∷ []))
              (ctrls st.sources))
unfolding finish_leaving broadcast_ctrl
erased_subscription {Q} now id other key st e found last free =
    let left = (leave_entry id e).0 in
    let locked : leave_locked id key st ≡ (put_entry key left st, true) =
      leave_locked_last id key st e found last in
    let there : find_entry key (put_entry key left st) ≡ some left =
      get-put SubKey-discrete key key left st.subs ∙ if_pos (SubKey-discrete key key) refl _ _ in
    let joining : AppState Q =
      put_entry key (join_entry key other left)
        (with_client other (add_key key) (put_entry key left st)) in
    let fresh : (subscribe now other key (leave_locked id key st).0).0
        ≡ broadcast_ctrl (SubRequest.subscribe key) joining =
      ap (λ (r : AppState Q × Bool). (subscribe now other key r.0).0) locked
      ∙ subscribe_fresh now other key (put_entry key left st) left there (left-quiet id e last)
          free in
    let erased = λ (t : AppState Q).
      (detach id key st ≡ finish_leaving key (leave_locked id key st).0)
      × (present other (find_entry key t) ≡ true)
      × (find_entry key (finish_leaving key t) ≡ none)
      × (holds key other (finish_leaving key t).heap ≡ true)
      × (((finish_leaving key t).heap other).kill ≡ (st.heap other).kill)
      × (ctrls (finish_leaving key t).sources
          ≡ map (λ c. c ++ (SubRequest.subscribe key ∷ SubRequest.unsubscribe key ∷ []))
              (ctrls st.sources)) in
    subst erased (sym fresh) (
      detach-halves id key st
          ∙ ap
              (λ (r : AppState Q × Bool).
                if r.1
                then finish_leaving key (leave_locked id key st).0
                else (leave_locked id key st).0)
              locked,
      ap (present other) (
            get-put SubKey-discrete key key (join_entry key other left) (put_entry key left st).subs
            ∙ if_pos (SubKey-discrete key key) refl _ _)
          ∙ join_entry-on_entry key other other left
          ∙ ground (arith, ==_refl other),
      get-remove SubKey-discrete key key _ ∙ if_pos (SubKey-discrete key key) refl _ _,
      holds-add key key other st.heap other
          ∙ rw (==_refl other) (if_pos (SubKey-discrete key key) refl _ _),
      rw (==_refl other) refl,
      twice-ctrls (SubRequest.subscribe key) (SubRequest.unsubscribe key) st.sources,
    )
