-- ===== src/Hub/Feeds.antt =====
-- The queue of a client over the operations of `AppState`, from src/state.rs: as long as its id is
-- not given to another, frames only go in behind those that are there.
use hypeha.Base.{
  ℕ, ◌≡◌, refl, sym, subst, inl, inr, false, List, [], ◌∷◌, ◌++◌, Option, some, ◌==◌, if_cases,
  Option-cases, Text,
}
use hypeha.SubKey.{SubKey, is_incremental}
use hypeha.Entry.{Seq}
use hypeha.Hub.{Client, AppState, find_entry, entry_of, hang_up, register_client}
use hypeha.Hub.Registry.{pin, cleanup_client, broadcast_ctrl, forget_all}
use hypeha.Hub.Update.{
  send_all, hang_up_all, on_update, deliver_snapshot, take_pending, update_entry, backlog,
}
use hypeha.Hub.Recovery.{resync_after_source_loss, fail_pending}
use hypeha.Hub.Reach.{Step}
use hypeha.Hub.Queues.{
  Grows, Grows-refl, Grows-trans, Grows-same, on_client-Grows, hang_up_all-Grows, fan_out-Grows,
  send_all-Grows, detach_all-heap, subscribe-Grows, unsubscribe-Grows,
}

-- A step that does not register a client under an id.
abbrev pub Spares :
    {Q : Type 0} {try_send : Q → Text → Option Q} {s t : AppState Q}
    → ℕ
    → Step try_send s t
    → Type 0
Spares i (Step.registers channel now ip st) = (i == st.next_client_id) ≡ false
Spares i (Step.subscribes now id key st) = Unit {0}
Spares i (Step.unsubscribes id key st) = Unit {0}
Spares i (Step.pins now key st) = Unit {0}
Spares i (Step.leaves id st) = Unit {0}
Spares i (Step.updates src key seq now payload st) = Unit {0}
Spares i (Step.delivers key id source height snapshot st) = Unit {0}
Spares i (Step.loses source st) = Unit {0}
Spares i (Step.fails key id st) = Unit {0}

module _ {Q : Type 0} (contents : Q → List Text) where
  abbrev pub Feeds : ℕ → AppState Q → AppState Q → Type 0
  Feeds i s t = Grows contents (s.heap i) (t.heap i)

  Feeds-refl : (i : ℕ) (st : AppState Q) → Feeds i st st
  Feeds-refl i st = Grows-refl contents (st.heap i)

  pub cleanup-Feeds : (id : ℕ) (st : AppState Q) (i : ℕ) → Feeds i st (cleanup_client id st)
  unfolding cleanup_client
  cleanup-Feeds id st i =
      subst (λ (h : ℕ → Client Q). Grows contents (st.heap i) (h i))
        (sym (detach_all-heap contents id (st.heap id).subscriptions _))
        (on_client-Grows contents forget_all (λ c. Grows-same contents c (forget_all c) refl refl)
          id st.heap i)

  pin-Feeds : (now : ℕ) (key : SubKey) (st : AppState Q) (i : ℕ) → Feeds i st (pin now key st)
  unfolding pin broadcast_ctrl
  pin-Feeds now key st i =
      if_cases (λ (t : AppState Q). Feeds i st t) (entry_of now key st).upstream_subscribed
        (λ _. Feeds-refl i st) (λ _. Feeds-refl i st)

  register-Feeds :
      (channel : ℕ → Q) (now : ℕ) (ip : Text) (st : AppState Q) (i : ℕ)
      → (i == st.next_client_id) ≡ false
      → Feeds i st (register_client channel now ip st).0
  unfolding register_client
  register-Feeds channel now ip st i other = rw other (Feeds-refl i st)

  fail-Feeds :
      (key : SubKey) (id : ℕ) (st : AppState Q) (i : ℕ) → Feeds i st (fail_pending key id st)
  unfolding fail_pending
  fail-Feeds key id st i = elim (Option-cases (find_entry key st)) [
    | inl missing ↦ rw (missing, fail_pending) (Feeds-refl i st)
    | inr (e, found) ↦ elim (Option-cases (take_pending id e.pending)) [
      | inl absent ↦ rw (found, fail_pending) (rw (absent, fail_pending) (Feeds-refl i st))
      | inr ((p, rest), taken) ↦
          rw (found, fail_pending)
            (rw (taken, fail_pending)
              (on_client-Grows contents hang_up (λ c. Grows-same contents c (hang_up c) refl refl)
                p.client st.heap i))
    ]
  ]

  module _ (try_send : Q → Text → Option Q)
      (fifo : (q q' : Q) (msg : Text)
        → try_send q msg ≡ some q'
        → contents q' ≡ contents q ++ (msg ∷ [])) where
    on_update-Feeds :
        (src : ℕ) (key : SubKey) (seq : Seq) (now : ℕ) (payload : Text) (st : AppState Q) (i : ℕ)
        → Feeds i st (on_update try_send src key seq now payload st)
    unfolding on_update
    on_update-Feeds src key seq now payload st i =
        let (entry, verdict, overflowed) =
          update_entry key src seq now payload (entry_of now key st) in
        let left = hang_up_all overflowed st.heap in
        let stays = hang_up_all-Grows contents overflowed st.heap i in
        if_cases (λ (h : ℕ → Client Q). Grows contents (st.heap i) (h i)) verdict.deliver
          (λ _. Grows-trans contents (st.heap i) (left i) _ stays (
            fan_out-Grows contents try_send fifo (is_incremental key) payload entry.subscribers left
              i))
          (λ _. stays)

    deliver-Feeds :
        (key : SubKey) (id source height : ℕ) (snapshot : Text) (st : AppState Q) (i : ℕ)
        → Feeds i st (deliver_snapshot try_send key id source height snapshot st)
    unfolding deliver_snapshot
    deliver-Feeds key id source height snapshot st i = elim (Option-cases (find_entry key st)) [
      | inl missing ↦ rw (missing, deliver_snapshot) (Feeds-refl i st)
      | inr (e, found) ↦ elim (Option-cases (take_pending id e.pending)) [
        | inl absent ↦
            rw (found, deliver_snapshot) (rw (absent, deliver_snapshot) (Feeds-refl i st))
        | inr ((p, rest), taken) ↦
            let msgs = backlog key source height snapshot p.held in
            rw (found, deliver_snapshot)
              (rw (taken, deliver_snapshot)
                (on_client-Grows contents (send_all try_send msgs)
                  (send_all-Grows contents try_send fifo msgs) p.client st.heap i))
      ]
    ]

    pub Step-Feeds :
        (i : ℕ) {s t : AppState Q} (step : Step try_send s t) → Spares i step → Feeds i s t
    unfolding resync_after_source_loss
    Step-Feeds i (Step.registers channel now ip st) other = register-Feeds channel now ip st i other
    Step-Feeds i (Step.subscribes now id key st) other = subscribe-Grows contents now id key st i
    Step-Feeds i (Step.unsubscribes id key st) other = unsubscribe-Grows contents id key st i
    Step-Feeds i (Step.pins now key st) other = pin-Feeds now key st i
    Step-Feeds i (Step.leaves id st) other = cleanup-Feeds id st i
    Step-Feeds i (Step.updates src key seq now payload st) other =
        on_update-Feeds src key seq now payload st i
    Step-Feeds i (Step.delivers key id source height snapshot st) other =
        deliver-Feeds key id source height snapshot st i
    Step-Feeds i (Step.loses source st) other = Feeds-refl i st
    Step-Feeds i (Step.fails key id st) other = fail-Feeds key id st i
