-- ===== src/Hub/Queues.antt =====
-- What the operations of `AppState`, from src/state.rs, do to the queue of a client: they put frames
-- behind those that are in it, and leave the tally of its writer alone. The queue is first-in
-- first-out: `contents` is what it holds, in order.
use hypeha.Base.{
  ℕ, ◌≡◌, refl, ◌∙◌, ap, sym, subst, inl, inr, Bool, true, false, List, [], ◌∷◌, ◌++◌, append-nil,
  append_assoc, Option, some, ◌==◌, if_cases, Option-cases, Text,
}
use hypeha.SubKey.{SubKey}
use hypeha.Hub.{Client, AppState, entry_of, on_client, hang_up, drop_frame, with_client}
use hypeha.Hub.Registry.{
  subscribe, unsubscribe, SubscribeOutcome, detach, detach_all, broadcast_ctrl, holds_key, add_key,
  forget_key,
}
use hypeha.Hub.Update.{send_or_hang_up, send_or_drop, send_frame, fan_out, send_all, hang_up_all}
use hypeha.Hub.Members.Leaving.{detach-heap}

module _ {Q : Type 0} (contents : Q → List Text) where
  pub record Grows (c c' : Client Q) : Type 0 where
    pub tally : c'.bytes_sent ≡ c.bytes_sent
    pub more : List Text
    pub queued : contents c'.queue ≡ contents c.queue ++ more

  pub Grows-refl : (c : Client Q) → Grows c c
  Grows-refl c = record { tally = refl; more = []; queued = sym (append-nil (contents c.queue)) }

  pub Grows-trans : (a b c : Client Q) → Grows a b → Grows b c → Grows a c
  Grows-trans a b c p q = record {
    tally = q.tally ∙ p.tally;
    more = p.more ++ q.more;
    queued =
        q.queued ∙ ap (λ l. l ++ q.more) p.queued ∙ append_assoc (contents a.queue) p.more q.more;
  }

  -- One that only changes something else.
  pub Grows-same :
      (c c' : Client Q) → c'.bytes_sent ≡ c.bytes_sent → c'.queue ≡ c.queue → Grows c c'
  Grows-same c c' bytes same = record {
    tally = bytes;
    more = [];
    queued = ap contents same ∙ sym (append-nil (contents c.queue));
  }

  pub on_client-Grows :
      (f : Client Q → Client Q) (all : (c : Client Q) → Grows c (f c)) (id : ℕ)
      (heap : ℕ → Client Q) (i : ℕ)
      → Grows (heap i) (on_client id f heap i)
  on_client-Grows f all id heap i =
      if_cases (Grows (heap i)) (i == id) (λ same. all (heap i)) (λ other. Grows-refl (heap i))

  pub hang_up_all-Grows :
      (ids : List ℕ) (heap : ℕ → Client Q) (i : ℕ) → Grows (heap i) (hang_up_all ids heap i)
  hang_up_all-Grows [] heap i = Grows-refl (heap i)
  hang_up_all-Grows (id ∷ ids) heap i =
      Grows-trans (heap i) (on_client id hang_up heap i) _
        (on_client-Grows hang_up (λ c. Grows-same c (hang_up c) refl refl) id heap i)
        (hang_up_all-Grows ids (on_client id hang_up heap) i)

  module _ (try_send : Q → Text → Option Q)
      (fifo : (q q' : Q) (msg : Text)
        → try_send q msg ≡ some q'
        → contents q' ≡ contents q ++ (msg ∷ [])) where
    pub sent-Grows :
        (msg : Text) (c : Client Q) (q : Q)
        → try_send c.queue msg ≡ some q
        → Grows c (record c { queue = q })
    sent-Grows msg c q sent = record {
      tally = refl;
      more = msg ∷ [];
      queued = fifo c.queue q msg sent;
    }

    queued-Grows : (msg : Text) (c : Client Q) → Grows c (send_or_hang_up try_send msg c).0
    unfolding send_or_hang_up
    queued-Grows msg c = elim (Option-cases (try_send c.queue msg)) [
      | inl full ↦ rw (full, send_or_hang_up) (Grows-same c (hang_up (drop_frame c)) refl refl)
      | inr (q, sent) ↦ rw (sent, send_or_hang_up) (sent-Grows msg c q sent)
    ]

    dropped-Grows : (msg : Text) (c : Client Q) → Grows c (send_or_drop try_send msg c)
    unfolding send_or_drop
    dropped-Grows msg c = elim (Option-cases (try_send c.queue msg)) [
      | inl full ↦ rw (full, send_or_drop) (Grows-same c (drop_frame c) refl refl)
      | inr (q, sent) ↦ rw (sent, send_or_drop) (sent-Grows msg c q sent)
    ]

    send_frame-Grows :
        (incremental : Bool) (msg : Text) (c : Client Q)
        → Grows c (send_frame try_send incremental msg c)
    unfolding send_frame
    send_frame-Grows true msg c = queued-Grows msg c
    send_frame-Grows false msg c = dropped-Grows msg c

    pub fan_out-Grows :
        (incremental : Bool) (msg : Text) (ids : List ℕ) (heap : ℕ → Client Q) (i : ℕ)
        → Grows (heap i) (fan_out try_send incremental msg ids heap i)
    unfolding fan_out
    fan_out-Grows incremental msg [] heap i = Grows-refl (heap i)
    fan_out-Grows incremental msg (id ∷ ids) heap i =
        let next = on_client id (send_frame try_send incremental msg) heap in
        Grows-trans (heap i) (next i) _
          (on_client-Grows (send_frame try_send incremental msg) (send_frame-Grows incremental msg)
            id heap i)
          (fan_out-Grows incremental msg ids next i)

    pub send_all-Grows : (msgs : List Text) (c : Client Q) → Grows c (send_all try_send msgs c)
    unfolding send_all
    send_all-Grows [] c = Grows-refl c
    send_all-Grows (msg ∷ msgs) c =
        if_cases (Grows c) (send_or_hang_up try_send msg c).1
          (λ went.
            Grows-trans c (send_or_hang_up try_send msg c).0 _ (queued-Grows msg c)
              (send_all-Grows msgs (send_or_hang_up try_send msg c).0))
          (λ failed. queued-Grows msg c)

  pub detach_all-heap :
      (id : ℕ) (keys : List SubKey) (st : AppState Q) → (detach_all id keys st).heap ≡ st.heap
  unfolding detach_all
  detach_all-heap id [] st = refl
  detach_all-heap id (key ∷ keys) st =
      detach_all-heap id keys (detach id key st) ∙ detach-heap id key st

  pub subscribe-Grows :
      (now id : ℕ) (key : SubKey) (st : AppState Q) (i : ℕ)
      → Grows (st.heap i) ((subscribe now id key st).0.heap i)
  unfolding subscribe broadcast_ctrl
  subscribe-Grows now id key st i =
      let added =
        on_client-Grows (add_key key) (λ c. Grows-same c (add_key key c) refl refl) id st.heap i in
      if_cases (λ (r : AppState Q × SubscribeOutcome). Grows (st.heap i) (r.0.heap i))
        (holds_key key (st.heap id).subscriptions) (λ _. Grows-refl (st.heap i))
        (λ _.
          if_cases (λ (r : AppState Q × SubscribeOutcome). Grows (st.heap i) (r.0.heap i))
            (entry_of now key st).upstream_subscribed (λ _. added) (λ _. added))

  pub unsubscribe-Grows :
      (id : ℕ) (key : SubKey) (st : AppState Q) (i : ℕ)
      → Grows (st.heap i) ((unsubscribe id key st).0.heap i)
  unfolding unsubscribe
  unsubscribe-Grows id key st i =
      let freed = with_client id (forget_key key) st in
      if_cases (λ (r : AppState Q × Bool). Grows (st.heap i) (r.0.heap i))
        (holds_key key (st.heap id).subscriptions)
        (λ _.
          subst (λ (h : ℕ → Client Q). Grows (st.heap i) (h i)) (sym (detach-heap id key freed))
            (on_client-Grows (forget_key key) (λ c. Grows-same c (forget_key key c) refl refl) id
              st.heap i))
        (λ _. Grows-refl (st.heap i))
