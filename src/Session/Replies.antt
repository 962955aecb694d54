-- ===== src/Session/Replies.antt =====
-- What a request, of `handle_request` in src/client.rs, puts into the queues of the clients.
use hypeha.Base.{
  ℕ, ◌≡◌, subst, Bool, true, false, List, [], ◌∷◌, ◌++◌, Option, some, inl, inr, Option-cases, Text,
  option_cases, if_cases,
}
use hypeha.SubKey.{SubKey, label, normalized, is_incremental}
use hypeha.Hub.{Client, AppState, with_client}
use hypeha.Hub.Registry
use hypeha.Hub.Registry.{SubscribeOutcome, fresh, joined, duplicate}
use hypeha.Hub.Queues.{
  Grows, Grows-refl, Grows-trans, on_client-Grows, sent-Grows, subscribe-Grows, unsubscribe-Grows,
}
use hypeha.Hub.Feeds.{Feeds}
use hypeha.Session.{
  ClientMessage, Method, Reply, logged, offer, send_ack, after_subscribe, after_unsubscribe, act,
  handle_request, leaves_last, pong_text, unsupported,
}

module _ {Q : Type 0} (contents : Q → List Text) (i : ℕ) (s : AppState Q) where
  -- A reply, if there is one, with what was queued before and more behind it.
  abbrev FeedsAfter : Option (Reply Q) → Type 0
  FeedsAfter o = (after : Reply Q) → o ≡ some after → Feeds contents i s after.0

  after-some : (reply : Reply Q) → Feeds contents i s reply.0 → FeedsAfter (some reply)
  after-some reply r after is =
      subst (λ (t : AppState Q). Feeds contents i s t) {x = reply.0} {y = after.0} (cc) r

  logged-FeedsAfter :
      (key : SubKey) (reply : Reply Q) → Feeds contents i s reply.0 → FeedsAfter (logged key reply)
  logged-FeedsAfter key reply r =
      option_cases FeedsAfter (label key) (λ after is. cc) (λ text. after-some reply r)

  module _ (try_send : Q → Text → Option Q)
      (fifo : (q q' : Q) (msg : Text)
        → try_send q msg ≡ some q'
        → contents q' ≡ contents q ++ (msg ∷ []))
      (parse_request : Text → Option ClientMessage) (ack_json : Method → SubKey → Option Text) where
    offer-Grows :
        (msg : Text) (c : Client Q) → Grows contents c (offer try_send parse_request ack_json msg c)
    offer-Grows msg c = elim (Option-cases (try_send c.queue msg)) [
      | inl full ↦ rw (full, offer) (Grows-refl contents c)
      | inr (q, sent) ↦ rw (sent, offer) (sent-Grows contents try_send fifo msg c q sent)
    ]

    offered-Feeds :
        (id : ℕ) (msg : Text) (st : AppState Q)
        → Feeds contents i s st
        → Feeds contents i s (with_client id (offer try_send parse_request ack_json msg) st)
    offered-Feeds id msg st r = Grows-trans contents (s.heap i) (st.heap i) _ r (
        on_client-Grows contents (offer try_send parse_request ack_json msg) (offer-Grows msg) id
          st.heap i)

    send_ack-Feeds :
        (id : ℕ) (method : Method) (key : SubKey) (st : AppState Q)
        → Feeds contents i s st
        → Feeds contents i s (send_ack try_send parse_request ack_json id method key st)
    unfolding send_ack
    send_ack-Feeds id method key st r =
        option_cases (λ (t : AppState Q). Feeds contents i s t) (ack_json method key) r
          (λ msg. offered-Feeds id msg st r)

    after_subscribe-FeedsAfter :
        (id : ℕ) (key : SubKey) (st : AppState Q) (outcome : SubscribeOutcome)
        → Feeds contents i s st
        → FeedsAfter (after_subscribe try_send parse_request ack_json id key (st, outcome))
    unfolding after_subscribe
    after_subscribe-FeedsAfter id key st fresh r =
        logged-FeedsAfter key _ (send_ack-Feeds id Method.subscribed key st r)
    after_subscribe-FeedsAfter id key st joined r =
        if_cases FeedsAfter (is_incremental key)
          (λ _. logged-FeedsAfter key _ (send_ack-Feeds id Method.subscribed key st r))
          (λ _. after-some _ (send_ack-Feeds id Method.subscribed key st r))
    after_subscribe-FeedsAfter id key st duplicate r =
        after-some _ (send_ack-Feeds id Method.subscribed key st r)

    after_unsubscribe-FeedsAfter :
        (id : ℕ) (key : SubKey) (last_one held : Bool) (st : AppState Q)
        → Feeds contents i s st
        → FeedsAfter (after_unsubscribe try_send parse_request ack_json id key last_one (st, held))
    unfolding after_unsubscribe
    after_unsubscribe-FeedsAfter id key last_one true st r =
        if_cases FeedsAfter last_one
          (λ _. logged-FeedsAfter key _ (send_ack-Feeds id Method.unsubscribed key st r))
          (λ _. after-some _ (send_ack-Feeds id Method.unsubscribed key st r))
    after_unsubscribe-FeedsAfter id key last_one false st r = logged-FeedsAfter key _ r

module _ {Q : Type 0} (contents : Q → List Text) (i : ℕ) (try_send : Q → Text → Option Q)
    (fifo : (q q' : Q) (msg : Text)
      → try_send q msg ≡ some q'
      → contents q' ≡ contents q ++ (msg ∷ []))
    (parse_request : Text → Option ClientMessage) (ack_json : Method → SubKey → Option Text) where
  act-FeedsAfter :
      (now id : ℕ) (req : ClientMessage) (st : AppState Q)
      → FeedsAfter contents i st (act try_send parse_request ack_json now id req st)
  unfolding act
  act-FeedsAfter now id ClientMessage.ping st = after-some contents i st _ (
      offered-Feeds contents i st try_send fifo parse_request ack_json id pong_text st
        (Grows-refl contents (st.heap i)))
  act-FeedsAfter now id (ClientMessage.subscribe subscription) st =
      let key = normalized subscription in
      if_cases (FeedsAfter contents i st) (unsupported key)
        (λ _. logged-FeedsAfter contents i st key _ (Grows-refl contents (st.heap i)))
        (λ _.
          after_subscribe-FeedsAfter contents i st try_send fifo parse_request ack_json id key _
            (Registry.subscribe now id key st).1 (subscribe-Grows contents now id key st i))
  act-FeedsAfter now id (ClientMessage.unsubscribe subscription) st =
      let key = normalized subscription in
      after_unsubscribe-FeedsAfter contents i st try_send fifo parse_request ack_json id key
        (leaves_last id key st) (Registry.unsubscribe id key st).1 _
        (unsubscribe-Grows contents id key st i)

  pub handle_request-Feeds :
      (now id : ℕ) (text : Text) (st : AppState Q) (after : Reply Q)
      → handle_request try_send parse_request ack_json now id text st ≡ some after
      → Feeds contents i st after.0
  unfolding handle_request
  handle_request-Feeds now id text st after =
      option_cases (FeedsAfter contents i st) (parse_request text)
        (after-some contents i st _ (Grows-refl contents (st.heap i)))
        (λ req. act-FeedsAfter now id req st) after
