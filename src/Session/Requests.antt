-- ===== src/Session/Requests.antt =====
-- A client's requests, of `handle_request` in src/client.rs, and who is on the entries.
use hypeha.Base.{
  ℕ, ◌≡◌, refl, subst, ◌∙◌, Bool, true, false, Option, some, Text, option_cases, if_cases, ◌==◌, ap,
}
use hypeha.SubKey.{SubKey, label, normalized, is_incremental}
use hypeha.Hub.{Client, AppState, find_entry, with_client}
use hypeha.Hub.Registry
use hypeha.Hub.Registry.{SubscribeOutcome, fresh, joined, duplicate, holds_key}
use hypeha.Hub.Members.{Registered, holds}
use hypeha.Hub.Members.Calls.{Registered-heap, subscribe-Registered, unsubscribe-Registered}
use hypeha.Session.{
  ClientMessage, Method, Reply, logged, offer, send_ack, after_subscribe, after_unsubscribe, act,
  handle_request, leaves_last, pong_text, unsupported,
}

-- A key's entry and the clients agree after a request that does not abort the program.
abbrev pub Agree : {Q : Type 0} → SubKey → AppState Q → Type 0
Agree k st = Registered k (find_entry k st) st.heap

abbrev AgreeAfter : {Q : Type 0} → SubKey → Option (Reply Q) → Type 0
AgreeAfter {Q} k o = (after : Reply Q) → o ≡ some after → Agree k after.0

after-some :
    {Q : Type 0} (k : SubKey) (reply : Reply Q) → Agree k reply.0 → AgreeAfter k (some reply)
after-some k reply r after is = subst (Agree k) {x = reply.0} {y = after.0} (cc) r

logged-AgreeAfter :
    {Q : Type 0} (k key : SubKey) (reply : Reply Q)
    → Agree k reply.0
    → AgreeAfter k (logged key reply)
logged-AgreeAfter k key reply r =
    option_cases (AgreeAfter k) (label key) (λ after is. cc) (λ text. after-some k reply r)

module _ {Q : Type 0} (try_send : Q → Text → Option Q) (parse_request : Text → Option ClientMessage)
    (ack_json : Method → SubKey → Option Text) (k : SubKey) where
  offer-keeps :
      (msg : Text) (c : Client Q)
      → ((offer try_send parse_request ack_json msg c).subscriptions ≡ c.subscriptions)
        × ((offer try_send parse_request ack_json msg c).kill ≡ c.kill)
  offer-keeps msg c =
      option_cases (λ (d : Client Q). (d.subscriptions ≡ c.subscriptions) × (d.kill ≡ c.kill))
        (try_send c.queue msg) (refl, refl) (λ q. (refl, refl))

  offered-Agree :
      (id : ℕ) (msg : Text) (st : AppState Q)
      → Agree k st
      → Agree k (with_client id (offer try_send parse_request ack_json msg) st)
  offered-Agree id msg st r =
      Registered-heap k (find_entry k st) st.heap _
        (λ i.
          if_cases (λ (c : Client Q). holds_key k c.subscriptions ≡ holds k i st.heap) (i == id)
            (λ same. ap (holds_key k) (offer-keeps msg (st.heap i)).0) (λ other. refl))
        (λ i h dead.
          if_cases (λ (c : Client Q). c.kill ≡ true) (i == id)
            (λ same. (offer-keeps msg (st.heap i)).1 ∙ dead) (λ other. dead))
        r

  send_ack-Agree :
      (id : ℕ) (method : Method) (key : SubKey) (st : AppState Q)
      → Agree k st
      → Agree k (send_ack try_send parse_request ack_json id method key st)
  unfolding send_ack
  send_ack-Agree id method key st r =
      option_cases (Agree k) (ack_json method key) r (λ msg. offered-Agree id msg st r)

  after_subscribe-AgreeAfter :
      (id : ℕ) (key : SubKey) (st : AppState Q) (outcome : SubscribeOutcome)
      → Agree k st
      → AgreeAfter k (after_subscribe try_send parse_request ack_json id key (st, outcome))
  unfolding after_subscribe
  after_subscribe-AgreeAfter id key st fresh r =
      logged-AgreeAfter k key _ (send_ack-Agree id Method.subscribed key st r)
  after_subscribe-AgreeAfter id key st joined r =
      if_cases (AgreeAfter k) (is_incremental key)
        (λ _. logged-AgreeAfter k key _ (send_ack-Agree id Method.subscribed key st r))
        (λ _. after-some k _ (send_ack-Agree id Method.subscribed key st r))
  after_subscribe-AgreeAfter id key st duplicate r =
      after-some k _ (send_ack-Agree id Method.subscribed key st r)

  after_unsubscribe-AgreeAfter :
      (id : ℕ) (key : SubKey) (last_one : Bool) (st : AppState Q) (held : Bool)
      → Agree k st
      → AgreeAfter k (after_unsubscribe try_send parse_request ack_json id key last_one (st, held))
  unfolding after_unsubscribe
  after_unsubscribe-AgreeAfter id key last_one st true r =
      if_cases (AgreeAfter k) last_one
        (λ _. logged-AgreeAfter k key _ (send_ack-Agree id Method.unsubscribed key st r))
        (λ _. after-some k _ (send_ack-Agree id Method.unsubscribed key st r))
  after_unsubscribe-AgreeAfter id key last_one st false r = logged-AgreeAfter k key _ r

  act-AgreeAfter :
      (now id : ℕ) (req : ClientMessage) (st : AppState Q)
      → Agree k st
      → AgreeAfter k (act try_send parse_request ack_json now id req st)
  unfolding act
  act-AgreeAfter now id ClientMessage.ping st r = after-some k _ (offered-Agree id pong_text st r)
  act-AgreeAfter now id (ClientMessage.subscribe subscription) st r =
      let key = normalized subscription in
      if_cases (AgreeAfter k) (unsupported key) (λ _. logged-AgreeAfter k key _ r)
        (λ _.
          after_subscribe-AgreeAfter id key _ (Registry.subscribe now id key st).1
            (subscribe-Registered k now id key st r))
  act-AgreeAfter now id (ClientMessage.unsubscribe subscription) st r =
      let key = normalized subscription in
      after_unsubscribe-AgreeAfter id key (leaves_last id key st) _
        (Registry.unsubscribe id key st).1 (unsubscribe-Registered k id key st r)

  -- A request of a client, whatever it says, if it does not abort the program, keeps a key's entry
  -- and the clients in agreement: who is on the entry holds the key and the key is subscribed
  -- upstream, who holds the key is there or is to hang up, and a key subscribed upstream is pinned
  -- or held.
  pub handle_request-Agree :
      (now id : ℕ) (text : Text) (st : AppState Q) (after : Reply Q)
      → Agree k st
      → handle_request try_send parse_request ack_json now id text st ≡ some after
      → Agree k after.0
  unfolding handle_request
  handle_request-Agree now id text st after r =
      option_cases (AgreeAfter k) (parse_request text) (after-some k _ r)
        (λ req. act-AgreeAfter now id req st r) after
