-- ===== src/Session/Panics.antt =====
-- A request whose log line panics, and those that cannot.
use hypeha.Base.{ℕ, ◌≡◌, ◌≢◌, Bool, true, false, Option, none, some, arith, Text, if_cases}
use hypeha.SubKey.{SubKey, normalized, label, is_incremental}
use hypeha.Hub.{AppState}
use hypeha.Hub.Registry
use hypeha.Hub.Registry.{SubscribeOutcome, fresh, joined, duplicate, holds_key}
use hypeha.Session.{
  ClientMessage, Method, Reply, act, after_subscribe, after_unsubscribe, handle_request,
  unsupported, leaves_last, logged,
}

-- The label of the key of a request is printed.
abbrev pub IsPrintable : ClientMessage → Type 0
IsPrintable ClientMessage.ping = Unit {0}
IsPrintable (ClientMessage.subscribe key) = label (normalized key) ≢ none
IsPrintable (ClientMessage.unsubscribe key) = label (normalized key) ≢ none

abbrev Answers : {Q : Type 0} → Option (Reply Q) → Type 0
Answers r = r ≢ none

logged-Answers :
    {Q : Type 0} (key : SubKey) (r : Reply Q) → label key ≢ none → Answers (logged key r)
logged-Answers key r h = ground arith

module _ {Q : Type 0} (try_send : Q → Text → Option Q) (parse_request : Text → Option ClientMessage)
    (ack_json : Method → SubKey → Option Text) where
  subscribed-Answers :
      (id : ℕ) (key : SubKey) (st : AppState Q) (outcome : SubscribeOutcome)
      → label key ≢ none
      → Answers (after_subscribe try_send parse_request ack_json id key (st, outcome))
  unfolding after_subscribe
  subscribed-Answers id key st fresh h = logged-Answers key _ h
  subscribed-Answers id key st joined h =
      if_cases Answers (is_incremental key) (λ inc. logged-Answers key _ h)
        (λ full. λ e. ground arith)
  subscribed-Answers id key st duplicate h = λ e. ground arith

  unsubscribed-Answers :
      (id : ℕ) (key : SubKey) (last_one : Bool) (st : AppState Q) (held : Bool)
      → label key ≢ none
      → Answers (after_unsubscribe try_send parse_request ack_json id key last_one (st, held))
  unfolding after_unsubscribe
  unsubscribed-Answers id key last_one st true h =
      if_cases Answers last_one (λ last. logged-Answers key _ h) (λ more. λ e. ground arith)
  unsubscribed-Answers id key last_one st false h = logged-Answers key _ h

  -- A request whose key has a label that is printed does not abort the program.
  act_answers :
      (now id : ℕ) (msg : ClientMessage) (st : AppState Q)
      → IsPrintable msg
      → act try_send parse_request ack_json now id msg st ≢ none
  unfolding act
  act_answers now id ClientMessage.ping st h = λ e. ground arith
  act_answers now id (ClientMessage.subscribe key) st h =
      if_cases Answers (unsupported (normalized key))
        (λ refused. logged-Answers (normalized key) _ h)
        (λ fine.
          subscribed-Answers id (normalized key) (Registry.subscribe now id (normalized key) st).0
            (Registry.subscribe now id (normalized key) st).1 h)
  act_answers now id (ClientMessage.unsubscribe key) st h =
      unsubscribed-Answers id (normalized key) (leaves_last id (normalized key) st)
        (Registry.unsubscribe id (normalized key) st).0
        (Registry.unsubscribe id (normalized key) st).1 h

  absent_aborts :
      (id : ℕ) (key : SubKey) (last_one : Bool) (st : AppState Q)
      → label key ≡ none
      → after_unsubscribe try_send parse_request ack_json id key last_one (st, false) ≡ none
  unfolding after_unsubscribe
  absent_aborts id key last_one st panics = ground arith

  -- A client that unsubscribes from a key that it does not hold, and whose label panics, aborts the
  -- program.
  pub unsubscribe_aborts :
      (now id : ℕ) (text : Text) (key : SubKey) (st : AppState Q)
      → parse_request text ≡ some (ClientMessage.unsubscribe key)
      → holds_key (normalized key) (st.heap id).subscriptions ≡ false
      → label (normalized key) ≡ none
      → handle_request try_send parse_request ack_json now id text st ≡ none
  unfolding handle_request act Registry.unsubscribe after_unsubscribe
  unsubscribe_aborts now id text key st parsed absent panics =
      rw (parsed, handle_request)
        (rw absent
          (absent_aborts id (normalized key) (leaves_last id (normalized key) st) st panics))
