-- ===== src/Session/Socket.antt =====
-- The life of a client's connection, `handle_socket` of src/client.rs: a writer that drains the
-- client's queue to the socket, a reader that hands its requests on, and the wait for the first of
-- them to end or for the client to be told to hang up. `recv` takes the first message out of a queue.
-- `abort` is taken to stop a task at once. A request that panics aborts the program: nothing follows.
use hypeha.Base.{
  ℕ, ◌≡◌, Bool, true, false, not, ◌||◌, List, [], ◌∷◌, ◌++◌, Option, some, ◌==◌, add_u64, length,
  Text,
}
use hypeha.SubKey.{SubKey}
use hypeha.Hub.{Client, AppState, with_client}
use hypeha.Hub.Registry.{cleanup_client}
use hypeha.Hub.Reach.{Step}
use hypeha.Hub.Feeds.{Spares}
use hypeha.Session.{ClientMessage, Method, Reply, handle_request}

-- The tasks of a connection, what went out on its socket, and whether the client was cleaned up.
pub record Conn : Type 0 where
  pub writing : Bool
  pub reading : Bool
  pub sent : List Text
  pub closed : Bool

abbrev pub opened : Conn
opened = record { writing = true; reading = true; sent = []; closed = false }

abbrev pub both_stopped : Conn → Conn
both_stopped c = record c { writing = false; reading = false; closed = true }

-- What `select!` waits for.
abbrev pub is_over : Bool → Conn → Bool
is_over kill c = not c.writing || (not c.reading || kill)

module _ {Q : Type 0} where
  -- A message that the writer has sent.
  unfoldable pub tally_sent : ℕ → Text → Q → AppState Q → AppState Q
  tally_sent id msg rest =
      with_client id
        (λ c. record c { queue = rest; bytes_sent = add_u64 c.bytes_sent (length msg) })

  -- A message that the writer has taken and could not send.
  unfoldable pub take_unsent : ℕ → Q → AppState Q → AppState Q
  take_unsent id rest = with_client id (λ c. record c { queue = rest })

module _ {Q : Type 0} (try_send : Q → Text → Option Q) (recv : Q → Option (Text × Q))
    (parse_request : Text → Option ClientMessage) (ack_json : Method → SubKey → Option Text) where
  -- One event of the connection of a client, or one elsewhere: an operation of the hub, a request of
  -- another client, or whatever else another connection does to its own client.
  pub data Happening (id : ℕ) : AppState Q → Conn → AppState Q → Conn → Type 0 where
    writes :
        (st : AppState Q) (c : Conn) (msg : Text) (rest : Q)
        → c.writing ≡ true
        → recv (st.heap id).queue ≡ some (msg, rest)
        → Happening id st c (tally_sent id msg rest st) (record c { sent = c.sent ++ (msg ∷ []) })
    breaks :
        (st : AppState Q) (c : Conn) (msg : Text) (rest : Q)
        → c.writing ≡ true
        → recv (st.heap id).queue ≡ some (msg, rest)
        → Happening id st c (take_unsent id rest st) (record c { writing = false })
    reads :
        (st : AppState Q) (c : Conn) (now : ℕ) (text : Text) (after : Reply Q)
        → c.reading ≡ true
        → handle_request try_send parse_request ack_json now id text st ≡ some after
        → Happening id st c after.0 c
    stops_reading :
        (st : AppState Q) (c : Conn)
        → c.reading ≡ true
        → Happening id st c st (record c { reading = false })
    closes :
        (st : AppState Q) (c : Conn)
        → c.closed ≡ false
        → is_over (st.heap id).kill c ≡ true
        → Happening id st c (cleanup_client id st) (both_stopped c)
    operates :
        (s t : AppState Q) (c : Conn) (step : Step try_send s t)
        → Spares id step
        → Happening id s c t c
    requests :
        (st : AppState Q) (c : Conn) (now other : ℕ) (text : Text) (after : Reply Q)
        → handle_request try_send parse_request ack_json now other text st ≡ some after
        → Happening id st c after.0 c
    takes :
        (st : AppState Q) (c : Conn) (other : ℕ) (change : Client Q → Client Q)
        → (id == other) ≡ false
        → Happening id st c (with_client other change st) c

  -- The life of a connection up to a state, from another.
  pub data Lives (id : ℕ) (s : AppState Q) (c : Conn) : AppState Q → Conn → Type 0 where
    begins : Lives id s c s c
    turns :
        {t u : AppState Q} {d e : Conn} → Lives id s c t d → Happening id t d u e → Lives id s c u e
