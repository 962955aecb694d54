-- ===== src/Session/Sent.antt =====
-- What goes out on a client's socket in the life of its connection, `handle_socket` of
-- src/client.rs, against what is put into its queue.
use hypeha.Base.{
  ℕ, ◌+◌, ◌%◌, ◌^◌, ◌≡◌, refl, ◌∙◌, ap, sym, true, false, List, [], ◌∷◌, ◌++◌, append-nil,
  append_assoc, Option, some, ◌==◌, length, arith, Text,
}
use hypeha.SubKey.{SubKey}
use hypeha.Hub.{AppState, register_client}
use hypeha.Hub.Feeds.{Feeds, Step-Feeds, cleanup-Feeds}
use hypeha.Session.{ClientMessage, Method}
use hypeha.Session.Replies.{handle_request-Feeds}
use hypeha.Session.Socket.{Conn, opened, tally_sent, take_unsent, Happening, Lives}

abbrev pub bytes_of : List Text → ℕ
bytes_of [] = 0
bytes_of (msg ∷ msgs) = length msg + bytes_of msgs

bytes_of-append :
    (xs : List Text) (msg : Text) → bytes_of (xs ++ (msg ∷ [])) ≡ bytes_of xs + length msg
bytes_of-append [] msg = omega arith
bytes_of-append (x ∷ xs) msg = omega (arith, bytes_of-append xs msg)

on_itself : (id : ℕ) → (id == id) ≡ true
on_itself id = ground arith

-- What went out on a connection, and what is in the queue behind it.
abbrev pub stream_of : {Q : Type 0} → (Q → List Text) → ℕ → AppState Q → Conn → List Text
stream_of contents id st c = c.sent ++ contents (st.heap id).queue

-- A list with more behind it.
abbrev pub Longer : List Text → List Text → Type 0
Longer xs ys = (more : List Text) × (ys ≡ xs ++ more)

module _ {Q : Type 0} (contents : Q → List Text) (try_send : Q → Text → Option Q)
    (fifo : (q q' : Q) (msg : Text)
      → try_send q msg ≡ some q'
      → contents q' ≡ contents q ++ (msg ∷ []))
    (recv : Q → Option (Text × Q))
    (first : (q rest : Q) (msg : Text)
      → recv q ≡ some (msg, rest)
      → contents q ≡ msg ∷ contents rest)
    (parse_request : Text → Option ClientMessage) (ack_json : Method → SubKey → Option Text) where
  Feeds-Longer :
      (id : ℕ) (s t : AppState Q) (c : Conn)
      → Feeds contents id s t
      → Longer (stream_of contents id s c) (stream_of contents id t c)
  Feeds-Longer id s t c f = (
    f.more,
    ap (λ l. c.sent ++ l) f.queued ∙ sym (append_assoc c.sent (contents (s.heap id).queue) f.more),
  )

  -- The writer moves a message from the front of the queue to the socket.
  writes-stream :
      (id : ℕ) (st : AppState Q) (c : Conn) (msg : Text) (rest : Q)
      → recv (st.heap id).queue ≡ some (msg, rest)
      → stream_of contents id (tally_sent id msg rest st) (record c { sent = c.sent ++ (msg ∷ []) })
        ≡ stream_of contents id st c
  unfolding tally_sent
  writes-stream id st c msg rest taken = rw (on_itself id) (
      append_assoc c.sent (msg ∷ []) (contents rest)
      ∙ ap (λ l. c.sent ++ l) (sym (first (st.heap id).queue rest msg taken)))

  Happening-Longer :
      (id : ℕ) {s t : AppState Q} {c d : Conn}
      → Happening try_send recv parse_request ack_json id s c t d
      → d.writing ≡ true
      → (c.writing ≡ true) × Longer (stream_of contents id s c) (stream_of contents id t d)
  Happening-Longer id (Happening.writes st c msg rest going taken) on = (
    going,
    ([], writes-stream id st c msg rest taken ∙ sym (append-nil (stream_of contents id st c))),
  )
  Happening-Longer id (Happening.breaks st c msg rest going taken) on = absurd (cc on)
  Happening-Longer id (Happening.reads st c now text after going asked) on = (
    on,
    Feeds-Longer id st after.0 c (
        handle_request-Feeds contents id try_send fifo parse_request ack_json now id text st after
          asked),
  )
  Happening-Longer id (Happening.stops_reading st c going) on =
      (on, ([], sym (append-nil (stream_of contents id st c))))
  Happening-Longer id (Happening.closes st c open_still over) on = absurd (cc on)
  Happening-Longer id (Happening.operates s t c step spares) on =
      (on, Feeds-Longer id s t c (Step-Feeds contents try_send fifo id step spares))
  Happening-Longer id (Happening.requests st c now other text after asked) on = (
    on,
    Feeds-Longer id st after.0 c (
        handle_request-Feeds contents id try_send fifo parse_request ack_json now other text st
          after asked),
  )
  Happening-Longer id (Happening.takes st c other change apart) on =
      (on, ([], rw apart (sym (append-nil (stream_of contents id st c)))))

  -- On a first-in first-out queue, in the life of a client's connection, whatever happens meanwhile
  -- as long as its id is given to no other client: while its writer runs, what has gone out on the
  -- socket followed by what is queued only gets longer, at its end. So nothing that was queued is
  -- lost, repeated or moved on its way to the socket.
  pub Lives-Longer :
      (id : ℕ) {s : AppState Q} {c : Conn} {t : AppState Q} {d : Conn}
      → Lives try_send recv parse_request ack_json id s c t d
      → d.writing ≡ true
      → Longer (stream_of contents id s c) (stream_of contents id t d)
  Lives-Longer id {s} {c} Lives.begins on = ([], sym (append-nil (stream_of contents id s c)))
  Lives-Longer id {s} {c} (Lives.turns life turn) on =
      let (before, (more, moved)) = Happening-Longer id turn on in
      let (earlier, put) = Lives-Longer id life before in
      (
        earlier ++ more,
        moved ∙ ap (λ l. l ++ more) put ∙ append_assoc (stream_of contents id s c) earlier more,
      )

  abbrev Tallied : ℕ → AppState Q → Conn → Type 0
  Tallied id st c = (st.heap id).bytes_sent ≡ bytes_of c.sent % 2 ^ 64

  writes-Tallied :
      (id : ℕ) (st : AppState Q) (c : Conn) (msg : Text) (rest : Q)
      → Tallied id st c
      → Tallied id (tally_sent id msg rest st) (record c { sent = c.sent ++ (msg ∷ []) })
  unfolding tally_sent
  writes-Tallied id st c msg rest counted =
      rw (on_itself id) (omega (arith, counted, bytes_of-append c.sent msg))

  breaks-Tallied :
      (id : ℕ) (st : AppState Q) (c : Conn) (rest : Q)
      → Tallied id st c
      → Tallied id (take_unsent id rest st) (record c { writing = false })
  unfolding take_unsent
  breaks-Tallied id st c rest counted = rw (on_itself id) counted

  Happening-Tallied :
      (id : ℕ) {s t : AppState Q} {c d : Conn}
      → Happening try_send recv parse_request ack_json id s c t d
      → Tallied id s c
      → Tallied id t d
  Happening-Tallied id (Happening.writes st c msg rest going taken) counted =
      writes-Tallied id st c msg rest counted
  Happening-Tallied id (Happening.breaks st c msg rest going taken) counted =
      breaks-Tallied id st c rest counted
  Happening-Tallied id (Happening.reads st c now text after going asked) counted =
      (handle_request-Feeds contents id try_send fifo parse_request ack_json now id text st after
        asked).tally
      ∙ counted
  Happening-Tallied id (Happening.stops_reading st c going) counted = counted
  Happening-Tallied id (Happening.closes st c open_still over) counted =
      (cleanup-Feeds contents id st id).tally ∙ counted
  Happening-Tallied id (Happening.operates s t c step spares) counted =
      (Step-Feeds contents try_send fifo id step spares).tally ∙ counted
  Happening-Tallied id (Happening.requests st c now other text after asked) counted =
      (handle_request-Feeds contents id try_send fifo parse_request ack_json now other text st after
        asked).tally
      ∙ counted
  Happening-Tallied id (Happening.takes st c other change apart) counted = rw apart counted

  Lives-Tallied :
      (id : ℕ) {s : AppState Q} {c : Conn} {t : AppState Q} {d : Conn}
      → Lives try_send recv parse_request ack_json id s c t d
      → Tallied id s c
      → Tallied id t d
  Lives-Tallied id Lives.begins counted = counted
  Lives-Tallied id (Lives.turns life turn) counted =
      Happening-Tallied id turn (Lives-Tallied id life counted)

  -- From the registration of a client on, on a first-in first-out queue and as long as its id is
  -- given to no other client, the bytes counted as sent to it are the length of what has gone out
  -- on its socket, modulo 2 ^ 64.
  pub life_is_tallied :
      (channel : ℕ → Q) (now : ℕ) (ip : Text) (st t : AppState Q) (d : Conn)
      → Lives try_send recv parse_request ack_json st.next_client_id
          (register_client channel now ip st).0
          opened
          t
          d
      → (t.heap st.next_client_id).bytes_sent ≡ bytes_of d.sent % 2 ^ 64
  unfolding register_client
  life_is_tallied channel now ip st t d life =
      Lives-Tallied st.next_client_id life (rw (on_itself st.next_client_id) refl)
