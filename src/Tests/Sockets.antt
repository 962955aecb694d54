-- ===== src/Tests/Sockets.antt =====
-- An example of a client's connection.
use hypeha.Base.{◌≡◌, refl, ◌%◌, ◌^◌, [], ◌∷◌, Option, none, some, codes, arith, Text}
use hypeha.Hub.{AppState, register_client, with_client}
use hypeha.Session.{ClientMessage, Method, offer, pong_text, handle_request, act}
use hypeha.Session.Socket.{Conn, opened, tally_sent, Happening, Lives}
use hypeha.Session.Sent.{bytes_of, stream_of, Longer, Lives-Longer, life_is_tallied}
use hypeha.SubKey.{SubKey}
use hypeha.Tests.Data.{Queue, two_at_most, two_at_most_fifo, hub}

abbrev take_first : Queue → Option (Text × Queue)
take_first [] = none
take_first (msg ∷ rest) = some (msg, rest)

take_first_lem : (q rest : Queue) (msg : Text) → take_first q ≡ some (msg, rest) → q ≡ msg ∷ rest
take_first_lem q rest msg h = ground arith

abbrev pings : Text → Option ClientMessage
pings text = some ClientMessage.ping

abbrev no_ack : Method → SubKey → Option Text
no_ack method key = none

abbrev visited : AppState Queue
visited = (register_client (λ n. []) 2 (codes "10.0.0.2") hub).0

abbrev ponged : AppState Queue
ponged = with_client 1 (offer two_at_most pings no_ack pong_text) visited

pinged : handle_request two_at_most pings no_ack 3 1 [] visited ≡ some (ponged, [])
unfolding handle_request act
pinged = refl

abbrev drained : AppState Queue
drained = tally_sent 1 pong_text [] ponged

abbrev wrote : Conn
wrote = record opened { sent = pong_text ∷ [] }

ping_life : Lives two_at_most take_first pings no_ack 1 visited opened drained wrote
unfolding register_client
ping_life =
    Lives.turns
      (Lives.turns Lives.begins (Happening.reads visited opened 3 [] (ponged, []) refl pinged))
      (Happening.writes ponged opened pong_text [] refl refl)

Lives-Longer_example :
    Longer (stream_of (λ q. q) 1 visited opened) (stream_of (λ q. q) 1 drained wrote)
Lives-Longer_example =
    Lives-Longer (λ q. q) two_at_most two_at_most_fifo take_first take_first_lem pings no_ack 1
      ping_life refl

life_is_tallied_example : (drained.heap 1).bytes_sent ≡ bytes_of wrote.sent % 2 ^ 64
life_is_tallied_example =
    life_is_tallied (λ q. q) two_at_most two_at_most_fifo take_first take_first_lem pings no_ack
      (λ n. []) 2 (codes "10.0.0.2") hub drained wrote ping_life
