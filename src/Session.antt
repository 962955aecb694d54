-- ===== src/Session.antt =====
-- A client's requests, from src/client.rs: `ClientMessage`, `handle_request`, `unsupported`,
-- `send_ack` and `truncate`. `serde_json` is a parameter: `parse_request` reads a request and
-- `ack_json` writes an acknowledgement. A log line has no effect but one: it prints the label of a
-- key, and `none` is the panic of a label that slices inside a character, which aborts the
-- program.
pub mod Requests
pub mod Truncation
pub mod Panics
pub mod Replies
pub mod Socket
pub mod Sent
use hypeha.Base.{
  ℕ, zero, suc, ◌-◌, Bool, true, false, not, ◌&&◌, List, [], ◌∷◌, ◌++◌, Option, none, some, leb,
  ◌==◌, if◌then◌else◌, Text, codes, length, take, is_char_boundary,
}
use hypeha.SubKey.{SubKey, normalized, is_incremental, label}
use hypeha.Hub.{Client, AppState, find_entry, with_client}
use hypeha.Hub.Registry.{SubscribeOutcome, fresh, joined, duplicate, leave_entry}
use hypeha.Hub.Registry
use hypeha.Hub.Update.{send_or_hang_up}

pub data ClientMessage : Type 0 where
  subscribe unsubscribe : SubKey → ClientMessage
  ping : ClientMessage

-- The methods that an acknowledgement names.
pub data Method : Type 0 where
  subscribed unsubscribed : Method

-- Whether a channel is refused.
unfoldable pub unsupported : SubKey → Bool
unsupported (SubKey.book_diffs coin) = true
unsupported other = false

-- The last boundary at or below an index: `while end > 0 && !s.is_char_boundary(end)`.
unfoldable pub boundary_below : Text → ℕ → ℕ
boundary_below s zero = zero
boundary_below s (suc end) =
    let lower = boundary_below s end in if is_char_boundary s (suc end) then suc end else lower

abbrev pub truncate_max : ℕ
truncate_max = 200

-- The bytes of `…`.
abbrev pub ellipsis : Text
ellipsis = 226 ∷ 128 ∷ 166 ∷ []

unfoldable pub truncate : Text → Text
unfolding boundary_below
truncate s =
    if leb (length s) truncate_max then s else take (boundary_below s truncate_max) s ++ ellipsis

-- A client's state after a request, and the snapshots to fetch for it.
abbrev pub Reply : Type 0 → Type 0
Reply Q = AppState Q × List (SubKey × ℕ)

-- A log line with the label of a key.
abbrev pub logged : {Q : Type 0} → SubKey → Reply Q → Option (Reply Q)
logged key r = elim (label key) [ none ↦ none | some text ↦ some r ]

-- Whether the client that leaves a key is the last one there.
unfoldable pub leaves_last : {Q : Type 0} → ℕ → SubKey → AppState Q → Bool
leaves_last id key st = elim (find_entry key st) [ none ↦ false | some e ↦ (leave_entry id e).1 ]

abbrev pub pong_text : Text
pong_text = codes "{\"channel\":\"pong\"}"

module _ {Q : Type 0} (try_send : Q → Text → Option Q) (parse_request : Text → Option ClientMessage)
    (ack_json : Method → SubKey → Option Text) where
  -- A frame for the client whose loss is ignored.
  abbrev pub offer : Text → Client Q → Client Q
  offer msg c = elim (try_send c.queue msg) [ none ↦ c | some q ↦ record c { queue = q } ]

  unfoldable pub send_ack : ℕ → Method → SubKey → AppState Q → AppState Q
  send_ack id method key st = elim (ack_json method key) [
    | none ↦ st
    | some msg ↦ with_client id (offer msg) st
  ]

  -- After `subscribe`: the acknowledgement, and a snapshot to fetch for a late joiner.
  unfoldable pub after_subscribe : ℕ → SubKey → AppState Q × SubscribeOutcome → Option (Reply Q)
  unfolding send_ack
  after_subscribe id key (st, fresh) = logged key (send_ack id subscribed key st, [])
  after_subscribe id key (st, joined) =
      if is_incremental key
      then logged key (send_ack id subscribed key st, (key, id) ∷ [])
      else some (send_ack id subscribed key st, [])
  after_subscribe id key (st, duplicate) = some (send_ack id subscribed key st, [])

  -- A label is printed where the key was not held, and where the last client left.
  unfoldable pub after_unsubscribe : ℕ → SubKey → Bool → AppState Q × Bool → Option (Reply Q)
  unfolding send_ack
  after_unsubscribe id key last_one (st, true) =
      if last_one
      then logged key (send_ack id unsubscribed key st, [])
      else some (send_ack id unsubscribed key st, [])
  after_unsubscribe id key last_one (st, false) = logged key (st, [])

  unfoldable pub act : ℕ → ℕ → ClientMessage → AppState Q → Option (Reply Q)
  unfolding after_subscribe after_unsubscribe leaves_last
  act now id ClientMessage.ping st = some (with_client id (offer pong_text) st, [])
  act now id (ClientMessage.subscribe subscription) st =
      let key = normalized subscription in
      if unsupported key
      then logged key (st, [])
      else after_subscribe id key (Registry.subscribe now id key st)
  act now id (ClientMessage.unsubscribe subscription) st =
      let key = normalized subscription in
      after_unsubscribe id key (leaves_last id key st) (Registry.unsubscribe id key st)

  unfoldable pub handle_request : ℕ → ℕ → Text → AppState Q → Option (Reply Q)
  unfolding act
  handle_request now id text st = elim (parse_request text) [
    | none ↦ some (st, [])
    | some req ↦ act now id req st
  ]
