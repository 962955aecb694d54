-- ===== src/Upstream/Connection.antt =====
-- The life of one source's connection, from src/upstream.rs, `run`: what happens when it is made,
-- at each incoming event and when it is lost, and the delay before the next attempt. What is
-- spawned (snapshot fetches) is returned.
use hypeha.Base.{
  ℕ, ◌*◌, Bool, true, false, List, [], map, Option, ◌==◌, if◌then◌else◌, min, add_u64, Text,
}
use hypeha.SubKey.{SubKey, SubRequest}
use hypeha.Stats.{SourceStats, millis, secs, count_packet}
use hypeha.Hub.{Source, AppState, with_source}
use hypeha.Hub.Registry.{subscribed_requests}
use hypeha.Hub.Recovery.{resync_after_source_loss}
use hypeha.Upstream.{Frame, Clock, handle_text}

abbrev pub reconnect_min : ℕ
reconnect_min = millis 250

abbrev pub reconnect_max : ℕ
reconnect_max = secs 10

-- The delay after one more attempt.
unfoldable pub next_backoff : ℕ → ℕ
next_backoff backoff = min (backoff * 2) reconnect_max

-- The delay slept after n attempts in a row that failed.
unfoldable pub backoff_after : ℕ → ℕ
unfolding next_backoff
backoff_after ℕ.zero = reconnect_min
backoff_after (ℕ.suc n) = next_backoff (backoff_after n)

pub data Incoming : Type 0 where
  text : Text → Incoming
  binary ping pong close ended error : Incoming

abbrev pub mark_up : SourceStats → SourceStats
mark_up s = record s { connected = true }

abbrev mark_down : SourceStats → SourceStats
mark_down s = record s { connected = false; disconnects = add_u64 s.disconnects 1 }

abbrev pub drain_ctrl : ℕ → Source → Source
drain_ctrl id s = if s.id == id then record s { ctrl = [] } else s

module _ {Q : Type 0} where
  -- The source is up, and what was queued for it is dropped.
  unfoldable pub drain : ℕ → AppState Q → AppState Q
  drain src st =
      let up = with_source src mark_up st in record up { sources = map (drain_ctrl src) up.sources }

  -- Then everything live is subscribed anew.
  unfoldable pub on_connect : ℕ → AppState Q → AppState Q × List SubRequest
  unfolding drain
  on_connect src st = let drained = drain src st in (drained, subscribed_requests drained)

  unfoldable pub on_disconnect : ℕ → AppState Q → AppState Q × List (SubKey × ℕ)
  on_disconnect src st = resync_after_source_loss src (with_source src mark_down st)

module _ {Q : Type 0} (try_send : Q → Text → Option Q) (parse : Text → Option Frame) where
  -- One event of the socket: the state after it, and whether the connection goes on.
  unfoldable pub on_incoming : ℕ → Clock → Incoming → AppState Q → AppState Q × Bool
  on_incoming src clock (Incoming.text t) st =
      (handle_text try_send parse src clock t (with_source src count_packet st), true)
  on_incoming src clock Incoming.binary st = (with_source src count_packet st, true)
  on_incoming src clock Incoming.ping st = (st, true)
  on_incoming src clock Incoming.pong st = (st, true)
  on_incoming src clock Incoming.close st = (st, false)
  on_incoming src clock Incoming.ended st = (st, false)
  on_incoming src clock Incoming.error st = (st, false)
