-- ===== src/Entry.antt =====
-- One subscription's arbitration: `Seq`, `Pending`, `SubEntry` and the decision that
-- `AppState::on_update` takes under the entry's lock, from src/state.rs. An `Instant` is its
-- nanoseconds, and a client is its id.
pub mod Outcome
pub mod Replay
pub mod Positions
pub mod Blacklist
use hypeha.Base.{
  ℕ, ◌+◌, ◌-◌, ◌*◌, Bool, true, false, not, ◌&&◌, ◌||◌, List, [], ◌∷◌, ◌++◌, map, Option, none,
  some, ltb, leb, ◌==◌, if◌then◌else◌, add_u32, add_u64, length, set, get_or, replicate, retain,
  any, Text,
}
use hypeha.Mask.{source_bit, mark, unmark, is_marked}
use hypeha.SubKey.{SubKey, single_sourced}

-- How a frame orders against those already seen for its key.
pub data Seq : Type 0 where
  point block lead sticky snapshot : ℕ → Seq

abbrev pub pending_max_bytes : ℕ
pending_max_bytes = 64 * 1024 * 1024

-- A frame held for a parked client: its source, its height and its text.
pub record Held : Type 0 where
  pub source : ℕ
  pub height : ℕ
  pub payload : Text

pub record Pending : Type 0 where
  pub client : ℕ
  pub held : List Held
  pub bytes : ℕ

abbrev pub parked : ℕ → Pending
parked client = record { client = client; held = []; bytes = 0 }

pub record SubEntry : Type 0 where
  pub last : ℕ
  pub last_seen_at : ℕ
  pub upstream_subscribed : Bool
  pub subscribers : List ℕ
  pub pinned : Bool
  pub pending : List Pending
  pub block_leader : Option ℕ
  pub block_sampled : ℕ
  pub block_sent : ℕ
  pub block_seen : List ℕ
  pub needs_snapshot : ℕ

-- `SubEntry::default()`, made at a time.
abbrev pub default_entry : ℕ → SubEntry
default_entry now = record {
  last = 0;
  last_seen_at = now;
  upstream_subscribed = false;
  subscribers = [];
  pinned = false;
  pending = [];
  block_leader = none;
  block_sampled = 0;
  block_sent = 0;
  block_seen = [];
  needs_snapshot = 0;
}

unfoldable pub is_rebuilding : SubEntry → ℕ → Bool
is_rebuilding e client_id = any (λ p. p.client == client_id) e.pending

-- `block_seen.resize(id + 1, 0)` where it is shorter.
abbrev pub grown : List ℕ → ℕ → List ℕ
grown seen id = if leb (length seen) id then seen ++ replicate (id + 1 - length seen) 0 else seen

-- The count of a source after one more message of the open block, and the counts then.
unfoldable pub bump_block_count : List ℕ → ℕ → ℕ × List ℕ
bump_block_count seen id =
    let room = grown seen id in let n = add_u32 (get_or room id 0) 1 in (n, set room id n)

-- `open_block`: all counts go to zero, and `id` has supplied the first message.
unfoldable pub open_block : List ℕ → ℕ → List ℕ
open_block seen id = (bump_block_count (map (λ _. 0) seen) id).1

abbrev pub is_leader : Option ℕ → ℕ → Bool
is_leader none id = false
is_leader (some l) id = l == id

-- What was decided about one frame: whether it goes out, whether it won its stamp, how late it
-- came, and whether it was out of date.
pub record Verdict : Type 0 where
  pub deliver : Bool
  pub win : Bool
  pub late : Option ℕ
  pub stale : Bool

abbrev pub won : Verdict
won = record { deliver = true; win = true; late = none; stale = false }

abbrev pub carried : Bool → Verdict
carried win = record { deliver = true; win = win; late = none; stale = false }

abbrev pub trailing : Option ℕ → Verdict
trailing late = record { deliver = false; win = false; late = late; stale = false }

abbrev pub outdated : Verdict
outdated = record { deliver = false; win = false; late = none; stale = true }

-- `now.saturating_duration_since(entry.last_seen_at)`
abbrev pub lateness : SubEntry → ℕ → Option ℕ
lateness e now = some (now - e.last_seen_at)

unfoldable pub on_point : ℕ → ℕ → SubEntry → SubEntry × Verdict
on_point v now e =
    if ltb e.last v
    then (record e { last = v; last_seen_at = now }, won)
    else if v == e.last
    then (e, trailing (lateness e now))
    else (e, outdated)

unfoldable pub on_lead : ℕ → ℕ → ℕ → SubEntry → SubEntry × Verdict
on_lead src v now e =
    if ltb e.last v
    then (record e { last = v; last_seen_at = now; block_leader = some src }, won)
    else if v == e.last
    then (if is_leader e.block_leader src
        then (e, carried false)
        else (e, trailing (lateness e now)))
    else (e, outdated)

unfoldable pub on_sticky : ℕ → ℕ → ℕ → SubEntry → SubEntry × Verdict
on_sticky src v now e = elim e.block_leader [
  | none ↦ (record e { last = v; last_seen_at = now; block_leader = some src }, won)
  | some id ↦
      if id == src
      then (if leb e.last v
          then (record e { last = v; last_seen_at = now }, carried (ltb e.last v))
          else (e, outdated))
      else (e, trailing (lateness e now))
]

-- The state after a new block or a snapshot at height h, first from `src`.
abbrev pub reopened : ℕ → ℕ → ℕ → SubEntry → SubEntry
reopened src h now e = record e {
  last = h;
  last_seen_at = now;
  block_leader = some src;
  block_sampled = source_bit src;
  block_sent = 1;
  block_seen = open_block e.block_seen src;
}

-- Whether a snapshot is from the source that is followed, where a key follows one.
abbrev pub is_ours : SubKey → ℕ → Option ℕ → Bool
is_ours key src none = true
is_ours key src (some id) = not (single_sourced key) || id == src

unfoldable pub on_snapshot : SubKey → ℕ → ℕ → ℕ → SubEntry → SubEntry × Verdict
on_snapshot key src h now e =
    let cleared = record e { needs_snapshot = unmark e.needs_snapshot src } in
    if is_ours key src e.block_leader && ltb e.last h
    then (reopened src h now cleared, won)
    else (cleared, outdated)

-- A further message of the open block: `counted` is its source's count and all counts.
abbrev pub on_position : ℕ → ℕ → SubEntry → ℕ × List ℕ → SubEntry × Verdict
on_position src now e (seen, counts) =
    if ltb e.block_sent seen
    then (
      record e { block_seen = counts; block_sent = seen; block_leader = some src },
      carried false,
    )
    else if is_marked e.block_sampled src
    then (record e { block_seen = counts }, trailing none)
    else (
      record e { block_seen = counts; block_sampled = mark e.block_sampled src },
      trailing (lateness e now),
    )

unfoldable pub on_block : ℕ → ℕ → ℕ → SubEntry → SubEntry × Verdict
on_block src h now e =
    if is_marked e.needs_snapshot src
    then (e, outdated)
    else if ltb e.last h
    then (reopened src h now e, won)
    else if h == e.last
    then on_position src now e (bump_block_count e.block_seen src)
    else (e, outdated)

-- The `match seq` of `on_update`.
unfoldable pub arbitrate : SubKey → ℕ → Seq → ℕ → SubEntry → SubEntry × Verdict
arbitrate key src (point v) now e = on_point v now e
arbitrate key src (lead v) now e = on_lead src v now e
arbitrate key src (sticky v) now e = on_sticky src v now e
arbitrate key src (snapshot h) now e = on_snapshot key src h now e
arbitrate key src (block h) now e = on_block src h now e

-- The height under which a frame is held for parked clients.
abbrev pub held_height : Seq → Option ℕ
held_height (block h) = some h
held_height (snapshot h) = some h
held_height (sticky h) = some h
held_height (point v) = none
held_height (lead v) = none

abbrev pub push_held : Held → Pending → Pending
push_held f p = record p { bytes = add_u64 p.bytes (length f.payload); held = p.held ++ (f ∷ []) }

abbrev pub over_cap : Pending → Bool
over_cap p = ltb pending_max_bytes p.bytes

-- A frame that goes out is held for every parked client; those whose backlog outgrew the cap are
-- taken off the list, and returned to be disconnected.
unfoldable pub hold : ℕ → Seq → Text → SubEntry → SubEntry × List ℕ
hold src seq payload e = elim (held_height seq) [
  | none ↦ (e, [])
  | some h ↦
      let frame : Held = record { source = src; height = h; payload = payload } in
      let grown_pending = map (push_held frame) e.pending in
      (
        record e { pending = retain (λ p. not (over_cap p)) grown_pending },
        map (λ p. p.client) (retain over_cap grown_pending),
      )
]
