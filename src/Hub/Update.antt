-- ===== src/Hub/Update.antt =====
-- A frame's way through the hub: `on_update` and `deliver_snapshot` of `AppState`, and
-- `Client::send_or_hang_up`, from src/state.rs.
use hypeha.Base.{
  ℕ, Bool, true, false, not, ◌&&◌, ◌||◌, List, [], ◌∷◌, ◌++◌, map, Option, none, some, ltb, ◌==◌,
  if◌then◌else◌, retain, Text,
}
use hypeha.SubKey.{SubKey, is_incremental, single_sourced}
use hypeha.Stats.{SourceStats, record_delay, count_win, count_stale}
use hypeha.Entry.{SubEntry, Pending, Held, Seq, Verdict, arbitrate, hold}
use hypeha.Hub.{
  Client, AppState, entry_of, find_entry, put_entry, on_client, hang_up, drop_frame, with_source,
}

-- The counters that a verdict raises at its source.
unfoldable pub tally : Verdict → SourceStats → SourceStats
tally v s =
    let won = if v.win then count_win s else s in
    let timed : SourceStats = elim v.late [ none ↦ won | some d ↦ record_delay d won ] in
    if v.stale then count_stale timed else timed

-- The first parked client of an id, and the others.
unfoldable pub take_pending : ℕ → List Pending → Option (Pending × List Pending)
take_pending id [] = none
take_pending id (p ∷ ps) =
    let rest = take_pending id ps in
    if p.client == id
    then some (p, ps)
    else elim rest [ none ↦ none | some (q, qs) ↦ some (q, p ∷ qs) ]

-- Whether a held frame may follow a snapshot of a height from a source.
abbrev pub follows : Bool → ℕ → ℕ → Held → Bool
follows single source height f = ltb height f.height && (not single || f.source == source)

-- What a rebuilt client is sent: its snapshot, then the held frames that may follow it.
unfoldable pub backlog : SubKey → ℕ → ℕ → Text → List Held → List Text
backlog key source height snapshot held =
    snapshot ∷ map (λ f. f.payload) (retain (follows (single_sourced key) source height) held)

-- The entry once a parked client has its snapshot.
unfoldable pub attach_rebuilt : SubKey → ℕ → ℕ → List Pending → SubEntry → SubEntry
attach_rebuilt key source id rest e = record e {
  pending = rest;
  block_leader = if single_sourced key then some source else e.block_leader;
  subscribers = e.subscribers ++ (id ∷ []);
}

-- What happens to an entry when a frame comes in, with the clients whose backlog overflowed.
unfoldable pub update_entry : SubKey → ℕ → Seq → ℕ → Text → SubEntry → SubEntry × Verdict × List ℕ
update_entry key src seq now payload entry =
    let (decided, verdict) = arbitrate key src seq now entry in
    let (held, overflowed) = hold src seq payload decided in
    if verdict.deliver then (held, verdict, overflowed) else (decided, verdict, [])

abbrev pub hang_up_all : {Q : Type 0} → List ℕ → (ℕ → Client Q) → ℕ → Client Q
hang_up_all [] heap = heap
hang_up_all (id ∷ ids) heap = hang_up_all ids (on_client id hang_up heap)

-- `try_send` is that of the bounded channel to the client's writer: `none` is its error.
module _ {Q : Type 0} (try_send : Q → Text → Option Q) where
  -- Queue a frame; on an error count it, and hang up where the channel is incremental.
  unfoldable pub send_or_hang_up : Text → Client Q → Client Q × Bool
  send_or_hang_up msg c = elim (try_send c.queue msg) [
    | none ↦ (hang_up (drop_frame c), false)
    | some q ↦ (record c { queue = q }, true)
  ]

  unfoldable pub send_or_drop : Text → Client Q → Client Q
  send_or_drop msg c = elim (try_send c.queue msg) [
    | none ↦ drop_frame c
    | some q ↦ record c { queue = q }
  ]

  unfoldable pub send_frame : Bool → Text → Client Q → Client Q
  unfolding send_or_hang_up send_or_drop
  send_frame incremental msg c =
      if incremental then (send_or_hang_up msg c).0 else send_or_drop msg c

  unfoldable pub fan_out : Bool → Text → List ℕ → (ℕ → Client Q) → ℕ → Client Q
  fan_out incremental msg [] heap = heap
  fan_out incremental msg (id ∷ ids) heap =
      fan_out incremental msg ids (on_client id (send_frame incremental msg) heap)

  -- The frames of a backlog in order, up to the first that does not fit.
  unfoldable pub send_all : List Text → Client Q → Client Q
  send_all [] c = c
  send_all (msg ∷ msgs) c =
      let rest = send_all msgs (send_or_hang_up msg c).0 in
      if (send_or_hang_up msg c).1 then rest else (send_or_hang_up msg c).0

  unfoldable pub on_update : ℕ → SubKey → Seq → ℕ → Text → AppState Q → AppState Q
  on_update src key seq now payload st =
      let (entry, verdict, overflowed) =
        update_entry key src seq now payload (entry_of now key st) in
      let st' = with_source src (tally verdict) (put_entry key entry st) in
      let heap = hang_up_all overflowed st'.heap in
      record st' {
        heap =
            if verdict.deliver
            then fan_out (is_incremental key) payload entry.subscribers heap
            else heap;
      }

  unfoldable pub deliver_snapshot : SubKey → ℕ → ℕ → ℕ → Text → AppState Q → AppState Q
  deliver_snapshot key id source height snapshot st = elim (find_entry key st) [
    | none ↦ st
    | some e ↦ elim (take_pending id e.pending) [
      | none ↦ st
      | some (p, rest) ↦
          let st' = put_entry key (attach_rebuilt key source p.client rest e) st in
          let msgs = backlog key source height snapshot p.held in
          record st' { heap = on_client p.client (send_all msgs) st'.heap }
    ]
  ]
