-- ===== src/Hub/Recovery.antt =====
-- What happens when a source is lost: `silent_sources`, `resync_after_source_loss` and
-- `fail_pending` of `AppState`, from src/state.rs.
use hypeha.Base.{
  ℕ, Bool, false, not, ◌&&◌, List, [], ◌∷◌, ◌++◌, map, Option, none, some, ltb, leb, if◌then◌else◌,
}
use hypeha.Base.KeyMap.{map_values}
use hypeha.Mask.{mark}
use hypeha.SubKey.{SubKey, is_incremental, single_sourced}
use hypeha.Stats.{idle_for}
use hypeha.Entry.{SubEntry, is_leader, parked}
use hypeha.Hub.{Source, AppState, find_entry, put_entry, with_client, hang_up}
use hypeha.Hub.Update.{take_pending}

-- The smallest idle time of the sources that have ever delivered.
unfoldable pub freshest : List Source → Option ℕ
freshest [] = none
freshest (s ∷ ss) = elim (idle_for s.stats) [
  | none ↦ freshest ss
  | some d ↦ elim (freshest ss) [ none ↦ some d | some f ↦ some (if leb d f then d else f) ]
]

-- Connected, has delivered, and idle for longer than the limit.
unfoldable pub is_silent : ℕ → Source → Bool
is_silent limit s = elim (idle_for s.stats) [
  | none ↦ false
  | some idle ↦ s.stats.connected && ltb limit idle
]

unfoldable pub silent_ids : ℕ → List Source → List ℕ
silent_ids limit [] = []
silent_ids limit (s ∷ ss) =
    let rest = silent_ids limit ss in if is_silent limit s then s.id ∷ rest else rest

-- What the loss of a source does to one entry.
unfoldable pub lose_source : ℕ → SubKey → SubEntry → SubEntry
lose_source source key e =
    if not (is_leader e.block_leader source)
    then e
    else if not (is_incremental key)
    then (if single_sourced key
        then record e { block_leader = none; block_sampled = 0; last = 0 }
        else e)
    else record e {
      block_leader = none;
      block_sampled = 0;
      needs_snapshot = mark e.needs_snapshot source;
      last = 0;
      subscribers = [];
      pending = e.pending ++ map parked e.subscribers;
    }

-- The clients of one entry that must be rebuilt.
unfoldable pub orphans : ℕ → SubKey → SubEntry → List ℕ
orphans source key e =
    if is_leader e.block_leader source && is_incremental key then e.subscribers else []

unfoldable pub orphan_work : ℕ → List (SubKey × SubEntry) → List (SubKey × ℕ)
unfolding orphans
orphan_work source [] = []
orphan_work source ((key, e) ∷ m) =
    map (λ id. (key, id)) (orphans source key e) ++ orphan_work source m

module _ {Q : Type 0} where
  unfoldable pub silent_sources : ℕ → AppState Q → List ℕ
  silent_sources limit st = elim (freshest st.sources) [
    | none ↦ []
    | some f ↦ if leb f limit then silent_ids limit st.sources else []
  ]

  -- The state after the loss of a source, and the snapshots to fetch.
  unfoldable pub resync_after_source_loss : ℕ → AppState Q → AppState Q × List (SubKey × ℕ)
  resync_after_source_loss source st =
      (record st { subs = map_values (lose_source source) st.subs }, orphan_work source st.subs)

  unfoldable pub fail_pending : SubKey → ℕ → AppState Q → AppState Q
  fail_pending key id st = elim (find_entry key st) [
    | none ↦ st
    | some e ↦ elim (take_pending id e.pending) [
      | none ↦ st
      | some (p, rest) ↦
          with_client p.client hang_up (put_entry key (record e { pending = rest }) st)
    ]
  ]
