-- ===== src/Watch.antt =====
-- The background task of src/main.rs: every five seconds it rolls the windows of the sources,
-- rebuilds the clients of those that fell silent, and asks for a reconnect when one is due.
pub mod Schedule
use hypeha.Base.{
  ℕ, ◌-◌, ◌%◌, Bool, true, false, ◌&&◌, ◌||◌, List, [], ◌∷◌, ◌++◌, map, Option, none, some, ltb,
  ◌==◌, if◌then◌else◌,
}
use hypeha.SubKey.{SubKey}
use hypeha.Stats.{silence_limit, roll_window}
use hypeha.Hub.{Source, AppState}
use hypeha.Hub.Recovery.{silent_sources, resync_after_source_loss}

abbrev pub silent_reconnect_first : ℕ
silent_reconnect_first = 6

abbrev pub silent_reconnect_every : ℕ
silent_reconnect_every = 60

unfoldable pub is_due : ℕ → Bool
is_due w =
    w == silent_reconnect_first
    || (ltb silent_reconnect_first w
        && ((w - silent_reconnect_first) % silent_reconnect_every) == 0)

-- The first source of an id is told to reconnect, if it is due.
unfoldable pub notify_due : ℕ → List Source → List Source
unfolding is_due
notify_due id [] = []
notify_due id (s ∷ ss) =
    let rest = notify_due id ss in
    if s.id == id
    then (if is_due s.stats.silent_windows then record s { reconnect = true } else s) ∷ ss
    else s ∷ rest

abbrev roll : Source → Source
roll s = record s { stats = roll_window s.stats }

module _ {Q : Type 0} where
  -- The loop over the silent sources.
  unfoldable pub rebuild_silent : List ℕ → AppState Q → AppState Q × List (SubKey × ℕ)
  unfolding notify_due
  rebuild_silent [] st = (st, [])
  rebuild_silent (id ∷ ids) st =
      let (lost, work) = resync_after_source_loss id st in
      let (done, more) =
        rebuild_silent ids (record lost { sources = notify_due id lost.sources }) in
      (done, work ++ more)

  unfoldable pub tick : AppState Q → AppState Q × List (SubKey × ℕ)
  unfolding rebuild_silent
  tick st =
      let rolled = record st { sources = map roll st.sources } in
      rebuild_silent (silent_sources silence_limit rolled) rolled
