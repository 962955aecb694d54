-- ===== src/Upstream/Fetch.antt =====
-- A private snapshot for one client, from src/upstream.rs: the order in which `fetch_snapshot`
-- tries the sources, what `snapshot_from` picks out of a connection, and how it ends.
use hypeha.Base.{ℕ, ◌+◌, ◌-◌, ◌^◌, List, [], ◌∷◌, Option, none, some, leb, if◌then◌else◌, ite, Text}
use hypeha.SubKey.{SubKey, SubKey-discrete}
use hypeha.Stats.{idle_for, silence_limit, secs}
use hypeha.Entry.{Seq}
use hypeha.Hub.{Source, AppState}
use hypeha.Hub.Update.{deliver_snapshot}
use hypeha.Hub.Recovery.{fail_pending}
use hypeha.Upstream.{Frame, route}

-- `Duration::MAX`
abbrev pub duration_max : ℕ
duration_max = secs (2 ^ 64 - 1) + 999_999_999

-- A source with its idle time.
pub record Ranked : Type 0 where
  pub idle : ℕ
  pub id : ℕ
  pub url : Text

abbrev pub idle_or_max : Option ℕ → ℕ
idle_or_max none = duration_max
idle_or_max (some d) = d

unfoldable pub candidates : List Source → List Ranked
candidates [] = []
candidates (s ∷ ss) =
    let rest = candidates ss in
    if s.stats.connected
    then record { idle = idle_or_max (idle_for s.stats); id = s.id; url = s.url } ∷ rest
    else rest

-- A stable sort by the idle time.
unfoldable pub insert_ranked : Ranked → List Ranked → List Ranked
insert_ranked r [] = r ∷ []
insert_ranked r (x ∷ xs) =
    let rest = insert_ranked r xs in if leb r.idle x.idle then r ∷ (x ∷ xs) else x ∷ rest

unfoldable pub sort_by_idle : List Ranked → List Ranked
unfolding insert_ranked
sort_by_idle [] = []
sort_by_idle (r ∷ rs) = insert_ranked r (sort_by_idle rs)

unfoldable pub only_fresh : List Ranked → List Ranked
only_fresh [] = []
only_fresh (r ∷ rs) =
    let rest = only_fresh rs in if leb r.idle silence_limit then r ∷ rest else rest

abbrev pub or_all : List Ranked → List Ranked → List Ranked
or_all [] all = all
or_all (r ∷ rs) all = r ∷ rs

-- The sources to ask, in order: the fresh ones, or all where none is.
unfoldable pub fetch_order : List Source → List Ranked
unfolding candidates sort_by_idle only_fresh
fetch_order sources =
    let ranked = sort_by_idle (candidates sources) in or_all (only_fresh ranked) ranked

abbrev pub snapshot_height : Seq → Option ℕ
snapshot_height (Seq.snapshot h) = some h
snapshot_height (Seq.point v) = none
snapshot_height (Seq.block v) = none
snapshot_height (Seq.lead v) = none
snapshot_height (Seq.sticky v) = none

-- The height of a frame that is a snapshot of the key.
abbrev pub snapshot_of : SubKey → Option (SubKey × Seq) → Option ℕ
snapshot_of key none = none
snapshot_of key (some (found, seq)) = ite (SubKey-discrete found key) (snapshot_height seq) none

abbrev pub routed : Option Frame → Option (SubKey × Seq)
routed none = none
routed (some frame) = route frame

-- The first snapshot of the key among the texts that a throwaway connection sends.
unfoldable pub first_snapshot : (Text → Option Frame) → SubKey → List Text → Option (ℕ × Text)
first_snapshot parse key [] = none
first_snapshot parse key (text ∷ texts) =
    let later = first_snapshot parse key texts in
    elim (snapshot_of key (routed (parse text))) [ none ↦ later | some h ↦ some (h, text) ]

-- The first source in the order that answers. `ask` is the attempt at one source, with `none` for
-- a refused connection, a closed one and a timeout.
unfoldable pub first_answer : (Ranked → Option (ℕ × Text)) → List Ranked → Option (ℕ × ℕ × Text)
first_answer ask [] = none
first_answer ask (r ∷ rs) =
    let later = first_answer ask rs in
    elim (ask r) [ none ↦ later | some (height, payload) ↦ some (r.id, height, payload) ]

module _ {Q : Type 0} (try_send : Q → Text → Option Q) where
  -- The sources are ranked as they were when the fetch began; the answer meets the state as it is
  -- when it comes. `ask` is the attempt at one source with its timeout: that it ends is assumed.
  unfoldable pub fetch_snapshot :
      (Ranked → Option (ℕ × Text)) → List Source → SubKey → ℕ → AppState Q → AppState Q
  fetch_snapshot ask ranked_at key id st = elim (first_answer ask (fetch_order ranked_at)) [
    | none ↦ fail_pending key id st
    | some (source, height, payload) ↦ deliver_snapshot try_send key id source height payload st
  ]
