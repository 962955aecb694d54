-- ===== src/Page/Race.antt =====
-- The choices in the section on the peers' race: `render_race_section` of src/stats.rs. The file that
-- it reads is a list of peers, and the delays are of a type of floating point `F`, with `<` and the
-- largest number as parameters.
use hypeha.Base.{
  ℕ, suc, ◌≤◌, ◌≡◌, ◌⊎◌, Bool, true, false, ◌&&◌, ◌||◌, ◌==◌, List, [], ◌∷◌, Option, none, some,
  ltb, leb, if◌then◌else◌, get_elem?,
}

abbrev pub race_lag_n_min : ℕ
race_lag_n_min = 10

pub record Peer (F : Type 0) : Type 0 where
  pub streaming : Bool
  pub leads : ℕ
  pub avg_lag_ms : F
  pub lag_n : ℕ
  pub bad_days : F

-- The peer that is marked green, with its leads, and the one that is marked lime, with its delay.
pub record Marked (F : Type 0) : Type 0 where
  pub green_idx : Option ℕ
  pub green_leads : ℕ
  pub lag_idx : Option ℕ
  pub lag_min : F

abbrev is_none : Option ℕ → Bool
is_none none = true
is_none (some i) = false

module _ {F : Type 0} (less : F → F → Bool) where
  unfoldable pub mark_green : ℕ → Peer F → Marked F → Marked F
  mark_green i p m =
      if is_none m.green_idx || ltb m.green_leads p.leads
      then record m { green_leads = p.leads; green_idx = some i }
      else m

  unfoldable pub mark_lime : ℕ → Peer F → Marked F → Marked F
  mark_lime i p m =
      if leb race_lag_n_min p.lag_n && less p.avg_lag_ms m.lag_min
      then record m { lag_min = p.avg_lag_ms; lag_idx = some i }
      else m

  unfoldable pub mark_peers : ℕ → List (Peer F) → Marked F → Marked F
  unfolding mark_green mark_lime
  mark_peers i [] m = m
  mark_peers i (p ∷ ps) m =
      mark_peers (suc i) ps (if p.streaming then mark_lime i p (mark_green i p m) else m)

  unfoldable pub marked_peers : F → List (Peer F) → Marked F
  unfolding mark_peers
  marked_peers largest peers =
      mark_peers 0 peers
        (record { green_idx = none; green_leads = 0; lag_idx = none; lag_min = largest })

-- How a row is painted.
pub data RowClass : Type 0 where
  badrow greenrow plain : RowClass

abbrev is_index : Option ℕ → ℕ → Bool
is_index none i = false
is_index (some g) i = i == g

-- `is_bad` is `>=` of the floats against `BAD_DAYS_RED`.
unfoldable pub row_class : {F : Type 0} → (F → Bool) → Option ℕ → ℕ → Peer F → RowClass
row_class is_bad green_idx i p =
    if is_bad p.bad_days then badrow else if is_index green_idx i then greenrow else plain

module _ {F : Type 0} where
  abbrev pub NoneStreams : List (Peer F) → Type 0
  NoneStreams [] = Unit {0}
  NoneStreams (p ∷ ps) = (p.streaming ≡ false) × NoneStreams ps

  -- A number of leads that no streaming peer exceeds.
  abbrev pub AtMost : ℕ → List (Peer F) → Type 0
  AtMost top [] = Unit {0}
  AtMost top (p ∷ ps) = ((p.streaming ≡ false) ⊎ (p.leads ≤ top)) × AtMost top ps

  -- The green peer streams, and no peer that streams has more leads; or no peer streams and none is
  -- green.
  abbrev pub IsLeader : List (Peer F) → Option ℕ → Type 0
  IsLeader peers none = NoneStreams peers
  IsLeader peers (some i) =
      (p : Peer F) × (get_elem? peers i ≡ some p) × (p.streaming ≡ true) × AtMost p.leads peers
