-- ===== src/Page.antt =====
-- What the statistics page writes itself, from src/stats.rs: `group`, `html_escape` and
-- `hist_row_html`. Texts are bytes. The page around it is not modelled.
use hypeha.Base.{
  ℕ, zero, suc, ◌-◌, ◌%◌, Bool, true, false, not, ◌&&◌, List, [], ◌∷◌, ◌++◌, ltb, ◌==◌,
  if◌then◌else◌, Text, codes, decimal, length, is_empty,
}
use hypeha.Stats.{SourceStats}
pub mod Grouping
pub mod Race
pub mod Tags
pub mod Leads

-- The digits from the one in place i on, a space in front of each third one from the right.
unfoldable pub spaced : ℕ → Text → Text
spaced i [] = []
spaced i (c ∷ rest) =
    let more = spaced (suc i) rest in
    if ltb 0 i && length (c ∷ rest) % 3 == 0 then 32 ∷ (c ∷ more) else c ∷ more

unfoldable pub group : ℕ → Text
unfolding spaced
group n = spaced 0 (decimal n)

-- `replace` of one character.
unfoldable pub replace : ℕ → Text → Text → Text
replace from to [] = []
replace from to (c ∷ text) =
    let rest = replace from to text in if c == from then to ++ rest else c ∷ rest

unfoldable pub html_escape : Text → Text
unfolding replace
html_escape s =
    replace b'>' (codes "&gt;") (replace b'<' (codes "&lt;") (replace b'&' (codes "&amp;") s))

abbrev pub bucket_labels : List Text
bucket_labels =
    codes "<0.5ms"
    ∷ codes "<1ms"
    ∷ codes "<2ms"
    ∷ codes "<5ms"
    ∷ codes "<10ms"
    ∷ codes "<20ms"
    ∷ codes "<50ms"
    ∷ codes "<100ms"
    ∷ codes "<200ms"
    ∷ codes "<500ms"
    ∷ codes ">=500ms"
    ∷ []

abbrev cell : Text → ℕ → Text
cell label v =
    if ltb 0 v
    then codes "<span class=b>" ++ (label ++ (codes ":" ++ (decimal v ++ codes "</span> ")))
    else []

-- One cell for each label with its count.
unfoldable pub cells : List Text → List ℕ → Text
cells [] hist = []
cells (label ∷ labels) [] = []
cells (label ∷ labels) (v ∷ hist) = cell label v ++ cells labels hist

unfoldable pub hist_row_html : SourceStats → Text
unfolding cells
hist_row_html s =
    let row = cells bucket_labels s.hist in if is_empty row then codes "&mdash;" else row
