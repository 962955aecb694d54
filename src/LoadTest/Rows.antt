-- ===== src/LoadTest/Rows.antt =====
-- The table of how old the data is on arrival, from the report of src/bin/loadtest.rs: a row for each
-- stream with enough samples, and how the first row compares with the others. Floating point is a
-- parameter: `index p n` is `((n - 1) as f64 * p) as usize`, for the three percentiles.
use hypeha.Base.{
  ℕ, suc, ◌-◌, ◌≤◌, ◌≡◌, refl, ap, sym, append-nil, append_assoc, ◌⊎◌, inl, inr, true, false, not,
  ◌&&◌, List, [], ◌∷◌, ◌++◌, ltb, ◌==◌, if◌then◌else◌, Bool-cases, is_empty, length, min, get_or,
  arith, Text,
}
use hypeha.LoadTest.{KeyStats, sort_unstable}
use hypeha.LoadTest.Arrivals.{Stream}

abbrev pub min_samples : ℕ
min_samples = 100

abbrev pub Row : Type 0
Row = ℕ × ℕ × ℕ

unfoldable pub all_ages : List (Text × KeyStats) → List ℕ
all_ages [] = []
all_ages ((name, k) ∷ keys) = k.ages_ms ++ all_ages keys

module _ (median p95 p99 : ℕ → ℕ) where
  -- An index past the end, which these percentiles do not give, is a panic of the code.
  abbrev pub row_of : List ℕ → Row
  row_of sorted = (
    get_or sorted (median (length sorted)) 0,
    get_or sorted (p95 (length sorted)) 0,
    get_or sorted (p99 (length sorted)) 0,
  )

  -- The rows of the streams from number `i` on, behind those so far.
  unfoldable pub rows_from : ℕ → List (Text × Stream) → List (Text × Row) → List (Text × Row)
  unfolding all_ages
  rows_from i [] pcts = pcts
  rows_from i ((name, stream) ∷ streams) pcts =
      let ages = all_ages stream.keys in
      let few = ltb (length ages) min_samples in
      let next =
        rows_from (suc i) streams
          (if few then pcts else pcts ++ ((name, row_of (sort_unstable ages)) ∷ [])) in
      if i == 0 && (few && not (is_empty ages)) then [] else next

  unfoldable pub rows : List (Text × Stream) → List (Text × Row)
  unfolding rows_from
  rows streams = rows_from 0 streams []

-- How the proxy compares with the best of the nodes, in milliseconds.
pub data Standing : Type 0 where
  staler : ℕ → Standing
  fresher : ℕ → Standing
  level : Standing

abbrev pub standing : ℕ → ℕ → Standing
standing mine best =
    if ltb best mine
    then Standing.staler (mine - best)
    else if ltb mine best
    then Standing.fresher (best - mine)
    else Standing.level

abbrev best_of : (Row → ℕ) → Row → List (Text × Row) → ℕ
best_of at row [] = at row
best_of at row ((name, other) ∷ rest) = min (at row) (best_of at other rest)

abbrev median_of : Row → ℕ
median_of row = row.0

abbrev p95_of : Row → ℕ
p95_of row = row.1

abbrev p99_of : Row → ℕ
p99_of row = row.2

-- What is printed of the first row against the others, where there are others.
unfoldable pub standings : List (Text × Row) → List Standing
standings [] = []
standings (only ∷ []) = []
standings ((name, mine) ∷ (other, row) ∷ rest) =
    standing (median_of mine) (best_of median_of row rest)
    ∷ standing (p95_of mine) (best_of p95_of row rest)
    ∷ standing (p99_of mine) (best_of p99_of row rest)
    ∷ []

module _ (median p95 p99 : ℕ → ℕ) where
  abbrev rows' : ℕ → List (Text × Stream) → List (Text × Row) → List (Text × Row)
  rows' = rows_from median p95 p99

  abbrev row : Text → Stream → Text × Row
  row name stream = (name, row_of median p95 p99 (sort_unstable (all_ages stream.keys)))

  -- Behind the first stream, its number makes no difference.
  rows_from-later :
      (i j : ℕ) (streams : List (Text × Stream)) (pcts : List (Text × Row))
      → rows' (suc i) streams pcts ≡ rows' (suc j) streams pcts
  unfolding rows_from
  rows_from-later i j [] pcts = refl
  rows_from-later i j ((name, stream) ∷ streams) pcts = ground (
    arith,
    rows_from-later (suc i) (suc j) streams pcts,
    rows_from-later (suc i) (suc j) streams (pcts ++ (row name stream ∷ [])),
  )

  -- The rows go behind those so far.
  rows_from-append :
      (i : ℕ) (streams : List (Text × Stream)) (pcts : List (Text × Row))
      → rows' (suc i) streams pcts ≡ pcts ++ rows' (suc i) streams []
  unfolding rows_from
  rows_from-append i [] pcts = sym (append-nil pcts)
  rows_from-append i ((name, stream) ∷ streams) pcts =
      let mine = row name stream ∷ [] in
      ground (
        arith,
        rows_from-append (suc i) streams pcts,
        rows_from-append (suc i) streams (pcts ++ mine),
        rows_from-append (suc i) streams mine,
        append_assoc pcts mine (rows' (suc (suc i)) streams []),
      )

  no_samples_few : (s : Stream) → is_empty (all_ages s.keys) ≡ true → length (all_ages s.keys) ≡ 0
  no_samples_few s none_left = empty_lem (all_ages s.keys) none_left
    where
      empty_lem : (xs : List ℕ) → is_empty xs ≡ true → length xs ≡ 0
      empty_lem [] h = refl
      empty_lem (x ∷ xs) h = absurd (cc h)

  -- Where the proxy's stream has no timestamped frame and the first node's has at least a hundred,
  -- what the report prints as the proxy's standing is what it would print if the first node were
  -- the proxy.
  pub rows_without_proxy :
      (name first : Text) (proxy node : Stream) (rest : List (Text × Stream))
      → is_empty (all_ages proxy.keys) ≡ true
      → min_samples ≤ length (all_ages node.keys)
      → standings (rows median p95 p99 ((name, proxy) ∷ (first, node) ∷ rest))
        ≡ standings (rows median p95 p99 ((first, node) ∷ rest))
  unfolding rows rows_from
  rows_without_proxy name first proxy node rest silent enough =
      let mine = row first node ∷ [] in
      ap standings
        (ground (arith, silent, enough, rows_from-later 1 0 rest mine, no_samples_few proxy silent))

  -- Where the proxy's stream has a timestamped frame, the table is empty or its first row is the
  -- proxy's own.
  rows_of_proxy :
      (name : Text) (proxy : Stream) (nodes : List (Text × Stream))
      → is_empty (all_ages proxy.keys) ≡ false
      → (rows median p95 p99 ((name, proxy) ∷ nodes) ≡ [])
        ⊎ ((more : List (Text × Row)) × (rows median p95 p99 ((name, proxy) ∷ nodes)
              ≡ (name, row_of median p95 p99 (sort_unstable (all_ages proxy.keys))) ∷ more))
  unfolding rows rows_from
  rows_of_proxy name proxy nodes some_ages =
      elim (Bool-cases (ltb (length (all_ages proxy.keys)) min_samples)) [
        | inl few ↦ inl (ground (arith, few, some_ages))
        | inr enough ↦ inr (
          rows' 1 nodes [],
          ground (arith, enough, rows_from-append 0 nodes (row name proxy ∷ [])),
        )
      ]
