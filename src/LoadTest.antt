-- ===== src/LoadTest.antt =====
-- The load test's measurements of one subscription, from src/bin/loadtest.rs: `KeyStats` and
-- `parse_sub`. An `Instant` and a `Duration` are nanoseconds. Floating point is a parameter:
-- `index` is `(n as f64 * p) as usize`, and `scale` is `mul_f64(stall_factor)`.
pub mod Order
pub mod Stalls
pub mod Subs
pub mod Sweep
pub mod Judged
pub mod Arrivals
pub mod Passes
pub mod Pairs
pub mod Percentile
pub mod Marks
pub mod Carried
pub mod Args
pub mod Plan
pub mod Chunks
pub mod Planned
pub mod Spread
pub mod Outcome
pub mod Passed
pub mod Rows
pub mod Notes
use hypeha.Base.{
  ℕ, zero, suc, ◌+◌, ◌-◌, ◌/◌, ◌^◌, ◌≡◌, Bool, true, false, not, List, [], ◌∷◌, ◌++◌, Option, none,
  some, ltb, leb, ◌==◌, if◌then◌else◌, min, max, add_u32, add_u64, length, set, get_or, get_elem?,
  replicate, Text, codes, decimal, to_ascii_lowercase, ite, ℕ_discrete,
}
use hypeha.SubKey.{SubKey}
use hypeha.Stats.{millis}
use hypeha.Entry.{Seq}
use hypeha.Upstream.{block_time_ms}

pub record KeyStats : Type 0 where
  pub msgs : ℕ
  pub bytes : ℕ
  pub last_at : Option ℕ
  pub gaps : List ℕ
  pub stalls : List (ℕ × ℕ)
  pub stall_count : ℕ
  pub violations : List Text
  pub violation_count : ℕ
  pub limit : Option ℕ
  pub since_limit : ℕ
  pub last_seq : Option ℕ
  pub per_second : List ℕ
  pub ages_ms : List ℕ

abbrev pub default_key_stats : KeyStats
default_key_stats = record {
  msgs = 0;
  bytes = 0;
  last_at = none;
  gaps = [];
  stalls = [];
  stall_count = 0;
  violations = [];
  violation_count = 0;
  limit = none;
  since_limit = 0;
  last_seq = none;
  per_second = [];
  ages_ms = [];
}

-- `Vec::push` on a list that is kept below a length.
abbrev pub push_below {ℓ} : {A : Type ℓ} → ℕ → List A → A → List A
push_below cap xs x = if ltb (length xs) cap then xs ++ (x ∷ []) else xs

-- `sort_unstable` on numbers.
unfoldable pub insert_sorted : ℕ → List ℕ → List ℕ
insert_sorted n [] = n ∷ []
insert_sorted n (x ∷ xs) =
    let rest = insert_sorted n xs in if leb n x then n ∷ (x ∷ xs) else x ∷ rest

unfoldable pub sort_unstable : List ℕ → List ℕ
unfolding insert_sorted
sort_unstable [] = []
sort_unstable (x ∷ xs) = insert_sorted x (sort_unstable xs)

-- Whether a gap is a stall: `limit.is_some_and(|limit| gap > limit)`.
abbrev pub is_stall : Option ℕ → ℕ → Bool
is_stall none gap = false
is_stall (some limit) gap = ltb limit gap

abbrev pub note_stall : ℕ → ℕ → ℕ → KeyStats → KeyStats
note_stall prev start gap s =
    if is_stall s.limit gap
    then record s {
      stall_count = add_u64 s.stall_count 1;
      stalls = push_below 64 s.stalls (prev - start, gap);
    }
    else s

-- The counter of a second, one higher.
unfoldable pub count_second : ℕ → List ℕ → List ℕ
count_second sec seconds =
    let room =
      if leb (length seconds) sec
      then seconds ++ replicate (sec + 1 - length seconds) 0
      else seconds in
    set room sec (add_u32 (get_or room sec 0) 1)

module _ (index : ℕ → ℕ) where
  -- `none` for fewer than 32 gaps; an index past the end, which a quantile up to 1 does not give,
  -- is a panic of the code.
  unfoldable pub gap_quantile : KeyStats → Option ℕ
  gap_quantile s =
      if ltb (length s.gaps) 32
      then none
      else get_elem? (sort_unstable s.gaps) (index (length s.gaps - 1))

  unfoldable pub age_pct : KeyStats → Option ℕ
  age_pct s =
      if length s.ages_ms == 0
      then none
      else get_elem? (sort_unstable s.ages_ms) (index (length s.ages_ms - 1))

  module _ (scale : ℕ → ℕ) where
    abbrev pub new_limit : Option ℕ → Option ℕ
    new_limit none = none
    new_limit (some q) = some (max (scale q) (millis 250))

    -- The stall threshold, derived anew every 256 messages.
    unfoldable pub refresh_limit : KeyStats → KeyStats
    refresh_limit s =
        let since = add_u32 s.since_limit 1 in
        if leb 256 since
        then record s { since_limit = 0; limit = new_limit (gap_quantile s) }
        else record s { since_limit = since }

    abbrev pub note_gap : ℕ → ℕ → ℕ → KeyStats → KeyStats
    note_gap prev now start s =
        let gap = now - prev in
        let judged = note_stall prev start gap (refresh_limit s) in
        record judged { gaps = push_below 10_000 judged.gaps gap }

    unfoldable pub note : ℕ → ℕ → ℕ → KeyStats → KeyStats
    note now start len s =
        let counted = record s {
          msgs = add_u64 s.msgs 1;
          bytes = add_u64 s.bytes len;
          per_second = count_second ((now - start) / 1_000_000_000) s.per_second;
        } in
        let gapped : KeyStats = elim s.last_at [
          | none ↦ counted
          | some prev ↦ note_gap prev now start counted
        ] in
        record gapped { last_at = some now }

-- The gap still open at the end of the run.
unfoldable pub close : ℕ → ℕ → KeyStats → KeyStats
close end start s = elim s.last_at [ none ↦ s | some prev ↦ note_stall prev start (end - prev) s ]

unfoldable pub note_age : Text → ℕ → KeyStats → KeyStats × Option ℕ
note_age text now_ms s = elim (block_time_ms text) [
  | none ↦ (s, none)
  | some t ↦
      let age = min (now_ms - t) (2 ^ 32 - 1 - 1) in
      if ltb now_ms t then (s, none) else (record s { ages_ms = s.ages_ms ++ (age ∷ []) }, some age)
]

abbrev violation : Text → ℕ → ℕ → Text
violation label prev v = label ++ (codes ": " ++ (decimal prev ++ (codes " -> " ++ decimal v)))

-- The order check of a frame that is not a snapshot.
unfoldable pub order_after : Option ℕ → ℕ → Text → KeyStats → KeyStats
order_after none v label s = record s { last_seq = some v }
order_after (some prev) v label s =
    let noted =
      if ltb v prev
      then record s {
        violation_count = add_u64 s.violation_count 1;
        violations = push_below 64 s.violations (violation label prev v);
      }
      else s in
    record noted { last_seq = some v }

unfoldable pub order : Seq → Text → KeyStats → KeyStats
unfolding order_after
order (Seq.snapshot h) label s = record s { last_seq = none }
order (Seq.point v) label s = order_after s.last_seq v label s
order (Seq.block v) label s = order_after s.last_seq v label s
order (Seq.lead v) label s = order_after s.last_seq v label s
order (Seq.sticky v) label s = order_after s.last_seq v label s

-- `split_once(':')`
unfoldable pub split_once : ℕ → Text → Option (Text × Text)
split_once sep [] = none
split_once sep (c ∷ text) =
    let rest = split_once sep text in
    if c == sep
    then some ([], text)
    else elim rest [ none ↦ none | some (before, after) ↦ some (c ∷ before, after) ]

abbrev pub is_text : (a b : Text) → Dec (a ≡ b)
is_text = hlevel ℕ_discrete

abbrev pub levels_of : ℕ → Option ℕ
levels_of levels = if levels == 20 then none else some levels

unfoldable pub key_of_channel : Text → Text → ℕ → Option SubKey
key_of_channel channel key levels = ite (is_text channel (codes "bbo")) (some (SubKey.bbo key)) (
    ite (is_text channel (codes "l2Book")) (some (SubKey.l2_book key none (levels_of levels) none))
      (ite (is_text channel (codes "l2Diff"))
        (some (SubKey.l2_diff key none (levels_of levels) none))
        (ite (is_text channel (codes "l4Book")) (some (SubKey.l4_book key)) (
          ite (is_text channel (codes "trades")) (some (SubKey.trades key)) (
            ite (is_text channel (codes "bookDiffs")) (some (SubKey.book_diffs key)) (
              ite (is_text channel (codes "orderUpdates"))
                (some (SubKey.order_updates (to_ascii_lowercase key))) none))))))

unfoldable pub parse_sub : Text → ℕ → Option SubKey
unfolding key_of_channel
parse_sub spec levels = elim (split_once b':' spec) [
  | none ↦ none
  | some (channel, key) ↦ key_of_channel channel key levels
]
