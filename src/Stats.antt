-- ===== src/Stats.antt =====
-- `SourceStats`, from src/stats.rs: the counters of one upstream source, the delay histogram and
-- the windows by which silence is observed. Counters are u64 and wrap; a `Duration` is its
-- nanoseconds.
pub mod Histogram
pub mod Windows
use hypeha.Base.{
  ℕ, ◌-◌, ◌*◌, ◌/◌, ◌%◌, ◌^◌, Bool, false, List, [], ◌∷◌, Option, none, some, ltb, ◌==◌,
  if◌then◌else◌, add_u64, set, get_or, replicate, position,
}

abbrev pub millis : ℕ → ℕ
millis n = n * 1_000_000

abbrev pub secs : ℕ → ℕ
secs n = n * 1_000_000_000

abbrev pub window : ℕ
window = secs 5

abbrev pub silence_limit : ℕ
silence_limit = secs 5

abbrev pub bucket_edges_us : List ℕ
bucket_edges_us =
    500 ∷ 1_000 ∷ 2_000 ∷ 5_000 ∷ 10_000 ∷ 20_000 ∷ 50_000 ∷ 100_000 ∷ 200_000 ∷ 500_000 ∷ []

abbrev pub num_buckets : ℕ
num_buckets = 11

pub record SourceStats : Type 0 where
  pub connected : Bool
  pub packets : ℕ
  pub silent_windows : ℕ
  pub disconnects : ℕ
  pub wins : ℕ
  pub duplicates : ℕ
  pub stale : ℕ
  pub too_old : ℕ
  pub from_future : ℕ
  pub delay_sum_us : ℕ
  pub delay_count : ℕ
  pub hist : List ℕ
  pub prev_packets : ℕ
  pub prev_wins : ℕ
  pub prev_dups : ℕ
  pub prev_stale : ℕ
  pub prev_delay_sum_us : ℕ
  pub prev_delay_count : ℕ
  pub d_packets : ℕ
  pub d_wins : ℕ
  pub d_dups : ℕ
  pub d_stale : ℕ
  pub d_delay_sum_us : ℕ
  pub d_delay_count : ℕ

abbrev pub default_stats : SourceStats
default_stats = record {
  connected = false;
  packets = 0;
  silent_windows = 0;
  disconnects = 0;
  wins = 0;
  duplicates = 0;
  stale = 0;
  too_old = 0;
  from_future = 0;
  delay_sum_us = 0;
  delay_count = 0;
  hist = replicate num_buckets 0;
  prev_packets = 0;
  prev_wins = 0;
  prev_dups = 0;
  prev_stale = 0;
  prev_delay_sum_us = 0;
  prev_delay_count = 0;
  d_packets = 0;
  d_wins = 0;
  d_dups = 0;
  d_stale = 0;
  d_delay_sum_us = 0;
  d_delay_count = 0;
}

-- How long the source has been silent, in whole windows; `none` if it never delivered. The cast
-- of the counter to u32 cuts it.
unfoldable pub idle_for : SourceStats → Option ℕ
idle_for s = if s.packets == 0 then none else some (window * (s.silent_windows % 2 ^ 32))

-- The first bucket whose edge lies above the delay, else the last.
unfoldable pub bucket_of : ℕ → ℕ
bucket_of us = elim (position (λ edge. ltb us edge) bucket_edges_us) [
  | none ↦ num_buckets - 1
  | some i ↦ i
]

unfoldable pub record_delay : ℕ → SourceStats → SourceStats
record_delay d s =
    let us = d / 1_000 % 2 ^ 64 in
    let idx = bucket_of us in
    record s {
      duplicates = add_u64 s.duplicates 1;
      delay_sum_us = add_u64 s.delay_sum_us us;
      delay_count = add_u64 s.delay_count 1;
      hist = set s.hist idx (add_u64 (get_or s.hist idx 0) 1);
    }

-- `saturating_sub` is the truncated subtraction.
unfoldable pub roll_window : SourceStats → SourceStats
roll_window s =
    let delivered = s.packets - s.prev_packets in
    record s {
      silent_windows = if delivered == 0 then add_u64 s.silent_windows 1 else 0;
      prev_packets = s.packets;
      prev_wins = s.wins;
      prev_dups = s.duplicates;
      prev_stale = s.stale;
      prev_delay_sum_us = s.delay_sum_us;
      prev_delay_count = s.delay_count;
      d_packets = delivered;
      d_wins = s.wins - s.prev_wins;
      d_dups = s.duplicates - s.prev_dups;
      d_stale = s.stale - s.prev_stale;
      d_delay_sum_us = s.delay_sum_us - s.prev_delay_sum_us;
      d_delay_count = s.delay_count - s.prev_delay_count;
    }

-- The counters that the connection and the arbitration raise by one.
abbrev pub count_packet : SourceStats → SourceStats
count_packet s = record s { packets = add_u64 s.packets 1 }

abbrev pub count_win : SourceStats → SourceStats
count_win s = record s { wins = add_u64 s.wins 1 }

abbrev pub count_stale : SourceStats → SourceStats
count_stale s = record s { stale = add_u64 s.stale 1 }

abbrev pub count_too_old : SourceStats → SourceStats
count_too_old s = record s { too_old = add_u64 s.too_old 1 }

abbrev pub count_from_future : SourceStats → SourceStats
count_from_future s = record s { from_future = add_u64 s.from_future 1 }
