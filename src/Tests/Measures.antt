-- ===== src/Tests/Measures.antt =====
-- The load test's comparison of the streams.
use hypeha.Base.{
  arith, ℕ, ◌+◌, ◌/◌, ◌%◌, ◌^◌, ◌≡◌, refl, true, false, List, [], ◌∷◌, Option, none, some, Text,
  codes, length, replicate, ℕ_discrete,
}
use hypeha.Base.KeyMap.{get}
use hypeha.SubKey.{label, normalized}
use hypeha.Entry.{Seq}
use hypeha.Upstream.{Frame, route, strip_prefix}
use hypeha.LoadTest.Sweep.{Seen, Setup, Blocks, max_slots, u32_max, sweep_seen}
use hypeha.LoadTest.Judged.{total}
use hypeha.LoadTest.Passes.{count_of, is_unclaimed, is_lost, sweep_seen-accounts}
use hypeha.LoadTest.Pairs.{Adds}
use hypeha.LoadTest.Arrivals.{
  Stream, Shared, StreamCtx, Moment, ReadResult, Turn, Both, take_text, listen, handle_read,
}
use hypeha.LoadTest.Percentile.{Holds, pct_of, pct_of_lem}
use hypeha.LoadTest.Carried.{carried_frame_is_not_lost}
use hypeha.Tests.Data.{coin, top, no_counts, no_verdict}

-- Two nodes and a second connection to the first.
abbrev four_slots : Setup
four_slots = record { window = 10; start = 1; stop = 3; noise_slot = some 3; used_slots = 4 }

-- A frame that only the nodes had, and one that is too young to judge.
abbrev missing_frame : Seen
missing_frame = record {
  at = none ∷ some 4 ∷ some 5 ∷ some 6 ∷ [];
  ages = replicate max_slots u32_max;
  born = 4;
  key = 0;
  seq = 7;
  born_max = 6;
}

abbrev two_frames : List (ℕ × Seen)
two_frames = (11, missing_frame) ∷ (12, record missing_frame { born = 95 }) ∷ []

abbrev some_blocks : Blocks
some_blocks = ((0, 6), record { born = 4; n = 1 ∷ 2 ∷ 2 ∷ 1 ∷ []; raced = true }) ∷ []

sweep_seen-accounts_example :
    let swept = sweep_seen four_slots 100 false some_blocks (6 ∷ []) two_frames no_verdict [] in
    ((total swept.1 + length swept.0 + count_of (is_unclaimed four_slots 100) two_frames) % 2 ^ 64
      ≡ (total no_verdict + length two_frames) % 2 ^ 64)
    × (swept.1.lost % 2 ^ 64
        ≡ (no_verdict.lost + count_of (is_lost four_slots 100 some_blocks (6 ∷ [])) two_frames)
          % 2 ^ 64)
sweep_seen-accounts_example =
    sweep_seen-accounts four_slots 100 false some_blocks (6 ∷ []) two_frames no_verdict []

Adds-no_counts : Adds no_counts no_counts no_counts
Adds-no_counts true = refl
Adds-no_counts false = refl

-- The proxy's stream takes a quote; then another connection is closed.
abbrev quote : Frame
quote = Frame.bbo (record { coin = coin; time = 8_000 })

abbrev always_quote : Text → Option Frame
always_quote text = some quote

abbrev quiet_stream : Stream
quiet_stream = record { keys = []; rejected = 0; age_by_sec = []; busy_ns = 0; ended = [] }

abbrev nothing_shared : Shared
nothing_shared = record { seen = []; blocks = []; wsarb_max = [] }

abbrev proxy_stream : StreamCtx
proxy_stream = record { slot = 0; indices = []; start = 0 }

abbrev node_stream : StreamCtx
node_stream = record { slot = 1; indices = []; start = 0 }

abbrev soon : Moment
soon = record { now = 5; now_ms = 8_001; spent = 1 }

abbrev or_before : Both → Option Both → Both
or_before both none = both
or_before both (some after) = after

abbrev taken_state : Both
taken_state =
    or_before (quiet_stream, nothing_shared)
      (take_text always_quote length (λ n. n) (λ q. q) proxy_stream soon (codes "quote")
        (quiet_stream, nothing_shared))

abbrev goes_on : List Turn
goes_on = record { stopped = false; asked_at = 6; moment = soon; received = ReadResult.closed } ∷ []

abbrev later_state : Both
later_state =
    or_before (quiet_stream, taken_state.1)
      (listen always_quote length (λ n. n) (λ q. q) (λ n. true) 10 node_stream goes_on
        (quiet_stream, taken_state.1))

carried_frame_is_not_lost_example :
    (e : Seen) × (get ℕ_discrete 5 later_state.1.seen ≡ some e)
    × (is_lost four_slots 100 [] [] e ≡ false)
unfolding take_text listen strip_prefix route normalized label handle_read get
carried_frame_is_not_lost_example =
    carried_frame_is_not_lost always_quote length (λ n. n) (λ q. q) proxy_stream node_stream soon
      (codes "quote") quote (top, Seq.lead 8_000) (quiet_stream, nothing_shared) taken_state
      quiet_stream (λ n. true) 10 goes_on later_state four_slots 100 [] []
      (λ hash e found. cc found) refl refl refl refl refl refl

-- Five samples; the median is the third.
pct_of_lem_example : Holds 2 (0 ∷ 3 ∷ 2 ∷ []) (pct_of (λ n. n / 2) (0 ∷ 3 ∷ 2 ∷ []))
pct_of_lem_example =
    pct_of_lem (λ n. n / 2) (0 ∷ 3 ∷ 2 ∷ []) (omega arith) (omega arith) (omega arith) (omega arith)
