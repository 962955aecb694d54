-- ===== src/Tests/Data.antt =====
-- The concrete inputs of the tests.
use hypeha.Base.{
  ◌≡◌, true, false, List, [], ◌∷◌, ◌++◌, Option, none, some, ltb, if◌then◌else◌, arith, Text, codes,
  length,
}
use hypeha.SubKey.{SubKey}
use hypeha.Stats.{default_stats}
use hypeha.Entry.{SubEntry, default_entry}
use hypeha.LoadTest.Sweep.{ByMode, Verdict}
use hypeha.Hub.{Source, Client, AppState, new_source}

abbrev pub coin : Text
coin = codes "BTC"

abbrev pub book : SubKey
book = SubKey.l4_book coin

abbrev pub ladder : SubKey
ladder = SubKey.l2_diff coin none none none

abbrev pub top : SubKey
top = SubKey.bbo coin

-- A queue of at most two frames.
abbrev pub Queue : Type 0
Queue = List Text

abbrev pub two_at_most : Queue → Text → Option Queue
two_at_most q msg = if ltb (length q) 2 then some (q ++ (msg ∷ [])) else none

pub two_at_most_fifo :
    (q q' : Queue) (msg : Text) → two_at_most q msg ≡ some q' → q' ≡ q ++ (msg ∷ [])
two_at_most_fifo q q' msg h = ground arith

abbrev pub someone : Client Queue
someone = record {
  ip = codes "10.0.0.1";
  queue = [];
  subscriptions = [];
  bytes_sent = 0;
  dropped = 0;
  connected_at = 0;
  kill = false;
}

abbrev pub two_sources : List Source
two_sources = new_source 0 (codes "ws://a") ∷ new_source 1 (codes "ws://b") ∷ []

abbrev pub hub : AppState Queue
hub = record {
  max_age = some 1_000_000_000;
  sources = two_sources;
  subs = [];
  clients = [];
  heap = λ _. someone;
  next_client_id = 1;
}

-- An entry with two clients attached and one parked, that follows source 0 at height 7.
abbrev pub busy : SubEntry
busy = record (default_entry 0) {
  last = 7;
  upstream_subscribed = true;
  subscribers = 1 ∷ 2 ∷ [];
  pending = record { client = 3; held = []; bytes = 0 } ∷ [];
  block_leader = some 0;
}

abbrev pub busy_hub : SubKey → AppState Queue
busy_hub key = record hub { subs = (key, busy) ∷ [] }

-- A source that delivers, and one that has been silent for two windows.
abbrev pub live_source : Source
live_source = record (new_source 0 (codes "ws://a")) {
  stats = record default_stats { connected = true; packets = 9; prev_packets = 9 };
}

abbrev pub dead_source : Source
dead_source = record (new_source 1 (codes "ws://b")) {
  stats = record default_stats {
    connected = true;
    packets = 9;
    prev_packets = 9;
    silent_windows = 2;
  };
}

abbrev pub no_counts : ByMode
no_counts = record { led = 0; raced = 0 }

abbrev pub no_verdict : Verdict
no_verdict = record {
  matched = 0;
  lost = 0;
  stale_dropped = 0;
  superseded = 0;
  skipped = 0;
  invented = 0;
  behind_us = 0;
  behind_n = 0;
  ahead_us = 0;
  ahead_n = 0;
  undecided = 0;
  noise_us = 0;
  noise_n = 0;
  noise_max_us = 0;
  twin_first = 0;
  twin_second = 0;
  twin_both = 0;
  node_only = 0;
  twin_only = 0;
  blk_seen = no_counts;
  blk_same_agree = no_counts;
  blk_same_differ = no_counts;
  blk_short = 0;
  blk_short_frames = 0;
  blk_cross_agree = no_counts;
  blk_cross_differ = no_counts;
}
