-- ===== src/LoadTest/Arrivals.antt =====
-- What one connection of the load test does with what it receives, from src/bin/loadtest.rs:
-- `Stream`, `StreamCtx`, `note_end` and the loop of `run_stream`. The streams share the maps that
-- `sweeper` reads. `serde_json` and the hasher are parameters, floating point too: `is_early` is
-- the test of `note_end`. Clock readings, and the time that the work took, come with each message.
use hypeha.Base.{
  ℕ, ◌+◌, ◌-◌, ◌/◌, Bool, true, false, not, ◌&&◌, ◌||◌, List, [], ◌∷◌, ◌++◌, Option, none, some,
  leb, ◌==◌, if◌then◌else◌, max, add_u32, add_u64, length, set, get_or, replicate, Text, codes,
  ℕ_discrete,
}
use hypeha.Base.KeyMap.{get, put}
use hypeha.SubKey.{SubKey, label}
use hypeha.Entry.{Seq}
use hypeha.Upstream.{Frame, route, strip_prefix}
use hypeha.LoadTest.{KeyStats, default_key_stats, note, order, note_age}
use hypeha.LoadTest.Sweep.{Seen, Block, Blocks, max_slots, u32_max, block_key-discrete}

-- The statistics of a stream, without its name.
pub record Stream : Type 0 where
  pub keys : List (Text × KeyStats)
  pub rejected : ℕ
  pub age_by_sec : List (ℕ × ℕ)
  pub busy_ns : ℕ
  pub ended : List (ℕ × Text)

-- What the streams share.
pub record Shared : Type 0 where
  pub seen : List (ℕ × Seen)
  pub blocks : Blocks
  pub wsarb_max : List ℕ

-- What a stream is told.
pub record StreamCtx : Type 0 where
  pub slot : ℕ
  pub indices : List (Text × ℕ)
  pub start : ℕ

-- When a message is handled: the two clocks, and how long the work takes.
pub record Moment : Type 0 where
  pub now : ℕ
  pub now_ms : ℕ
  pub spent : ℕ

-- What a read gives: a text or another message, an error, the end of the socket, or nothing until
-- the deadline.
pub data ReadResult : Type 0 where
  message : Text → ReadResult
  other : ReadResult
  failed : Text → ReadResult
  closed : ReadResult
  timed_out : ReadResult

-- A turn of the loop: whether it is told to stop, when it reads, and what comes.
pub record Turn : Type 0 where
  pub stopped : Bool
  pub asked_at : ℕ
  pub moment : Moment
  pub received : ReadResult

abbrev pub Both : Type 0
Both = Stream × Shared

pub text_discrete : Discrete Text
text_discrete = hlevel ℕ_discrete

unfoldable pub note_end : (ℕ → Bool) → ℕ → Text → Stream → Stream
note_end is_early at reason s =
    if is_early at then record s { ended = s.ended ++ ((at, reason) ∷ []) } else s

abbrev pub seq_value : Seq → ℕ
seq_value (Seq.point v) = v
seq_value (Seq.block v) = v
seq_value (Seq.snapshot v) = v
seq_value (Seq.lead v) = v
seq_value (Seq.sticky v) = v

-- A stamp that covers several messages, and whether its positions are raced.
abbrev pub stamp_of : Seq → Option (ℕ × Bool)
stamp_of (Seq.block h) = some (h, true)
stamp_of (Seq.lead h) = some (h, false)
stamp_of (Seq.sticky h) = some (h, false)
stamp_of (Seq.point v) = none
stamp_of (Seq.snapshot h) = none

-- The sum and the number of the ages of a second.
unfoldable pub count_age : ℕ → Option ℕ → List (ℕ × ℕ) → List (ℕ × ℕ)
count_age sec none seconds = seconds
count_age sec (some age) seconds =
    let room =
      if leb (length seconds) sec
      then seconds ++ replicate (sec + 1 - length seconds) (0, 0)
      else seconds in
    let (sum, n) = get_or room sec (0, 0) in set room sec (add_u64 sum age, add_u32 n 1)

abbrev pub or_max : Option ℕ → ℕ
or_max none = u32_max
or_max (some k) = k

abbrev pub index_of : StreamCtx → Text → ℕ
index_of ctx name = or_max (get text_discrete name ctx.indices)

-- The proxy's position on a subscription, raised by the proxy's own stream.
unfoldable pub raise_max : ℕ → ℕ → ℕ → List ℕ → List ℕ
raise_max slot key v maxes =
    if slot == 0 && not (key == u32_max) then set maxes key (max (get_or maxes key 0) v) else maxes

-- The entry of a message that no stream had before.
abbrev pub new_seen : ℕ → ℕ → ℕ → List ℕ → Seen
new_seen now key v maxes = record {
  at = replicate max_slots none;
  ages = replicate max_slots u32_max;
  born = now;
  key = key;
  seq = v;
  born_max = if key == u32_max then 0 else get_or maxes key 0;
}

abbrev pub set_age : ℕ → Option ℕ → List ℕ → List ℕ
set_age slot none ages = ages
set_age slot (some age) ages = set ages slot age

-- The first time that a slot has the message.
unfoldable pub mark_seen : ℕ → ℕ → Option ℕ → Seen → Seen
mark_seen slot now age e = elim (get_or e.at slot none) [
  | none ↦ record e { at = set e.at slot (some now); ages = set_age slot age e.ages }
  | some t ↦ e
]

abbrev pub or_new {ℓ} : {A : Type ℓ} → Option A → A → A
or_new none a = a
or_new (some b) a = b

abbrev pub new_block : ℕ → Bool → Block
new_block now raced = record { born = now; n = replicate max_slots 0; raced = raced }

abbrev pub count_slot : ℕ → Block → Block
count_slot slot b = record b { n = set b.n slot (add_u32 (get_or b.n slot 0) 1) }

unfoldable pub count_block : ℕ → ℕ → ℕ → Option (ℕ × Bool) → Blocks → Blocks
count_block slot now key none blocks = blocks
count_block slot now key (some (h, raced)) blocks =
    if key == u32_max
    then blocks
    else put block_key-discrete (key, h)
        (count_slot slot (or_new (get block_key-discrete (key, h) blocks) (new_block now raced)))
        blocks

abbrev pub error_prefix : Text
error_prefix = codes "{\"channel\":\"error"

module _ (index scale : ℕ → ℕ) where
  -- The statistics of a key: `note`, `order` and `note_age`, and the age.
  unfoldable pub measure : StreamCtx → Moment → Text → Text → Seq → Stream → Stream × Option ℕ
  measure ctx m name text seq s =
      let st = or_new (get text_discrete name s.keys) default_key_stats in
      let noted = order seq name (note index scale m.now ctx.start (length text) st) in
      let (aged, age) = note_age text m.now_ms noted in
      (
        record s {
          keys = put text_discrete name aged s.keys;
          age_by_sec = count_age ((m.now - ctx.start) / 1_000_000_000) age s.age_by_sec;
        },
        age,
      )

-- What the comparison of the streams is told of a message.
unfoldable pub compare_frame : StreamCtx → Moment → ℕ → ℕ → Seq → Option ℕ → Shared → Shared
unfolding raise_max mark_seen count_block
compare_frame ctx m hash key seq age sh =
    let maxes = raise_max ctx.slot key (seq_value seq) sh.wsarb_max in
    let e = or_new (get ℕ_discrete hash sh.seen) (new_seen m.now key (seq_value seq) maxes) in
    record sh {
      wsarb_max = maxes;
      seen = put ℕ_discrete hash (mark_seen ctx.slot m.now age e) sh.seen;
      blocks = count_block ctx.slot m.now key (stamp_of seq) sh.blocks;
    }

abbrev pub go_on : (Both → Option Both) → Option Both × Bool → Option Both
go_on rest (none, more) = none
go_on rest (some both, true) = rest both
go_on rest (some both, false) = some both

module _ (parse : Text → Option Frame) (hash_of : Text → ℕ) (index scale : ℕ → ℕ) where
  -- A message that routes; `none` is a panic in its label.
  unfoldable pub take_frame : StreamCtx → Moment → Text → SubKey × Seq → Both → Option Both
  take_frame ctx m text (key, seq) (s, sh) = elim (label key) [
    | none ↦ none
    | some name ↦
        let (measured, age) = measure index scale ctx m name text seq s in
        some (measured, compare_frame ctx m (hash_of text) (index_of ctx name) seq age sh)
  ]

  -- A text of the socket.
  unfoldable pub take_text : StreamCtx → Moment → Text → Both → Option Both
  unfolding take_frame
  take_text ctx m text (s, sh) = elim (strip_prefix error_prefix text) [
    | some rest ↦ some (record s { rejected = add_u64 s.rejected 1 }, sh)
    | none ↦ elim (parse text) [
      | none ↦ some (s, sh)
      | some frame ↦ elim (route frame) [
        | none ↦ some (s, sh)
        | some routed ↦ take_frame ctx m text routed (s, sh)
      ]
    ]
  ]

  -- `Busy`: the time of the work is added by whatever path it is left.
  abbrev pub count_busy : ℕ → Option Both → Option Both
  count_busy spent none = none
  count_busy spent (some (s, sh)) = some (record s { busy_ns = add_u64 s.busy_ns spent }, sh)

  -- What a read makes of the state, and whether the loop goes on.
  unfoldable pub handle_read :
      (ℕ → Bool) → StreamCtx → Moment → ReadResult → Both → Option Both × Bool
  handle_read is_early ctx m (ReadResult.message text) both =
      (count_busy m.spent (take_text ctx m text both), true)
  handle_read is_early ctx m ReadResult.other both = (some both, true)
  handle_read is_early ctx m (ReadResult.failed reason) (s, sh) =
      (some (note_end is_early (m.now - ctx.start) reason s, sh), false)
  handle_read is_early ctx m ReadResult.closed (s, sh) =
      (some (note_end is_early (m.now - ctx.start) (codes "closed by peer") s, sh), false)
  handle_read is_early ctx m ReadResult.timed_out both = (some both, false)

  -- The loop of `run_stream`, on the reads that its turns would make: the run is over when it is
  -- told to stop or the deadline is there.
  unfoldable pub listen : (ℕ → Bool) → ℕ → StreamCtx → List Turn → Both → Option Both
  listen is_early deadline ctx [] both = some both
  listen is_early deadline ctx (turn ∷ turns) both =
      if turn.stopped || leb deadline turn.asked_at
      then some both
      else go_on (listen is_early deadline ctx turns)
          (handle_read is_early ctx turn.moment turn.received both)
