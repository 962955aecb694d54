-- ===== src/LoadTest/Sweep.antt =====
-- The load test's comparison of the streams, from src/bin/loadtest.rs: `Seen`, `Block`, `Verdict`
-- and one pass of `sweeper`. Slot 0 is the proxy, the compared nodes follow, and the last one is a
-- second connection to the first node. The maps are association lists, visited in order.
use hypeha.Base.{
  ℕ, zero, suc, ◌+◌, ◌-◌, ◌/◌, ◌%◌, ◌^◌, Bool, true, false, not, ◌&&◌, List, [], ◌∷◌, Option, none,
  some, ltb, leb, ◌==◌, if◌then◌else◌, min, max, add_u32, add_u64, set, get_or, take, drop, any,
  ℕ_discrete,
}
use hypeha.Base.KeyMap.{get}

abbrev pub max_slots : ℕ
max_slots = 8

abbrev pub u32_max : ℕ
u32_max = 2 ^ 32 - 1

abbrev pub age_buckets : ℕ
age_buckets = 120_001

pub record Seen : Type 0 where
  pub at : List (Option ℕ)
  pub ages : List ℕ
  pub born : ℕ
  pub key : ℕ
  pub seq : ℕ
  pub born_max : ℕ

pub record Block : Type 0 where
  pub born : ℕ
  pub n : List ℕ
  pub raced : Bool

-- A counter for each mode: `led` is index 0 and `raced` index 1.
pub record ByMode : Type 0 where
  pub led : ℕ
  pub raced : ℕ

pub record Verdict : Type 0 where
  pub matched : ℕ
  pub lost : ℕ
  pub stale_dropped : ℕ
  pub superseded : ℕ
  pub skipped : ℕ
  pub invented : ℕ
  pub behind_us : ℕ
  pub behind_n : ℕ
  pub ahead_us : ℕ
  pub ahead_n : ℕ
  pub undecided : ℕ
  pub noise_us : ℕ
  pub noise_n : ℕ
  pub noise_max_us : ℕ
  pub twin_first : ℕ
  pub twin_second : ℕ
  pub twin_both : ℕ
  pub node_only : ℕ
  pub twin_only : ℕ
  pub blk_seen : ByMode
  pub blk_same_agree : ByMode
  pub blk_same_differ : ByMode
  pub blk_short : ℕ
  pub blk_short_frames : ℕ
  pub blk_cross_agree : ByMode
  pub blk_cross_differ : ByMode

-- What a pass is told: the window, the compared slots from `start` up to `stop`, the slot of the
-- second connection, if there is one, and the number of slots in use.
pub record Setup : Type 0 where
  pub window : ℕ
  pub start : ℕ
  pub stop : ℕ
  pub noise_slot : Option ℕ
  pub used_slots : ℕ

abbrev pub Blocks : Type 0
Blocks = List ((ℕ × ℕ) × Block)

pub block_key-discrete : Discrete (ℕ × ℕ)
block_key-discrete = hlevel ℕ_discrete

-- `d.as_micros() as u64`
abbrev pub micros : ℕ → ℕ
micros d = d / 1_000 % 2 ^ 64

abbrev pub bump : ℕ → ℕ
bump n = add_u64 n 1

abbrev pub bump_mode : Bool → ByMode → ByMode
bump_mode true m = record m { raced = bump m.raced }
bump_mode false m = record m { led = bump m.led }

-- The values of the compared slots.
abbrev pub compared {ℓ} : {A : Type ℓ} → Setup → List A → List A
compared s xs = take (s.stop - s.start) (drop s.start xs)

-- `filter_map(..).min()` on the times.
unfoldable pub earliest : List (Option ℕ) → Option ℕ
earliest [] = none
earliest (none ∷ xs) = earliest xs
earliest (some t ∷ xs) = elim (earliest xs) [ none ↦ some t | some u ↦ some (min t u) ]

unfoldable pub largest : List ℕ → ℕ
largest [] = 0
largest (x ∷ xs) = max x (largest xs)

-- How the two connections to one node compare on a frame.
unfoldable pub count_twin : Option ℕ → Option ℕ → Verdict → Verdict
count_twin (some b) (some a) v =
    let d = if ltb b a then a - b else b - a in
    let both = record v {
      twin_both = bump v.twin_both;
      noise_us = add_u64 v.noise_us (micros d);
      noise_n = bump v.noise_n;
      noise_max_us = max v.noise_max_us (micros d);
    } in
    if ltb a b
    then record both { twin_first = bump both.twin_first }
    else record both { twin_second = bump both.twin_second }
count_twin (some b) none v = record v { node_only = bump v.node_only }
count_twin none (some a) v = record v { twin_only = bump v.twin_only }
count_twin none none v = v

unfoldable pub judge_twin : Setup → Seen → Verdict → Verdict
unfolding count_twin
judge_twin s e v = elim s.noise_slot [
  | none ↦ v
  | some twin ↦ count_twin (get_or e.at s.start none) (get_or e.at twin none) v
]

-- Each stream's age of a frame goes into the stream's histogram.
unfoldable pub add_ages : ℕ → List ℕ → List (List ℕ) → List (List ℕ)
add_ages zero ages hists = hists
add_ages (suc n) [] hists = hists
add_ages (suc n) (a ∷ more) [] = []
add_ages (suc n) (a ∷ more) (hist ∷ hists) =
    let i = min a (age_buckets - 1) in
    set hist i (add_u32 (get_or hist i 0) 1) ∷ add_ages n more hists

-- Only of frames that every stream in use carried.
unfoldable pub judge_ages : Setup → Seen → List (List ℕ) → List (List ℕ)
unfolding add_ages
judge_ages s e hists =
    if any (λ a. a == u32_max) (take s.used_slots e.ages)
    then hists
    else add_ages s.used_slots e.ages hists

-- Whether the proxy carried the stamp of a frame at all.
unfoldable pub is_carried : Blocks → Seen → Bool
is_carried blocks e = elim (get block_key-discrete (e.key, e.seq) blocks) [
  | none ↦ false
  | some b ↦ not (e.key == u32_max) && ltb 0 (get_or b.n 0 0)
]

-- Whether the proxy is past the stamp by now.
abbrev pub is_passed : List ℕ → Seen → Bool
is_passed wsarb_max e = not (e.key == u32_max) && ltb e.seq (get_or wsarb_max e.key 0)

-- A frame that a node had and the proxy did not.
unfoldable pub count_missing : Blocks → List ℕ → Seen → Verdict → Verdict
unfolding is_carried
count_missing blocks wsarb_max e v =
    if not (e.key == u32_max) && ltb e.seq e.born_max
    then record v { stale_dropped = bump v.stale_dropped }
    else if is_carried blocks e
    then record v { superseded = bump v.superseded }
    else if is_passed wsarb_max e
    then record v { skipped = bump v.skipped }
    else record v { lost = bump v.lost }

unfoldable pub count_match : Blocks → List ℕ → Seen → Option ℕ → Option ℕ → Verdict → Verdict
unfolding count_missing
count_match blocks wsarb_max e (some o) (some t) v =
    let hit = record v { matched = bump v.matched } in
    if leb t o
    then record hit { behind_us = add_u64 v.behind_us (micros (o - t)); behind_n = bump v.behind_n }
    else record hit { ahead_us = add_u64 v.ahead_us (micros (t - o)); ahead_n = bump v.ahead_n }
count_match blocks wsarb_max e none (some t) v = count_missing blocks wsarb_max e v
count_match blocks wsarb_max e (some o) none v = record v { invented = bump v.invented }
count_match blocks wsarb_max e none none v = v

-- A frame whose window is over.
unfoldable pub judge : Setup → Blocks → List ℕ → Seen → Verdict → Verdict
judge s blocks wsarb_max e v =
    count_match blocks wsarb_max e (get_or e.at 0 none) (earliest (compared s e.at))
      (judge_twin s e v)

abbrev pub is_young : Setup → ℕ → ℕ → Bool
is_young s now born = ltb (now - born) s.window

unfoldable pub judge_same : Setup → Block → Verdict → Verdict
judge_same s b v = elim s.noise_slot [
  | none ↦ v
  | some twin ↦
      if get_or b.n s.start 0 == get_or b.n twin 0
      then record v { blk_same_agree = bump_mode b.raced v.blk_same_agree }
      else record v { blk_same_differ = bump_mode b.raced v.blk_same_differ }
]

unfoldable pub judge_short : Setup → Block → Verdict → Verdict
judge_short s b v =
    let best = largest (compared s b.n) in
    if ltb (get_or b.n 0 0) best
    then record v {
      blk_short = bump v.blk_short;
      blk_short_frames = add_u64 v.blk_short_frames (best - get_or b.n 0 0);
    }
    else v

unfoldable pub judge_cross : Setup → Block → Verdict → Verdict
judge_cross s b v =
    if ltb (s.start + 1) s.stop
    then (if get_or b.n s.start 0 == get_or b.n (s.start + 1) 0
        then record v { blk_cross_agree = bump_mode b.raced v.blk_cross_agree }
        else record v { blk_cross_differ = bump_mode b.raced v.blk_cross_differ })
    else v

-- A block whose window is over, if every stream carried it.
unfoldable pub judge_block : Setup → Block → Verdict → Verdict
judge_block s b v =
    if any (λ n. n == 0) (take s.used_slots b.n)
    then v
    else judge_cross s b
        (judge_short s b (judge_same s b (record v { blk_seen = bump_mode b.raced v.blk_seen })))

module _ (s : Setup) (now : ℕ) (finishing : Bool) where
  -- `seen.retain`: what is kept, the counters and the histograms.
  unfoldable pub sweep_seen :
      Blocks
      → List ℕ
      → List (ℕ × Seen)
      → Verdict
      → List (List ℕ)
      → List (ℕ × Seen) × Verdict × List (List ℕ)
  sweep_seen blocks wsarb_max [] v ages = ([], v, ages)
  sweep_seen blocks wsarb_max ((h, e) ∷ es) v ages =
      let young = is_young s now e.born in
      let v' =
        if young
        then (if finishing then record v { undecided = bump v.undecided } else v)
        else judge s blocks wsarb_max e v in
      let ages' = if young then ages else judge_ages s e ages in
      let (kept, done, hists) = sweep_seen blocks wsarb_max es v' ages' in
      (if young && not finishing then (h, e) ∷ kept else kept, done, hists)

  unfoldable pub sweep_blocks : Blocks → Verdict → Blocks × Verdict
  sweep_blocks [] v = ([], v)
  sweep_blocks ((k, b) ∷ bs) v =
      let young = is_young s now b.born in
      let (kept, done) = sweep_blocks bs (if young then v else judge_block s b v) in
      (if young && not finishing then (k, b) ∷ kept else kept, done)

  -- One pass of `sweeper`.
  unfoldable pub sweep :
      List ℕ
      → List (ℕ × Seen)
      → Blocks
      → Verdict
      → List (List ℕ)
      → List (ℕ × Seen) × Blocks × Verdict × List (List ℕ)
  sweep wsarb_max seen blocks v ages =
      let (kept, judged, hists) = sweep_seen blocks wsarb_max seen v ages in
      let (kept_blocks, done) = sweep_blocks blocks judged in (kept, kept_blocks, done, hists)
