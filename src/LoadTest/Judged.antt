-- ===== src/LoadTest/Judged.antt =====
-- What `sweeper`, of src/bin/loadtest.rs, makes of one frame whose window is over.
-- The map of the blocks has no stamps of `Point` and of snapshots; for those only the proxy's
-- position tells whether it missed the frame.
use hypeha.Base.{
  ℕ, ◌+◌, ◌%◌, ◌^◌, ◌≡◌, refl, Bool, true, false, not, ◌&&◌, ◌||◌, List, Option, none, some, ltb,
  leb, ◌==◌, if◌then◌else◌, arith, get_or, if_cases, subst, sym, [], ◌∷◌, ite,
}
use hypeha.Base.KeyMap.{get}
use hypeha.LoadTest.Sweep.{
  Seen, Verdict, Setup, Blocks, bump, compared, earliest, count_twin, judge_twin, count_missing,
  count_match, judge, is_carried, u32_max, block_key-discrete,
}

-- All the frames that were decided on.
abbrev pub total : Verdict → ℕ
total v = v.matched + v.lost + v.stale_dropped + v.superseded + v.skipped + v.invented + v.undecided

abbrev pub is_some : Option ℕ → Bool
is_some none = false
is_some (some t) = true

abbrev pub ours : Seen → Option ℕ
ours e = get_or e.at 0 none

abbrev pub theirs : Setup → Seen → Option ℕ
theirs s e = earliest (compared s e.at)

count_twin_lem :
    (b a : Option ℕ) (v : Verdict)
    → (total (count_twin b a v) ≡ total v) × ((count_twin b a v).lost ≡ v.lost)
unfolding count_twin
count_twin_lem (some b) (some a) v = ground arith
count_twin_lem (some b) none v = (refl, refl)
count_twin_lem none (some a) v = (refl, refl)
count_twin_lem none none v = (refl, refl)

judge_twin_lem :
    (s : Setup) (e : Seen) (v : Verdict)
    → (total (judge_twin s e v) ≡ total v) × ((judge_twin s e v).lost ≡ v.lost)
unfolding judge_twin
judge_twin_lem s e v = by_slot s.noise_slot
  where
    by_slot :
        (slot : Option ℕ)
        → let w : Verdict = elim slot [
          | none ↦ v
          | some twin ↦ count_twin (get_or e.at s.start none) (get_or e.at twin none) v
        ] in
          (total w ≡ total v) × (w.lost ≡ v.lost)
    by_slot none = (refl, refl)
    by_slot (some twin) = count_twin_lem (get_or e.at s.start none) (get_or e.at twin none) v

-- How many frames of the proxy's a block counts: its first number.
abbrev of_proxy : List ℕ → ℕ
of_proxy [] = 0
of_proxy (n ∷ ns) = n

-- How many frames of the proxy's the first block counts that is kept under a key and a stamp.
abbrev pub proxy_frames : ℕ × ℕ → Blocks → ℕ
proxy_frames k [] = 0
proxy_frames k ((j, b) ∷ bs) = ite (block_key-discrete j k) (of_proxy b.n) (proxy_frames k bs)

-- Whether a frame that a node had is a hole in the proxy's stream: no block counts a frame of the
-- proxy's with its stamp, and the proxy was not past it when the frame first came, and is not past
-- it now; a subscription that is not known has no such position, nor blocks.
abbrev pub is_hole : Blocks → List ℕ → Seen → Bool
is_hole blocks wsarb_max e =
    e.key == u32_max
    || (proxy_frames (e.key, e.seq) blocks == 0
        && (leb e.born_max e.seq && leb (get_or wsarb_max e.key 0) e.seq))

first_lem : (ns : List ℕ) → get_or ns 0 0 ≡ of_proxy ns
first_lem [] = refl
first_lem (n ∷ ns) = refl

is_carried_lem :
    (blocks : Blocks) (e : Seen)
    → is_carried blocks e
      ≡ (not (e.key == u32_max) && not (proxy_frames (e.key, e.seq) blocks == 0))
unfolding is_carried get
is_carried_lem [] e = ground arith
is_carried_lem ((j, b) ∷ bs) e = ground (arith, is_carried_lem bs e, first_lem b.n)

is_hole_lem :
    (unknown none_of late passed : Bool)
    → (unknown || (none_of && (late && passed)))
      ≡ (not (not unknown && not none_of) && (unknown || (late && passed)))
is_hole_lem true none_of late passed = refl
is_hole_lem false true late passed = refl
is_hole_lem false false late passed = refl

-- One more frame was decided on, and it counts as lost if it is a hole.
abbrev Counts : Verdict → Bool → Verdict → Type 0
Counts v hole w =
    (total w % 2 ^ 64 ≡ (total v + 1) % 2 ^ 64) × (w.lost ≡ (if hole then bump v.lost else v.lost))

leb_lem : (a b : ℕ) → leb a b ≡ not (ltb b a)
leb_lem a b = ground arith

by_tests :
    (v : Verdict) (unknown stale carried ahead : Bool)
    → Counts v (not carried && (unknown || (not stale && not ahead))) (
        if not unknown && stale
        then record v { stale_dropped = bump v.stale_dropped }
        else if carried
        then record v { superseded = bump v.superseded }
        else if not unknown && ahead
        then record v { skipped = bump v.skipped }
        else record v { lost = bump v.lost })
by_tests v true stale true ahead = (omega arith, refl)
by_tests v true stale false ahead = (omega arith, refl)
by_tests v false true true ahead = (omega arith, refl)
by_tests v false true false ahead = (omega arith, refl)
by_tests v false false true ahead = (omega arith, refl)
by_tests v false false false true = (omega arith, refl)
by_tests v false false false false = (omega arith, refl)

missing_lem :
    (blocks : Blocks) (wsarb_max : List ℕ) (e : Seen) (v : Verdict)
    → Counts v (is_hole blocks wsarb_max e) (count_missing blocks wsarb_max e v)
unfolding count_missing
missing_lem blocks wsarb_max e v =
    let frames = proxy_frames (e.key, e.seq) blocks in
    rw
      (
        is_hole_lem (e.key == u32_max) (frames == 0) (leb e.born_max e.seq)
            (leb (get_or wsarb_max e.key 0) e.seq),
        sym (is_carried_lem blocks e),
        leb_lem e.born_max e.seq,
        leb_lem (get_or wsarb_max e.key 0) e.seq,
      )
      (by_tests v (e.key == u32_max) (ltb e.seq e.born_max) (is_carried blocks e)
        (ltb e.seq (get_or wsarb_max e.key 0)))

-- A frame that the proxy or a compared node had.
abbrev pub is_had : Option ℕ → Option ℕ → Bool
is_had o t = is_some o || is_some t

abbrev Judges : ℕ → ℕ → Bool → Bool → Verdict → Type 0
Judges n lost had hole w =
    ((total w + (if had then 0 else 1)) % 2 ^ 64 ≡ (n + 1) % 2 ^ 64)
    × (w.lost ≡ (if hole then bump lost else lost))

match_lem :
    (blocks : Blocks) (wsarb_max : List ℕ) (e : Seen) (o t : Option ℕ) (v : Verdict)
    → Judges
        (total v)
        v.lost
        (is_had o t)
        (not (is_some o) && (is_some t && is_hole blocks wsarb_max e))
        (count_match blocks wsarb_max e o t v)
unfolding count_match
match_lem blocks wsarb_max e (some o) (some t) v =
    if_cases (λ (w : Verdict). Judges (total v) v.lost true false w) (leb t o)
      (λ _. (omega arith, refl)) (λ _. (omega arith, refl))
match_lem blocks wsarb_max e none (some t) v =
    let (one, lost) = missing_lem blocks wsarb_max e v in (omega arith, lost)
match_lem blocks wsarb_max e (some o) none v = (omega arith, refl)
match_lem blocks wsarb_max e none none v = (omega arith, refl)

-- A frame that a compared node had and the proxy did not, and that is a hole.
abbrev pub is_missed : Setup → Blocks → List ℕ → Seen → Bool
is_missed s blocks wsarb_max e =
    not (is_some (ours e)) && (is_some (theirs s e) && is_hole blocks wsarb_max e)

pub judge_lem :
    (s : Setup) (blocks : Blocks) (wsarb_max : List ℕ) (e : Seen) (v : Verdict)
    → Judges
        (total v)
        v.lost
        (is_had (ours e) (theirs s e))
        (is_missed s blocks wsarb_max e)
        (judge s blocks wsarb_max e v)
unfolding judge
judge_lem s blocks wsarb_max e v =
    let (same, lost) = judge_twin_lem s e v in
    subst
      (λ n.
        Judges n v.lost (is_had (ours e) (theirs s e)) (is_missed s blocks wsarb_max e)
          (judge s blocks wsarb_max e v))
      same
      (subst
        (λ l.
          Judges (total (judge_twin s e v)) l (is_had (ours e) (theirs s e))
            (is_missed s blocks wsarb_max e) (judge s blocks wsarb_max e v))
        lost (match_lem blocks wsarb_max e (ours e) (theirs s e) (judge_twin s e v)))
