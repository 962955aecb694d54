-- ===== src/LoadTest/Planned.antt =====
-- What holds of the layout that the load test of src/bin/loadtest.rs starts with.
use hypeha.Base.{
  ℕ, suc, ◌+◌, ◌%◌, ◌^◌, ◌≤◌, ◌<◌, ◌≡◌, refl, subst, Bool, true, false, List, [], ◌∷◌, ◌++◌, map,
  Option, some, inl, inr, ltb, ite_cases, Option-cases, is_empty, length, replicate,
  length-replicate, length-append, arith, Text, codes,
}
use hypeha.Base.KeyMap.{get, put}
use hypeha.SubKey.{SubKey, label}
use hypeha.LoadTest.Arrivals.{text_discrete}
use hypeha.LoadTest.Marks.{IsSound}
use hypeha.LoadTest.Args.{Args, Result, all_subs}
use hypeha.LoadTest.Sweep.{max_slots, age_buckets}
use hypeha.LoadTest.Chunks.{Every, Every-append}
use hypeha.LoadTest.Plan.{
  Plan, Spawned, index_labels, noise_slot_of, used_slots_of, spawn_compared, spawn_twin, name_twin,
  to_proxy, spawn_proxy, lay_out, set_out_for, set_out,
}

-- Every index is below the number of subscriptions.
abbrev pub Below : ℕ → List (Text × ℕ) → Type 0
Below n = Every (λ (p : Text × ℕ). p.1 < n)

put-Below :
    (n : ℕ) (name : Text) (i : ℕ) (m : List (Text × ℕ))
    → i < n
    → Below n m
    → Below n (put text_discrete name i m)
unfolding put
put-Below n name i [] small below = (small, tt)
put-Below n name i ((other, j) ∷ m) small (here, below) =
    ite_cases (Below n) (text_discrete other name) (λ _. (small, below))
      (λ _. (here, put-Below n name i m small below))

index_labels-Below :
    (n i : ℕ) (ks : List SubKey) (m m' : List (Text × ℕ))
    → i + length ks ≤ n
    → Below n m
    → index_labels i ks m ≡ some m'
    → Below n m'
unfolding index_labels
index_labels-Below n i [] m m' h below made = let same : m ≡ m' = cc in subst (Below n) same below
index_labels-Below n i (k ∷ ks) m m' h below made = elim (Option-cases (label k)) [
  | inl panics ↦ absurd (ground (arith, panics, made))
  | inr (name, named) ↦
      index_labels-Below n (suc i) ks (put text_discrete name (i % 2 ^ 32) m) m' (omega (arith, h))
        (put-Below n name (i % 2 ^ 32) m (omega (arith, h)) below)
        (rw (named, index_labels) at made)
]

-- A layout that is made.
pub record Laid (window : ℕ) (args : Args) (subs : List SubKey) (plan : Plan) : Type 0 where
  pub some_subs : is_empty subs ≡ false
  pub room : ltb max_slots (used_slots_of args.noise_floor args.compare) ≡ false
  pub indices : List (Text × ℕ)
  pub indexed : index_labels 0 subs [] ≡ some indices
  pub laid_out : lay_out window args subs indices ≡ plan

set_out_for-Laid :
    (window : ℕ) (args : Args) (subs : List SubKey) (plan : Plan)
    → set_out_for window args subs ≡ some (Result.ok plan)
    → Laid window args subs plan
unfolding set_out_for
set_out_for-Laid window args subs plan out = elim (Option-cases (index_labels 0 subs [])) [
  | inl panics ↦ absurd (ground (arith, panics, out))
  | inr (indices, made) ↦ record {
    some_subs = ground (arith, out);
    room = ground (arith, out);
    indices = indices;
    indexed = made;
    laid_out = ground (arith, out, made);
  }
]

pub set_out-Laid :
    (window : ℕ) (read : Text → Option Text) (args : Args) (plan : Plan)
    → set_out window read args ≡ some (Result.ok plan)
    → (subs : List SubKey) × (all_subs read args ≡ Result.ok subs) × Laid window args subs plan
unfolding set_out
set_out-Laid window read args plan out = by_subs (all_subs read args) refl
  where
    by_subs :
        (r : Result (List SubKey))
        → all_subs read args ≡ r
        → (subs : List SubKey) × (r ≡ Result.ok subs) × Laid window args subs plan
    by_subs (Result.err e) same = absurd (ground (arith, same, out))
    by_subs (Result.ok subs) same =
        (subs, refl, set_out_for-Laid window args subs plan (rw (same, set_out) at out))

-- A slot that the comparison has room for, and statistics that there are.
abbrev pub Fits : ℕ → ℕ → Spawned → Type 0
Fits slots streams s = (s.slot < slots) × (s.stream < streams)

proxy-Fits :
    (url : Text) (chunks : List (List SubKey)) (n m : ℕ)
    → 0 < n
    → 0 < m
    → Every (Fits n m) (map (to_proxy url) chunks)
proxy-Fits url [] n m h k = tt
proxy-Fits url (c ∷ cs) n m h k = ((h, k), proxy-Fits url cs n m h k)

compared-Fits :
    (i : ℕ) (subs : List SubKey) (urls : List Text) (n m : ℕ)
    → i + length urls < n
    → i + length urls < m
    → Every (Fits n m) (spawn_compared i subs urls)
unfolding spawn_compared
compared-Fits i subs [] n m h k = tt
compared-Fits i subs (url ∷ urls) n m h k = (
  (omega (arith, h), omega (arith, k)),
  compared-Fits (suc i) subs urls n m (omega (arith, h)) (omega (arith, k)),
)

twin-Fits :
    (floor : Bool) (subs : List SubKey) (urls : List Text)
    → Every
        (Fits (used_slots_of floor urls) (used_slots_of floor urls))
        (spawn_twin (noise_slot_of floor urls) subs urls)
unfolding spawn_twin noise_slot_of used_slots_of
twin-Fits true subs [] = tt
twin-Fits true subs (url ∷ urls) = ((omega arith, omega arith), tt)
twin-Fits false subs urls = tt

names_lem :
    (floor : Bool) (urls : List Text)
    → suc (length (urls ++ name_twin (noise_slot_of floor urls) urls)) ≡ used_slots_of floor urls
unfolding noise_slot_of used_slots_of
names_lem true [] = refl
names_lem true (url ∷ urls) = omega (arith, length-append urls ((url ++ codes " (twin)") ∷ []))
names_lem false urls = omega (arith, length-append urls [])

used_slots_of-ge : (floor : Bool) (urls : List Text) → length urls < used_slots_of floor urls
unfolding noise_slot_of used_slots_of
used_slots_of-ge true [] = omega arith
used_slots_of-ge true (url ∷ urls) = omega arith
used_slots_of-ge false urls = omega arith

-- Nothing of a layout is out of range: the slots fit a message's record and the comparison, each
-- connection has its statistics, and each index of a subscription its place; and what the streams
-- share is sound, as the loop of each stream needs it.
pub record InRange (plan : Plan) : Type 0 where
  pub fit : Every (Fits plan.setup.used_slots (length plan.names)) plan.spawned
  pub few : plan.setup.used_slots ≤ max_slots
  pub judged : plan.setup.stop ≤ plan.setup.used_slots
  pub aged : length plan.matched_ages ≡ plan.setup.used_slots
  pub indexed : Below (length plan.shared.wsarb_max) plan.indices
  pub sound : IsSound plan.shared

lay_out-InRange :
    (window : ℕ) (args : Args) (subs : List SubKey) (indices : List (Text × ℕ))
    → ltb max_slots (used_slots_of args.noise_floor args.compare) ≡ false
    → index_labels 0 subs [] ≡ some indices
    → InRange (lay_out window args subs indices)
unfolding lay_out spawn_proxy get
lay_out-InRange window args subs indices room made =
    let n = used_slots_of args.noise_floor args.compare in
    let ge = used_slots_of-ge args.noise_floor args.compare in
    record {
      fit = rw (names_lem args.noise_floor args.compare) (
          Every-append (Fits n n) (spawn_proxy args.url args.connections subs) _
            (proxy-Fits args.url _ n n (omega (arith, ge)) (omega (arith, ge)))
            (Every-append (Fits n n) (spawn_compared 0 subs args.compare) _
              (compared-Fits 0 subs args.compare n n (omega (arith, ge)) (omega (arith, ge)))
              (twin-Fits args.noise_floor subs args.compare)));
      few = ground (arith, room);
      judged = omega (arith, ge);
      aged = length-replicate n (replicate age_buckets 0);
      indexed =
          rw (length-replicate {A = ℕ} (length subs) 0)
            (index_labels-Below (length subs) 0 subs [] indices (omega arith) tt made);
      sound = λ hash e found. absurd (cc found);
    }

-- Where the load test starts, each connection's slot is below the number of slots in use and the
-- number of its statistics below that of the streams, the slots in use are at most eight, the
-- compared slots end within them, there is a histogram of ages for each slot in use, each index of
-- a label has a place among the proxy's positions, and what the streams share has a place for every
-- slot in each message's entry and the proxy not behind where it was when the message first came.
pub set_out-InRange :
    (window : ℕ) (read : Text → Option Text) (args : Args) (plan : Plan)
    → set_out window read args ≡ some (Result.ok plan)
    → InRange plan
set_out-InRange window read args plan out =
    let (subs, asked, laid) = set_out-Laid window read args plan out in
    subst InRange laid.laid_out
      (lay_out-InRange window args subs laid.indices laid.room laid.indexed)
