-- ===== src/LoadTest/Plan.antt =====
-- How the load test sets out, from src/bin/loadtest.rs: the part of `main` that lays out the slots,
-- the indices of the subscriptions, the connections and what `sweeper` is told. The window is a
-- parameter, since it comes of floating point. `none` is the panic of a label.
use hypeha.Base.{
  ℕ, zero, suc, ◌+◌, ◌-◌, ◌/◌, ◌%◌, ◌^◌, Bool, not, ◌&&◌, List, [], ◌∷◌, ◌++◌, map, Option, none,
  some, ltb, if◌then◌else◌, is_empty, max, length, take, drop, replicate, Text, codes,
}
use hypeha.Base.KeyMap.{put}
use hypeha.SubKey.{SubKey, label}
use hypeha.LoadTest.Arrivals.{text_discrete, Shared}
use hypeha.LoadTest.Args.{Args, Bail, Result, all_subs}
use hypeha.LoadTest.Sweep.{Setup, max_slots, age_buckets}

-- `(i, k)` of `subs.iter().enumerate()` into the map of labels; a label that comes again takes the
-- later index.
unfoldable pub index_labels : ℕ → List SubKey → List (Text × ℕ) → Option (List (Text × ℕ))
index_labels i [] m = some m
index_labels i (k ∷ ks) m = elim (label k) [
  | none ↦ none
  | some name ↦ index_labels (suc i) ks (put text_discrete name (i % 2 ^ 32) m)
]

-- The second connection to the first compared node, if it is asked for.
unfoldable pub noise_slot_of : Bool → List Text → Option ℕ
noise_slot_of noise_floor compare =
    if noise_floor && not (is_empty compare) then some (1 + length compare) else none

unfoldable pub used_slots_of : Bool → List Text → ℕ
unfolding noise_slot_of
used_slots_of noise_floor compare =
    1 + length compare + (elim (noise_slot_of noise_floor compare) [ none ↦ 0 | some slot ↦ 1 ])

-- `a.div_ceil(b)`
abbrev pub div_ceil : ℕ → ℕ → ℕ
div_ceil a b = (a + (b - 1)) / b

-- `subs.chunks(n)`, of at most as many pieces as `fuel`.
unfoldable pub chunks_of {ℓ} : {A : Type ℓ} → ℕ → ℕ → List A → List (List A)
chunks_of zero n xs = []
chunks_of (suc fuel) n [] = []
chunks_of (suc fuel) n (x ∷ xs) = take n (x ∷ xs) ∷ chunks_of fuel n (drop n (x ∷ xs))

abbrev pub chunks {ℓ} : {A : Type ℓ} → ℕ → List A → List (List A)
chunks n xs = chunks_of (length xs) n xs

-- A connection that is started: what it connects to, what it subscribes to, its slot, and the
-- number of its statistics among the streams.
pub record Spawned : Type 0 where
  pub url : Text
  pub subs : List SubKey
  pub slot : ℕ
  pub stream : ℕ

unfoldable pub spawn_compared : ℕ → List SubKey → List Text → List Spawned
spawn_compared i subs [] = []
spawn_compared i subs (url ∷ urls) =
    record { url = url; subs = subs; slot = i + 1; stream = i + 1 }
    ∷ spawn_compared (suc i) subs urls

unfoldable pub spawn_twin : Option ℕ → List SubKey → List Text → List Spawned
spawn_twin none subs urls = []
spawn_twin (some slot) subs [] = []
spawn_twin (some slot) subs (url ∷ urls) =
    record { url = url; subs = subs; slot = slot; stream = 1 + length (url ∷ urls) } ∷ []

abbrev pub name_twin : Option ℕ → List Text → List Text
name_twin none urls = []
name_twin (some slot) [] = []
name_twin (some slot) (url ∷ urls) = (url ++ codes " (twin)") ∷ []

abbrev pub to_proxy : Text → List SubKey → Spawned
to_proxy url chunk = record { url = url; subs = chunk; slot = 0; stream = 0 }

-- The connections that share the proxy's statistics.
unfoldable pub spawn_proxy : Text → ℕ → List SubKey → List Spawned
spawn_proxy url connections subs =
    map (to_proxy url) (chunks (div_ceil (length subs) (max connections 1)) subs)

pub record Plan : Type 0 where
  pub names : List Text
  pub spawned : List Spawned
  pub indices : List (Text × ℕ)
  pub shared : Shared
  pub setup : Setup
  pub matched_ages : List (List ℕ)

module _ (window : ℕ) where
  unfoldable pub lay_out : Args → List SubKey → List (Text × ℕ) → Plan
  unfolding spawn_compared spawn_twin spawn_proxy noise_slot_of used_slots_of
  lay_out args subs indices = record {
    names =
        codes "wsarb"
        ∷ (args.compare ++ name_twin (noise_slot_of args.noise_floor args.compare) args.compare);
    spawned =
        spawn_proxy args.url args.connections subs
        ++ (spawn_compared 0 subs args.compare
            ++ spawn_twin (noise_slot_of args.noise_floor args.compare) subs args.compare);
    indices = indices;
    shared = record { seen = []; blocks = []; wsarb_max = replicate (length subs) 0 };
    setup = record {
      window = window;
      start = 1;
      stop = 1 + length args.compare;
      noise_slot = noise_slot_of args.noise_floor args.compare;
      used_slots = used_slots_of args.noise_floor args.compare;
    };
    matched_ages =
        replicate (used_slots_of args.noise_floor args.compare) (replicate age_buckets 0);
  }

  unfoldable pub set_out_for : Args → List SubKey → Option (Result Plan)
  unfolding index_labels used_slots_of lay_out
  set_out_for args subs =
      if is_empty subs
      then some (Result.err Bail.nothing_to_do)
      else if ltb max_slots (used_slots_of args.noise_floor args.compare)
      then some (Result.err (Bail.too_many_streams (used_slots_of args.noise_floor args.compare)))
      else (elim (index_labels 0 subs []) [
        | none ↦ none
        | some indices ↦ some (Result.ok (lay_out args subs indices))
      ])

  unfoldable pub set_out : (Text → Option Text) → Args → Option (Result Plan)
  unfolding set_out_for
  set_out read_to_string args = elim (all_subs read_to_string args) [
    | Result.err e ↦ some (Result.err e)
    | Result.ok subs ↦ set_out_for args subs
  ]
