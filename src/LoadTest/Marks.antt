-- ===== src/LoadTest/Marks.antt =====
-- What `run_stream`, of src/bin/loadtest.rs, records of one message: the entry in the map of the
-- messages, and the proxy's position.
use hypeha.Base.{
  ℕ, zero, suc, ◌≤◌, ◌<◌, ◌≡◌, refl, sym, ◌∙◌, ap, subst, List, [], ◌∷◌, Option, none, some, ◌==◌,
  max, length, set, get_or, ◌⊎◌, inl, inr, Option-cases, if_cases, ite_cases, arith, ℕ_discrete,
  not, ◌&&◌,
}
use hypeha.Base.KeyMap.{get, get-put}
use hypeha.Entry.{Seq}
use hypeha.LoadTest.Sweep.{Seen, max_slots, u32_max}
use hypeha.LoadTest.Arrivals.{
  Shared, StreamCtx, Moment, raise_max, mark_seen, compare_frame, or_new, new_seen, seq_value,
}

-- The time at which a slot first had the message of a hash.
abbrev pub FirstSeen : ℕ → ℕ → ℕ → Shared → Type 0
FirstSeen slot hash t sh =
    (e : Seen) × (get ℕ_discrete hash sh.seen ≡ some e) × (get_or e.at slot none ≡ some t)

-- An entry has a place for every slot, and the proxy is not behind where it was when the message
-- first came.
abbrev pub IsSoundEntry : List ℕ → Seen → Type 0
IsSoundEntry maxes e =
    (length e.at ≡ max_slots) × ((e.key ≡ u32_max) ⊎ (e.born_max ≤ get_or maxes e.key 0))

abbrev pub IsSound : Shared → Type 0
IsSound sh =
    (hash : ℕ) (e : Seen) → get ℕ_discrete hash sh.seen ≡ some e → IsSoundEntry sh.wsarb_max e

-- A place that is taken is not overwritten by one that is free.
set_free-keeps :
    (xs : List (Option ℕ)) (i j now t : ℕ)
    → get_or xs i none ≡ none
    → get_or xs j none ≡ some t
    → get_or (set xs i (some now)) j none ≡ some t
set_free-keeps [] i j now t free taken = taken
set_free-keeps (x ∷ xs) zero zero now t free taken = ground arith
set_free-keeps (x ∷ xs) zero (suc j) now t free taken = taken
set_free-keeps (x ∷ xs) (suc i) zero now t free taken = taken
set_free-keeps (x ∷ xs) (suc i) (suc j) now t free taken = set_free-keeps xs i j now t free taken

length-set : (xs : List (Option ℕ)) (i : ℕ) (v : Option ℕ) → length (set xs i v) ≡ length xs
length-set [] i v = refl
length-set (x ∷ xs) zero v = refl
length-set (x ∷ xs) (suc i) v = ap suc (length-set xs i v)

get_or-set-max :
    (xs : List ℕ) (i j v : ℕ) → get_or xs j 0 ≤ get_or (set xs i (max (get_or xs i 0) v)) j 0
get_or-set-max [] i j v = omega arith
get_or-set-max (x ∷ xs) zero zero v = omega arith
get_or-set-max (x ∷ xs) zero (suc j) v = omega arith
get_or-set-max (x ∷ xs) (suc i) zero v = omega arith
get_or-set-max (x ∷ xs) (suc i) (suc j) v = get_or-set-max xs i j v

get_or-set_lem :
    (xs : List (Option ℕ)) (i : ℕ) (v : Option ℕ) → i < length xs → get_or (set xs i v) i none ≡ v
get_or-set_lem [] i v h = ground arith
get_or-set_lem (x ∷ xs) zero v h = refl
get_or-set_lem (x ∷ xs) (suc i) v h = get_or-set_lem xs i v (omega arith)

mark_seen-keeps :
    (slot i now t : ℕ) (age : Option ℕ) (e : Seen)
    → get_or e.at slot none ≡ some t
    → get_or (mark_seen i now age e).at slot none ≡ some t
unfolding mark_seen
mark_seen-keeps slot i now t age e taken = elim (Option-cases (get_or e.at i none)) [
  | inl free ↦ rw (mark_seen, free) (set_free-keeps e.at i slot now t free taken)
  | inr (u, had) ↦ rw (mark_seen, had) taken
]

-- The entry of a message after its mark: the slot has it, and the rest is as it was.
mark_seen_lem :
    (i now : ℕ) (age : Option ℕ) (e : Seen)
    → i < length e.at
    → (t : ℕ) × (get_or (mark_seen i now age e).at i none ≡ some t)
unfolding mark_seen
mark_seen_lem i now age e room = elim (Option-cases (get_or e.at i none)) [
  | inl free ↦ rw (mark_seen, free) (now, get_or-set_lem e.at i (some now) room)
  | inr (u, had) ↦ rw (mark_seen, had) (u, had)
]

mark_seen-IsSoundEntry :
    (maxes : List ℕ) (i now : ℕ) (age : Option ℕ) (e : Seen)
    → IsSoundEntry maxes e
    → IsSoundEntry maxes (mark_seen i now age e)
unfolding mark_seen
mark_seen-IsSoundEntry maxes i now age e (long, behind) = elim (Option-cases (get_or e.at i none)) [
  | inl free ↦ rw (mark_seen, free) (length-set e.at i (some now) ∙ long, behind)
  | inr (u, had) ↦ rw (mark_seen, had) (long, behind)
]

raise_max-le :
    (slot key v j : ℕ) (maxes : List ℕ) → get_or maxes j 0 ≤ get_or (raise_max slot key v maxes) j 0
unfolding raise_max
raise_max-le slot key v j maxes =
    if_cases (λ (xs : List ℕ). get_or maxes j 0 ≤ get_or xs j 0) (slot == 0 && not (key == u32_max))
      (λ _. get_or-set-max maxes key j v) (λ _. omega arith)

new_seen-IsSoundEntry :
    (now key v : ℕ) (maxes : List ℕ) → IsSoundEntry maxes (new_seen now key v maxes)
new_seen-IsSoundEntry now key v maxes = (
  refl,
  if_cases (λ (n : ℕ). (key ≡ u32_max) ⊎ (n ≤ get_or maxes key 0)) (key == u32_max)
      (λ known. inl (ground arith)) (λ _. inr (omega arith)),
)

-- What `or_new` gives is the entry found, or the new one.
or_new-cases :
    (P : Seen → Type 0) (o : Option Seen) (fresh : Seen)
    → ((e : Seen) → o ≡ some e → P e)
    → P fresh
    → P (or_new o fresh)
or_new-cases P none fresh old new = new
or_new-cases P (some e) fresh old new = old e refl

module _ (ctx : StreamCtx) (m : Moment) (new key : ℕ) (seq : Seq) (age : Option ℕ) where
  -- The entry of the message, found or new, and marked.
  abbrev base : Shared → Seen
  base sh =
      or_new (get ℕ_discrete new sh.seen)
        (new_seen m.now key (seq_value seq) (raise_max ctx.slot key (seq_value seq) sh.wsarb_max))

  abbrev marked : Shared → Seen
  marked sh = mark_seen ctx.slot m.now age (base sh)

  pub compare_frame-FirstSeen :
      (slot hash t : ℕ) (sh : Shared)
      → FirstSeen slot hash t sh
      → FirstSeen slot hash t (compare_frame ctx m new key seq age sh)
  unfolding compare_frame
  compare_frame-FirstSeen slot hash t sh (e, found, taken) =
      rw (get-put ℕ_discrete hash new (marked sh) sh.seen) (
        ite_cases
          (λ (o : Option Seen). (x : Seen) × (o ≡ some x) × (get_or x.at slot none ≡ some t))
          (ℕ_discrete new hash)
          (λ same.
            let old : get ℕ_discrete new sh.seen ≡ some e =
              ap (λ k. get ℕ_discrete k sh.seen) same ∙ found in
            (marked sh, refl, rw (old) (mark_seen-keeps slot ctx.slot m.now t age e taken)))
          (λ _. (e, found, taken)))

  raise-IsSoundEntry :
      (sh : Shared) (e : Seen)
      → IsSoundEntry sh.wsarb_max e
      → IsSoundEntry (raise_max ctx.slot key (seq_value seq) sh.wsarb_max) e
  raise-IsSoundEntry sh e (long, inl unknown) = (long, inl unknown)
  raise-IsSoundEntry sh e (long, inr behind) =
      let more = raise_max-le ctx.slot key (seq_value seq) e.key sh.wsarb_max in
      (long, inr (omega arith))

  base-IsSoundEntry :
      (sh : Shared)
      → IsSound sh
      → IsSoundEntry (raise_max ctx.slot key (seq_value seq) sh.wsarb_max) (base sh)
  base-IsSoundEntry sh sound =
      or_new-cases (IsSoundEntry (raise_max ctx.slot key (seq_value seq) sh.wsarb_max))
        (get ℕ_discrete new sh.seen) _ (λ e found. raise-IsSoundEntry sh e (sound new e found))
        (new_seen-IsSoundEntry m.now key (seq_value seq) _)

  pub compare_frame-IsSound :
      (sh : Shared) → IsSound sh → IsSound (compare_frame ctx m new key seq age sh)
  unfolding compare_frame
  compare_frame-IsSound sh sound hash e found =
      ite_cases
        (λ (o : Option Seen).
          (x : Seen)
          → o ≡ some x
          → IsSoundEntry (raise_max ctx.slot key (seq_value seq) sh.wsarb_max) x)
        (ℕ_discrete new hash)
        (λ _ x is.
          subst (IsSoundEntry (raise_max ctx.slot key (seq_value seq) sh.wsarb_max)) {x = marked sh}
            {y = x} (cc)
            (mark_seen-IsSoundEntry _ ctx.slot m.now age _ (base-IsSoundEntry sh sound)))
        (λ _ x had. raise-IsSoundEntry sh x (sound hash x had)) e
        (sym (get-put ℕ_discrete hash new (marked sh) sh.seen) ∙ found)

  pub compare_frame-marks :
      (sh : Shared)
      → IsSound sh
      → ctx.slot < max_slots
      → (t : ℕ) × FirstSeen ctx.slot new t (compare_frame ctx m new key seq age sh)
  unfolding compare_frame
  compare_frame-marks sh sound room =
      let (long, behind) = base-IsSoundEntry sh sound in
      let (t, taken) = mark_seen_lem ctx.slot m.now age (base sh) (rw (long) room) in
      (
        t,
        (
          marked sh,
          rw (get-put ℕ_discrete new new (marked sh) sh.seen) (
              ite_cases (λ (o : Option Seen). o ≡ some (marked sh)) (ℕ_discrete new new) (λ _. refl)
                (λ differ. ground (arith, differ refl))),
          taken,
        ),
      )
