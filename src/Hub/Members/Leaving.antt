-- ===== src/Hub/Members/Leaving.antt =====
-- A client that gives up keys: `detach`, one key after the other.
use hypeha.Base.{
  ℕ, ◌≡◌, refl, ◌∙◌, ap, sym, ◌⊎◌, inl, inr, Bool, true, false, not, ◌&&◌, List, [], ◌∷◌, Option,
  none, some, ◌==◌, if◌then◌else◌, arith, Bool-cases, Option-cases, if_cases, ite, subst, ==_refl,
  ite_cases, if_neg,
}
use hypeha.Base.KeyMap.{put, get-put, get-remove}
use hypeha.SubKey.{SubKey, SubKey-discrete}
use hypeha.Entry.{SubEntry}
use hypeha.Hub.{Client, AppState, find_entry}
use hypeha.Hub.Registry.{detach, detach_all, leave_entry, broadcast_ctrl, holds_key}
use hypeha.Hub.Control.{flag_of}
use hypeha.Hub.Members.{on_entry, present, pinned_of, holds, Registered}
use hypeha.Hub.Members.Joining.{leave_entry-on_entry, last_one_lem, not_last_lem, leave_entry-flag}

-- The entry of a key after a client has left it.
abbrev pub detached : ℕ → Option SubEntry → Option SubEntry
detached id none = none
detached id (some e) =
    let (left, last_one) = leave_entry id e in if last_one then none else some left

pub detach-find_entry :
    {Q : Type 0} (id : ℕ) (key k : SubKey) (st : AppState Q)
    → find_entry k (detach id key st)
      ≡ ite (SubKey-discrete key k) (detached id (find_entry key st)) (find_entry k st)
unfolding detach broadcast_ctrl
detach-find_entry {Q} id key k st = elim (Option-cases (find_entry key st)) [
  | inl missing ↦ rw (missing, detach) (ground (arith, missing))
  | inr (e, found) ↦
      rw (found, detach)
        (if_cases
          (λ (t : AppState Q).
            find_entry k t ≡ ite (SubKey-discrete key k) (detached id (some e)) (find_entry k st))
          (leave_entry id e).1
          (λ last. ground (
            arith,
            get-put SubKey-discrete k key (leave_entry id e).0 st.subs,
            get-remove SubKey-discrete k key (put SubKey-discrete key (leave_entry id e).0 st.subs),
          ))
          (λ others. ground (arith, get-put SubKey-discrete k key (leave_entry id e).0 st.subs)))
]

pub detach-heap :
    {Q : Type 0} (id : ℕ) (key : SubKey) (st : AppState Q) → (detach id key st).heap ≡ st.heap
unfolding detach broadcast_ctrl
detach-heap {Q} id key st = elim (Option-cases (find_entry key st)) [
  | inl missing ↦ rw (missing, detach) refl
  | inr (e, found) ↦
      rw (found, detach)
        (if_cases (λ (t : AppState Q). t.heap ≡ st.heap) (leave_entry id e).1 (λ last. refl)
          (λ others. refl))
]

-- A client has dropped its keys from its own set, and some of them are still to be detached.
pub record Leaving {Q : Type 0} (id : ℕ) (k : SubKey) (todo : Bool) (o : Option SubEntry)
    (heap : ℕ → Client Q) : Type 0 where
  pub forgotten : holds k id heap ≡ false
  pub no_ghost : (i : ℕ) → present i o ≡ true → (holds k i heap ≡ true) ⊎ ((i ≡ id) × (todo ≡ true))
  pub kept : (i : ℕ) → holds k i heap ≡ true → (present i o ≡ true) ⊎ ((heap i).kill ≡ true)
  pub served : (i : ℕ) → present i o ≡ true → flag_of o ≡ true
  pub needed :
      flag_of o ≡ true → (pinned_of o ≡ true) ⊎ ((i : ℕ) × (holds k i heap ≡ true)) ⊎ (todo ≡ true)

pub Leaving-Registered :
    {Q : Type 0} (id : ℕ) (k : SubKey) (o : Option SubEntry) (heap : ℕ → Client Q)
    → Leaving id k false o heap
    → Registered k o heap × (present id o ≡ false)
Leaving-Registered id k o heap l = (
  record {
    no_ghost = λ i p. elim (l.no_ghost i p) [ inl h ↦ h | inr (same, more) ↦ cc ];
    kept = l.kept;
    served = l.served;
    needed = λ live. elim (l.needed live) [
      | inl pin ↦ inl pin
      | inr (inl h) ↦ inr h
      | inr (inr more) ↦ cc
    ];
  },
  elim (Bool-cases (present id o)) [
    | inl on ↦ elim (l.no_ghost id on) [ inl h ↦ cc (l.forgotten) | inr (same, more) ↦ cc ]
    | inr off ↦ off
  ],
)

other_one :
    {Q : Type 0} (id i : ℕ) (k : SubKey) (heap : ℕ → Client Q)
    → holds k id heap ≡ false
    → holds k i heap ≡ true
    → (i == id) ≡ false
other_one id i k heap h g = elim (Bool-cases (i == id)) [
  | inl same ↦ let e : i ≡ id = ground arith in cc (h, subst (λ (j : ℕ). holds k j heap ≡ true) e g)
  | inr other ↦ other
]

module _ {Q : Type 0} (id : ℕ) (k : SubKey) (todo : Bool) (e : SubEntry) (heap : ℕ → Client Q)
    (l : Leaving id k todo (some e) heap) where
  last-Leaving : (leave_entry id e).1 ≡ true → Leaving id k false none heap
  last-Leaving last = record {
    forgotten = l.forgotten;
    no_ghost = λ i p. cc;
    kept = λ i h. elim (l.kept i h) [
      | inl on ↦
          let off : (on_entry i e && not (i == id)) ≡ false =
            sym (leave_entry-on_entry id i e) ∙ last_one_lem id i e last in
          let other : (i == id) ≡ false = other_one id i k heap l.forgotten h in
          inl (ground (arith, off, other, on))
      | inr dead ↦ inr dead
    ];
    served = λ i p. cc;
    needed = λ live. cc;
  }

  left-Leaving : (leave_entry id e).1 ≡ false → Leaving id k false (some (leave_entry id e).0) heap
  left-Leaving others = record {
    forgotten = l.forgotten;
    no_ghost = λ i p. inl (ghost i p);
    kept = λ i h. elim (l.kept i h) [
      | inl on ↦
          let other : (i == id) ≡ false = other_one id i k heap l.forgotten h in
          inl (leave_entry-on_entry id i e ∙ ground (arith, other, on))
      | inr dead ↦ inr dead
    ];
    served = λ i p. leave_entry-flag id e others ∙ l.served i (was i p).0;
    needed = λ live. elim (not_last_lem id e others live) [
      | inl pin ↦ inl pin
      | inr (i, on) ↦ inr (inl (i, ghost i on))
    ];
  }
    where
      was :
          (i : ℕ)
          → on_entry i (leave_entry id e).0 ≡ true
          → (on_entry i e ≡ true) × ((i == id) ≡ false)
      was i p = ground (arith, leave_entry-on_entry id i e)

      ghost : (i : ℕ) → on_entry i (leave_entry id e).0 ≡ true → holds k i heap ≡ true
      ghost i p = elim (l.no_ghost i (was i p).0) [
        | inl h ↦ h
        | inr (same, more) ↦
            let other = (was i p).1 in cc (ap (λ (j : ℕ). j == id) same, ==_refl id, other)
      ]

-- Detaching the client from the key is all that was left to do there.
pub detached-Leaving :
    {Q : Type 0} (id : ℕ) (k : SubKey) (todo : Bool) (o : Option SubEntry) (heap : ℕ → Client Q)
    → Leaving id k todo o heap
    → Leaving id k false (detached id o) heap
detached-Leaving id k todo none heap l = record {
  forgotten = l.forgotten;
  no_ghost = λ i p. cc;
  kept = l.kept;
  served = λ i p. cc;
  needed = λ live. cc;
}
detached-Leaving id k todo (some e) heap l =
    if_cases (λ (o : Option SubEntry). Leaving id k false o heap) (leave_entry id e).1
      (last-Leaving id k todo e heap l) (left-Leaving id k todo e heap l)

Leaving-more :
    {Q : Type 0} (id : ℕ) (k : SubKey) (todo : Bool) (o : Option SubEntry) (heap : ℕ → Client Q)
    → Leaving id k false o heap
    → Leaving id k todo o heap
Leaving-more id k todo o heap l = record {
  forgotten = l.forgotten;
  no_ghost = λ i p. elim (l.no_ghost i p) [ inl h ↦ inl h | inr (same, more) ↦ cc ];
  kept = l.kept;
  served = l.served;
  needed = λ live. elim (l.needed live) [
    | inl pin ↦ inl pin
    | inr (inl h) ↦ inr (inl h)
    | inr (inr more) ↦ cc
  ];
}

detach-Leaving :
    {Q : Type 0} (id : ℕ) (k key : SubKey) (keys : List SubKey) (st : AppState Q)
    → Leaving id k (holds_key k (key ∷ keys)) (find_entry k st) st.heap
    → Leaving id k (holds_key k keys) (find_entry k (detach id key st)) (detach id key st).heap
unfolding holds_key
detach-Leaving id k key keys st l =
    rw (detach-find_entry id key k st, detach-heap id key st)
      (ite_cases (λ (o : Option SubEntry). Leaving id k (holds_key k keys) o st.heap)
        (SubKey-discrete key k)
        (λ same.
          let here : Leaving id k (holds_key k (key ∷ keys)) (find_entry key st) st.heap =
            subst
              (λ (j : SubKey). Leaving id k (holds_key k (key ∷ keys)) (find_entry j st) st.heap)
              (sym same) l in
          Leaving-more id k (holds_key k keys) (detached id (find_entry key st)) st.heap
            (detached-Leaving id k _ (find_entry key st) st.heap here))
        (λ other.
          subst (λ (b : Bool). Leaving id k b (find_entry k st) st.heap)
            (if_neg (SubKey-discrete key k) other true (holds_key k keys)) l))

pub detach_all-Leaving :
    {Q : Type 0} (id : ℕ) (k : SubKey) (keys : List SubKey) (st : AppState Q)
    → Leaving id k (holds_key k keys) (find_entry k st) st.heap
    → Leaving id k false (find_entry k (detach_all id keys st)) (detach_all id keys st).heap
unfolding detach_all holds_key
detach_all-Leaving id k [] st l = l
detach_all-Leaving id k (key ∷ keys) st l =
    detach_all-Leaving id k keys (detach id key st) (detach-Leaving id k key keys st l)

-- A client that drops the key from its own set, or all of them, is leaving it.
pub Registered-Leaving :
    {Q : Type 0} (id : ℕ) (k : SubKey) (o : Option SubEntry) (heap heap' : ℕ → Client Q)
    → ((i : ℕ) → holds k i heap' ≡ (if i == id then false else holds k i heap))
    → ((i : ℕ) → (heap' i).kill ≡ (heap i).kill)
    → Registered k o heap
    → Leaving id k (holds k id heap) o heap'
Registered-Leaving id k o heap heap' drops same_kill r = record {
  forgotten = drops id ∙ rw (==_refl id) refl;
  no_ghost = λ i p. elim (Bool-cases (i == id)) [
    | inl same ↦
        let e : i ≡ id = ground arith in
        inr (e, subst (λ (j : ℕ). holds k j heap ≡ true) e (r.no_ghost i p))
    | inr other ↦ inl (drops i ∙ rw other (r.no_ghost i p))
  ];
  kept = λ i h. elim (r.kept i (held_before i h)) [
    | inl on ↦ inl on
    | inr dead ↦ inr (same_kill i ∙ dead)
  ];
  served = r.served;
  needed = λ live. elim (r.needed live) [
    | inl pin ↦ inl pin
    | inr (i, h) ↦ elim (Bool-cases (i == id)) [
      | inl same ↦
          let e : i ≡ id = ground arith in inr (inr (subst (λ (j : ℕ). holds k j heap ≡ true) e h))
      | inr other ↦ inr (inl (i, drops i ∙ rw other h))
    ]
  ];
}
  where
    held_before : (i : ℕ) → holds k i heap' ≡ true → holds k i heap ≡ true
    held_before i h = ground (arith, drops i)
