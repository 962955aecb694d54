-- ===== src/Hub/Members/Joining.antt =====
-- Who is on an entry after a client has joined it, or left.
use hypeha.Base.{
  ℕ, ◌≡◌, refl, ◌⊎◌, inl, inr, true, false, not, ◌&&◌, ◌||◌, List, [], ◌∷◌, ◌==◌, arith, retain,
  Bool-cases, is_empty, ==_refl,
}
use hypeha.SubKey.{SubKey}
use hypeha.Entry.{SubEntry, Pending, parked}
use hypeha.Hub.Registry.{is_attached, is_parked, join_entry, leave_entry}
use hypeha.Hub.Members.{on_entry}
use hypeha.Hub.Members.Entries.{any-append}

attached-left :
    (id i : ℕ) (xs : List ℕ)
    → is_attached i (retain (λ c. not (c == id)) xs) ≡ (is_attached i xs && not (i == id))
attached-left id i [] = refl
attached-left id i (x ∷ xs) = ground (arith, attached-left id i xs)

parked-left :
    (id i : ℕ) (ps : List Pending)
    → is_parked i (retain (λ p. not (p.client == id)) ps) ≡ (is_parked i ps && not (i == id))
parked-left id i [] = refl
parked-left id i (p ∷ ps) = ground (arith, parked-left id i ps)

-- Who is on the entry after a client has left: the others.
pub leave_entry-on_entry :
    (id i : ℕ) (e : SubEntry) → on_entry i (leave_entry id e).0 ≡ (on_entry i e && not (i == id))
unfolding leave_entry
leave_entry-on_entry id i e =
    ground (arith, attached-left id i e.subscribers, parked-left id i e.pending)

-- Who is on the entry after a client has joined: it and those before.
pub join_entry-on_entry :
    (key : SubKey) (id i : ℕ) (e : SubEntry)
    → on_entry i (join_entry key id e) ≡ (on_entry i e || i == id)
unfolding join_entry
join_entry-on_entry key id i e = ground (
  arith,
  any-append (λ (c : ℕ). c == i) e.subscribers (id ∷ []),
  any-append (λ (p : Pending). p.client == i) e.pending (parked id ∷ []),
)

-- Somebody is on an entry that has clients.
pub somebody_attached :
    (ids : List ℕ) → is_empty ids ≡ false → (id : ℕ) × (is_attached id ids ≡ true)
somebody_attached [] h = cc
somebody_attached (i ∷ ids) h = (i, rw (==_refl i))

pub somebody_parked :
    (ps : List Pending) → is_empty ps ≡ false → (id : ℕ) × (is_parked id ps ≡ true)
somebody_parked [] h = cc
somebody_parked (p ∷ ps) h = (p.client, rw (==_refl p.client))

nobody_attached : (id : ℕ) (ids : List ℕ) → is_empty ids ≡ true → is_attached id ids ≡ false
nobody_attached id [] h = refl
nobody_attached id (i ∷ ids) h = cc

nobody_parked : (id : ℕ) (ps : List Pending) → is_empty ps ≡ true → is_parked id ps ≡ false
nobody_parked id [] h = refl
nobody_parked id (p ∷ ps) h = cc

-- The last one leaves nobody on a live entry that is not pinned.
pub last_one_lem :
    (id i : ℕ) (e : SubEntry)
    → (leave_entry id e).1 ≡ true
    → on_entry i (leave_entry id e).0 ≡ false
unfolding leave_entry
last_one_lem id i e h = ground (
  arith,
  nobody_attached i (retain (λ c. not (c == id)) e.subscribers),
  nobody_parked i (retain (λ (p : Pending). not (p.client == id)) e.pending),
)

-- Where the client was not the last one, a live entry is pinned or has somebody.
pub not_last_lem :
    (id : ℕ) (e : SubEntry)
    → (leave_entry id e).1 ≡ false
    → (leave_entry id e).0.upstream_subscribed ≡ true
    → ((leave_entry id e).0.pinned ≡ true) ⊎ ((i : ℕ) × (on_entry i (leave_entry id e).0 ≡ true))
unfolding leave_entry
not_last_lem id e h live =
    let subs = retain (λ c. not (c == id)) e.subscribers in
    let pend = retain (λ (p : Pending). not (p.client == id)) e.pending in
    elim (Bool-cases (is_empty subs)) [
      | inr some_subs ↦
          let (i, on) = somebody_attached subs some_subs in inr (i, ground (arith, on))
      | inl no_subs ↦ elim (Bool-cases (is_empty pend)) [
        | inr some_pend ↦
            let (i, on) = somebody_parked pend some_pend in inr (i, ground (arith, on))
        | inl no_pend ↦ inl (ground arith)
      ]
    ]

pub leave_entry-flag :
    (id : ℕ) (e : SubEntry)
    → (leave_entry id e).1 ≡ false
    → (leave_entry id e).0.upstream_subscribed ≡ e.upstream_subscribed
unfolding leave_entry
leave_entry-flag id e h = ground arith

pub join_entry-flag :
    (key : SubKey) (id : ℕ) (e : SubEntry) → (join_entry key id e).upstream_subscribed ≡ true
unfolding join_entry
join_entry-flag key id e = ground arith
