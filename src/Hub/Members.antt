-- ===== src/Hub/Members.antt =====
-- Who is on a key: the clients that are attached to its entry or parked there, beside those that
-- hold the key in their own set of subscriptions.
pub mod Entries
pub mod Joining
pub mod Heaps
pub mod Leaving
pub mod Calls
pub mod Frames
pub mod Runs
use hypeha.Base.{
  ℕ, ◌≡◌, refl, ap, ◌⊎◌, inl, inr, Bool, true, false, ◌||◌, List, Option, none, some, any, ◌==◌,
  ◌∙◌, sym,
}
use hypeha.SubKey.{SubKey}
use hypeha.Entry.{SubEntry, Pending}
use hypeha.Hub.{Client}
use hypeha.Hub.Registry.{holds_key, is_attached, is_parked}
use hypeha.Hub.Control.{flag_of}

abbrev pub on_entry : ℕ → SubEntry → Bool
on_entry id e = is_attached id e.subscribers || is_parked id e.pending

-- Whether a client is attached to an entry or parked there, if there is one.
abbrev pub present : ℕ → Option SubEntry → Bool
present id none = false
present id (some e) = on_entry id e

abbrev pub pinned_of : Option SubEntry → Bool
pinned_of none = false
pinned_of (some e) = e.pinned

module _ {Q : Type 0} where
  abbrev pub holds : SubKey → ℕ → (ℕ → Client Q) → Bool
  holds k id heap = holds_key k (heap id).subscriptions

  -- A key's entry and the clients agree: who is on the entry holds the key, and the key is live
  -- then; who holds the key is on the entry, or has been told to hang up; and a live key is pinned
  -- or held by somebody.
  pub record Registered (k : SubKey) (o : Option SubEntry) (heap : ℕ → Client Q) : Type 0 where
    pub no_ghost : (id : ℕ) → present id o ≡ true → holds k id heap ≡ true
    pub kept : (id : ℕ) → holds k id heap ≡ true → (present id o ≡ true) ⊎ ((heap id).kill ≡ true)
    pub served : (id : ℕ) → present id o ≡ true → flag_of o ≡ true
    pub needed : flag_of o ≡ true → (pinned_of o ≡ true) ⊎ ((id : ℕ) × (holds k id heap ≡ true))

  -- What an operation does to a client that it does not subscribe or unsubscribe.
  pub record Spared (c c' : Client Q) : Type 0 where
    pub same_keys : c'.subscriptions ≡ c.subscriptions
    pub stays_killed : c.kill ≡ true → c'.kill ≡ true

  -- What an operation does to an entry and the clients where it takes nobody on and lets nobody go
  -- but by hanging up.
  pub record Quiet (o o' : Option SubEntry) (heap heap' : ℕ → Client Q) : Type 0 where
    pub same_flag : flag_of o' ≡ flag_of o
    pub same_pin : pinned_of o' ≡ pinned_of o
    pub spared : (id : ℕ) → Spared (heap id) (heap' id)
    pub nobody_new : (id : ℕ) → present id o' ≡ true → present id o ≡ true
    pub nobody_lost :
        (id : ℕ) → present id o ≡ true → (present id o' ≡ true) ⊎ ((heap' id).kill ≡ true)

  pub Registered-Quiet :
      (k : SubKey) (o o' : Option SubEntry) (heap heap' : ℕ → Client Q)
      → Quiet o o' heap heap'
      → Registered k o heap
      → Registered k o' heap'
  Registered-Quiet k o o' heap heap' q r = record {
    no_ghost = λ id p. same id ∙ r.no_ghost id (q.nobody_new id p);
    kept = λ id h. elim (r.kept id (sym (same id) ∙ h)) [
      | inl on ↦ q.nobody_lost id on
      | inr dead ↦ inr ((q.spared id).stays_killed dead)
    ];
    served = λ id p. q.same_flag ∙ r.served id (q.nobody_new id p);
    needed = λ live. elim (r.needed (sym q.same_flag ∙ live)) [
      | inl pin ↦ inl (q.same_pin ∙ pin)
      | inr (id, h) ↦ inr (id, same id ∙ h)
    ];
  }
    where
      same : (id : ℕ) → holds k id heap' ≡ holds k id heap
      same id = ap (holds_key k) (q.spared id).same_keys

  pub Quiet-refl : (o : Option SubEntry) (heap : ℕ → Client Q) → Quiet o o heap heap
  Quiet-refl o heap = record {
    same_flag = refl;
    same_pin = refl;
    spared = λ id. record { same_keys = refl; stays_killed = λ h. h };
    nobody_new = λ id p. p;
    nobody_lost = λ id p. inl p;
  }
