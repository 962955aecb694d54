-- ===== src/Hub/Members/Entries.antt =====
-- What the operations do to the clients on an entry.
use hypeha.Base.{
  ℕ, ◌≡◌, refl, ◌∙◌, ap, inl, inr, Bool, true, false, not, ◌||◌, List, [], ◌∷◌, ◌++◌, map, some,
  ◌==◌, arith, any, retain, Text, if_cases, Option-cases,
}
use hypeha.SubKey.{SubKey}
use hypeha.Entry.{
  SubEntry, Seq, Verdict, Pending, Held, parked, arbitrate, hold, push_held, over_cap, on_point,
  on_lead, on_sticky, on_snapshot, on_block,
}
use hypeha.Hub.Registry.{is_attached, is_parked}
use hypeha.Hub.Update.{update_entry, attach_rebuilt, take_pending}
use hypeha.Hub.Recovery.{lose_source}
use hypeha.Hub.Members.{on_entry}

module _ {A : Type 0} (p : A → Bool) where
  pub any-append : (xs ys : List A) → any p (xs ++ ys) ≡ (any p xs || any p ys)
  any-append [] ys = refl
  any-append (x ∷ xs) ys = ground (arith, any-append xs ys)

  -- A list is parted by a test.
  pub any-parted :
      (q : A → Bool) (xs : List A)
      → (any p (retain (λ x. not (q x)) xs) || any p (retain q xs)) ≡ any p xs
  any-parted q [] = refl
  any-parted q (x ∷ xs) = ground (arith, any-parted q xs)

pub is_parked-push :
    (id : ℕ) (f : Held) (ps : List Pending) → is_parked id (map (push_held f) ps) ≡ is_parked id ps
is_parked-push id f [] = refl
is_parked-push id f (p ∷ ps) = ground (arith, is_parked-push id f ps)

pub is_parked-parked : (id : ℕ) (ids : List ℕ) → is_parked id (map parked ids) ≡ is_attached id ids
is_parked-parked id [] = refl
is_parked-parked id (i ∷ ids) = ground (arith, is_parked-parked id ids)

pub or_assoc : (a b c : Bool) → (a || b || c) ≡ (a || (b || c))
or_assoc true b c = refl
or_assoc false b c = refl

pub or_none : (a : Bool) → (a || false) ≡ a
or_none true = refl
or_none false = refl

pub attached-clients :
    (id : ℕ) (ps : List Pending) → is_attached id (map (λ p. p.client) ps) ≡ is_parked id ps
attached-clients id [] = refl
attached-clients id (p ∷ ps) = ground (arith, attached-clients id ps)

-- What stays of an entry that a frame is arbitrated for.
pub record SameClients (e e' : SubEntry) : Type 0 where
  pub same_subscribers : e'.subscribers ≡ e.subscribers
  pub same_pending : e'.pending ≡ e.pending
  pub same_flag : e'.upstream_subscribed ≡ e.upstream_subscribed
  pub same_pin : e'.pinned ≡ e.pinned

pub arbitrate-SameClients :
    (key : SubKey) (src : ℕ) (seq : Seq) (now : ℕ) (e : SubEntry)
    → SameClients e (arbitrate key src seq now e).0
unfolding arbitrate on_point on_lead on_sticky on_snapshot on_block
arbitrate-SameClients key src (Seq.point v) now e = ground arith
arbitrate-SameClients key src (Seq.lead v) now e = ground arith
arbitrate-SameClients key src (Seq.sticky v) now e = ground arith
arbitrate-SameClients key src (Seq.snapshot v) now e = ground arith
arbitrate-SameClients key src (Seq.block v) now e = ground arith

-- The clients on an entry after a step, where `gone` are those that must hang up.
pub record KeepsClients (e e' : SubEntry) (gone : List ℕ) : Type 0 where
  pub flag : e'.upstream_subscribed ≡ e.upstream_subscribed
  pub pin : e'.pinned ≡ e.pinned
  pub parted : (id : ℕ) → (on_entry id e' || is_attached id gone) ≡ on_entry id e

hold-frame :
    (f : Held) (e : SubEntry)
    → let grown = map (push_held f) e.pending in
      KeepsClients e
        (record e { pending = retain (λ p. not (over_cap p)) grown })
        (map (λ p. p.client) (retain over_cap grown))
hold-frame f e = record {
  flag = refl;
  pin = refl;
  parted = λ id.
      let grown = map (push_held f) e.pending in
      let gone : is_attached id (map (λ p. p.client) (retain over_cap grown))
          ≡ is_parked id (retain over_cap grown) =
        attached-clients id (retain over_cap grown) in
      let both : (is_parked id (retain (λ p. not (over_cap p)) grown)
            || is_parked id (retain over_cap grown))
          ≡ is_parked id e.pending =
        any-parted (λ (p : Pending). p.client == id) over_cap grown
        ∙ is_parked-push id f e.pending in
      rw gone (
        or_assoc (is_attached id e.subscribers)
          (is_parked id (retain (λ p. not (over_cap p)) grown))
          (is_parked id (retain over_cap grown))
        ∙ ap (λ (b : Bool). is_attached id e.subscribers || b) both);
}

nobody_gone : (e : SubEntry) → KeepsClients e e []
nobody_gone e = record { flag = refl; pin = refl; parted = λ id. or_none (on_entry id e) }

pub hold-KeepsClients :
    (src : ℕ) (seq : Seq) (payload : Text) (e : SubEntry)
    → KeepsClients e (hold src seq payload e).0 (hold src seq payload e).1
unfolding hold
hold-KeepsClients src (Seq.point v) payload e = nobody_gone e
hold-KeepsClients src (Seq.lead v) payload e = nobody_gone e
hold-KeepsClients src (Seq.block h) payload e =
    hold-frame (record { source = src; height = h; payload = payload }) e
hold-KeepsClients src (Seq.snapshot h) payload e =
    hold-frame (record { source = src; height = h; payload = payload }) e
hold-KeepsClients src (Seq.sticky h) payload e =
    hold-frame (record { source = src; height = h; payload = payload }) e

SameClients-KeepsClients :
    (e d e' : SubEntry) (gone : List ℕ)
    → SameClients e d
    → KeepsClients d e' gone
    → KeepsClients e e' gone
SameClients-KeepsClients e d e' gone s k = record {
  flag = k.flag ∙ s.same_flag;
  pin = k.pin ∙ s.same_pin;
  parted = λ id.
      k.parted id
      ∙ ap (λ (l : List ℕ). is_attached id l || is_parked id d.pending) s.same_subscribers
      ∙ ap (λ (l : List Pending). is_attached id e.subscribers || is_parked id l) s.same_pending;
}

-- A frame keeps the clients on the entry, but those whose backlog overflowed.
pub update_entry-KeepsClients :
    (key : SubKey) (src : ℕ) (seq : Seq) (now : ℕ) (payload : Text) (e : SubEntry)
    → let (e', verdict, overflowed) = update_entry key src seq now payload e in
      KeepsClients e e' overflowed
unfolding update_entry
update_entry-KeepsClients key src seq now payload e =
    let decided = (arbitrate key src seq now e).0 in
    let verdict = (arbitrate key src seq now e).1 in
    let held = hold src seq payload decided in
    let same = arbitrate-SameClients key src seq now e in
    if_cases (λ (r : SubEntry × Verdict × List ℕ). KeepsClients e r.0 r.2) verdict.deliver
      {x = (held.0, verdict, held.1)} {y = (decided, verdict, [])}
      (λ goes.
        SameClients-KeepsClients e decided held.0 held.1 same
          (hold-KeepsClients src seq payload decided))
      (λ stays. SameClients-KeepsClients e decided decided [] same (nobody_gone decided))

-- Losing a source keeps the clients on an entry.
pub lose_source-KeepsClients :
    (source : ℕ) (key : SubKey) (e : SubEntry) → KeepsClients e (lose_source source key e) []
unfolding lose_source
lose_source-KeepsClients source key e = record {
  flag = ground arith;
  pin = ground arith;
  parted = λ id.
      or_none (on_entry id (lose_source source key e))
      ∙ ground (
        arith,
        any-append (λ (p : Pending). p.client == id) e.pending (map parked e.subscribers),
        is_parked-parked id e.subscribers,
      );
}

-- The first parked client of an id, and the others.
pub taken_client :
    (id : ℕ) (ps : List Pending) (p : Pending) (rest : List Pending)
    → take_pending id ps ≡ some (p, rest)
    → p.client ≡ id
unfolding take_pending
taken_client id [] p rest h = ground arith
taken_client id (q ∷ qs) p rest h = elim (Option-cases (take_pending id qs)) [
  | inl none_left ↦ ground arith
  | inr ((p', rest'), later) ↦ ground (arith, taken_client id qs p' rest' later)
]

pub taken_others :
    (id i : ℕ) (ps : List Pending) (p : Pending) (rest : List Pending)
    → take_pending id ps ≡ some (p, rest)
    → is_parked i ps ≡ ((p.client == i) || is_parked i rest)
unfolding take_pending
taken_others id i [] p rest h = ground arith
taken_others id i (q ∷ qs) p rest h = elim (Option-cases (take_pending id qs)) [
  | inl none_left ↦ ground arith
  | inr ((p', rest'), later) ↦ ground (arith, taken_others id i qs p' rest' later)
]

-- A snapshot keeps the clients on the entry: the parked one is attached.
pub attach_rebuilt-KeepsClients :
    (key : SubKey) (source id : ℕ) (p : Pending) (rest : List Pending) (e : SubEntry)
    → take_pending id e.pending ≡ some (p, rest)
    → KeepsClients e (attach_rebuilt key source p.client rest e) []
unfolding attach_rebuilt
attach_rebuilt-KeepsClients key source id p rest e taken = record {
  flag = refl;
  pin = refl;
  parted = λ i. ground (
    arith,
    any-append (λ (c : ℕ). c == i) e.subscribers (p.client ∷ []),
    taken_others id i e.pending p rest taken,
  );
}

-- A fetch that failed takes one parked client off the entry.
pub fail-KeepsClients :
    (id : ℕ) (p : Pending) (rest : List Pending) (e : SubEntry)
    → take_pending id e.pending ≡ some (p, rest)
    → KeepsClients e (record e { pending = rest }) (p.client ∷ [])
fail-KeepsClients id p rest e taken = record {
  flag = refl;
  pin = refl;
  parted = λ i. ground (arith, taken_others id i e.pending p rest taken);
}
