-- ===== src/Hub/Rebuild.antt =====
-- A late joiner's stream: what is held for it while it is parked, and what it is sent in the end.
use hypeha.Base.{
  ℕ, ◌+◌, ◌≤◌, ◌≡◌, refl, ◌∙◌, ap, sym, inl, inr, true, false, not, ◌&&◌, ◌||◌, List, [], ◌∷◌, ◌++◌,
  map, Option, none, some, ltb, ◌==◌, if◌then◌else◌, arith, add_u64, length, retain, Text,
  Bool-cases, if_cases, subst, ==_refl, append-nil, append_assoc,
}
use hypeha.SubKey.{SubKey, single_sourced}
use hypeha.Entry.{
  SubEntry, Seq, Verdict, Held, Pending, parked, arbitrate, hold, held_height, push_held, over_cap,
  pending_max_bytes, on_point, on_lead, on_sticky, on_snapshot, on_block,
}
use hypeha.Hub.{AppState, find_entry}
use hypeha.Hub.Update.{update_entry, take_pending, backlog, deliver_snapshot, send_all}

-- A frame from a source.
pub record Update : Type 0 where
  pub source : ℕ
  pub seq : Seq
  pub at : ℕ
  pub payload : Text

-- A frame as it is held, if its kind is.
abbrev as_held : ℕ → Text → Option ℕ → List Held
as_held source payload none = []
as_held source payload (some h) = record { source = source; height = h; payload = payload } ∷ []

-- The entry after frames, and those of them that went out and are of a kind that is held.
unfoldable pub updates : SubKey → List Update → SubEntry → SubEntry × List Held
updates key [] e = (e, [])
updates key (u ∷ us) e =
    let (e', verdict, overflowed) = update_entry key u.source u.seq u.at u.payload e in
    let (done, out) = updates key us e' in
    (done, if verdict.deliver then as_held u.source u.payload (held_height u.seq) ++ out else out)

abbrev pub size : List Held → ℕ
size [] = 0
size (f ∷ fs) = length f.payload + size fs

size-append : (fs gs : List Held) → size (fs ++ gs) ≡ size fs + size gs
size-append [] gs = omega arith
size-append (f ∷ fs) gs = omega (arith, size-append fs gs)

-- The first parked client of an id.
abbrev pub parked_as : ℕ → List Pending → Option Pending
parked_as id [] = none
parked_as id (p ∷ ps) = let rest = parked_as id ps in if p.client == id then some p else rest

-- A parked client with more frames held for it.
abbrev with_held : Pending → List Held → Pending
with_held p fs = record p { bytes = p.bytes + size fs; held = p.held ++ fs }

pending-arbitrate :
    (key : SubKey) (src : ℕ) (seq : Seq) (now : ℕ) (e : SubEntry)
    → (arbitrate key src seq now e).0.pending ≡ e.pending
unfolding arbitrate on_point on_lead on_sticky on_snapshot on_block
pending-arbitrate key src (Seq.point v) now e = ground arith
pending-arbitrate key src (Seq.lead v) now e = ground arith
pending-arbitrate key src (Seq.sticky v) now e = ground arith
pending-arbitrate key src (Seq.snapshot v) now e = ground arith
pending-arbitrate key src (Seq.block v) now e = ground arith

parked-push :
    (id : ℕ) (f : Held) (ps : List Pending) (p : Pending)
    → parked_as id ps ≡ some p
    → over_cap (push_held f p) ≡ false
    → parked_as id (retain (λ q. not (over_cap q)) (map (push_held f) ps)) ≡ some (push_held f p)
parked-push id f [] p h small = ground arith
parked-push id f (q ∷ qs) p h small = ground (arith, parked-push id f qs p)

take-parked :
    (id : ℕ) (ps : List Pending) (p : Pending)
    → parked_as id ps ≡ some p
    → (rest : List Pending) × (take_pending id ps ≡ some (p, rest))
unfolding take_pending
take-parked id [] p h = ground arith
take-parked id (q ∷ qs) p h = elim (Bool-cases (q.client == id)) [
  | inl mine ↦ (qs, ground arith)
  | inr other ↦
      let (rest, taken) = take-parked id qs p (ground arith) in (q ∷ rest, ground (arith, taken))
]

with_held-nil : (p : Pending) → with_held p [] ≡ p
with_held-nil p =
    let bytes : p.bytes + 0 ≡ p.bytes = omega arith in
    ap (λ (b : ℕ). record p { bytes = b; held = p.held ++ [] }) bytes
    ∙ ap (λ (l : List Held). record p { held = l }) (append-nil p.held)

with_held-append :
    (p : Pending) (fs gs : List Held) → with_held (with_held p fs) gs ≡ with_held p (fs ++ gs)
with_held-append p fs gs =
    let bytes : p.bytes + size fs + size gs ≡ p.bytes + size (fs ++ gs) =
      omega (arith, size-append fs gs) in
    ap (λ (b : ℕ). record p { bytes = b; held = (p.held ++ fs) ++ gs }) bytes
    ∙ ap (λ (l : List Held). record p { bytes = p.bytes + size (fs ++ gs); held = l })
        (append_assoc p.held fs gs)

push-with_held :
    (f : Held) (p : Pending)
    → p.bytes + length f.payload ≤ pending_max_bytes
    → push_held f p ≡ with_held p (f ∷ [])
push-with_held f p small =
    ap (λ (b : ℕ). record p { bytes = b; held = p.held ++ (f ∷ []) })
      {x = add_u64 p.bytes (length f.payload)} {y = p.bytes + size (f ∷ [])} (omega arith)

-- One frame that goes out.
hold_one :
    (id source h : ℕ) (payload : Text) (ps : List Pending) (p : Pending)
    → parked_as id ps ≡ some p
    → p.bytes + length payload ≤ pending_max_bytes
    → let frame : Held = record { source = source; height = h; payload = payload } in
      parked_as id (retain (λ q. not (over_cap q)) (map (push_held frame) ps))
      ≡ some (with_held p (frame ∷ []))
hold_one id source h payload ps p found small =
    let frame : Held = record { source = source; height = h; payload = payload } in
    parked-push id frame ps p found (ground (arith, small)) ∙ ap some (push-with_held frame p small)

hold-parked :
    (id source : ℕ) (seq : Seq) (payload : Text) (e : SubEntry) (p : Pending)
    → parked_as id e.pending ≡ some p
    → p.bytes + size (as_held source payload (held_height seq)) ≤ pending_max_bytes
    → parked_as id (hold source seq payload e).0.pending
      ≡ some (with_held p (as_held source payload (held_height seq)))
unfolding hold
hold-parked id source (Seq.point v) payload e p found small =
    found ∙ ap some (sym (with_held-nil p))
hold-parked id source (Seq.lead v) payload e p found small = found ∙ ap some (sym (with_held-nil p))
hold-parked id source (Seq.block h) payload e p found small =
    hold_one id source h payload e.pending p found (omega (arith, small))
hold-parked id source (Seq.snapshot h) payload e p found small =
    hold_one id source h payload e.pending p found (omega (arith, small))
hold-parked id source (Seq.sticky h) payload e p found small =
    hold_one id source h payload e.pending p found (omega (arith, small))

-- What one frame adds to what is held.
abbrev adds : Verdict → Update → List Held
adds verdict u = if verdict.deliver then as_held u.source u.payload (held_height u.seq) else []

adds_deliver :
    (verdict : Verdict) (u : Update)
    → verdict.deliver ≡ true
    → adds verdict u ≡ as_held u.source u.payload (held_height u.seq)
adds_deliver verdict u h = rw h refl

adds_refuse : (verdict : Verdict) (u : Update) → verdict.deliver ≡ false → adds verdict u ≡ []
adds_refuse verdict u h = rw h refl

adds-append :
    (verdict : Verdict) (u : Update) (out : List Held)
    → (if verdict.deliver then as_held u.source u.payload (held_height u.seq) ++ out else out)
      ≡ adds verdict u ++ out
adds-append verdict u out = elim (Bool-cases verdict.deliver) [
  | inl goes ↦ rw goes refl
  | inr stays ↦ rw stays refl
]

-- The list of parked clients keeps p, with more frames.
abbrev Grows : ℕ → Pending → List Pending → List Held → Type 0
Grows id p ps fs = p.bytes + size fs ≤ pending_max_bytes → parked_as id ps ≡ some (with_held p fs)

update-parked :
    (key : SubKey) (id : ℕ) (u : Update) (e : SubEntry) (p : Pending)
    → let (e', verdict, overflowed) = update_entry key u.source u.seq u.at u.payload e in
      parked_as id e.pending ≡ some p
      → p.bytes + size (adds verdict u) ≤ pending_max_bytes
      → parked_as id e'.pending ≡ some (with_held p (adds verdict u))
unfolding update_entry
update-parked key id u e p found small =
    let decided = (arbitrate key u.source u.seq u.at e).0 in
    let verdict = (arbitrate key u.source u.seq u.at e).1 in
    let held = hold u.source u.seq u.payload decided in
    let kept : parked_as id decided.pending ≡ some p =
      ap (parked_as id) (pending-arbitrate key u.source u.seq u.at e) ∙ found in
    if_cases (λ (r : SubEntry × Verdict × List ℕ). Grows id p r.0.pending (adds r.1 u))
      verdict.deliver {x = (held.0, verdict, held.1)} {y = (decided, verdict, [])}
      (λ goes.
        subst (Grows id p held.0.pending) (sym (adds_deliver verdict u goes))
          (hold-parked id u.source u.seq u.payload decided p kept))
      (λ stays.
        subst (Grows id p decided.pending) (sym (adds_refuse verdict u stays))
          (λ room. kept ∙ ap some (sym (with_held-nil p))))
      small

updates-parked :
    (key : SubKey) (id : ℕ) (us : List Update) (e : SubEntry) (p : Pending)
    → parked_as id e.pending ≡ some p
    → p.bytes + size (updates key us e).1 ≤ pending_max_bytes
    → parked_as id (updates key us e).0.pending ≡ some (with_held p (updates key us e).1)
unfolding updates
updates-parked key id [] e p found small = found ∙ ap some (sym (with_held-nil p))
updates-parked key id (u ∷ us) e p found small =
    let (e', verdict, overflowed) = update_entry key u.source u.seq u.at u.payload e in
    let out = (updates key us e').1 in
    let joined : (updates key (u ∷ us) e).1 ≡ adds verdict u ++ out = adds-append verdict u out in
    let room : p.bytes + size (adds verdict u) + size out ≤ pending_max_bytes =
      omega (arith, small, ap size joined, size-append (adds verdict u) out) in
    updates-parked key id us e' (with_held p (adds verdict u))
      (update-parked key id u e p found (omega (arith, room))) room
    ∙ ap some (with_held-append p (adds verdict u) out)
    ∙ ap (λ (l : List Held). some (with_held p l)) (sym joined)

module _ {Q : Type 0} (try_send : Q → Text → Option Q) where
  -- A client that was parked with nothing held, when its snapshot comes after any frames from the
  -- sources, is sent the snapshot and then, in order, the frames that went out since, of a kind
  -- that is held and that may follow the snapshot, if together the held ones were within the cap.
  pub rebuilt_stream :
      (key : SubKey) (id source height : ℕ) (snapshot : Text) (us : List Update) (e : SubEntry)
      (st : AppState Q)
      → parked_as id e.pending ≡ some (parked id)
      → size (updates key us e).1 ≤ pending_max_bytes
      → find_entry key st ≡ some (updates key us e).0
      → (deliver_snapshot try_send key id source height snapshot st).heap id
        ≡ send_all try_send
            (snapshot
              ∷ map
                  (λ f. f.payload)
                  (retain
                    (λ f. ltb height f.height && (not (single_sourced key) || f.source == source))
                    (updates key us e).1))
            (st.heap id)
  unfolding deliver_snapshot backlog
  rebuilt_stream key id source height snapshot us e st fresh small found =
      let held = updates-parked key id us e (parked id) fresh (omega (arith, small)) in
      let (rest, taken) = take-parked id (updates key us e).0.pending _ held in
      rw (found, deliver_snapshot) (rw (taken, deliver_snapshot) (rw (==_refl id) refl))
