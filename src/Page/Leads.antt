-- ===== src/Page/Leads.antt =====
-- The peer that the race section of src/stats.rs marks green.
use hypeha.Base.{
  ℕ, zero, suc, ◌≤◌, ◌≡◌, refl, ◌∙◌, sym, subst, ◌⊎◌, inl, inr, Bool, true, false, List, [], ◌∷◌,
  ◌++◌, append_assoc, append-nil, Option, none, some, ltb, leb, ◌&&◌, if◌then◌else◌, if_cases,
  Bool-cases, length, length-append, get_elem?, arith,
}
use hypeha.Page.Race.{
  race_lag_n_min, Peer, RowClass, row_class, Marked, NoneStreams, AtMost, IsLeader, mark_green,
  mark_lime, mark_peers, marked_peers,
}

module _ {F : Type 0} where
  -- The same with the leads of the green peer.
  abbrev LedBy : List (Peer F) → Option ℕ → ℕ → Type 0
  LedBy before none top = NoneStreams before
  LedBy before (some i) top =
      (p : Peer F) × (get_elem? before i ≡ some p)
      × (p.streaming ≡ true)
      × (p.leads ≡ top)
      × AtMost top before

  Led : List (Peer F) → Marked F → Type 0
  Led before m = LedBy before m.green_idx m.green_leads

  get_elem?-front :
      (before : List (Peer F)) (p q : Peer F) (i : ℕ)
      → get_elem? before i ≡ some p
      → get_elem? (before ++ (q ∷ [])) i ≡ some p
  get_elem?-front [] p q i h = cc h
  get_elem?-front (b ∷ before) p q zero h = h
  get_elem?-front (b ∷ before) p q (suc i) h = get_elem?-front before p q i h

  get_elem?-last :
      (before : List (Peer F)) (q : Peer F)
      → get_elem? (before ++ (q ∷ [])) (length before) ≡ some q
  get_elem?-last [] q = refl
  get_elem?-last (b ∷ before) q = get_elem?-last before q

  AtMost-append :
      (top : ℕ) (before : List (Peer F)) (q : Peer F)
      → AtMost top before
      → (q.streaming ≡ false) ⊎ (q.leads ≤ top)
      → AtMost top (before ++ (q ∷ []))
  AtMost-append top [] q most this = (this, tt)
  AtMost-append top (b ∷ before) q (here, most) this = (here, AtMost-append top before q most this)

  AtMost-raise :
      (low high : ℕ) (before : List (Peer F)) → low ≤ high → AtMost low before → AtMost high before
  AtMost-raise low high [] h most = tt
  AtMost-raise low high (b ∷ before) h (inl off, most) =
      (inl off, AtMost-raise low high before h most)
  AtMost-raise low high (b ∷ before) h (inr less, most) =
      (inr (omega (arith, less, h)), AtMost-raise low high before h most)

  NoneStreams-AtMost : (top : ℕ) (before : List (Peer F)) → NoneStreams before → AtMost top before
  NoneStreams-AtMost top [] off = tt
  NoneStreams-AtMost top (b ∷ before) (here, off) = (inl here, NoneStreams-AtMost top before off)

  NoneStreams-append :
      (before : List (Peer F)) (q : Peer F)
      → NoneStreams before
      → q.streaming ≡ false
      → NoneStreams (before ++ (q ∷ []))
  NoneStreams-append [] q off this = (this, tt)
  NoneStreams-append (b ∷ before) q (here, off) this = (here, NoneStreams-append before q off this)

  -- A peer that does not stream is passed over.
  skip-LedBy :
      (before : List (Peer F)) (o : Option ℕ) (top : ℕ) (q : Peer F)
      → LedBy before o top
      → q.streaming ≡ false
      → LedBy (before ++ (q ∷ [])) o top
  skip-LedBy before none top q led off = NoneStreams-append before q led off
  skip-LedBy before (some i) top q (p, at, on, same, most) off =
      (p, get_elem?-front before p q i at, on, same, AtMost-append top before q most (inl off))

  -- One that leads becomes green.
  take-LedBy :
      (before : List (Peer F)) (q : Peer F)
      → q.streaming ≡ true
      → AtMost q.leads before
      → LedBy (before ++ (q ∷ [])) (some (length before)) q.leads
  take-LedBy before q on most = (
    q,
    get_elem?-last before q,
    on,
    refl,
    AtMost-append q.leads before q most (inr (omega arith)),
  )

  module _ (less : F → F → Bool) where
    green-Led :
        (before : List (Peer F)) (o : Option ℕ) (top : ℕ) (lag_idx : Option ℕ) (lag_min : F)
        (q : Peer F)
        → LedBy before o top
        → q.streaming ≡ true
        → let m : Marked F = record {
          green_idx = o;
          green_leads = top;
          lag_idx = lag_idx;
          lag_min = lag_min;
        } in
          Led (before ++ (q ∷ [])) (mark_green less (length before) q m)
    unfolding Led mark_green
    green-Led before none top lag_idx lag_min q led on =
        take-LedBy before q on (NoneStreams-AtMost q.leads before led)
    green-Led before (some i) top lag_idx lag_min q (p, at, up, same, most) on =
        elim (Bool-cases (ltb top q.leads)) [
          | inl more ↦
              rw more (
                take-LedBy before q on
                  (AtMost-raise top q.leads before (ground (arith, more)) most))
          | inr few ↦ rw few (
            p,
            get_elem?-front before p q i at,
            up,
            same,
            AtMost-append top before q most (inr (ground (arith, few))),
          )
        ]

    lime-Led :
        (before : List (Peer F)) (i : ℕ) (q : Peer F) (m : Marked F)
        → Led before m
        → Led before (mark_lime less i q m)
    unfolding Led mark_lime
    lime-Led before i q m led =
        if_cases (Led before) (leb race_lag_n_min q.lag_n && less q.avg_lag_ms m.lag_min)
          {x = record m { lag_min = q.avg_lag_ms; lag_idx = some i }} {y = m} (λ _. led) (λ _. led)

    -- One peer more.
    next-Led :
        (before : List (Peer F)) (q : Peer F) (m : Marked F)
        → Led before m
        → Led (before ++ (q ∷ [])) (
            if q.streaming
            then mark_lime less (length before) q (mark_green less (length before) q m)
            else m)
    unfolding Led
    next-Led before q m led =
        let m' = mark_lime less (length before) q (mark_green less (length before) q m) in
        if_cases (Led (before ++ (q ∷ []))) q.streaming {x = m'} {y = m}
          (λ on.
            lime-Led (before ++ (q ∷ [])) (length before) q (mark_green less (length before) q m)
              (green-Led before m.green_idx m.green_leads m.lag_idx m.lag_min q led on))
          (λ off. skip-LedBy before m.green_idx m.green_leads q led off)

    mark_peers-Led :
        (ps before : List (Peer F)) (m : Marked F)
        → Led before m
        → Led (before ++ ps) (mark_peers less (length before) ps m)
    unfolding mark_peers
    mark_peers-Led [] before m led = rw (append-nil before) led
    mark_peers-Led (p ∷ ps) before m led =
        let i = length before in
        let m' = if p.streaming then mark_lime less i p (mark_green less i p m) else m in
        let longer : length (before ++ (p ∷ [])) ≡ suc i =
          length-append before (p ∷ []) ∙ omega arith in
        let rest = mark_peers-Led ps (before ++ (p ∷ [])) m' (next-Led before p m led) in
        subst (λ (l : List (Peer F)). Led l (mark_peers less (suc i) ps m'))
          (append_assoc before (p ∷ []) ps)
          (subst (λ (n : ℕ). Led ((before ++ (p ∷ [])) ++ ps) (mark_peers less n ps m')) longer
            rest)

    LedBy-IsLeader :
        (peers : List (Peer F)) (o : Option ℕ) (top : ℕ) → LedBy peers o top → IsLeader peers o
    LedBy-IsLeader peers none top led = led
    LedBy-IsLeader peers (some i) top (p, at, on, same, most) =
        (p, at, on, subst (λ (n : ℕ). AtMost n peers) (sym same) most)

    -- Of the index that is green.
    marked_peers-IsLeader :
        (largest : F) (peers : List (Peer F))
        → IsLeader peers (marked_peers less largest peers).green_idx
    unfolding marked_peers Led
    marked_peers-IsLeader largest peers =
        LedBy-IsLeader peers (marked_peers less largest peers).green_idx
          (marked_peers less largest peers).green_leads
          (mark_peers-Led peers []
            (record { green_idx = none; green_leads = 0; lag_idx = none; lag_min = largest }) tt)

green-class :
    {F : Type 0} (is_bad : F → Bool) (green_idx : Option ℕ) (i : ℕ) (p : Peer F)
    → row_class is_bad green_idx i p ≡ RowClass.greenrow
    → (is_bad p.bad_days ≡ false) × (green_idx ≡ some i)
unfolding row_class
green-class is_bad none i p painted = ground arith
green-class is_bad (some g) i p painted = ground arith

leader-at :
    {F : Type 0} (peers : List (Peer F)) (i : ℕ) (p : Peer F) (o : Option ℕ)
    → IsLeader peers o
    → o ≡ some i
    → get_elem? peers i ≡ some p
    → (p.streaming ≡ true) × AtMost p.leads peers
leader-at {F} peers i p o leader green at =
    let (q, found, on, most) = subst (IsLeader peers) green leader in
    let same : q ≡ p = cc (found, at) in
    subst (λ (r : Peer F). (r.streaming ≡ true) × AtMost r.leads peers) same (on, most)

-- A peer whose row the race section paints green has fewer bad days than make it red, streams, and
-- no peer that streams has more leads.
pub green_row-leads :
    {F : Type 0} (less : F → F → Bool) (is_bad : F → Bool) (largest : F) (peers : List (Peer F))
    (i : ℕ) (p : Peer F)
    → get_elem? peers i ≡ some p
    → row_class is_bad (marked_peers less largest peers).green_idx i p ≡ RowClass.greenrow
    → (is_bad p.bad_days ≡ false) × (p.streaming ≡ true) × AtMost p.leads peers
green_row-leads less is_bad largest peers i p at painted =
    let (sound, green) =
      green-class is_bad (marked_peers less largest peers).green_idx i p painted in
    let (on, most) =
      leader-at peers i p (marked_peers less largest peers).green_idx
        (marked_peers-IsLeader less largest peers) green at in
    (sound, on, most)
