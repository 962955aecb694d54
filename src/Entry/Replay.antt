-- ===== src/Entry/Replay.antt =====
-- Sequences of frames of one key, and what goes out of them under `Point`, `Lead` and `Sticky`.
use hypeha.Base.{
  ℕ, ◌<◌, ◌≡◌, refl, ◌⊎◌, List, [], ◌∷◌, Option, some, leb, ◌==◌, if◌then◌else◌, max, arith, ◌&&◌,
}
use hypeha.SubKey.{SubKey}
use hypeha.Entry.{Seq, SubEntry, arbitrate, on_point, on_lead, on_sticky}

-- A frame from a source, with its ordering value, at a time.
pub record Arrival : Type 0 where
  pub source : ℕ
  pub stamp : ℕ
  pub at : ℕ

-- The frames that go out, in order, and the entry after all of them.
unfoldable pub replay : SubKey → (ℕ → Seq) → List Arrival → SubEntry → SubEntry × List Arrival
replay key mode [] e = (e, [])
replay key mode (a ∷ xs) e =
    let (e', v) = arbitrate key a.source (mode a.stamp) a.at e in
    let (done, out) = replay key mode xs e' in (done, if v.deliver then a ∷ out else out)

abbrev pub newest : ℕ → List Arrival → ℕ
newest m [] = m
newest m (a ∷ xs) = newest (max m a.stamp) xs

-- Strictly rising stamps, all above the first.
abbrev pub Rising : ℕ → List Arrival → Type 0
Rising last [] = Unit {0}
Rising last (a ∷ out) = (last < a.stamp) × Rising a.stamp out

-- Each frame opens a later stamp, or shares its stamp and its source with the one before.
abbrev pub OneSourceAStamp : Option ℕ → ℕ → List Arrival → Type 0
OneSourceAStamp leader last [] = Unit {0}
OneSourceAStamp leader last (a ∷ out) =
    ((last < a.stamp) ⊎ ((a.stamp ≡ last) × (leader ≡ some a.source)))
    × OneSourceAStamp (some a.source) a.stamp out

-- The frames of one source, less those below one that went before.
unfoldable pub followed : ℕ → ℕ → List Arrival → List Arrival
followed leader last [] = []
followed leader last (a ∷ xs) =
    let kept = followed leader a.stamp xs in
    let rest = followed leader last xs in
    if (leader == a.source) && leb last a.stamp then a ∷ kept else rest

-- `Point`: the stamps that go out rise strictly, from above the entry's last one, which ends as the
-- newest of its own and all that came in.
pub replay-point :
    (key : SubKey) (xs : List Arrival) (e : SubEntry)
    → Rising e.last (replay key Seq.point xs e).1
      × ((replay key Seq.point xs e).0.last ≡ newest e.last xs)
unfolding replay arbitrate on_point
replay-point key [] e = (tt, refl)
replay-point key (a ∷ xs) e =
    ground (arith, replay-point key xs (arbitrate key a.source (Seq.point a.stamp) a.at e).0)

-- `Lead`: each frame that goes out opens a later stamp, or has the stamp and the source of the one
-- before; and the entry's last stamp ends as the newest of its own and all that came in.
pub replay-lead :
    (key : SubKey) (xs : List Arrival) (e : SubEntry)
    → OneSourceAStamp e.block_leader e.last (replay key Seq.lead xs e).1
      × ((replay key Seq.lead xs e).0.last ≡ newest e.last xs)
unfolding replay arbitrate on_lead
replay-lead key [] e = (tt, refl)
replay-lead key (a ∷ xs) e =
    ground (arith, replay-lead key xs (arbitrate key a.source (Seq.lead a.stamp) a.at e).0)

-- `Sticky`: once a source is followed, exactly its frames go out, in order, less those stamped
-- below the last stamp so far, and it stays the one that is followed.
pub replay-sticky :
    (key : SubKey) (leader : ℕ) (xs : List Arrival) (e : SubEntry)
    → e.block_leader ≡ some leader
    → ((replay key Seq.sticky xs e).1 ≡ followed leader e.last xs)
      × ((replay key Seq.sticky xs e).0.block_leader ≡ some leader)
unfolding replay arbitrate on_sticky followed
replay-sticky key leader [] e h = (refl, h)
replay-sticky key leader (a ∷ xs) e h =
    ground
      (arith, replay-sticky key leader xs (arbitrate key a.source (Seq.sticky a.stamp) a.at e).0)
