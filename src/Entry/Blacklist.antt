-- ===== src/Entry/Blacklist.antt =====
-- Sources written off after going silent: `needs_snapshot`.
use hypeha.Base.{ℕ, ◌≡◌, refl, Bool, true, false, List, [], ◌∷◌, ◌==◌, if◌then◌else◌, arith}
use hypeha.Mask.{is_marked, same_bit, is_marked-unmark}
use hypeha.SubKey.{SubKey}
use hypeha.Entry.{Seq, SubEntry, arbitrate, on_point, on_lead, on_sticky, on_snapshot, on_block}

-- Any frame, from any source.
pub record Received : Type 0 where
  pub source : ℕ
  pub seq : Seq
  pub at : ℕ

abbrev pub is_snapshot : Seq → Bool
is_snapshot (Seq.snapshot h) = true
is_snapshot (Seq.point v) = false
is_snapshot (Seq.block v) = false
is_snapshot (Seq.lead v) = false
is_snapshot (Seq.sticky v) = false

abbrev pub is_block : Seq → Bool
is_block (Seq.block h) = true
is_block (Seq.snapshot v) = false
is_block (Seq.point v) = false
is_block (Seq.lead v) = false
is_block (Seq.sticky v) = false

-- No frame of the list is a snapshot from a source on the bit of `s`.
abbrev pub NoSnapshot : ℕ → List Received → Type 0
NoSnapshot s [] = Unit {0}
NoSnapshot s (r ∷ rs) =
    ((if is_snapshot r.seq then same_bit r.source s else false) ≡ false) × NoSnapshot s rs

-- The increments of a source that go out.
unfoldable pub passed : SubKey → ℕ → List Received → SubEntry → List Received
passed key s [] e = []
passed key s (r ∷ rs) e =
    let (e', v) = arbitrate key r.source r.seq r.at e in
    let rest = passed key s rs e' in
    if v.deliver
    then (if r.source == s then (if is_block r.seq then r ∷ rest else rest) else rest)
    else rest

-- A snapshot takes off the mark of the sources on its source's bit and of no other, and no other
-- frame changes a mark.
is_marked-arbitrate :
    (key : SubKey) (src : ℕ) (seq : Seq) (now : ℕ) (e : SubEntry) (s : ℕ)
    → is_marked (arbitrate key src seq now e).0.needs_snapshot s ≡ (
        if (if is_snapshot seq then same_bit src s else false)
        then false
        else is_marked e.needs_snapshot s)
unfolding arbitrate on_point on_lead on_sticky on_snapshot on_block
is_marked-arbitrate key src (Seq.point v) now e s = ground arith
is_marked-arbitrate key src (Seq.lead v) now e s = ground arith
is_marked-arbitrate key src (Seq.sticky v) now e s = ground arith
is_marked-arbitrate key src (Seq.snapshot v) now e s =
    ground (arith, is_marked-unmark e.needs_snapshot src s)
is_marked-arbitrate key src (Seq.block v) now e s = ground arith

marked_refused :
    (key : SubKey) (s : ℕ) (seq : Seq) (now : ℕ) (e : SubEntry)
    → is_block seq ≡ true
    → is_marked e.needs_snapshot s ≡ true
    → (arbitrate key s seq now e).1.deliver ≡ false
unfolding arbitrate on_block
marked_refused key s (Seq.block h) now e b m = ground arith
marked_refused key s (Seq.point h) now e b m = cc
marked_refused key s (Seq.lead h) now e b m = cc
marked_refused key s (Seq.sticky h) now e b m = cc
marked_refused key s (Seq.snapshot h) now e b m = cc

-- A source that is written off gets no increment of a block through, whatever the frames of all
-- sources are, as long as no snapshot comes from a source on its bit.
pub passed-marked :
    (key : SubKey) (s : ℕ) (rs : List Received) (e : SubEntry)
    → is_marked e.needs_snapshot s ≡ true
    → NoSnapshot s rs
    → passed key s rs e ≡ []
unfolding passed
passed-marked key s [] e m n = refl
passed-marked key s (r ∷ rs) e m n =
    let e' = (arbitrate key r.source r.seq r.at e).0 in
    let still : is_marked e'.needs_snapshot s ≡ true =
      ground (arith, is_marked-arbitrate key r.source r.seq r.at e s, n.0) in
    ground (arith, passed-marked key s rs e' still n.1, marked_refused key s r.seq r.at e)
