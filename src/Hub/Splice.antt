-- ===== src/Hub/Splice.antt =====
-- A snapshot fetched for one client of a single-sourced key, and the clients that were already
-- following another source.
use hypeha.Base.{ℕ, ◌≤◌, ◌≡◌, ◌≢◌, true, false, List, [], ◌∷◌, ◌++◌, some, ltb, arith}
use hypeha.SubKey.{SubKey, single_sourced}
use hypeha.Entry.{Seq, SubEntry, Pending, arbitrate, on_sticky}
use hypeha.Hub.Update.{attach_rebuilt}

-- On a single-sourced key that follows the source `a`, a late joiner whose snapshot comes from
-- another source `b` takes the whole key over to `b`: from the last height on, the increments of
-- `b` go out to the clients that were attached before, which had no snapshot of `b`, and those of
-- `a` are refused.
pub attach_rebuilt_splices :
    (key : SubKey) (a b id v now : ℕ) (rest : List Pending) (e : SubEntry)
    → single_sourced key ≡ true
    → e.block_leader ≡ some a
    → a ≢ b
    → e.last ≤ v
    → let e' = attach_rebuilt key b id rest e in
      (e'.subscribers ≡ e.subscribers ++ (id ∷ []))
      × ((arbitrate key b (Seq.sticky v) now e').1.deliver ≡ true)
      × ((arbitrate key b (Seq.sticky v) now e').0.subscribers ≡ e.subscribers ++ (id ∷ []))
      × ((arbitrate key a (Seq.sticky v) now e').1.deliver ≡ false)
unfolding attach_rebuilt arbitrate on_sticky
attach_rebuilt_splices key a b id v now rest e s l d h = ground arith

-- On a single-sourced key, an increment of the snapshot's source whose height is below the last one
-- is refused: the client that was just rebuilt on that snapshot misses it.
pub attach_rebuilt_skips :
    (key : SubKey) (b id v now : ℕ) (rest : List Pending) (e : SubEntry)
    → single_sourced key ≡ true
    → ltb v e.last ≡ true
    → (arbitrate key b (Seq.sticky v) now (attach_rebuilt key b id rest e)).1.deliver ≡ false
unfolding attach_rebuilt arbitrate on_sticky
attach_rebuilt_skips key b id v now rest e s h = ground arith
