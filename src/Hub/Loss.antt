-- ===== src/Hub/Loss.antt =====
-- `resync_after_source_loss`: what it leaves of a lost source.
use hypeha.Base.{ℕ, ◌≡◌, refl, Bool, true, List, [], ◌∷◌, ◌++◌, map, some, ◌==◌, arith, any, ◌||◌}
use hypeha.Mask.{is_marked, same_bit, is_marked-mark}
use hypeha.SubKey.{SubKey, is_incremental, single_sourced}
use hypeha.Entry.{
  SubEntry, Seq, is_leader, parked, arbitrate, on_block, on_sticky, outdated, Pending,
}
use hypeha.Hub.Recovery.{lose_source, orphans}

abbrev pub is_parked_in : ℕ → List Pending → Bool
is_parked_in id = any (λ p. p.client == id)

any-append :
    {A : Type 0} (p : A → Bool) (xs ys : List A) → any p (xs ++ ys) ≡ (any p xs || any p ys)
any-append p [] ys = refl
any-append p (x ∷ xs) ys = ground (arith, any-append p xs ys)

any-parked : (id : ℕ) (ids : List ℕ) → is_parked_in id (map parked ids) ≡ any (λ i. i == id) ids
any-parked id [] = refl
any-parked id (i ∷ ids) = ground (arith, any-parked id ids)

-- Where an incremental key followed the lost source, nobody is left attached, everybody who was
-- attached or parked is parked now, a snapshot is fetched for each who was attached, the source is
-- written off, and the last height is zero.
pub lose_source_parks :
    (source : ℕ) (key : SubKey) (e : SubEntry) (id : ℕ)
    → is_leader e.block_leader source ≡ true
    → is_incremental key ≡ true
    → let e' = lose_source source key e in
      (e'.subscribers ≡ [])
      × (is_parked_in id e'.pending
          ≡ (is_parked_in id e.pending || any (λ i. i == id) e.subscribers))
      × (orphans source key e ≡ e.subscribers)
      × (is_marked e'.needs_snapshot source ≡ true)
      × (e'.last ≡ 0)
unfolding lose_source orphans
lose_source_parks source key e id l k = ground (
  arith,
  is_marked-mark e.needs_snapshot source source,
  any-append (λ (p : Pending). p.client == id) e.pending (map parked e.subscribers),
  any-parked id e.subscribers,
)

-- Where a single-sourced key followed the lost source, the next frame of any source goes out and
-- that source is followed from then on.
lose_source_frees :
    (source src v now : ℕ) (key : SubKey) (e : SubEntry)
    → is_leader e.block_leader source ≡ true
    → single_sourced key ≡ true
    → let (e', verdict) = arbitrate key src (Seq.sticky v) now (lose_source source key e) in
      (verdict.deliver ≡ true) × (e'.block_leader ≡ some src)
unfolding lose_source arbitrate on_sticky
lose_source_frees source src v now key e l k = ground arith

-- On an incremental key, losing the same source again changes nothing and leaves nobody to rebuild.
lose_source_twice :
    (source : ℕ) (key : SubKey) (e : SubEntry)
    → is_incremental key ≡ true
    → let e' = lose_source source key e in
      (lose_source source key e' ≡ e') × (orphans source key e' ≡ [])
unfolding lose_source orphans
lose_source_twice source key e k = ground arith

-- Two sources whose ids agree modulo 64 share a bit: when one that an incremental key followed is
-- lost, the increments of the other that are raced block by block are refused, whatever their
-- height.
pub lost_source_silences_its_bit :
    (a b : ℕ) (key : SubKey) (e : SubEntry) (h now : ℕ)
    → is_leader e.block_leader a ≡ true
    → is_incremental key ≡ true
    → same_bit a b ≡ true
    → (arbitrate key b (Seq.block h) now (lose_source a key e)).1 ≡ outdated
unfolding lose_source arbitrate on_block
lost_source_silences_its_bit a b key e h now l k s =
    ground (arith, is_marked-mark e.needs_snapshot a b)
