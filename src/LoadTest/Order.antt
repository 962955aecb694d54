-- ===== src/LoadTest/Order.antt =====
-- `order`: the frames that go back behind the one before.
use hypeha.Base.{
  ℕ, ◌+◌, ◌%◌, ◌^◌, ◌<◌, ◌≡◌, refl, ◌∙◌, List, [], ◌∷◌, Option, none, some, ltb, if◌then◌else◌,
  arith, Text,
}
use hypeha.Entry.{Seq}
use hypeha.LoadTest.{KeyStats, order, order_after}

-- The frames of one subscription, in order.
unfoldable pub order_all : List Seq → Text → KeyStats → KeyStats
order_all [] label s = s
order_all (seq ∷ seqs) label s = order_all seqs label (order seq label s)

-- The value of a frame that is not a snapshot.
abbrev pub value : Seq → Option ℕ
value (Seq.snapshot h) = none
value (Seq.point v) = some v
value (Seq.block v) = some v
value (Seq.lead v) = some v
value (Seq.sticky v) = some v

abbrev below : Option ℕ → Option ℕ → ℕ
below none now = 0
below (some prev) none = 0
below (some prev) (some v) = if ltb v prev then 1 else 0

-- How often a value is below the one before it, where a snapshot starts anew.
unfoldable pub descents : Option ℕ → List Seq → ℕ
descents prev [] = 0
descents prev (seq ∷ seqs) = below prev (value seq) + descents (value seq) seqs

after_step :
    (prev : Option ℕ) (v : ℕ) (label : Text) (s : KeyStats)
    → s.violation_count < 2 ^ 64
    → ((order_after prev v label s).violation_count
        ≡ (s.violation_count + below prev (some v)) % 2 ^ 64)
      × ((order_after prev v label s).last_seq ≡ some v)
unfolding order_after
after_step none v label s h = (omega arith, refl)
after_step (some prev) v label s h = ground arith

order_step :
    (seq : Seq) (label : Text) (s : KeyStats)
    → s.violation_count < 2 ^ 64
    → ((order seq label s).violation_count
        ≡ (s.violation_count + below s.last_seq (value seq)) % 2 ^ 64)
      × ((order seq label s).last_seq ≡ value seq)
unfolding order
order_step (Seq.snapshot h) label s small = (ground arith, refl)
order_step (Seq.point v) label s small = after_step s.last_seq v label s small
order_step (Seq.block v) label s small = after_step s.last_seq v label s small
order_step (Seq.lead v) label s small = after_step s.last_seq v label s small
order_step (Seq.sticky v) label s small = after_step s.last_seq v label s small

-- From a counter within its range, the load test counts as violations exactly the frames whose
-- value is below that of the frame before, where no snapshot came between; the counter wraps.
order_all_lem :
    (seqs : List Seq) (label : Text) (s : KeyStats)
    → s.violation_count < 2 ^ 64
    → (order_all seqs label s).violation_count
      ≡ (s.violation_count + descents s.last_seq seqs) % 2 ^ 64
unfolding order_all descents
order_all_lem [] label s h = omega arith
order_all_lem (seq ∷ seqs) label s h =
    let (counted, last) = order_step seq label s h in
    let s' = order seq label s in
    order_all_lem seqs label s' (omega (arith, counted)) ∙ rw last (omega (arith, counted))
