-- ===== src/Tests/Arbitration.antt =====
-- Entries, arbitrated.
use hypeha.Base.{◌≡◌, refl, List, [], ◌∷◌, none, some, arith}
use hypeha.Mask.{is_marked}
use hypeha.Entry.{Seq, default_entry, arbitrate}
use hypeha.Entry.Outcome.{Outcome, arbitrate-Outcome}
use hypeha.Entry.Replay.{
  Arrival, Rising, OneSourceAStamp, replay, followed, replay-point, replay-lead, replay-sticky,
}
use hypeha.Entry.Positions.{raced, raced_block, messages, furthest}
use hypeha.Entry.Blacklist.{Received, passed, passed-marked}
use hypeha.Tests.Data.{book, ladder, top, busy}

-- Source 0 brings the first message, 1 brings three, 0 its second.
raced_block_example :
    raced book 9 5 (λ k. k ∷ []) (0 ∷ 1 ∷ 1 ∷ 1 ∷ 0 ∷ []) (λ _. 0) (default_entry 0)
    ≡ (1 ∷ []) ∷ (2 ∷ []) ∷ (3 ∷ []) ∷ []
unfolding messages furthest is_marked
raced_block_example =
    raced_block book 9 5 (λ k. k ∷ []) 0 (1 ∷ 1 ∷ 1 ∷ 0 ∷ []) (default_entry 0) (omega arith)
      (refl, (refl, (refl, (refl, (refl, tt))))) (omega arith)

abbrev frames : List Arrival
frames =
    record { source = 0; stamp = 3; at = 1 }
    ∷ record { source = 1; stamp = 3; at = 2 }
    ∷ record { source = 1; stamp = 5; at = 3 }
    ∷ record { source = 0; stamp = 4; at = 4 }
    ∷ []

replay-point_example :
    Rising 0 (replay top Seq.point frames (default_entry 0)).1
    × ((replay top Seq.point frames (default_entry 0)).0.last ≡ 5)
replay-point_example = replay-point top frames (default_entry 0)

replay-lead_example :
    OneSourceAStamp none 0 (replay top Seq.lead frames (default_entry 0)).1
    × ((replay top Seq.lead frames (default_entry 0)).0.last ≡ 5)
replay-lead_example = replay-lead top frames (default_entry 0)

replay-sticky_example :
    ((replay ladder Seq.sticky frames (record (default_entry 0) { block_leader = some 1 })).1
      ≡ followed 1 0 frames)
    × ((replay ladder Seq.sticky frames
          (record (default_entry 0) { block_leader = some 1 })).0.block_leader
        ≡ some 1)
replay-sticky_example =
    replay-sticky ladder 1 frames (record (default_entry 0) { block_leader = some 1 }) refl

arbitrate-Outcome_example : Outcome 1 (Seq.block 8) busy (arbitrate book 1 (Seq.block 8) 4 busy)
arbitrate-Outcome_example = arbitrate-Outcome book 1 (Seq.block 8) 4 busy

abbrev increments : List Received
increments =
    record { source = 1; seq = Seq.block 8; at = 1 }
    ∷ record { source = 0; seq = Seq.snapshot 9; at = 2 }
    ∷ record { source = 1; seq = Seq.block 10; at = 3 }
    ∷ []

passed-marked_example : passed book 1 increments (record busy { needs_snapshot = 2 }) ≡ []
unfolding is_marked
passed-marked_example =
    passed-marked book 1 increments (record busy { needs_snapshot = 2 }) refl
      (refl, (refl, (refl, tt)))
