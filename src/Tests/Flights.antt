-- ===== src/Tests/Flights.antt =====
-- Examples of the operations whose unlocked halves interleave.
use hypeha.Base.{◌≡◌, refl, true, [], ◌∷◌, ◌++◌, some, codes, Text}
use hypeha.Base.KeyMap.{get}
use hypeha.SubKey.{SubKey-discrete}
use hypeha.Mask.{is_marked, source_bit}
use hypeha.Entry.{Seq, arbitrate, on_block, open_block, hold}
use hypeha.Hub.Update.{take_pending, backlog, attach_rebuilt, update_entry}
use hypeha.Hub.Flight.{run_acts, decide, attach}
use hypeha.Hub.Interleaved.{Air, Tick, Ticks, Ticks-Serial, Serial}
use hypeha.Hub.Overtaken.{unbounded, overtaken}
use hypeha.Tests.Data.{Queue, two_at_most, busy, book, busy_hub}

abbrev news : Text
news = codes "{\"channel\":\"l4Book\"}"

-- Two sources open a block at once, and the second has told its first client before the first has.
abbrev both_decided : Air Queue
both_decided = (
  (decide 1 book (Seq.block 8) 5 news (decide 0 book (Seq.block 8) 5 news (busy_hub book)).0).0,
  ((decide 0 book (Seq.block 8) 5 news (busy_hub book)).1
      ∷ ((decide 1 book (Seq.block 8) 5 news
            (decide 0 book (Seq.block 8) 5 news (busy_hub book)).0).1
          ∷ [])),
)

both_decide : Ticks two_at_most (busy_hub book, []) both_decided
both_decide =
    Ticks.then_tick
      (Ticks.then_tick Ticks.still (Tick.decides 0 book (Seq.block 8) 5 news (busy_hub book) []))
      (Tick.decides 1 book (Seq.block 8) 5 news
        (decide 0 book (Seq.block 8) 5 news (busy_hub book)).0
        ((decide 0 book (Seq.block 8) 5 news (busy_hub book)).1 ∷ []))

Ticks-Serial_example : Serial two_at_most (busy_hub book) both_decided.0
Ticks-Serial_example = Ticks-Serial {s = busy_hub book} both_decide

goes_out :
    (update_entry book 1 (Seq.block 8) 5 news (attach_rebuilt book 0 3 [] busy)).1.deliver ≡ true
unfolding update_entry attach_rebuilt arbitrate on_block hold open_block is_marked source_bit
goes_out = refl

taken_3 : take_pending 3 busy.pending ≡ some (record { client = 3; held = []; bytes = 0 }, [])
unfolding take_pending
taken_3 = refl

overtaken_example :
    let (attached, behind) = attach book 3 0 7 (codes "{}") (busy_hub book) in
    let (decided, live) = decide 1 book (Seq.block 8) 5 news attached in
    ((run_acts unbounded behind (run_acts unbounded live decided)).heap 3).queue
    ≡ [] ++ (news ∷ backlog book 0 7 (codes "{}") [])
unfolding get SubKey-discrete
overtaken_example =
    overtaken book 3 1 0 7 (Seq.block 8) 5 news (codes "{}") (busy_hub book) busy
      (record { client = 3; held = []; bytes = 0 }) [] refl taken_3 (refl, (refl, (refl, tt)))
      goes_out
