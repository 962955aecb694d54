-- ===== src/Tests/Clients.antt =====
-- The hub and its clients.
use hypeha.Base.{
  none, get_elem?, ℕ, ◌≡◌, refl, ◌⊎◌, true, false, List, [], ◌∷◌, some, Text, codes, arith, take,
}
use hypeha.Mask.{is_marked}
use hypeha.Base.KeyMap.{get}
use hypeha.SubKey.{SubKey-discrete, is_incremental, single_sourced}
use hypeha.Entry.{Seq, SubEntry, arbitrate, outdated, on_block, on_point, hold}
use hypeha.Hub.{find_entry, hang_up, drop_frame}
use hypeha.Hub.Update.{
  fan_out, on_update, send_all, send_frame, attach_rebuilt, update_entry, deliver_snapshot,
}
use hypeha.Hub.Recovery.{lose_source}
use hypeha.Hub.Delivery.{send_all_lem}
use hypeha.Hub.Overflow.{on_update-client}
use hypeha.Hub.Registry.{subscribe, holds_key}
use hypeha.Hub.Loss.{lost_source_silences_its_bit}
use hypeha.Hub.Splice.{attach_rebuilt_splices, attach_rebuilt_skips}
use hypeha.Hub.Rebuild.{Update, updates, rebuilt_stream}
use hypeha.Hub.Late.{late_frame_keeps_stamp}
use hypeha.Tests.Data.{
  book, ladder, top, two_at_most, two_at_most_fifo, someone, hub, busy, busy_hub,
}

-- Client 2 is attached and its queue is empty.
on_update-client_example :
    (on_update two_at_most 0 book (Seq.block 8) 5 (codes "x") (busy_hub book)).heap 2
    ≡ send_frame two_at_most true (codes "x") someone
unfolding get SubKey-discrete arbitrate on_block is_incremental is_marked
on_update-client_example =
    on_update-client two_at_most 0 book (Seq.block 8) 5 (codes "x") (busy_hub book) 2
      (refl, (refl, tt))

abbrev three : List Text
three = codes "a" ∷ codes "b" ∷ codes "c" ∷ []

send_all_lem_example :
    (((send_all two_at_most three someone).queue ≡ three)
      × (send_all two_at_most three someone
          ≡ record someone { queue = (send_all two_at_most three someone).queue }))
    ⊎ ((n : ℕ) × (q : List Text) × (msg : Text) × (get_elem? three n ≡ some msg)
        × (q ≡ take n three)
        × (two_at_most q msg ≡ none)
        × (send_all two_at_most three someone
            ≡ hang_up (drop_frame (record someone { queue = q }))))
send_all_lem_example = send_all_lem two_at_most (λ q. q) two_at_most_fifo three someone

lost_source_silences_its_bit_example :
    (arbitrate book 64 (Seq.block 9) 5 (lose_source 0 book busy)).1 ≡ outdated
unfolding is_incremental
lost_source_silences_its_bit_example =
    lost_source_silences_its_bit 0 64 book busy 9 5 refl refl refl

attach_rebuilt_splices_example :
    let e' = attach_rebuilt ladder 1 3 [] busy in
    (e'.subscribers ≡ 1 ∷ 2 ∷ 3 ∷ [])
    × ((arbitrate ladder 1 (Seq.sticky 8) 5 e').1.deliver ≡ true)
    × ((arbitrate ladder 1 (Seq.sticky 8) 5 e').0.subscribers ≡ 1 ∷ 2 ∷ 3 ∷ [])
    × ((arbitrate ladder 0 (Seq.sticky 8) 5 e').1.deliver ≡ false)
unfolding single_sourced
attach_rebuilt_splices_example =
    attach_rebuilt_splices ladder 0 1 3 8 5 [] busy refl refl (omega arith) (omega arith)

attach_rebuilt_skips_example :
    (arbitrate ladder 1 (Seq.sticky 6) 5 (attach_rebuilt ladder 1 3 [] busy)).1.deliver ≡ false
unfolding single_sourced
attach_rebuilt_skips_example = attach_rebuilt_skips ladder 1 3 6 5 [] busy refl refl

late_frame_keeps_stamp_example :
    let made = on_update two_at_most 0 top (Seq.point 8) 5 (codes "x") hub in
    let joined = (subscribe 6 1 top made).0 in
    (e : SubEntry) × (e' : SubEntry) × (find_entry top made ≡ some e)
    × (e.last ≡ 8)
    × (e.upstream_subscribed ≡ false)
    × (e.subscribers ≡ [])
    × (find_entry top joined ≡ some e')
    × (e'.last ≡ 8)
    × (e'.subscribers ≡ 1 ∷ [])
    × ((arbitrate top 1 (Seq.point 7) 9 e').1.deliver ≡ false)
unfolding get on_update holds_key update_entry arbitrate on_point fan_out hold
late_frame_keeps_stamp_example =
    late_frame_keeps_stamp two_at_most 0 8 5 top (codes "x") hub 1 6 1 7 9 refl (omega arith) refl
      (omega arith)

-- Client 3 is parked while two frames go out; its snapshot covers the first.
abbrev meanwhile : List Update
meanwhile =
    record { source = 0; seq = Seq.block 8; at = 5; payload = codes "x" }
    ∷ record { source = 1; seq = Seq.block 9; at = 6; payload = codes "y" }
    ∷ []

rebuilt_stream_example :
    (deliver_snapshot two_at_most book 3 1 8
        (codes "s")
        (record hub { subs = (book, (updates book meanwhile busy).0) ∷ [] })).heap
      3
    ≡ send_all two_at_most (codes "s" ∷ codes "y" ∷ []) someone
unfolding get SubKey-discrete updates update_entry arbitrate on_block hold is_marked single_sourced
rebuilt_stream_example =
    rebuilt_stream two_at_most book 3 1 8 (codes "s") meanwhile busy
      (record hub { subs = (book, (updates book meanwhile busy).0) ∷ [] }) refl (omega arith) refl
