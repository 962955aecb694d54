-- ===== src/Hub/Delivery.antt =====
-- What reaches the clients: `fan_out`, `on_update`, `send_all` and `deliver_snapshot`.
use hypeha.Base.{
  none, get_elem?, ℕ, zero, suc, ◌≡◌, refl, ◌∙◌, ap, sym, ◌⊎◌, inl, inr, Bool, true, false, ◌&&◌,
  List, [], ◌∷◌, ◌++◌, Option, some, ◌==◌, if◌then◌else◌, arith, any, take, Option-cases, Text,
  append-nil, append_assoc, subst,
}
use hypeha.SubKey.{SubKey, is_incremental}
use hypeha.Entry.{
  SubEntry, Seq, arbitrate, hold, on_point, on_lead, on_sticky, on_snapshot, on_block,
}
use hypeha.Hub.{Client, AppState, entry_of, on_client, hang_up, drop_frame}
use hypeha.Hub.Update.{
  send_or_hang_up, send_frame, fan_out, send_all, on_update, update_entry, hang_up_all,
}

-- No client is in a list twice.
abbrev pub Distinct : List ℕ → Type 0
Distinct [] = Unit {0}
Distinct (x ∷ xs) = (any (λ i. i == x) xs ≡ false) × Distinct xs

abbrev pub among : ℕ → List ℕ → Bool
among id = any (λ i. i == id)

subscribers-arbitrate :
    (key : SubKey) (src : ℕ) (seq : Seq) (now : ℕ) (e : SubEntry)
    → (arbitrate key src seq now e).0.subscribers ≡ e.subscribers
unfolding arbitrate on_point on_lead on_sticky on_snapshot on_block
subscribers-arbitrate key src (Seq.point v) now e = ground arith
subscribers-arbitrate key src (Seq.lead v) now e = ground arith
subscribers-arbitrate key src (Seq.sticky v) now e = ground arith
subscribers-arbitrate key src (Seq.snapshot v) now e = ground arith
subscribers-arbitrate key src (Seq.block v) now e = ground arith

subscribers-hold :
    (src : ℕ) (seq : Seq) (payload : Text) (e : SubEntry)
    → (hold src seq payload e).0.subscribers ≡ e.subscribers
unfolding hold
subscribers-hold src seq payload e = ground arith

subscribers-update_entry :
    (key : SubKey) (src : ℕ) (seq : Seq) (now : ℕ) (payload : Text) (e : SubEntry)
    → (update_entry key src seq now payload e).0.subscribers ≡ e.subscribers
unfolding update_entry
subscribers-update_entry key src seq now payload e = ground (
  arith,
  subscribers-arbitrate key src seq now e,
  subscribers-hold src seq payload (arbitrate key src seq now e).0,
)

pub hang_up_all_lem :
    {Q : Type 0} (ids : List ℕ) (heap : ℕ → Client Q) (id : ℕ)
    → hang_up_all ids heap id ≡ (if among id ids then hang_up (heap id) else heap id)
hang_up_all_lem [] heap id = refl
hang_up_all_lem (i ∷ ids) heap id =
    ground (arith, hang_up_all_lem ids (on_client i hang_up heap) id)

module _ {Q : Type 0} (try_send : Q → Text → Option Q) where
  fan_out_lem :
      (inc : Bool) (msg : Text) (ids : List ℕ) (heap : ℕ → Client Q) (id : ℕ)
      → Distinct ids
      → fan_out try_send inc msg ids heap id
        ≡ (if among id ids then send_frame try_send inc msg (heap id) else heap id)
  unfolding fan_out
  fan_out_lem inc msg [] heap id d = refl
  fan_out_lem inc msg (i ∷ ids) heap id d =
      ground
        (arith, fan_out_lem inc msg ids (on_client i (send_frame try_send inc msg) heap) id d.1)

  -- One client, for a list of subscribers and one of clients whose backlog overflowed.
  deliver_heap :
      (inc : Bool) (msg : Text) (deliver : Bool) (ids over : List ℕ) (heap : ℕ → Client Q) (id : ℕ)
      → Distinct ids
      → (if deliver
            then fan_out try_send inc msg ids (hang_up_all over heap)
            else hang_up_all over heap)
          id
        ≡ (if deliver && among id ids
            then send_frame try_send inc msg (if among id over then hang_up (heap id) else heap id)
            else (if among id over then hang_up (heap id) else heap id))
  deliver_heap inc msg true ids over heap id d =
      fan_out_lem inc msg ids (hang_up_all over heap) id d
      ∙ ap (λ (c : Client Q). if among id ids then send_frame try_send inc msg c else c)
          (hang_up_all_lem over heap id)
  deliver_heap inc msg false ids over heap id d = hang_up_all_lem over heap id

  -- What a frame does to each client, by what `update_entry` returned.
  pub on_update-heap :
      (src : ℕ) (key : SubKey) (seq : Seq) (now : ℕ) (payload : Text) (st : AppState Q) (id : ℕ)
      → Distinct (entry_of now key st).subscribers
      → let (entry, verdict, overflowed) =
          update_entry key src seq now payload (entry_of now key st) in
        let before = if among id overflowed then hang_up (st.heap id) else st.heap id in
        (on_update try_send src key seq now payload st).heap id ≡ (
          if verdict.deliver && among id (entry_of now key st).subscribers
          then send_frame try_send (is_incremental key) payload before
          else before)
  unfolding on_update
  on_update-heap src key seq now payload st id d =
      let entry = entry_of now key st in
      let (entry', verdict, overflowed) = update_entry key src seq now payload entry in
      let same : entry'.subscribers ≡ entry.subscribers =
        subscribers-update_entry key src seq now payload entry in
      let before = if among id overflowed then hang_up (st.heap id) else st.heap id in
      deliver_heap (is_incremental key) payload verdict.deliver entry'.subscribers overflowed
        st.heap id (subst Distinct (sym same) d)
      ∙ ap
          (λ (ids : List ℕ).
            if verdict.deliver && among id ids
            then send_frame try_send (is_incremental key) payload before
            else before)
          same

  -- A backlog goes into the queue whole and in order, or the client is hung up with a part of it,
  -- cut at the end only.
  module _ (contents : Q → List Text)
      (fifo : (q q' : Q) (msg : Text)
        → try_send q msg ≡ some q'
        → contents q' ≡ contents q ++ (msg ∷ [])) where
    send_all_step :
        (msg : Text) (c : Client Q)
        → (((send_or_hang_up try_send msg c).1 ≡ true)
            × (contents (send_or_hang_up try_send msg c).0.queue ≡ contents c.queue ++ (msg ∷ []))
            × ((send_or_hang_up try_send msg c).0
                ≡ record c { queue = (send_or_hang_up try_send msg c).0.queue }))
          ⊎ (((send_or_hang_up try_send msg c).1 ≡ false)
              × (try_send c.queue msg ≡ none)
              × ((send_or_hang_up try_send msg c).0 ≡ hang_up (drop_frame c)))
    unfolding send_or_hang_up
    send_all_step msg c = elim (Option-cases (try_send c.queue msg)) [
      | inl full ↦ inr (rw (full, send_or_hang_up) (refl, refl, refl))
      | inr (q, sent) ↦ inl (rw (sent, send_or_hang_up) (refl, fifo c.queue q msg sent, refl))
    ]

    -- On a first-in first-out queue, a backlog goes in whole and in order and nothing else of the
    -- client changes; or it goes in up to the first frame that the queue refuses, one frame is
    -- counted as dropped, the client is hung up, and nothing else of it changes.
    pub send_all_lem :
        (msgs : List Text) (c : Client Q)
        → ((contents (send_all try_send msgs c).queue ≡ contents c.queue ++ msgs)
            × (send_all try_send msgs c ≡ record c { queue = (send_all try_send msgs c).queue }))
          ⊎ ((n : ℕ) × (q : Q) × (msg : Text) × (get_elem? msgs n ≡ some msg)
              × (contents q ≡ contents c.queue ++ take n msgs)
              × (try_send q msg ≡ none)
              × (send_all try_send msgs c ≡ hang_up (drop_frame (record c { queue = q }))))
    unfolding send_all
    send_all_lem [] c = inl (sym (append-nil (contents c.queue)), refl)
    send_all_lem (msg ∷ msgs) c = elim (send_all_step msg c) [
      | inl (went, queued, kept) ↦
          let c' = (send_or_hang_up try_send msg c).0 in
          let swap = λ (q : Q). ap (λ (d : Client Q). record d { queue = q }) kept in
          elim (send_all_lem msgs c') [
            | inl (all, same) ↦ rw went (
                inl (
                  all
                      ∙ ap (λ l. l ++ msgs) queued
                      ∙ append_assoc (contents c.queue) (msg ∷ []) msgs,
                  same ∙ swap (send_all try_send msgs c').queue,
                ))
            | inr (n, q, refused, at, part, full, dead) ↦ rw went (
                inr (
                  suc n,
                  q,
                  refused,
                  at,
                  part
                      ∙ ap (λ l. l ++ take n msgs) queued
                      ∙ append_assoc (contents c.queue) (msg ∷ []) (take n msgs),
                  full,
                  dead ∙ ap (λ (d : Client Q). hang_up (drop_frame d)) (swap q),
                ))
          ]
      | inr (failed, full, dead) ↦
          rw failed
            (inr (zero, c.queue, msg, refl, sym (append-nil (contents c.queue)), full, dead))
    ]
