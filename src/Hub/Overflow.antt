-- ===== src/Hub/Overflow.antt =====
-- Which clients a frame hangs up and which it is sent to: `on_update` of src/state.rs, with the
-- backlogs of the parked clients.
use hypeha.Base.{
  ℕ, ◌≡◌, refl, ◌∙◌, ap, ap₂, Bool, true, false, ◌&&◌, List, [], ◌∷◌, map, Option, Text, ltb, ◌==◌,
  if◌then◌else◌, arith, any, add_u64, length, retain, if_cases,
}
use hypeha.SubKey.{SubKey, is_incremental}
use hypeha.Entry.{
  SubEntry, Seq, Pending, Held, Verdict, arbitrate, hold, push_held, over_cap, pending_max_bytes,
  on_point, on_lead, on_sticky, on_snapshot, on_block,
}
use hypeha.Hub.{AppState, entry_of, hang_up}
use hypeha.Hub.Update.{on_update, update_entry, send_frame}
use hypeha.Hub.Delivery.{Distinct, among, on_update-heap}

-- The frames that are kept for the clients whose snapshot is on the way: those of a stream that a
-- snapshot opens.
abbrev pub is_kept : Seq → Bool
is_kept (Seq.block h) = true
is_kept (Seq.snapshot h) = true
is_kept (Seq.sticky h) = true
is_kept (Seq.point v) = false
is_kept (Seq.lead v) = false

-- Whether a backlog of the client is larger than the cap with one more payload.
abbrev pub outgrows : ℕ → Text → List Pending → Bool
outgrows id payload =
    any (λ p. p.client == id && ltb pending_max_bytes (add_u64 p.bytes (length payload)))

pending-arbitrate :
    (key : SubKey) (src : ℕ) (seq : Seq) (now : ℕ) (e : SubEntry)
    → (arbitrate key src seq now e).0.pending ≡ e.pending
unfolding arbitrate on_point on_lead on_sticky on_snapshot on_block
pending-arbitrate key src (Seq.point v) now e = ground arith
pending-arbitrate key src (Seq.lead v) now e = ground arith
pending-arbitrate key src (Seq.sticky v) now e = ground arith
pending-arbitrate key src (Seq.snapshot v) now e = ground arith
pending-arbitrate key src (Seq.block v) now e = ground arith

among-outgrown :
    (id : ℕ) (f : Held) (ps : List Pending)
    → among id (map (λ p. p.client) (retain over_cap (map (push_held f) ps)))
      ≡ outgrows id f.payload ps
among-outgrown id f [] = refl
among-outgrown id f (p ∷ ps) = ground (arith, among-outgrown id f ps)

among-hold :
    (src id : ℕ) (seq : Seq) (payload : Text) (e : SubEntry)
    → among id (hold src seq payload e).1 ≡ (is_kept seq && outgrows id payload e.pending)
unfolding hold
among-hold src id (Seq.block h) payload e =
    among-outgrown id (record { source = src; height = h; payload = payload }) e.pending
among-hold src id (Seq.snapshot h) payload e =
    among-outgrown id (record { source = src; height = h; payload = payload }) e.pending
among-hold src id (Seq.sticky h) payload e =
    among-outgrown id (record { source = src; height = h; payload = payload }) e.pending
among-hold src id (Seq.point v) payload e = refl
among-hold src id (Seq.lead v) payload e = refl

module _ (key : SubKey) (src : ℕ) (seq : Seq) (now : ℕ) (payload : Text) (e : SubEntry) where
  deliver-update_entry :
      (update_entry key src seq now payload e).1 ≡ (arbitrate key src seq now e).1
  unfolding update_entry
  deliver-update_entry =
      let (decided, verdict) = arbitrate key src seq now e in
      if_cases (λ (r : SubEntry × Verdict × List ℕ). r.1 ≡ verdict) verdict.deliver (λ _. refl)
        (λ _. refl)

  among-update_entry :
      (id : ℕ)
      → among id (update_entry key src seq now payload e).2 ≡ (
          (arbitrate key src seq now e).1.deliver && (is_kept seq && outgrows id payload e.pending))
  unfolding update_entry
  among-update_entry id = ground (
    arith,
    among-hold src id seq payload (arbitrate key src seq now e).0,
    pending-arbitrate key src seq now e,
  )

-- What a frame does to each client, where no client is attached twice. It is hung up for its
-- backlog exactly if the frame goes out, is arbitrated as `Sticky`, `Snapshot` or `Block`, and a
-- parked record of the client has, counted modulo 2 ^ 64, more bytes with it than the cap; and
-- after that it is sent the frame once, as its channel is sent, if the frame goes out and the
-- client is attached. Nothing else of it changes.
pub on_update-client :
    {Q : Type 0} (try_send : Q → Text → Option Q) (src : ℕ) (key : SubKey) (seq : Seq) (now : ℕ)
    (payload : Text) (st : AppState Q) (id : ℕ)
    → Distinct (entry_of now key st).subscribers
    → let entry = entry_of now key st in
      let goes = (arbitrate key src seq now entry).1.deliver in
      let before =
        if goes && (is_kept seq && outgrows id payload entry.pending)
        then hang_up (st.heap id)
        else st.heap id in
      (on_update try_send src key seq now payload st).heap id ≡ (
        if goes && among id entry.subscribers
        then send_frame try_send (is_incremental key) payload before
        else before)
on_update-client try_send src key seq now payload st id distinct =
    let entry = entry_of now key st in
    let sent = λ (goes over : Bool).
      let before = if over then hang_up (st.heap id) else st.heap id in
      if goes && among id entry.subscribers
      then send_frame try_send (is_incremental key) payload before
      else before in
    on_update-heap try_send src key seq now payload st id distinct
    ∙ ap₂ sent
        (ap (λ (v : Verdict). v.deliver) (deliver-update_entry key src seq now payload entry))
        (among-update_entry key src seq now payload entry id)
