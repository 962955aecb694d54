-- ===== src/Hub/Overtaken.antt =====
-- A frame that comes between the two halves of `AppState::deliver_snapshot`, from src/state.rs: the
-- client is attached under the lock, and sent its snapshot after the lock is released.
use hypeha.Base.{
  ℕ, ◌≡◌, refl, ◌∙◌, ap, sym, subst, arith, Bool, true, List, [], ◌∷◌, ◌++◌, map, Option, some,
  if◌then◌else◌, if_pos, if_cases, ◌==◌, append_assoc, append-nil, Text,
}
use hypeha.Base.KeyMap.{get-put}
use hypeha.SubKey.{SubKey, SubKey-discrete, is_incremental}
use hypeha.Entry.{SubEntry, Pending, Seq}
use hypeha.Hub.{Client, AppState, find_entry, entry_of, put_entry, hang_up}
use hypeha.Hub.Update.{
  take_pending, backlog, attach_rebuilt, update_entry, send_or_hang_up, send_or_drop, send_frame,
  send_all, on_update,
}
use hypeha.Hub.Delivery.{Distinct, among, on_update-heap}
use hypeha.Hub.Members.Entries.{taken_client}
use hypeha.Hub.Flight.{Act, run_acts, decide, attach, on_update-halves, run-pieces}

-- A queue with room for every frame.
abbrev pub unbounded : List Text → Text → Option (List Text)
unbounded q msg = some (q ++ (msg ∷ []))

send_all-unbounded :
    (msgs : List Text) (c : Client (List Text))
    → (send_all unbounded msgs c).queue ≡ c.queue ++ msgs
unfolding send_all send_or_hang_up
send_all-unbounded [] c = sym (append-nil c.queue)
send_all-unbounded (msg ∷ msgs) c =
    send_all-unbounded msgs (record c { queue = c.queue ++ (msg ∷ []) })
    ∙ append_assoc c.queue (msg ∷ []) msgs

send_frame-unbounded :
    (inc : Bool) (msg : Text) (c : Client (List Text))
    → (send_frame unbounded inc msg c).queue ≡ c.queue ++ (msg ∷ [])
unfolding send_frame send_or_hang_up send_or_drop
send_frame-unbounded inc msg c = ground arith

among-last : (id : ℕ) (ids : List ℕ) → among id (ids ++ (id ∷ [])) ≡ true
among-last id [] = ground arith
among-last id (i ∷ ids) = ground (arith, among-last id ids)

-- A client that is attached to the key's entry, when a frame that goes out comes in.
live-queue :
    (src : ℕ) (key : SubKey) (seq : Seq) (now : ℕ) (payload : Text) (st : AppState (List Text))
    (id : ℕ) (e : SubEntry)
    → find_entry key st ≡ some e
    → Distinct e.subscribers
    → among id e.subscribers ≡ true
    → (update_entry key src seq now payload e).1.deliver ≡ true
    → ((on_update unbounded src key seq now payload st).heap id).queue
      ≡ (st.heap id).queue ++ (payload ∷ [])
live-queue src key seq now payload st id e found distinct attached goes =
    let same : entry_of now key st ≡ e = rw found refl in
    let verdict = (update_entry key src seq now payload (entry_of now key st)).1 in
    let gone = (update_entry key src seq now payload (entry_of now key st)).2 in
    let goes' : verdict.deliver ≡ true = rw same goes in
    let attached' : among id (entry_of now key st).subscribers ≡ true = rw same attached in
    let before = if among id gone then hang_up (st.heap id) else st.heap id in
    ap (λ (c : Client (List Text)). c.queue)
      (on_update-heap unbounded src key seq now payload st id
        (subst (λ (d : SubEntry). Distinct d.subscribers) (sym same) distinct))
    ∙ rw (goes', attached') (send_frame-unbounded (is_incremental key) payload before)
    ∙ if_cases
        (λ (c : Client (List Text)).
          c.queue ++ (payload ∷ []) ≡ (st.heap id).queue ++ (payload ∷ []))
        (among id gone) {x = hang_up (st.heap id)} {y = st.heap id} (λ _. refl) (λ _. refl)

attach_lem :
    (key : SubKey) (id source height : ℕ) (snapshot : Text) (st : AppState (List Text))
    (e : SubEntry) (p : Pending) (rest : List Pending)
    → find_entry key st ≡ some e
    → take_pending id e.pending ≡ some (p, rest)
    → attach key id source height snapshot st ≡ (
      put_entry key (attach_rebuilt key source p.client rest e) st,
      map (λ msg. Act.piece msg p.client) (backlog key source height snapshot p.held),
    )
unfolding attach
attach_lem key id source height snapshot st e p rest found taken =
    rw (found, attach) (rw taken refl)

behind-queue :
    (msgs : List Text) (id : ℕ) (st : AppState (List Text))
    → ((run_acts unbounded (map (λ msg. Act.piece msg id) msgs) st).heap id).queue
      ≡ (st.heap id).queue ++ msgs
behind-queue msgs id st =
    ap (λ (t : AppState (List Text)). (t.heap id).queue) (run-pieces unbounded msgs id st)
    ∙ if_cases (λ (c : Client (List Text)). c.queue ≡ (st.heap id).queue ++ msgs) (id == id)
        (λ _. send_all-unbounded msgs (st.heap id)) (λ other. ground arith)

attached-Distinct :
    (key : SubKey) (source id : ℕ) (rest : List Pending) (e : SubEntry)
    → Distinct (e.subscribers ++ (id ∷ []))
    → Distinct (attach_rebuilt key source id rest e).subscribers
unfolding attach_rebuilt
attached-Distinct key source id rest e distinct = distinct

attached_last :
    (key : SubKey) (source id : ℕ) (rest : List Pending) (e : SubEntry)
    → among id (attach_rebuilt key source id rest e).subscribers ≡ true
unfolding attach_rebuilt
attached_last key source id rest e = among-last id e.subscribers

-- On queues with room for every frame, where the parked client is nowhere else on the entry and no
-- client is attached twice: if its snapshot comes, and before the task that attached it has sent
-- anything a frame that goes out is decided and fanned out, the client is queued that frame first,
-- and behind it the snapshot and the backlog.
pub overtaken :
    (key : SubKey) (id src source height : ℕ) (seq : Seq) (now : ℕ) (payload snapshot : Text)
    (st : AppState (List Text)) (e : SubEntry) (p : Pending) (rest : List Pending)
    → find_entry key st ≡ some e
    → take_pending id e.pending ≡ some (p, rest)
    → Distinct (e.subscribers ++ (p.client ∷ []))
    → (update_entry key src seq now payload (attach_rebuilt key source p.client rest e)).1.deliver
      ≡ true
    → let (attached, behind) = attach key id source height snapshot st in
      let (decided, live) = decide src key seq now payload attached in
      ((run_acts unbounded behind (run_acts unbounded live decided)).heap id).queue
      ≡ (st.heap id).queue ++ (payload ∷ backlog key source height snapshot p.held)
overtaken key id src source height seq now payload snapshot st e p rest found taken distinct goes =
    let e' = attach_rebuilt key source p.client rest e in
    let st' = put_entry key e' st in
    let msgs = backlog key source height snapshot p.held in
    let (decided, live) = decide src key seq now payload st' in
    let here : find_entry key st' ≡ some e' =
      get-put SubKey-discrete key key e' st.subs ∙ if_pos (SubKey-discrete key key) refl _ _ in
    rw (attach_lem key id source height snapshot st e p rest found taken) (
      subst
        (λ (i : ℕ).
          ((run_acts unbounded (map (λ msg. Act.piece msg p.client) msgs)
              (run_acts unbounded live decided)).heap
            i).queue
          ≡ (st.heap i).queue ++ (payload ∷ msgs))
        (taken_client id e.pending p rest taken)
        (behind-queue msgs p.client (run_acts unbounded live decided)
          ∙ ap (λ (t : AppState (List Text)). (t.heap p.client).queue ++ msgs)
              (on_update-halves unbounded src key seq now payload st')
          ∙ ap (λ (q : List Text). q ++ msgs)
              (live-queue src key seq now payload st' p.client e' here
                (attached-Distinct key source p.client rest e distinct)
                (attached_last key source p.client rest e) goes)
          ∙ append_assoc (st.heap p.client).queue (payload ∷ []) msgs))
