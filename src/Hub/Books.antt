-- ===== src/Hub/Books.antt =====
-- The books of the hub: its entries and who subscribed to what, without the queues, the counters
-- and the sources. What an operation of src/state.rs makes of the books depends on nothing else.
use hypeha.Base.{
  ℕ, ◌≡◌, refl, ◌∙◌, ap, sym, fun_ext, Bool, true, false, List, [], ◌∷◌, Option, none,
  if◌then◌else◌, if_cases, Text, Option-cases, not, retain, ◌++◌, add_u64, inl, inr, ◌==◌,
}
use hypeha.Base.KeyMap.{put}
use hypeha.SubKey.{SubKey, SubKey-discrete}
use hypeha.Entry.{Seq}
use hypeha.Hub.{
  client_queue, Client, AppState, find_entry, entry_of, put_entry, on_client, with_client, hang_up,
  register_client,
}
use hypeha.Hub.Registry
use hypeha.Hub.Registry.{
  SubscribeOutcome, join_entry, holds_key, add_key, forget_key, forget_all, broadcast_ctrl, detach,
  detach_all, leave_entry, cleanup_client, pin,
}
use hypeha.Hub.Update.{take_pending, send_or_hang_up, send_frame}
use hypeha.Hub.Recovery.{resync_after_source_loss, fail_pending}
use hypeha.Hub.Members.Heaps.{queued-Spared, send_frame-Spared}
use hypeha.Hub.Flight.{Act, do_act, run_acts, decide, attach}

abbrev pub Books : Type 0
Books = AppState (Unit {0})

abbrev blank : {Q : Type 0} → Client Q → Client (Unit {0})
blank c = record {
  ip = [];
  queue = tt;
  subscriptions = c.subscriptions;
  bytes_sent = 0;
  dropped = 0;
  connected_at = 0;
  kill = false;
}

abbrev pub books : {Q : Type 0} → AppState Q → AppState (Unit {0})
books st = record {
  max_age = none;
  sources = [];
  subs = st.subs;
  clients = st.clients;
  heap = λ i. blank (st.heap i);
  next_client_id = st.next_client_id;
}

module _ {Q : Type 0} where
  books-heap :
      (heap : ℕ → Client Q) (st : AppState Q)
      → ((i : ℕ) → (heap i).subscriptions ≡ (st.heap i).subscriptions)
      → books (record st { heap = heap }) ≡ books st
  books-heap heap st same =
      ap
        (λ (sets : ℕ → List SubKey). record (books st) {
          heap = λ i. record (blank (st.heap i)) { subscriptions = sets i };
        })
        (fun_ext same)

  -- A function that keeps a client's subscriptions keeps the books.
  books-spared :
      (id : ℕ) (f : Client Q → Client Q) (st : AppState Q)
      → ((c : Client Q) → (f c).subscriptions ≡ c.subscriptions)
      → books (with_client id f st) ≡ books st
  books-spared id f st same = books-heap (on_client id f st.heap) st (λ i.
      if_cases (λ (c : Client Q). c.subscriptions ≡ (st.heap i).subscriptions) (i == id)
        (λ _. same (st.heap i)) (λ _. refl))

  -- An operation on a client that does not look at more than its subscriptions.
  books-with_client :
      (id : ℕ) (f : Client Q → Client Q) (g : Client (Unit {0}) → Client (Unit {0}))
      (st : AppState Q)
      → ((c : Client Q) → (f c).subscriptions ≡ (g (blank c)).subscriptions)
      → books (with_client id f st) ≡ books (with_client id g (books st))
  books-with_client id f g st same =
      ap
        (λ (sets : ℕ → List SubKey). record (books st) {
          heap = λ i. record (blank (st.heap i)) { subscriptions = sets i };
        })
        (fun_ext (λ i. by_test i (i == id)))
    where
      by_test :
          (i : ℕ) (b : Bool)
          → (if b then f (st.heap i) else st.heap i).subscriptions
            ≡ (if b then g (blank (st.heap i)) else blank (st.heap i)).subscriptions
      by_test i true = same (st.heap i)
      by_test i false = refl

  -- A test that the books decide.
  books-if :
      {R R' : Type 0} (f : R → AppState Q) (f' : R' → Books) (b : Bool) (x y : R) (x' y' : R')
      → books (f x) ≡ books (f' x')
      → books (f y) ≡ books (f' y')
      → books (f (if b then x else y)) ≡ books (f' (if b then x' else y'))
  books-if f f' true x y x' y' p q = p
  books-if f f' false x y x' y' p q = q

  detach-books :
      (id : ℕ) (key : SubKey) (st : AppState Q)
      → books (detach id key st) ≡ books (detach id key (books st))
  unfolding detach broadcast_ctrl
  detach-books id key st = elim (Option-cases (find_entry key st)) [
    | inl missing ↦ rw (missing, detach) refl
    | inr (e, found) ↦
        rw (found, detach) (books-if (λ t. t) (λ t. t) (leave_entry id e).1 _ _ _ _ refl refl)
  ]

detach_all-books :
    {Q : Type 0} (id : ℕ) (keys : List SubKey) (st : AppState Q)
    → books (detach_all id keys st) ≡ books (detach_all id keys (books st))
unfolding detach_all
detach_all-books id [] st = refl
detach_all-books id (key ∷ keys) st =
    detach_all-books id keys (detach id key st)
    ∙ ap (λ b. books (detach_all id keys b)) (detach-books id key st)
    ∙ sym (detach_all-books id keys (detach id key (books st)))

abbrev new_client : {Q : Type 0} → Q → ℕ → Text → Client Q
new_client q now ip = record {
  ip = ip;
  queue = q;
  subscriptions = [];
  bytes_sent = 0;
  dropped = 0;
  connected_at = now;
  kill = false;
}

module _ {Q : Type 0} where
  pub cleanup-books :
      (id : ℕ) (st : AppState Q)
      → books (cleanup_client id st) ≡ books (cleanup_client id (books st))
  unfolding cleanup_client
  cleanup-books id st =
      let keys = (st.heap id).subscriptions in
      let left : AppState Q = record st { clients = retain (λ c. not (c == id)) st.clients } in
      detach_all-books id keys (with_client id forget_all left)
      ∙ ap (λ b. books (detach_all id keys b))
          (books-with_client id forget_all forget_all left (λ c. refl))
      ∙ sym (detach_all-books id keys (with_client id forget_all (books left)))

  pub subscribe-books :
      (now id : ℕ) (key : SubKey) (st : AppState Q)
      → books (Registry.subscribe now id key st).0
        ≡ books (Registry.subscribe now id key (books st)).0
  unfolding Registry.subscribe broadcast_ctrl
  subscribe-books now id key st =
      let entry = entry_of now key st in
      let join : Books → Books =
        λ b. record b { subs = put SubKey-discrete key (join_entry key id entry) st.subs } in
      let joined_alike =
        ap join (books-with_client id (add_key key) (add_key key) st (λ c. refl)) in
      books-if (λ (r : AppState Q × SubscribeOutcome). r.0) (λ (r : Books × SubscribeOutcome). r.0)
        (holds_key key (st.heap id).subscriptions) _ _ _ _ refl
        (books-if (λ (r : AppState Q × SubscribeOutcome). r.0)
          (λ (r : Books × SubscribeOutcome). r.0) entry.upstream_subscribed _ _ _ _ joined_alike
          joined_alike)

  pub unsubscribe-books :
      (id : ℕ) (key : SubKey) (st : AppState Q)
      → books (Registry.unsubscribe id key st).0 ≡ books (Registry.unsubscribe id key (books st)).0
  unfolding Registry.unsubscribe
  unsubscribe-books id key st =
      let freed : AppState Q = with_client id (forget_key key) st in
      books-if (λ (r : AppState Q × Bool). r.0) (λ (r : Books × Bool). r.0)
        (holds_key key (st.heap id).subscriptions) _ _ _ _
        (detach-books id key freed
          ∙ ap (λ b. books (detach id key b))
              (books-with_client id (forget_key key) (forget_key key) st (λ c. refl))
          ∙ sym (detach-books id key (with_client id (forget_key key) (books st))))
        refl

  pub pin-books :
      (now : ℕ) (key : SubKey) (st : AppState Q)
      → books (pin now key st) ≡ books (pin now key (books st))
  unfolding pin broadcast_ctrl
  pin-books now key st =
      books-if (λ t. t) (λ t. t) (entry_of now key st).upstream_subscribed _ _ _ _ refl refl

  pub fail-books :
      (key : SubKey) (id : ℕ) (st : AppState Q)
      → books (fail_pending key id st) ≡ books (fail_pending key id (books st))
  unfolding fail_pending
  fail-books key id st = elim (Option-cases (find_entry key st)) [
    | inl missing ↦ rw (missing, fail_pending) refl
    | inr (e, found) ↦ elim (Option-cases (take_pending id e.pending)) [
      | inl absent ↦ rw (found, fail_pending) (rw (absent) refl)
      | inr ((p, rest), taken) ↦
          rw (found, fail_pending)
            (rw (taken) (
              books-with_client p.client hang_up hang_up
                (put_entry key (record e { pending = rest }) st) (λ c. refl)))
    ]
  ]

  pub register-books :
      (channel : ℕ → Q) (now : ℕ) (ip : Text) (st : AppState Q)
      → books (register_client channel now ip st).0
        ≡ books (register_client (λ n. tt) now ip (books st)).0
  unfolding register_client
  register-books channel now ip st =
      ap
        (λ (b : Books). record b {
          clients = st.clients ++ (st.next_client_id ∷ []);
          next_client_id = add_u64 st.next_client_id 1;
        })
        (books-with_client st.next_client_id (λ c. new_client (channel client_queue) now ip)
          (λ c. new_client tt now ip) st (λ c. refl))

  pub decide-books :
      (src : ℕ) (key : SubKey) (seq : Seq) (now : ℕ) (payload : Text) (st : AppState Q)
      → books (decide src key seq now payload st).0
        ≡ books (decide src key seq now payload (books st)).0
  unfolding decide
  decide-books src key seq now payload st = refl

  pub resync-books :
      (source : ℕ) (st : AppState Q)
      → books (resync_after_source_loss source st).0
        ≡ books (resync_after_source_loss source (books st)).0
  unfolding resync_after_source_loss
  resync-books source st = refl

  pub attach-books :
      (key : SubKey) (id source height : ℕ) (snapshot : Text) (st : AppState Q)
      → books (attach key id source height snapshot st).0
        ≡ books (attach key id source height snapshot (books st)).0
  unfolding attach
  attach-books key id source height snapshot st = elim (Option-cases (find_entry key st)) [
    | inl missing ↦ rw (missing, attach) refl
    | inr (e, found) ↦ elim (Option-cases (take_pending id e.pending)) [
      | inl absent ↦ rw (found, attach) (rw (absent) refl)
      | inr ((p, rest), taken) ↦ rw (found, attach) (rw (taken) refl)
    ]
  ]

module _ {Q : Type 0} (try_send : Q → Text → Option Q) where
  pub do_act-books : (a : Act) (st : AppState Q) → books (do_act try_send a st).0 ≡ books st
  unfolding do_act
  do_act-books (Act.count src v) st = refl
  do_act-books (Act.hang id) st = books-spared id hang_up st (λ c. refl)
  do_act-books (Act.frame inc msg id) st =
      books-spared id (send_frame try_send inc msg) st
        (λ c. (send_frame-Spared try_send inc msg c).same_keys)
  do_act-books (Act.piece msg id) st =
      books-spared id (λ c. (send_or_hang_up try_send msg c).0) st
        (λ c. (queued-Spared try_send msg c).same_keys)

  pub run_acts-books :
      (acts : List Act) (st : AppState Q) → books (run_acts try_send acts st) ≡ books st
  unfolding run_acts
  run_acts-books [] st = refl
  run_acts-books (a ∷ acts) st =
      if_cases (λ (t : AppState Q). books t ≡ books st) (do_act try_send a st).1
        (λ on. run_acts-books acts _ ∙ do_act-books a st) (λ stop. do_act-books a st)
