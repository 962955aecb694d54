-- ===== src/Hub/Flight.antt =====
-- The two halves of `on_update` and of `deliver_snapshot`, from src/state.rs: what happens while
-- the entry is locked, and what is done after `drop(entry)`, in its order. Several tasks may be in
-- their second half at once.
use hypeha.Base.{
  ℕ, ◌≡◌, refl, ◌∙◌, ap, subst, fun_ext, arith, Bool, true, false, List, [], ◌∷◌, ◌++◌, map, Option,
  none, some, if◌then◌else◌, if_cases, Text, Option-cases, inl, inr, ◌==◌,
}
use hypeha.SubKey.{SubKey, is_incremental}
use hypeha.Entry.{Seq, Verdict}
use hypeha.Hub.{
  Client, AppState, find_entry, entry_of, put_entry, on_client, with_client, with_source, hang_up,
}
use hypeha.Hub.Update.{
  tally, take_pending, backlog, attach_rebuilt, update_entry, send_or_hang_up, send_frame, fan_out,
  send_all, hang_up_all, on_update, deliver_snapshot,
}

-- One thing that is done without the lock: the counters of a verdict, a client told to hang up, a
-- frame of the live stream for a client, and a frame of a rebuilt client's backlog.
pub data Act : Type 0 where
  count : ℕ → Verdict → Act
  hang : ℕ → Act
  frame : Bool → Text → ℕ → Act
  piece : Text → ℕ → Act

module _ {Q : Type 0} (try_send : Q → Text → Option Q) where
  -- The state after it, and whether the task goes on: a backlog ends at a frame that does not fit.
  unfoldable pub do_act : Act → AppState Q → AppState Q × Bool
  do_act (Act.count src v) st = (with_source src (tally v) st, true)
  do_act (Act.hang id) st = (with_client id hang_up st, true)
  do_act (Act.frame inc msg id) st = (with_client id (send_frame try_send inc msg) st, true)
  do_act (Act.piece msg id) st = (
    with_client id (λ c. (send_or_hang_up try_send msg c).0) st,
    (send_or_hang_up try_send msg (st.heap id)).1,
  )

  unfoldable pub run_acts : List Act → AppState Q → AppState Q
  run_acts [] st = st
  run_acts (a ∷ acts) st =
      let rest = run_acts acts (do_act a st).0 in if (do_act a st).1 then rest else (do_act a st).0

abbrev pub frames : Bool → Bool → Text → List ℕ → List Act
frames deliver inc msg ids = if deliver then map (Act.frame inc msg) ids else []

module _ {Q : Type 0} where
  -- The locked half of `on_update`.
  unfoldable pub decide : ℕ → SubKey → Seq → ℕ → Text → AppState Q → AppState Q × List Act
  decide src key seq now payload st =
      let (entry, verdict, overflowed) =
        update_entry key src seq now payload (entry_of now key st) in
      (
        put_entry key entry st,
        Act.count src verdict
            ∷ (map Act.hang overflowed
                ++ frames verdict.deliver (is_incremental key) payload entry.subscribers),
      )

  -- The locked half of `deliver_snapshot`.
  unfoldable pub attach : SubKey → ℕ → ℕ → ℕ → Text → AppState Q → AppState Q × List Act
  attach key id source height snapshot st = elim (find_entry key st) [
    | none ↦ (st, [])
    | some e ↦ elim (take_pending id e.pending) [
      | none ↦ (st, [])
      | some (p, rest) ↦ (
        put_entry key (attach_rebuilt key source p.client rest e) st,
        map (λ msg. Act.piece msg p.client) (backlog key source height snapshot p.held),
      )
    ]
  ]

module _ {Q : Type 0} (id : ℕ) where
  on_client-cong :
      (f g : Client Q → Client Q) (heap : ℕ → Client Q)
      → f (heap id) ≡ g (heap id)
      → on_client id f heap ≡ on_client id g heap
  on_client-cong f g heap same = fun_ext (λ i.
      if_cases (λ (c : Client Q). c ≡ on_client id g heap i) (i == id)
        (λ is.
          let e : id ≡ i = ground arith in rw (is) (subst (λ j. f (heap j) ≡ g (heap j)) e same))
        (λ other. rw (other) refl))

  on_client-twice :
      (f g : Client Q → Client Q) (heap : ℕ → Client Q)
      → on_client id g (on_client id f heap) ≡ on_client id (λ c. g (f c)) heap
  on_client-twice f g heap = fun_ext (λ i. by_test i (i == id))
    where
      by_test :
          (i : ℕ) (b : Bool)
          → (if b then g (if b then f (heap i) else heap i) else (if b then f (heap i) else heap i))
            ≡ (if b then g (f (heap i)) else heap i)
      by_test i true = refl
      by_test i false = refl

module _ {Q : Type 0} (try_send : Q → Text → Option Q) where
  run-hangs :
      (ids : List ℕ) (acts : List Act) (st : AppState Q)
      → run_acts try_send (map Act.hang ids ++ acts) st
        ≡ run_acts try_send acts (record st { heap = hang_up_all ids st.heap })
  unfolding run_acts do_act
  run-hangs [] acts st = refl
  run-hangs (id ∷ ids) acts st = run-hangs ids acts (with_client id hang_up st)

  run-frames :
      (inc : Bool) (msg : Text) (ids : List ℕ) (st : AppState Q)
      → run_acts try_send (map (Act.frame inc msg) ids) st
        ≡ record st { heap = fan_out try_send inc msg ids st.heap }
  unfolding run_acts do_act fan_out
  run-frames inc msg [] st = refl
  run-frames inc msg (id ∷ ids) st =
      run-frames inc msg ids (with_client id (send_frame try_send inc msg) st)

  pub run-pieces :
      (msgs : List Text) (id : ℕ) (st : AppState Q)
      → run_acts try_send (map (λ msg. Act.piece msg id) msgs) st
        ≡ record st { heap = on_client id (send_all try_send msgs) st.heap }
  unfolding run_acts do_act send_all
  run-pieces [] id st =
      ap (λ (h : ℕ → Client Q). record st { heap = h })
        (fun_ext
          (λ i. if_cases (λ (c : Client Q). st.heap i ≡ c) (i == id) (λ _. refl) (λ _. refl)))
  run-pieces (msg ∷ msgs) id st =
      if_cases
        (λ (t : AppState Q).
          t ≡ record st { heap = on_client id (send_all try_send (msg ∷ msgs)) st.heap })
        (send_or_hang_up try_send msg (st.heap id)).1
        (λ sent.
          run-pieces msgs id (with_client id (λ c. (send_or_hang_up try_send msg c).0) st)
          ∙ ap (λ (h : ℕ → Client Q). record st { heap = h })
              (on_client-twice id (λ c. (send_or_hang_up try_send msg c).0) (send_all try_send msgs)
                  st.heap
                ∙ on_client-cong id (λ c. send_all try_send msgs (send_or_hang_up try_send msg c).0)
                    (send_all try_send (msg ∷ msgs)) st.heap (rw (send_all, sent) refl)))
        (λ full.
          ap (λ (h : ℕ → Client Q). record st { heap = h })
            (on_client-cong id (λ c. (send_or_hang_up try_send msg c).0)
              (send_all try_send (msg ∷ msgs)) st.heap (rw (send_all, full) refl)))

  delivered :
      (deliver inc : Bool) (msg : Text) (ids : List ℕ) (st : AppState Q)
      → run_acts try_send (frames deliver inc msg ids) st
        ≡ record st { heap = if deliver then fan_out try_send inc msg ids st.heap else st.heap }
  unfolding run_acts
  delivered true inc msg ids st = run-frames inc msg ids st
  delivered false inc msg ids st = refl

  -- `on_update` is what it decides under the lock of the entry, followed by what it does after the
  -- lock is released.
  pub on_update-halves :
      (src : ℕ) (key : SubKey) (seq : Seq) (now : ℕ) (payload : Text) (st : AppState Q)
      → let (locked, acts) = decide src key seq now payload st in
        run_acts try_send acts locked ≡ on_update try_send src key seq now payload st
  unfolding decide on_update run_acts do_act
  on_update-halves src key seq now payload st =
      let (entry, verdict, overflowed) =
        update_entry key src seq now payload (entry_of now key st) in
      run-hangs overflowed _ _ ∙ delivered verdict.deliver _ _ _ _

  pub deliver_snapshot-halves :
      (key : SubKey) (id source height : ℕ) (snapshot : Text) (st : AppState Q)
      → let (locked, acts) = attach key id source height snapshot st in
        run_acts try_send acts locked ≡ deliver_snapshot try_send key id source height snapshot st
  unfolding attach deliver_snapshot run_acts
  deliver_snapshot-halves key id source height snapshot st =
      elim (Option-cases (find_entry key st)) [
        | inl missing ↦ rw (missing, attach, deliver_snapshot) refl
        | inr (e, found) ↦ elim (Option-cases (take_pending id e.pending)) [
          | inl absent ↦ rw (found, attach, deliver_snapshot) (rw (absent) refl)
          | inr ((p, rest), taken) ↦
              rw (found, attach, deliver_snapshot) (rw (taken) (run-pieces _ p.client _))
        ]
      ]
