-- ===== src/Hub/Members/Frames.antt =====
-- Frames, snapshots and lost sources keep the entry of a key and the clients in agreement.
use hypeha.Base.{
  ℕ, ◌≡◌, ap, sym, subst, inl, inr, true, List, [], ◌∷◌, Option, none, some, if◌then◌else◌, arith,
  Text, Option-cases, if_cases,
}
use hypeha.Base.KeyMap.{get-map_values, lift_value}
use hypeha.SubKey.{SubKey, SubKey-discrete}
use hypeha.Entry.{SubEntry, Seq}
use hypeha.Hub.{Client, AppState, find_entry, entry_of, or_default, put_entry, on_client, hang_up}
use hypeha.Hub.Registry.{holds_key, is_attached}
use hypeha.Hub.Update.{
  on_update, update_entry, deliver_snapshot, take_pending, attach_rebuilt, fan_out, hang_up_all,
  send_all, backlog,
}
use hypeha.SubKey.{is_incremental}
use hypeha.Hub.Recovery.{resync_after_source_loss, fail_pending, lose_source}
use hypeha.Hub.Members.{Registered, Spared, Registered-Quiet}
use hypeha.Hub.Members.Entries.{
  update_entry-KeepsClients, attach_rebuilt-KeepsClients, fail-KeepsClients,
  lose_source-KeepsClients, KeepsClients,
}
use hypeha.Hub.Members.Heaps.{
  KeepsClients-Quiet, Spared-refl, Spared-trans, hang_up_all-Spared, hang_up_all-killed,
  fan_out-Spared, send_all-Spared, on_client-Spared, hang_up-Spared,
}
use hypeha.Hub.Members.Calls.{Registered-heap, put-Registered}

module _ {Q : Type 0} (k : SubKey) where
  -- A step that keeps the clients on the entry that it writes.
  frame-Registered :
      (now : ℕ) (key : SubKey) (e' : SubEntry) (gone : List ℕ) (st : AppState Q)
      (heap' : ℕ → Client Q)
      → KeepsClients (entry_of now key st) e' gone
      → ((i : ℕ) → Spared (st.heap i) (heap' i))
      → ((i : ℕ) → is_attached i gone ≡ true → (heap' i).kill ≡ true)
      → Registered k (find_entry k st) st.heap
      → Registered k (find_entry k (put_entry key e' st)) heap'
  frame-Registered now key e' gone st heap' keeps spared killed r =
      put-Registered k key e' st heap'
        (Registered-Quiet key (find_entry key st) (some e') st.heap heap'
          (KeepsClients-Quiet now (find_entry key st) e' gone st.heap heap' keeps spared killed))
        (λ other.
          Registered-heap k (find_entry k st) st.heap heap'
            (λ i. ap (holds_key k) (spared i).same_keys) (λ i h. (spared i).stays_killed))
        r

module _ {Q : Type 0} (try_send : Q → Text → Option Q) (k : SubKey) where
  pub on_update-Registered :
      (src : ℕ) (key : SubKey) (seq : Seq) (now : ℕ) (payload : Text) (st : AppState Q)
      → Registered k (find_entry k st) st.heap
      → let st' = on_update try_send src key seq now payload st in
        Registered k (find_entry k st') st'.heap
  unfolding on_update
  on_update-Registered src key seq now payload st r =
      let (e', verdict, overflowed) = update_entry key src seq now payload (entry_of now key st) in
      let hung = hang_up_all overflowed st.heap in
      let sent = fan_out try_send (is_incremental key) payload e'.subscribers hung in
      frame-Registered k now key e' overflowed st (if verdict.deliver then sent else hung)
        (update_entry-KeepsClients key src seq now payload (entry_of now key st))
        (λ i.
          if_cases (λ (h : ℕ → Client Q). Spared (st.heap i) (h i)) verdict.deliver
            (λ goes.
              Spared-trans (st.heap i) (hung i) (sent i) (hang_up_all-Spared overflowed st.heap i)
                (fan_out-Spared try_send (is_incremental key) payload e'.subscribers hung i))
            (λ stays. hang_up_all-Spared overflowed st.heap i))
        (λ i off.
          if_cases (λ (h : ℕ → Client Q). (h i).kill ≡ true) verdict.deliver
            (λ goes.
              (fan_out-Spared try_send (is_incremental key) payload e'.subscribers hung
                  i).stays_killed
                (hang_up_all-killed overflowed st.heap i off))
            (λ stays. hang_up_all-killed overflowed st.heap i off))
        r

  pub deliver-Registered :
      (key : SubKey) (id source height : ℕ) (snapshot : Text) (st : AppState Q)
      → Registered k (find_entry k st) st.heap
      → let st' = deliver_snapshot try_send key id source height snapshot st in
        Registered k (find_entry k st') st'.heap
  unfolding deliver_snapshot
  deliver-Registered key id source height snapshot st r = elim (Option-cases (find_entry key st)) [
    | inl missing ↦ rw (missing, deliver_snapshot) r
    | inr (e, found) ↦ elim (Option-cases (take_pending id e.pending)) [
      | inl absent ↦ rw (found, deliver_snapshot) (rw (absent, deliver_snapshot) r)
      | inr ((p, rest), taken) ↦
          let e' = attach_rebuilt key source p.client rest e in
          let msgs = backlog key source height snapshot p.held in
          rw (found, deliver_snapshot)
            (rw (taken, deliver_snapshot)
              (frame-Registered k 0 key e' [] st
                (on_client p.client (send_all try_send msgs) st.heap)
                (subst (λ (e0 : SubEntry). KeepsClients e0 e' []) (sym (ap (or_default 0) found))
                  (attach_rebuilt-KeepsClients key source id p rest e taken))
                (on_client-Spared (send_all try_send msgs) (send_all-Spared try_send msgs) p.client
                  st.heap)
                (λ i off. cc) r))
    ]
  ]

  pub fail-Registered :
      (key : SubKey) (id : ℕ) (st : AppState Q)
      → Registered k (find_entry k st) st.heap
      → let st' = fail_pending key id st in Registered k (find_entry k st') st'.heap
  unfolding fail_pending
  fail-Registered key id st r = elim (Option-cases (find_entry key st)) [
    | inl missing ↦ rw (missing, fail_pending) r
    | inr (e, found) ↦ elim (Option-cases (take_pending id e.pending)) [
      | inl absent ↦ rw (found, fail_pending) (rw (absent, fail_pending) r)
      | inr ((p, rest), taken) ↦
          let e' : SubEntry = record e { pending = rest } in
          rw (found, fail_pending)
            (rw (taken, fail_pending)
              (frame-Registered k 0 key e' (p.client ∷ []) st (on_client p.client hang_up st.heap)
                (subst (λ (e0 : SubEntry). KeepsClients e0 e' (p.client ∷ []))
                  (sym (ap (or_default 0) found)) (fail-KeepsClients id p rest e taken))
                (on_client-Spared hang_up hang_up-Spared p.client st.heap) (λ i off. ground arith)
                r))
    ]
  ]

  lost-Registered :
      (source : ℕ) (o : Option SubEntry) (heap : ℕ → Client Q)
      → Registered k o heap
      → Registered k (lift_value (lose_source source k) o) heap
  lost-Registered source none heap r = r
  lost-Registered source (some e) heap r =
      Registered-Quiet k (some e) (some (lose_source source k e)) heap heap
        (KeepsClients-Quiet 0 (some e) (lose_source source k e) [] heap heap
          (lose_source-KeepsClients source k e) (λ i. Spared-refl (heap i)) (λ i off. cc))
        r

  pub resync-Registered :
      (source : ℕ) (st : AppState Q)
      → Registered k (find_entry k st) st.heap
      → let st' = (resync_after_source_loss source st).0 in Registered k (find_entry k st') st'.heap
  unfolding resync_after_source_loss
  resync-Registered source st r =
      rw (get-map_values SubKey-discrete (lose_source source) k st.subs)
        (lost-Registered source (find_entry k st) st.heap r)
