-- ===== src/Upstream/Settled.antt =====
-- What a fetch leaves of the client that it is for: `fetch_snapshot` of src/upstream.rs, where each
-- attempt at a source ends with an answer or none.
use hypeha.Base.{
  ℕ, ◌≡◌, refl, ◌∙◌, ◌⊎◌, inl, inr, true, List, [], ◌∷◌, Option, some, Text, Option-cases, arith,
  if_pos, if_cases, ==_refl, ◌==◌,
}
use hypeha.Base.KeyMap.{get, get-put}
use hypeha.SubKey.{SubKey, SubKey-discrete}
use hypeha.Entry.{SubEntry, Pending}
use hypeha.Hub.{Client, AppState, Source, find_entry, put_entry}
use hypeha.Hub.Registry.{is_attached}
use hypeha.Hub.Update.{deliver_snapshot, take_pending, attach_rebuilt}
use hypeha.Hub.Recovery.{fail_pending}
use hypeha.Hub.Members.Entries.{taken_client, any-append}
use hypeha.Upstream.Fetch.{Ranked, fetch_snapshot, first_answer, fetch_order}

module _ {Q : Type 0} (key : SubKey) (id : ℕ) where
  -- The entry has these parked clients, and the client is attached there or is to hang up.
  abbrev pub Settled : List Pending → AppState Q → Type 0
  Settled rest st =
      (e : SubEntry) × (find_entry key st ≡ some e)
      × (e.pending ≡ rest)
      × ((is_attached id e.subscribers ≡ true) ⊎ ((st.heap id).kill ≡ true))

  find-put : (e : SubEntry) (st : AppState Q) → find_entry key (put_entry key e st) ≡ some e
  find-put e st =
      get-put SubKey-discrete key key e st.subs
      ∙ if_pos (SubKey-discrete key key) refl (some e) (get SubKey-discrete key st.subs)

  module _ (st : AppState Q) (e : SubEntry) (p : Pending) (rest : List Pending)
      (found : find_entry key st ≡ some e)
      (taken : take_pending id e.pending ≡ some (p, rest)) where
    fail_pending-Settled : Settled rest (fail_pending key id st)
    unfolding fail_pending
    fail_pending-Settled =
        rw (found, fail_pending)
          (rw (taken, fail_pending)
            (
              record e { pending = rest },
              find-put _ st,
              refl,
              inr (
                  if_cases (λ (c : Client Q). c.kill ≡ true) (id == p.client) (λ _. refl)
                    (λ other. cc (other, ==_refl id, taken_client id e.pending p rest taken))),
            ))

    deliver_snapshot-Settled :
        (try_send : Q → Text → Option Q) (source height : ℕ) (payload : Text)
        → Settled rest (deliver_snapshot try_send key id source height payload st)
    unfolding deliver_snapshot attach_rebuilt
    deliver_snapshot-Settled try_send source height payload =
        rw (found, deliver_snapshot)
          (rw (taken, deliver_snapshot)
            (
              attach_rebuilt key source p.client rest e,
              find-put _ st,
              refl,
              inl (
                  any-append (λ c. c == id) e.subscribers (p.client ∷ [])
                  ∙ ground (arith, taken_client id e.pending p rest taken)),
            ))

    -- Whatever the attempts give, the parked record of a client that is parked on the key is gone from
    -- the entry, and the client is attached to it or told to hang up.
    fetch_snapshot-Settled :
        (try_send : Q → Text → Option Q) (ask : Ranked → Option (ℕ × Text))
        (ranked_at : List Source)
        → Settled rest (fetch_snapshot try_send ask ranked_at key id st)
    unfolding fetch_snapshot
    fetch_snapshot-Settled try_send ask ranked_at =
        elim (Option-cases (first_answer ask (fetch_order ranked_at))) [
          | inl nobody ↦ rw (nobody, fetch_snapshot) fail_pending-Settled
          | inr ((source, height, payload), answer) ↦
              rw (answer, fetch_snapshot) (deliver_snapshot-Settled try_send source height payload)
        ]
