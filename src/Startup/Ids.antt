-- ===== src/Startup/Ids.antt =====
-- The ids of the sources: each is the source's place among the arguments, and stays it.
use hypeha.Base.{
  ℕ, ◌≡◌, refl, ◌∙◌, ap, inl, inr, List, [], ◌∷◌, map, Option, if_cases, Option-cases, Text, arith,
}
use hypeha.SubKey.{SubKey, SubRequest}
use hypeha.Stats.{SourceStats}
use hypeha.Hub.{Source, AppState, on_source, find_entry, register_client, with_client}
use hypeha.Hub.Registry.{
  send_ctrl, broadcast_ctrl, subscribe, pin, detach, detach_all, unsubscribe, cleanup_client,
  leave_entry, forget_key,
}
use hypeha.Hub.Update.{on_update, deliver_snapshot, take_pending}
use hypeha.Hub.Recovery.{resync_after_source_loss, fail_pending}
use hypeha.Hub.Reach.{Step}

abbrev pub ids : List Source → List ℕ
ids = map (λ s. s.id)

ids-send : (req : SubRequest) (ss : List Source) → ids (map (send_ctrl req) ss) ≡ ids ss
ids-send req [] = refl
ids-send req (s ∷ ss) = ap (λ l. s.id ∷ l) (ids-send req ss)

pub ids-on_source :
    (id : ℕ) (f : SourceStats → SourceStats) (ss : List Source)
    → ids (map (on_source id f) ss) ≡ ids ss
ids-on_source id f [] = refl
ids-on_source id f (s ∷ ss) = ground (arith, ids-on_source id f ss)

module _ {Q : Type 0} where
  detach-ids :
      (id : ℕ) (key : SubKey) (st : AppState Q) → ids (detach id key st).sources ≡ ids st.sources
  unfolding broadcast_ctrl detach
  detach-ids id key st = elim (Option-cases (find_entry key st)) [
    | inl missing ↦ rw (missing, detach) refl
    | inr (e, found) ↦
        rw (found, detach)
          (if_cases (λ (t : AppState Q). ids t.sources ≡ ids st.sources) (leave_entry id e).1
            (λ _. ids-send _ st.sources) (λ _. refl))
  ]

  detach_all-ids :
      (id : ℕ) (keys : List SubKey) (st : AppState Q)
      → ids (detach_all id keys st).sources ≡ ids st.sources
  unfolding detach_all
  detach_all-ids id [] st = refl
  detach_all-ids id (key ∷ keys) st =
      detach_all-ids id keys (detach id key st) ∙ detach-ids id key st

  subscribe-ids :
      (now id : ℕ) (key : SubKey) (st : AppState Q)
      → ids (subscribe now id key st).0.sources ≡ ids st.sources
  unfolding subscribe broadcast_ctrl
  subscribe-ids now id key st = ground (arith, ids-send (SubRequest.subscribe key) st.sources)

  pub pin-ids :
      (now : ℕ) (key : SubKey) (st : AppState Q) → ids (pin now key st).sources ≡ ids st.sources
  unfolding pin broadcast_ctrl
  pin-ids now key st = ground (arith, ids-send (SubRequest.subscribe key) st.sources)

  unsubscribe-ids :
      (id : ℕ) (key : SubKey) (st : AppState Q)
      → ids (unsubscribe id key st).0.sources ≡ ids st.sources
  unfolding unsubscribe
  unsubscribe-ids id key st = ground (arith, detach-ids id key (with_client id (forget_key key) st))

  fail-ids :
      (key : SubKey) (id : ℕ) (st : AppState Q) → (fail_pending key id st).sources ≡ st.sources
  unfolding fail_pending
  fail-ids key id st = elim (Option-cases (find_entry key st)) [
    | inl missing ↦ rw (missing, fail_pending) refl
    | inr (e, found) ↦ elim (Option-cases (take_pending id e.pending)) [
      | inl absent ↦ rw (found, fail_pending) (rw (absent, fail_pending) refl)
      | inr ((p, rest), taken) ↦ rw (found, fail_pending) (rw (taken, fail_pending) refl)
    ]
  ]

  deliver-ids :
      (try_send : Q → Text → Option Q) (key : SubKey) (id source height : ℕ) (snapshot : Text)
      (st : AppState Q)
      → (deliver_snapshot try_send key id source height snapshot st).sources ≡ st.sources
  unfolding deliver_snapshot
  deliver-ids try_send key id source height snapshot st = elim (Option-cases (find_entry key st)) [
    | inl missing ↦ rw (missing, deliver_snapshot) refl
    | inr (e, found) ↦ elim (Option-cases (take_pending id e.pending)) [
      | inl absent ↦ rw (found, deliver_snapshot) (rw (absent, deliver_snapshot) refl)
      | inr ((p, rest), taken) ↦ rw (found, deliver_snapshot) (rw (taken, deliver_snapshot) refl)
    ]
  ]

-- No operation changes which sources there are.
pub Step-ids :
    {Q : Type 0} {try_send : Q → Text → Option Q} {t u : AppState Q}
    → Step try_send t u
    → ids u.sources ≡ ids t.sources
unfolding register_client cleanup_client on_update resync_after_source_loss
Step-ids (Step.registers channel now ip st) = refl
Step-ids (Step.subscribes now id key st) = subscribe-ids now id key st
Step-ids (Step.unsubscribes id key st) = unsubscribe-ids id key st
Step-ids (Step.pins now key st) = pin-ids now key st
Step-ids (Step.leaves id st) = detach_all-ids id (st.heap id).subscriptions _
Step-ids (Step.updates src key seq now payload st) = ids-on_source src _ st.sources
Step-ids {try_send} (Step.delivers key id source height snapshot st) =
    ap ids (deliver-ids try_send key id source height snapshot st)
Step-ids (Step.loses source st) = refl
Step-ids (Step.fails key id st) = ap ids (fail-ids key id st)
