-- ===== src/Upstream/Spoken.antt =====
-- What an operation of the hub sends to the sources, of src/state.rs, as it reaches one that knows
-- what is live.
use hypeha.Base.{
  ℕ, ◌≡◌, refl, ◌∙◌, ap, sym, inl, inr, Bool, true, false, List, [], ◌∷◌, ◌++◌, map, append-nil,
  append_assoc, Option, some, Text, if_cases,
}
use hypeha.SubKey.{SubKey, SubRequest}
use hypeha.Hub.{AppState, register_client, with_client}
use hypeha.Hub.Registry.{unsubscribe, detach, detach_all, cleanup_client, holds_key, forget_key}
use hypeha.Hub.Control.{
  told, hear, ctrls, is_live, Speaks, subscribe-Speaks, pin-Speaks, detach-Speaks,
}
use hypeha.Hub.Reach.{Step, update-Speaks, deliver-Speaks, fail-Speaks, resync-Speaks}

-- Each source is sent the same requests, which take it from the old state of a key to the new one.
pub record Spoke {Q : Type 0} (k : SubKey) (st st' : AppState Q) : Type 0 where
  pub more : List SubRequest
  pub sent : ctrls st'.sources ≡ map (λ c. c ++ more) (ctrls st.sources)
  pub heard : told k (some (is_live k st)) more ≡ some (is_live k st')

pub told-++ :
    (k : SubKey) (view : Option Bool) (a b : List SubRequest)
    → told k view (a ++ b) ≡ told k (told k view a) b
unfolding told
told-++ k view [] b = refl
told-++ k view (req ∷ a) b = told-++ k (hear k req view) a b

map-same : (cs : List (List SubRequest)) → map (λ c. c ++ []) cs ≡ cs
map-same [] = refl
map-same (c ∷ cs) = cc (append-nil c, map-same cs)

map-twice :
    (a b : List SubRequest) (cs : List (List SubRequest))
    → map (λ c. c ++ b) (map (λ c. c ++ a) cs) ≡ map (λ c. c ++ (a ++ b)) cs
map-twice a b [] = refl
map-twice a b (c ∷ cs) = cc (append_assoc c a b, map-twice a b cs)

module _ {Q : Type 0} (k : SubKey) where
  Spoke-Speaks : (st st' : AppState Q) → Speaks k st st' → Spoke k st st'
  unfolding told
  Spoke-Speaks st st' (inl (same, live)) = record {
    more = [];
    sent = same ∙ sym (map-same _);
    heard = ap some (sym live);
  }
  Spoke-Speaks st st' (inr (req, sent, heard)) = record {
    more = req ∷ [];
    sent = sent;
    heard = heard;
  }

  Spoke-trans : (a b c : AppState Q) → Spoke k a b → Spoke k b c → Spoke k a c
  Spoke-trans a b c x y = record {
    more = x.more ++ y.more;
    sent = y.sent ∙ ap (map (λ d. d ++ y.more)) x.sent ∙ map-twice x.more y.more _;
    heard = told-++ k _ x.more y.more ∙ ap (λ v. told k v y.more) x.heard ∙ y.heard;
  }

  detach_all-Spoke :
      (id : ℕ) (keys : List SubKey) (st : AppState Q) → Spoke k st (detach_all id keys st)
  unfolding detach_all
  detach_all-Spoke id [] st = Spoke-Speaks st st (inl (refl, refl))
  detach_all-Spoke id (key ∷ keys) st =
      Spoke-trans _ (detach id key st) _
        (Spoke-Speaks st (detach id key st) (detach-Speaks key k st id))
        (detach_all-Spoke id keys (detach id key st))

  unsubscribe-Spoke :
      (id : ℕ) (key : SubKey) (st : AppState Q) → Spoke k st (unsubscribe id key st).0
  unfolding unsubscribe is_live
  unsubscribe-Spoke id key st =
      let freed : AppState Q = with_client id (forget_key key) st in
      if_cases (λ (r : AppState Q × Bool). Spoke k st r.0)
        (holds_key key (st.heap id).subscriptions) {x = (detach id key freed, true)}
        {y = (st, false)}
        (λ held.
          Spoke-trans st freed (detach id key freed) (Spoke-Speaks st freed (inl (refl, refl)))
            (Spoke-Speaks freed (detach id key freed) (detach-Speaks key k freed id)))
        (λ free. Spoke-Speaks st st (inl (refl, refl)))

pub Step-Spoke :
    {Q : Type 0} {try_send : Q → Text → Option Q} (k : SubKey) {t u : AppState Q}
    → Step try_send t u
    → Spoke k t u
unfolding register_client cleanup_client is_live
Step-Spoke k (Step.registers channel now ip st) = Spoke-Speaks k st _ (inl (refl, refl))
Step-Spoke k (Step.subscribes now id key st) =
    Spoke-Speaks k st _ (subscribe-Speaks key k st now id)
Step-Spoke k (Step.unsubscribes id key st) = unsubscribe-Spoke k id key st
Step-Spoke k (Step.pins now key st) = Spoke-Speaks k st _ (pin-Speaks key k st now)
Step-Spoke k (Step.leaves id st) =
    Spoke-trans k st _ _ (Spoke-Speaks k st _ (inl (refl, refl)))
      (detach_all-Spoke k id (st.heap id).subscriptions _)
Step-Spoke {try_send} k (Step.updates src key seq now payload st) =
    Spoke-Speaks k st _ (update-Speaks try_send k st src key seq now payload)
Step-Spoke {try_send} k (Step.delivers key id source height snapshot st) =
    Spoke-Speaks k st _ (deliver-Speaks try_send k st key id source height snapshot)
Step-Spoke {try_send} k (Step.loses source st) =
    Spoke-Speaks k st _ (resync-Speaks try_send k st source)
Step-Spoke {try_send} k (Step.fails key id st) =
    Spoke-Speaks k st _ (fail-Speaks try_send k st key id)
