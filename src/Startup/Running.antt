-- ===== src/Startup/Running.antt =====
-- The running program, from its start on.
use hypeha.Base.{
  ℕ, zero, suc, ◌+◌, ◌<◌, ◌≡◌, refl, ◌∙◌, ap, inl, List, [], ◌∷◌, Option, none, some, if_cases,
  Text, arith, get_elem?, length,
}
use hypeha.Base.KeyMap.{get}
use hypeha.SubKey.{SubKey}
use hypeha.Hub.{Source, AppState, find_entry, new}
use hypeha.Hub.Reach.{Step, Reach}
use hypeha.Hub.Distinct.{DistinctKeys, Step-DistinctKeys}
use hypeha.Hub.Members.{Registered}
use hypeha.Hub.Members.Calls.{pin-Registered}
use hypeha.Hub.Members.Runs.{Run, run-Registered}
use hypeha.Hub.Registry.{holds_key, pin}
use hypeha.Upstream.Connection.{on_connect}
use hypeha.Upstream.Wire.{OnWire}
use hypeha.Startup.{Args, number_sources, age_limit, nobody, start_up}
use hypeha.Startup.Ids.{ids, pin-ids, Step-ids}

-- The numbers from one on, as many as asked for.
abbrev pub from : ℕ → ℕ → List ℕ
from first zero = []
from first (suc n) = first ∷ from (suc first) n

number_sources-ids :
    (first : ℕ) (urls : List Text) → ids (number_sources first urls) ≡ from first (length urls)
unfolding number_sources
number_sources-ids first [] = refl
number_sources-ids first (url ∷ urls) = ap (λ l. first ∷ l) (number_sources-ids (suc first) urls)

module _ {Q : Type 0} (q : Q) (now : ℕ) (args : Args) where
  abbrev fresh : AppState Q
  fresh = new (number_sources 0 args.sources) (age_limit args.max_age) (nobody q)

  fresh-Registered : (k : SubKey) → Registered k (find_entry k fresh) fresh.heap
  unfolding new get holds_key
  fresh-Registered k = record {
    no_ghost = λ id p. cc p;
    kept = λ id h. inl (cc h);
    served = λ id p. cc p;
    needed = λ live. inl (cc live);
  }

  start_up-Registered :
      (k : SubKey) → Registered k (find_entry k (start_up q now args)) (start_up q now args).heap
  unfolding start_up new get
  start_up-Registered k =
      if_cases (λ (t : AppState Q). Registered k (find_entry k t) t.heap) args.no_probe {x = fresh}
        {y = pin now (SubKey.bbo args.probe_coin) fresh} (λ _. fresh-Registered k)
        (λ _. pin-Registered k now (SubKey.bbo args.probe_coin) fresh (fresh-Registered k))

  start_up-ids : ids (start_up q now args).sources ≡ from 0 (length args.sources)
  unfolding start_up new
  start_up-ids =
      if_cases (λ (t : AppState Q). ids t.sources ≡ from 0 (length args.sources)) args.no_probe
        {x = fresh} {y = pin now (SubKey.bbo args.probe_coin) fresh}
        (λ _. number_sources-ids 0 args.sources)
        (λ _. pin-ids now (SubKey.bbo args.probe_coin) _ ∙ number_sources-ids 0 args.sources)

  pinned : Step (λ (r : Q) (m : Text). none) fresh (pin now (SubKey.bbo args.probe_coin) fresh)
  pinned = Step.pins now (SubKey.bbo args.probe_coin) fresh

  start_up-DistinctKeys : DistinctKeys (start_up q now args).subs
  unfolding start_up new
  start_up-DistinctKeys =
      if_cases (λ (t : AppState Q). DistinctKeys t.subs) args.no_probe {x = fresh}
        {y = pin now (SubKey.bbo args.probe_coin) fresh} (λ _. tt)
        (λ _. Step-DistinctKeys pinned tt)

Run-Reach :
    {Q : Type 0} {try_send : Q → Text → Option Q} {s t : AppState Q}
    → Run try_send s t
    → Reach try_send s t
Run-Reach Run.start = Reach.here
Run-Reach (Run.then_step run step free) = Reach.next (Run-Reach run) step

module _ {Q : Type 0} {try_send : Q → Text → Option Q} where
  Reach-DistinctKeys :
      {s t : AppState Q} → DistinctKeys s.subs → Reach try_send s t → DistinctKeys t.subs
  Reach-DistinctKeys d Reach.here = d
  Reach-DistinctKeys d (Reach.next reached step) =
      Step-DistinctKeys step (Reach-DistinctKeys d reached)

  Reach-ids : {s t : AppState Q} → Reach try_send s t → ids t.sources ≡ ids s.sources
  Reach-ids Reach.here = refl
  Reach-ids (Reach.next reached step) = Step-ids step ∙ Reach-ids reached

  -- Whatever operations have run since the start of the program, where a client is only registered
  -- under an id that holds no key: for each key, who is attached to its entry or parked there holds
  -- the key and the key is subscribed upstream, who holds the key is there or has been told to hang
  -- up, and a key that is subscribed upstream is pinned or held by somebody; no key stands twice
  -- among the entries; and the sources are numbered from zero in the order of the arguments.
  pub started-Registered :
      (q : Q) (now : ℕ) (args : Args) {t : AppState Q}
      → Run try_send (start_up q now args) t
      → ((k : SubKey) → Registered k (find_entry k t) t.heap)
        × (DistinctKeys t.subs)
        × (ids t.sources ≡ from 0 (length args.sources))
  started-Registered q now args run = (
    λ k. run-Registered k (start_up-Registered q now args k) run,
    Reach-DistinctKeys (start_up-DistinctKeys q now args) (Run-Reach run),
    Reach-ids (Run-Reach run) ∙ start_up-ids q now args,
  )

-- The source at a position has the position for its id.
source_at :
    (first n i : ℕ) (ss : List Source)
    → ids ss ≡ from first n
    → i < n
    → (s : Source) × (get_elem? ss i ≡ some s) × (s.id ≡ first + i)
source_at first zero i ss same small = absurd (omega (arith, small))
source_at first (suc n) i [] same small = absurd (cc same)
source_at first (suc n) zero (s ∷ ss) same small =
    let is : s.id ≡ first = cc in (s, refl, is ∙ omega arith)
source_at first (suc n) (suc i) (s ∷ ss) same small =
    let (t, at, is) = source_at (suc first) n i ss (cc same) (omega (arith, small)) in
    let next : suc first + i ≡ first + suc i = omega arith in (t, at, is ∙ next)

-- A connect of any source, of the running program, begins a connection's life.
started-OnWire :
    {Q : Type 0} {try_send : Q → Text → Option Q} (q : Q) (now : ℕ) (args : Args) (i : ℕ)
    {t : AppState Q}
    → i < length args.sources
    → Run try_send (start_up q now args) t
    → OnWire try_send i (on_connect i t).0 (on_connect i t).1
started-OnWire q now args i {t} small run =
    let (registered, distinct, same) = started-Registered q now args run in
    let (s, at, is) = source_at 0 (length args.sources) i t.sources same small in
    let here : s.id ≡ i = is ∙ omega arith in OnWire.connects i t s distinct at here
