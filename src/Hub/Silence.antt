-- ===== src/Hub/Silence.antt =====
-- `silent_sources`: which sources are reported silent.
use hypeha.Base.{ℕ, ◌≤◌, ◌<◌, ◌≡◌, true, List, [], ◌∷◌, Option, none, some, arith, ◌⊎◌}
use hypeha.Stats.{idle_for}
use hypeha.Hub.{Source, AppState}
use hypeha.Hub.Recovery.{freshest, is_silent, silent_ids, silent_sources}

-- Some source of the list has an id and a property.
abbrev pub SomeSource : (Source → Type 0) → List Source → Type 0
SomeSource P [] = ⊥
SomeSource P (s ∷ ss) = P s ⊎ SomeSource P ss

abbrev pub Occurs : ℕ → List ℕ → Type 0
Occurs id [] = ⊥
Occurs id (x ∷ xs) = (x ≡ id) ⊎ Occurs id xs

abbrev pub IdleAbove : ℕ → Option ℕ → Type 0
IdleAbove limit none = ⊥
IdleAbove limit (some d) = limit < d

abbrev pub IdleWithin : ℕ → Option ℕ → Type 0
IdleWithin limit none = ⊥
IdleWithin limit (some d) = d ≤ limit

freshest_within :
    (limit : ℕ) (ss : List Source)
    → IdleWithin limit (freshest ss)
    → SomeSource (λ s. IdleWithin limit (idle_for s.stats)) ss
unfolding freshest
freshest_within limit [] h = h
freshest_within limit (s ∷ ss) h = ground (arith, freshest_within limit ss)

silent_ids_sound :
    (limit id : ℕ) (ss : List Source)
    → Occurs id (silent_ids limit ss)
    → SomeSource
        (λ s. (s.id ≡ id) × (s.stats.connected ≡ true) × IdleAbove limit (idle_for s.stats))
        ss
unfolding silent_ids is_silent
silent_ids_sound limit id [] o = o
silent_ids_sound limit id (s ∷ ss) o = ground (arith, silent_ids_sound limit id ss)

-- A source reported silent is connected and has been idle for longer than the limit, while some
-- source has delivered within the limit.
silent_sources_sound :
    {Q : Type 0} (limit id : ℕ) (st : AppState Q)
    → Occurs id (silent_sources limit st)
    → SomeSource
        (λ s. (s.id ≡ id) × (s.stats.connected ≡ true) × IdleAbove limit (idle_for s.stats))
        st.sources
      × SomeSource (λ s. IdleWithin limit (idle_for s.stats)) st.sources
unfolding silent_sources
silent_sources_sound limit id st o =
    ground (arith, freshest_within limit st.sources, silent_ids_sound limit id st.sources)
