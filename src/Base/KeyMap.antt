-- ===== src/Base/KeyMap.antt =====
-- A map as an association list: what the code asks of a `DashMap`, with the laws of a map.
-- `iter` visits the entries in the order of the list; the real order is not fixed.
use mathlib.Core.Path.{◌≡◌, refl}
use mathlib.Core.Logic.{ite}
use mathlib.Core.Option.{Option, none, some}
use mathlib.Core.List.{List, [], ◌∷◌}
use native.Mathlib.Omega.{arith}

abbrev pub lift_value {ℓ} : {V : Type ℓ} → (V → V) → Option V → Option V
lift_value f none = none
lift_value f (some v) = some (f v)

module _ {ℓ} {K V : Type ℓ} where
  unfoldable pub get : Discrete K → K → List (K × V) → Option V
  get dec k [] = none
  get dec k ((j, v) ∷ m) = ite (dec j k) (some v) (get dec k m)

  unfoldable pub put : Discrete K → K → V → List (K × V) → List (K × V)
  put dec k v [] = (k, v) ∷ []
  put dec k v ((j, w) ∷ m) = ite (dec j k) ((k, v) ∷ m) ((j, w) ∷ put dec k v m)

  unfoldable pub remove : Discrete K → K → List (K × V) → List (K × V)
  remove dec k [] = []
  remove dec k ((j, w) ∷ m) = let rest = remove dec k m in ite (dec j k) rest ((j, w) ∷ rest)

  pub get-put :
      (dec : Discrete K) (j k : K) (v : V) (m : List (K × V))
      → get dec j (put dec k v m) ≡ ite (dec k j) (some v) (get dec j m)
  unfolding get put
  get-put dec j k v [] = refl
  get-put dec j k v ((i, w) ∷ m) = ground (arith, get-put dec j k v m)

  pub get-remove :
      (dec : Discrete K) (j k : K) (m : List (K × V))
      → get dec j (remove dec k m) ≡ ite (dec k j) none (get dec j m)
  unfolding get remove
  get-remove dec j k [] = ground arith
  get-remove dec j k ((i, w) ∷ m) = ground (arith, get-remove dec j k m)

  -- Every value replaced by a function of its key and itself: `iter_mut`.
  unfoldable pub map_values : (K → V → V) → List (K × V) → List (K × V)
  map_values f [] = []
  map_values f ((j, v) ∷ m) = (j, f j v) ∷ map_values f m

  pub get-map_values :
      (dec : Discrete K) (f : K → V → V) (k : K) (m : List (K × V))
      → get dec k (map_values f m) ≡ lift_value (f k) (get dec k m)
  unfolding get map_values
  get-map_values dec f k [] = refl
  get-map_values dec f k ((i, w) ∷ m) = ground (arith, get-map_values dec f k m)
