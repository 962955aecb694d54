-- ===== src/LoadTest/Chunks.antt =====
-- A list cut into pieces: `chunks` and `div_ceil`, as src/bin/loadtest.rs uses them.
use hypeha.Base.{
  ℕ, zero, suc, ◌+◌, ◌-◌, ◌*◌, ◌≤◌, ◌<◌, ◌≡◌, refl, ◌∙◌, ap, false, List, [], ◌∷◌, ◌++◌, is_empty,
  length, take, drop, arith,
}
use native.Mathlib.Nat.{zero-mul, add-mul, le-div_iff_mul-le, lt-mul-div-succ, mul-add}
use hypeha.LoadTest.Args.{concat}
use hypeha.LoadTest.Plan.{div_ceil, chunks_of}

module _ {ℓ} {A : Type ℓ} where
  abbrev pub Every {κ} : (A → Type κ) → List A → Type κ
  Every P [] = Unit
  Every P (x ∷ xs) = P x × Every P xs

  pub Every-append {κ} :
      (P : A → Type κ) (xs ys : List A) → Every P xs → Every P ys → Every P (xs ++ ys)
  Every-append P [] ys p q = q
  Every-append P (x ∷ xs) ys (here, p) q = (here, Every-append P xs ys p q)

module _ {ℓ} {A : Type ℓ} where
  take-drop : (n : ℕ) (xs : List A) → take n xs ++ drop n xs ≡ xs
  take-drop zero xs = refl
  take-drop (suc n) [] = refl
  take-drop (suc n) (x ∷ xs) = ap (λ l. x ∷ l) (take-drop n xs)

  length-drop : (n : ℕ) (xs : List A) → length (drop n xs) ≤ length xs
  length-drop zero xs = omega arith
  length-drop (suc n) [] = omega arith
  length-drop (suc n) (x ∷ xs) = omega (arith, length-drop n xs)

  -- The pieces are the list again, where they are not empty.
  pub concat-chunks :
      (fuel n : ℕ) (xs : List A) → length xs ≤ fuel → 0 < n → concat (chunks_of fuel n xs) ≡ xs
  unfolding chunks_of concat
  concat-chunks zero n [] h pos = refl
  concat-chunks zero n (x ∷ xs) h pos = absurd (omega (arith, h))
  concat-chunks (suc fuel) n [] h pos = refl
  concat-chunks (suc fuel) zero (x ∷ xs) h pos = absurd (omega (arith, pos))
  concat-chunks (suc fuel) (suc n) (x ∷ xs) h pos =
      ap (λ l. x ∷ (take n xs ++ l))
        (concat-chunks fuel (suc n) (drop n xs) (omega (arith, length-drop n xs, h)) pos)
      ∙ ap (λ l. x ∷ l) (take-drop n xs)

  length-take_le : (n : ℕ) (xs : List A) → length (take n xs) ≤ n
  length-take_le zero xs = omega arith
  length-take_le (suc n) [] = omega arith
  length-take_le (suc n) (x ∷ xs) = omega (arith, length-take_le n xs)

  length-drop_lem : (n : ℕ) (xs : List A) → length (drop n xs) ≡ length xs - n
  length-drop_lem zero xs = omega arith
  length-drop_lem (suc n) [] = omega arith
  length-drop_lem (suc n) (x ∷ xs) = omega (arith, length-drop_lem n xs)

  pub chunks-full :
      (fuel n : ℕ) (xs : List A)
      → 0 < n
      → Every (λ (c : List A). (is_empty c ≡ false) × (length c ≤ n)) (chunks_of fuel n xs)
  unfolding chunks_of
  chunks-full zero n xs pos = tt
  chunks-full (suc fuel) n [] pos = tt
  chunks-full (suc fuel) zero (x ∷ xs) pos = absurd (omega (arith, pos))
  chunks-full (suc fuel) (suc n) (x ∷ xs) pos =
      ((refl, omega (arith, length-take_le n xs)), chunks-full fuel (suc n) (drop n xs) pos)

  -- There are no more pieces than it takes to hold the list.
  pub length-chunks :
      (fuel n c : ℕ) (xs : List A) → length xs ≤ c * n → length (chunks_of fuel n xs) ≤ c
  unfolding chunks_of
  length-chunks zero n c xs h = omega arith
  length-chunks (suc fuel) n c [] h = omega arith
  length-chunks (suc fuel) n zero (x ∷ xs) h = absurd (omega (arith, h, zero-mul n))
  length-chunks (suc fuel) n (suc c) (x ∷ xs) h =
      let left : length (drop n (x ∷ xs)) ≤ c * n =
        omega (arith, length-drop_lem n (x ∷ xs), h, add-mul 1 c n) in
      omega (arith, length-chunks fuel n c (drop n (x ∷ xs)) left)

pub div_ceil-pos : (a b : ℕ) → 0 < a → 0 < b → 0 < div_ceil a b
div_ceil-pos a b h k = (le-div_iff_mul-le {x = 1} {y = a + (b - 1)} k).1 (omega arith)

pub div_ceil-holds : (a b : ℕ) → 0 < b → a ≤ b * div_ceil a b
div_ceil-holds a b k = omega (arith, lt-mul-div-succ (a + (b - 1)) k, mul-add b (div_ceil a b) 1)
