-- ===== src/Page/Grouping.antt =====
-- `group`: a number with its digits in threes.
use hypeha.Base.{
  ℕ, zero, suc, ◌+◌, ◌/◌, ◌%◌, ◌≡◌, refl, Bool, true, not, [], ◌∷◌, ltb, ◌==◌, arith, Text, decimal,
  digits_onto, if_cases, retain,
}
use hypeha.Page.{group, spaced}

abbrev pub is_no_space : ℕ → Bool
is_no_space c = not (c == 32)

abbrev NoSpaces : Text → Type 0
NoSpaces [] = Unit {0}
NoSpaces (c ∷ t) = (is_no_space c ≡ true) × NoSpaces t

digit_no_space : (n : ℕ) → is_no_space (n + 48) ≡ true
digit_no_space n = ground arith

retain-spaced : (i : ℕ) (t : Text) → NoSpaces t → retain is_no_space (spaced i t) ≡ t
unfolding spaced
retain-spaced i [] n = refl
retain-spaced i (c ∷ t) n = ground (arith, retain-spaced (suc i) t n.1)

digits-NoSpaces : (fuel n : ℕ) (acc : Text) → NoSpaces acc → NoSpaces (digits_onto fuel n acc)
unfolding digits_onto
digits-NoSpaces zero n acc a = a
digits-NoSpaces (suc fuel) n acc a =
    if_cases NoSpaces (ltb n 10) {x = (n + 48) ∷ acc}
      {y = digits_onto fuel (n / 10) ((n % 10 + 48) ∷ acc)} (λ small. (digit_no_space n, a))
      (λ large. digits-NoSpaces fuel (n / 10) ((n % 10 + 48) ∷ acc) (digit_no_space (n % 10), a))

decimal-NoSpaces : (n : ℕ) → NoSpaces (decimal n)
unfolding decimal
decimal-NoSpaces n = digits-NoSpaces (suc n) n [] tt

-- Grouping only puts spaces in: without them the number reads as before.
retain-group : (n : ℕ) → retain is_no_space (group n) ≡ decimal n
unfolding group
retain-group n = retain-spaced 0 (decimal n) (decimal-NoSpaces n)
