-- ===== src/Upstream/Printed.antt =====
-- `block_time_ms` of src/upstream.rs on a text in which a number was printed.
use hypeha.Base.{
  ℕ, zero, suc, ◌+◌, ◌-◌, ◌*◌, ◌/◌, ◌%◌, ◌^◌, ◌≤◌, ◌<◌, ◌≡◌, refl, ◌∙◌, ap, true, false, [], ◌∷◌,
  ◌++◌, none, some, ltb, if_cases, arith, length, Text, decimal, digits_onto,
}
use hypeha.Upstream.{
  is_ascii_digit, strip_prefix, after_first, leading_digits, number_onto, parse_u64, time_key,
  block_time_ms,
}

-- The key does not begin within a text that stands before another.
abbrev pub Free : Text → Text → Text → Type 0
Free key [] rest = Unit {0}
Free key (c ∷ pre) rest = (strip_prefix key ((c ∷ pre) ++ rest) ≡ none) × Free key pre rest

abbrev pub StartsPlain : Text → Type 0
StartsPlain [] = Unit {0}
StartsPlain (c ∷ text) = is_ascii_digit c ≡ false

abbrev AllDigits : Text → Type 0
AllDigits [] = Unit {0}
AllDigits (c ∷ text) = (is_ascii_digit c ≡ true) × AllDigits text

strip_prefix_lem : (key rest : Text) → strip_prefix key (key ++ rest) ≡ some rest
unfolding strip_prefix
strip_prefix_lem [] rest = refl
strip_prefix_lem (k ∷ key) rest = ground (arith, strip_prefix_lem key rest)

after_first_lem :
    (pre rest : Text)
    → Free time_key pre (time_key ++ rest)
    → after_first time_key (pre ++ (time_key ++ rest)) ≡ some rest
unfolding after_first
after_first_lem [] rest free = rw (strip_prefix_lem time_key rest) refl
after_first_lem (c ∷ pre) rest (here, later) =
    rw (after_first, here) (after_first_lem pre rest later)

leading_digits_lem :
    (digits tail : Text)
    → AllDigits digits
    → StartsPlain tail
    → leading_digits (digits ++ tail) ≡ digits
unfolding leading_digits
leading_digits_lem [] [] all plain = refl
leading_digits_lem [] (c ∷ tail) all plain = rw (plain) refl
leading_digits_lem (c ∷ digits) tail (digit, all) plain =
    rw (digit) (ap (λ t. c ∷ t) (leading_digits_lem digits tail all plain))

digits_onto-AllDigits :
    (fuel n : ℕ) (acc : Text) → AllDigits acc → AllDigits (digits_onto fuel n acc)
unfolding digits_onto
digits_onto-AllDigits zero n acc all = all
digits_onto-AllDigits (suc fuel) n acc all =
    if_cases AllDigits (ltb n 10) (λ small. (ground arith, all))
      (λ large. digits_onto-AllDigits fuel (n / 10) ((n % 10 + 48) ∷ acc) (ground arith, all))

length-digits_onto : (fuel n : ℕ) (acc : Text) → length acc ≤ length (digits_onto fuel n acc)
unfolding digits_onto
length-digits_onto zero n acc = omega arith
length-digits_onto (suc fuel) n acc =
    if_cases (λ (t : Text). length acc ≤ length t) (ltb n 10) (λ small. omega arith)
      (λ large. let more = length-digits_onto fuel (n / 10) ((n % 10 + 48) ∷ acc) in omega arith)

length-digits_onto-suc : (n : ℕ) → 1 ≤ length (digits_onto (suc n) n [])
unfolding digits_onto
length-digits_onto-suc n =
    if_cases (λ (t : Text). 1 ≤ length t) (ltb n 10) (λ small. omega arith)
      (λ large. length-digits_onto n (n / 10) ((n % 10 + 48) ∷ []))

number_onto-digits_onto :
    (fuel n : ℕ) (acc : Text)
    → n < fuel
    → number_onto 0 (digits_onto fuel n acc) ≡ number_onto n acc
unfolding digits_onto number_onto
number_onto-digits_onto zero n acc h = ground arith
number_onto-digits_onto (suc fuel) n acc h =
    if_cases (λ (t : Text). number_onto 0 t ≡ number_onto n acc) (ltb n 10)
      (λ small.
        let same : 0 * 10 + (n + 48 - 48) ≡ n = omega arith in ap (λ m. number_onto m acc) same)
      (λ large.
        let big : 10 ≤ n = ground arith in
        let same : n / 10 * 10 + (n % 10 + 48 - 48) ≡ n = omega arith in
        number_onto-digits_onto fuel (n / 10) ((n % 10 + 48) ∷ acc) (omega arith)
        ∙ ap (λ m. number_onto m acc) same)

parse_u64_lem :
    (n : ℕ) (text : Text)
    → 1 ≤ length text
    → number_onto 0 text ≡ n
    → n < 2 ^ 64
    → parse_u64 text ≡ some n
unfolding parse_u64
parse_u64_lem n [] long is small = ground arith
parse_u64_lem n (c ∷ text) long is small = rw (is) (ground arith)

-- A time below 2 ^ 64 that is printed behind the key of the time is read back, where the key does
-- not begin before that and what follows the number does not begin with a digit.
pub block_time_ms-decimal :
    (pre tail : Text) (n : ℕ)
    → n < 2 ^ 64
    → Free time_key pre (time_key ++ (decimal n ++ tail))
    → StartsPlain tail
    → block_time_ms (pre ++ (time_key ++ (decimal n ++ tail))) ≡ some n
unfolding block_time_ms decimal
block_time_ms-decimal pre tail n small free plain =
    rw
      (
        block_time_ms,
        after_first_lem pre (decimal n ++ tail) free,
        leading_digits_lem (decimal n) tail (digits_onto-AllDigits (suc n) n [] tt) plain,
      )
      (parse_u64_lem n (decimal n) (length-digits_onto-suc n)
        (number_onto-digits_onto (suc n) n [] (omega arith)) small)
