-- ===== src/Base/Bits.antt =====
-- The binary digits of a number, and what Rust's `&`, `|` and `!` on a u64 do to each of them.
use Prim.Native.Nat.{
  ℕ, zero, suc, ◌+◌, ◌-◌, ◌*◌, ◌/◌, ◌%◌, ◌^◌, ◌≤◌, ◌<◌, min, max, bit_and, bit_or, bit_xor, digits,
  differ, bit_and-bitwise, bit_or-bitwise, bit_xor-bitwise,
}
use mathlib.Core.Path.{◌≡◌, refl, ◌∙◌, ap}
use mathlib.Core.Logic.{◌≢◌}
use native.Mathlib.Omega.{arith}
use native.Mathlib.Nat.{pow-suc}
use hypeha.Base.Tests.{◌==◌, if◌then◌else◌}

pub bit : ℕ → ℕ → ℕ
bit m zero = m % 2
bit m (suc i) = bit (m / 2) i

pub bit_zero : (i : ℕ) → bit 0 i ≡ 0
unfolding bit
bit_zero zero = refl
bit_zero (suc i) = bit_zero i

pub bit_lt : (m i : ℕ) → bit m i < 2
unfolding bit
bit_lt m zero = omega arith
bit_lt m (suc i) = bit_lt (m / 2) i

-- A digit of a digit by digit operation is the operation on the digits.
module _ (z : ℕ → ℕ) (f : ℕ → ℕ → ℕ) (f_small : (x y : ℕ) → x < 2 → y < 2 → f x y < 2)
    (z_digits : (b i : ℕ) → bit (z b) i ≡ f 0 (bit b i)) where
  bit-digits : (n a b i : ℕ) → a ≤ n → bit (digits z f n a b) i ≡ f (bit a i) (bit b i)
  unfolding bit
  bit-digits zero zero b i h = rw bit_zero (z_digits b i)
  bit-digits zero (suc a) b i h = absurd (omega arith)
  bit-digits (suc n) zero b i h = rw bit_zero (z_digits b i)
  bit-digits (suc n) (suc a) b zero h =
      omega (arith, f_small (suc a % 2) (b % 2) (omega arith) (omega arith))
  bit-digits (suc n) (suc a) b (suc i) h =
      let low : f (suc a % 2) (b % 2) < 2 = f_small _ _ (omega arith) (omega arith) in
      let rest : ℕ = digits z f n (suc a / 2) (b / 2) in
      let shifted : (rest * 2 + f (suc a % 2) (b % 2)) / 2 ≡ rest = omega arith in
      ap (λ t. bit t i) shifted ∙ bit-digits n (suc a / 2) (b / 2) i (omega arith)

pub bit-bit_and : (a b i : ℕ) → bit (bit_and a b) i ≡ min (bit a i) (bit b i)
bit-bit_and a b i =
    ap (λ t. bit t i) (bit_and-bitwise a b)
    ∙ bit-digits (λ y. 0) min (λ x y p q. omega arith) (λ y j. rw bit_zero (omega arith)) a a b i
        (omega arith)

pub bit-bit_or : (a b i : ℕ) → bit (bit_or a b) i ≡ max (bit a i) (bit b i)
bit-bit_or a b i =
    ap (λ t. bit t i) (bit_or-bitwise a b)
    ∙ bit-digits (λ y. y) max (λ x y p q. omega arith) (λ y j. omega arith) a a b i (omega arith)

differ_small : (x y : ℕ) → x < 2 → y < 2 → differ x y < 2
differ_small zero y p q = q
differ_small (suc x) zero p q = p
differ_small (suc x) (suc y) p q = differ_small x y (omega arith) (omega arith)

bit-bit_xor : (a b i : ℕ) → bit (bit_xor a b) i ≡ differ (bit a i) (bit b i)
bit-bit_xor a b i =
    ap (λ t. bit t i) (bit_xor-bitwise a b)
    ∙ bit-digits (λ y. y) differ differ_small (λ y j. refl) a a b i (omega arith)

pub bit-pow : (k i : ℕ) → bit (2 ^ k) i ≡ (if k == i then 1 else 0)
unfolding bit
bit-pow zero zero = refl
bit-pow zero (suc i) = bit_zero i ∙ ground arith
bit-pow (suc k) zero = ground (arith, pow-suc 2 k)
bit-pow (suc k) (suc i) =
    ap (λ t. bit t i) (omega (arith, pow-suc 2 k)) ∙ bit-pow k i ∙ ground arith

pow_pos : (w : ℕ) → 0 < 2 ^ w
pow_pos zero = omega arith
pow_pos (suc w) = omega (arith, pow-suc 2 w, pow_pos w)

-- All of the low w digits of 2 ^ w - 1 are ones.
bit_ones : (w i : ℕ) → i < w → bit (2 ^ w - 1) i ≡ 1
unfolding bit
bit_ones zero i h = absurd (omega arith)
bit_ones (suc w) zero h = omega (arith, pow-suc 2 w, pow_pos w)
bit_ones (suc w) (suc i) h =
    ap (λ t. bit t i) (omega (arith, pow-suc 2 w, pow_pos w)) ∙ bit_ones w i (omega arith)

-- `!x` on a u64.
abbrev pub not_u64 : ℕ → ℕ
not_u64 x = bit_xor x (2 ^ 64 - 1)

differ_one : (x : ℕ) → x < 2 → differ x 1 ≡ 1 - x
differ_one zero h = refl
differ_one (suc zero) h = refl
differ_one (suc (suc x)) h = absurd (omega arith)

pub bit-not_u64 : (x i : ℕ) → i < 64 → bit (not_u64 x) i ≡ 1 - bit x i
bit-not_u64 x i h =
    bit-bit_xor x (2 ^ 64 - 1) i
    ∙ ap (differ (bit x i)) (bit_ones 64 i h)
    ∙ differ_one (bit x i) (bit_lt x i)

-- A number none of whose digits is one is zero.
zero_of_bits_fuel : (n x : ℕ) → x ≤ n → ((i : ℕ) → bit x i ≡ 0) → x ≡ 0
zero_of_bits_fuel zero x h all = omega arith
zero_of_bits_fuel (suc n) x h all =
    let low : x % 2 ≡ 0 = unfold bit in all 0 in
    let half : x / 2 ≡ 0 =
      zero_of_bits_fuel n (x / 2) (omega arith) (λ i. unfold bit in all (suc i)) in
    omega arith

pub zero_of_bits : (x : ℕ) → ((i : ℕ) → bit x i ≡ 0) → x ≡ 0
zero_of_bits x = zero_of_bits_fuel x x (omega arith)

pub bit_of_zero : (x i : ℕ) → bit x i ≢ 0 → x ≢ 0
bit_of_zero x i h e = h (ap (λ t. bit t i) e ∙ bit_zero i)
