-- ===== src/Mask.antt =====
-- The per-entry masks of sources, one bit of a u64 for each (src/state.rs, `source_bit` and the
-- `&`, `|=` and `&=` on `block_sampled` and `needs_snapshot`).
use hypeha.Base.{
  ℕ, ◌%◌, ◌^◌, ◌≡◌, ◌∙◌, Bool, true, false, not, inl, inr, bit_and, bit_or, ◌==◌, if◌then◌else◌,
  arith, Bool-cases,
}
use hypeha.Base.Bits.{
  bit, not_u64, bit_zero, bit_lt, bit-bit_and, bit-bit_or, bit-not_u64, bit-pow, zero_of_bits,
  bit_of_zero,
}

-- `1u64 << (id % 64)`
unfoldable pub source_bit : ℕ → ℕ
source_bit id = 2 ^ (id % 64)

-- `mask & bit != 0`
unfoldable pub is_marked : ℕ → ℕ → Bool
unfolding source_bit
is_marked mask id = not (bit_and mask (source_bit id) == 0)

-- `mask |= bit`
unfoldable pub mark : ℕ → ℕ → ℕ
unfolding source_bit
mark mask id = bit_or mask (source_bit id)

-- `mask &= !bit`
unfoldable pub unmark : ℕ → ℕ → ℕ
unfolding source_bit
unmark mask id = bit_and mask (not_u64 (source_bit id))

-- The sources that share a bit with a source.
abbrev pub same_bit : ℕ → ℕ → Bool
same_bit a b = a % 64 == b % 64

bit-source_bit : (id i : ℕ) → bit (source_bit id) i ≡ (if id % 64 == i then 1 else 0)
unfolding source_bit
bit-source_bit id i = bit-pow (id % 64) i

-- A mark is the digit at the source's place.
is_marked-bit : (mask id : ℕ) → is_marked mask id ≡ (bit mask (id % 64) == 1)
unfolding is_marked
is_marked-bit mask id = elim (Bool-cases (bit mask (id % 64) == 1)) [
  | inl on ↦ ground (
    arith,
    bit_of_zero (bit_and mask (source_bit id)) (id % 64),
    bit-bit_and mask (source_bit id) (id % 64),
    bit-source_bit id (id % 64),
  )
  | inr off ↦
      let clear : bit_and mask (source_bit id) ≡ 0 = zero_of_bits _ (λ i.
        bit-bit_and mask (source_bit id) i
        ∙ ground (arith, bit-source_bit id i, bit_lt mask (id % 64))) in
      rw (clear, off)
]

pub is_marked_zero : (id : ℕ) → is_marked 0 id ≡ false
is_marked_zero id = is_marked-bit 0 id ∙ rw bit_zero

-- Marking a source marks exactly the sources on its bit, and leaves the others as they were.
pub is_marked-mark :
    (mask a b : ℕ) → is_marked (mark mask a) b ≡ (if same_bit a b then true else is_marked mask b)
unfolding mark
is_marked-mark mask a b =
    rw (is_marked-bit (bit_or mask (source_bit a)) b, is_marked-bit mask b)
      (ground (
        arith,
        bit-bit_or mask (source_bit a) (b % 64),
        bit-source_bit a (b % 64),
        bit_lt mask (b % 64),
      ))

-- Taking off a source's mark takes it off exactly the sources on its bit.
pub is_marked-unmark :
    (mask a b : ℕ)
    → is_marked (unmark mask a) b ≡ (if same_bit a b then false else is_marked mask b)
unfolding unmark
is_marked-unmark mask a b =
    rw (is_marked-bit (bit_and mask (not_u64 (source_bit a))) b, is_marked-bit mask b)
      (ground (
        arith,
        bit-bit_and mask (not_u64 (source_bit a)) (b % 64),
        bit-not_u64 (source_bit a) (b % 64) (omega arith),
        bit-source_bit a (b % 64),
        bit_lt mask (b % 64),
      ))
