-- ===== src/Base/Bytes.antt =====
-- Rust strings as their UTF-8 bytes, with what the code uses of `str`: literals, ASCII case,
-- the char boundary of a slice, and a number printed in decimal.
use Prim.Native.Nat.{ℕ, zero, suc, ◌+◌, ◌/◌, ◌%◌}
use Prim.Native.Char.{code}
use Prim.Native.String.{String}
use mathlib.Core.Path.{◌≡◌, refl}
use mathlib.Core.Bool.{Bool, false, not, ◌&&◌, ◌||◌}
use mathlib.Core.List.{List, [], ◌∷◌, map}
use mathlib.Core.Option.{Option, none, some}
use native.Mathlib.Omega.{arith}
use hypeha.Base.Tests.{ltb, leb, ◌==◌, if◌then◌else◌}
use hypeha.Base.Lists.{length, take, drop, get_elem?}

abbrev pub Text : Type 0
Text = List ℕ

-- The bytes of an ASCII literal.
abbrev pub codes : String → Text
codes String.[] = []
codes (String.◌∷◌ c s) = code c ∷ codes s

unfoldable pub byte_to_lower : ℕ → ℕ
byte_to_lower c = if leb 65 c && leb c 90 then c + 32 else c

abbrev pub to_ascii_lowercase : Text → Text
to_ascii_lowercase = map byte_to_lower

pub byte_to_lower_idem : (c : ℕ) → byte_to_lower (byte_to_lower c) ≡ byte_to_lower c
unfolding byte_to_lower
byte_to_lower_idem c = ground arith

pub to_ascii_lowercase_idem :
    (t : Text) → to_ascii_lowercase (to_ascii_lowercase t) ≡ to_ascii_lowercase t
to_ascii_lowercase_idem [] = refl
to_ascii_lowercase_idem (c ∷ t) = cc (byte_to_lower_idem c, to_ascii_lowercase_idem t)

-- A continuation byte of UTF-8 is 0b10xxxxxx; a slice may start or end only elsewhere.
abbrev pub is_continuation : ℕ → Bool
is_continuation b = b / 64 == 2

abbrev boundary_byte : Option ℕ → Bool
boundary_byte none = false
boundary_byte (some b) = not (is_continuation b)

abbrev pub is_char_boundary : Text → ℕ → Bool
is_char_boundary t i = i == length t || boundary_byte (get_elem? t i)

-- `&s[..n]` and `&s[n..]`; `none` is the panic of a slice off a char boundary.
abbrev pub slice_to : Text → ℕ → Option Text
slice_to t n = if is_char_boundary t n then some (take n t) else none

abbrev pub slice_from : Text → ℕ → Option Text
slice_from t n = if is_char_boundary t n then some (drop n t) else none

-- The decimal digits of a number in front of `acc`, by as many rounds as `fuel`.
unfoldable pub digits_onto : ℕ → ℕ → Text → Text
digits_onto zero n acc = acc
digits_onto (suc fuel) n acc =
    let rest = digits_onto fuel (n / 10) ((n % 10 + 48) ∷ acc) in
    if ltb n 10 then (n + 48) ∷ acc else rest

-- `n.to_string()`: a number has at most as many digits as its size, so the fuel suffices.
unfoldable pub decimal : ℕ → Text
unfolding digits_onto
decimal n = digits_onto (suc n) n []

decimal_example : decimal 1203 ≡ codes "1203"
unfolding decimal
decimal_example = refl
