-- ===== src/LoadTest/Subs.antt =====
-- `parse_sub`: the key of a command-line argument.
use hypeha.Base.{ℕ, ◌≡◌, Option, none, some, arith, Text, ite, to_ascii_lowercase_idem}
use hypeha.SubKey.{SubKey, normalized, fold_levels}
use hypeha.LoadTest.{parse_sub, key_of_channel, split_once, levels_of}

abbrev pub IsNormal : Option SubKey → Type 0
IsNormal none = Unit {0}
IsNormal (some key) = normalized key ≡ key

ite-IsNormal :
    {P : Type 0} (d : Dec P) (a b : Option SubKey) → IsNormal a → IsNormal b → IsNormal (ite d a b)
ite-IsNormal (yes h) a b p q = p
ite-IsNormal (no h) a b p q = q

folded : (levels : ℕ) → fold_levels (levels_of levels) ≡ levels_of levels
folded levels = ground arith

key-IsNormal : (channel key : Text) (levels : ℕ) → IsNormal (key_of_channel channel key levels)
unfolding key_of_channel normalized
key-IsNormal channel key levels = ground (arith, folded levels, to_ascii_lowercase_idem key)

split-IsNormal :
    (split : Option (Text × Text)) (levels : ℕ)
    → let key : Option SubKey = elim split [
      | none ↦ none
      | some (channel, key) ↦ key_of_channel channel key levels
    ] in
      IsNormal key
split-IsNormal none levels = tt
split-IsNormal (some (channel, key)) levels = key-IsNormal channel key levels

-- A key that the load test asks for is in the one spelling that the proxy keeps it under.
parse_sub-IsNormal : (spec : Text) (levels : ℕ) → IsNormal (parse_sub spec levels)
unfolding parse_sub
parse_sub-IsNormal spec levels = split-IsNormal (split_once b':' spec) levels
