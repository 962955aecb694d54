-- ===== src/LoadTest/Args.antt =====
-- What the load test is asked for, from src/bin/loadtest.rs: `Args`, and the first part of `main`,
-- which collects the subscriptions. Reading a file is a parameter. The arguments of floating point
-- are left out.
use hypeha.Base.{
  ℕ, Bool, false, not, ◌&&◌, ◌||◌, List, [], ◌∷◌, ◌++◌, Option, none, some, leb, ◌==◌,
  if◌then◌else◌, is_empty, Text, is_continuation,
}
use hypeha.SubKey.{SubKey}
use hypeha.LoadTest.{parse_sub}

pub record Args : Type 0 where
  pub url : Text
  pub channel : Text
  pub coins : List Text
  pub coins_file : Option Text
  pub subs : List Text
  pub compare : List Text
  pub noise_floor : Bool
  pub connections : ℕ
  pub levels : ℕ
  pub token : Option Text

-- Why the program ends before it starts.
pub data Bail : Type 0 where
  unreadable : Text → Bail
  unknown_channel : Text → Bail
  bad_subscription : Text → Bail
  nothing_to_do : Bail
  too_many_streams : ℕ → Bail

pub data Result (A : Type 0) : Type 0 where
  ok : A → Result A
  err : Bail → Result A

-- The first line, and the text behind it if a line feed ended it.
unfoldable pub lines_from : Text → Text × List Text
lines_from [] = ([], [])
lines_from (c ∷ t) =
    let (line, rest) = lines_from t in
    if c == b'\n' then ([], if is_empty t then [] else line ∷ rest) else (c ∷ line, rest)

-- `text.lines()`; a carriage return before the line feed is left to `trim`.
unfoldable pub lines : Text → List Text
lines [] = []
lines (c ∷ t) = let (line, rest) = lines_from (c ∷ t) in line ∷ rest

-- The characters of a text, each as its bytes.
unfoldable pub chars_from : Text → Text × List Text
chars_from [] = ([], [])
chars_from (c ∷ t) =
    let (tail, rest) = chars_from t in
    if is_continuation c then (c ∷ tail, rest) else ([], (c ∷ tail) ∷ rest)

abbrev between : ℕ → ℕ → ℕ → Bool
between low high c = leb low c && leb c high

-- Unicode's `White_Space`.
unfoldable pub is_whitespace : Text → Bool
is_whitespace [] = false
is_whitespace (c ∷ []) = between 9 13 c || c == 32
is_whitespace (c ∷ d ∷ []) = c == 0xC2 && (d == 0x85 || d == 0xA0)
is_whitespace (c ∷ d ∷ e ∷ []) =
    (c == 0xE1 && d == 0x9A && e == 0x80)
    || (c == 0xE2 && d == 0x80 && (between 0x80 0x8A e || e == 0xA8 || e == 0xA9 || e == 0xAF))
    || (c == 0xE2 && d == 0x81 && e == 0x9F)
    || (c == 0xE3 && d == 0x80 && e == 0x80)
is_whitespace (c ∷ d ∷ e ∷ f ∷ t) = false

unfoldable pub trim_left : List Text → List Text
trim_left [] = []
trim_left (c ∷ cs) = let rest = trim_left cs in if is_whitespace c then rest else c ∷ cs

unfoldable pub trim_right : List Text → List Text
trim_right [] = []
trim_right (c ∷ cs) =
    let rest = trim_right cs in if is_whitespace c && is_empty rest then [] else c ∷ rest

unfoldable pub concat {ℓ} : {A : Type ℓ} → List (List A) → List A
concat [] = []
concat (xs ∷ xss) = xs ++ concat xss

unfoldable pub trim : Text → Text
trim t = concat (trim_right (trim_left (chars_from t).1))

abbrev starts_with : ℕ → Text → Bool
starts_with c [] = false
starts_with c (d ∷ t) = d == c

-- The coins of a file: its lines, without those that are empty or comments.
unfoldable pub coins_of : List Text → List Text
coins_of [] = []
coins_of (line ∷ rest) =
    let others = coins_of rest in
    let c = trim line in if not (is_empty c) && not (starts_with b'#' c) then c ∷ others else others

unfoldable pub parse_each :
    (Text → Option SubKey) → (Text → Bail) → List Text → Result (List SubKey)
parse_each parse refuse [] = Result.ok []
parse_each parse refuse (spec ∷ specs) =
    let rest = parse_each parse refuse specs in
    elim (parse spec) [
      | none ↦ Result.err (refuse spec)
      | some k ↦ elim rest [ Result.ok ks ↦ Result.ok (k ∷ ks) | Result.err e ↦ Result.err e ]
    ]

-- `read_to_string`; `none` is its error.
module _ (read_to_string : Text → Option Text) where
  unfoldable pub all_coins : Args → Result (List Text)
  all_coins args = elim args.coins_file [
    | none ↦ Result.ok args.coins
    | some path ↦ elim (read_to_string path) [
      | none ↦ Result.err (Bail.unreadable path)
      | some text ↦ Result.ok (args.coins ++ coins_of (lines text))
    ]
  ]

  -- The subscriptions: the channel of the arguments for each coin, and then those written out.
  unfoldable pub all_subs : Args → Result (List SubKey)
  all_subs args = elim (all_coins args) [
    | Result.err e ↦ Result.err e
    | Result.ok coins ↦
        elim (parse_each (λ coin. parse_sub (args.channel ++ (b':' ∷ coin)) args.levels)
          (λ coin. Bail.unknown_channel args.channel) coins) [
            | Result.err e ↦ Result.err e
            | Result.ok ks ↦
                elim (parse_each (λ spec. parse_sub spec args.levels) Bail.bad_subscription
                  args.subs) [
                    | Result.err e ↦ Result.err e
                    | Result.ok more ↦ Result.ok (ks ++ more)
                  ]
          ]
  ]
