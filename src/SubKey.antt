-- ===== src/SubKey.antt =====
-- Subscription keys: `SubKey`, its methods, and `SubRequest`, from src/state.rs.
-- A string is its UTF-8 bytes. `serde`'s text form of a key is not modelled: a request and a
-- frame carry the key itself.
pub mod Normal
pub mod Label
use hypeha.Base.{
  ℕ, ◌-◌, Bool, true, false, [], ◌∷◌, ◌++◌, Option, none, some, ltb, ◌==◌, if◌then◌else◌,
  ℕ_discrete, Text, codes, decimal, to_ascii_lowercase, slice_to, slice_from, length,
}

pub data SubKey : Type 0 where
  trades : Text → SubKey
  l2_book : Text → Option ℕ → Option ℕ → Option ℕ → SubKey
  l2_diff : Text → Option ℕ → Option ℕ → Option ℕ → SubKey
  l4_book : Text → SubKey
  bbo : Text → SubKey
  order_updates : Text → SubKey
  book_diffs : Text → SubKey

-- The derived `PartialEq`, `Eq` and `Hash`: keys are one if their whole contents are.
unfoldable pub SubKey-discrete : Discrete SubKey
unfolding ℕ_discrete
SubKey-discrete = hlevel ℕ_discrete

abbrev pub default_l2_levels : ℕ
default_l2_levels = 20

unfoldable pub channel : SubKey → Text
channel (trades coin) = codes "trades"
channel (l2_book coin sf n m) = codes "l2Book"
channel (l2_diff coin sf n m) = codes "l2Diff"
channel (l4_book coin) = codes "l4Book"
channel (bbo coin) = codes "bbo"
channel (order_updates user) = codes "orderUpdates"
channel (book_diffs coin) = codes "bookDiffs"

-- `n_levels.filter(|&n| n != DEFAULT_L2_LEVELS)`
abbrev pub fold_levels : Option ℕ → Option ℕ
fold_levels none = none
fold_levels (some n) = if n == default_l2_levels then none else some n

unfoldable pub normalized : SubKey → SubKey
normalized (order_updates user) = order_updates (to_ascii_lowercase user)
normalized (l2_book coin sf n m) = l2_book coin sf (fold_levels n) m
normalized (l2_diff coin sf n m) = l2_diff coin sf (fold_levels n) m
normalized other = other

unfoldable pub single_sourced : SubKey → Bool
single_sourced (l2_diff coin sf n m) = true
single_sourced (l2_book coin sf n m) = true
single_sourced other = false

unfoldable pub is_incremental : SubKey → Bool
is_incremental (l4_book coin) = true
is_incremental (l2_diff coin sf n m) = true
is_incremental other = false

-- `s.push_str(&format!("/sf{v}"))` where the parameter is there.
abbrev pub push_param : Text → Option ℕ → Text
push_param tag none = []
push_param tag (some v) = tag ++ decimal v

-- The bytes of `…`.
abbrev ellipsis : Text
ellipsis = 226 ∷ 128 ∷ 166 ∷ []

-- The short form of a user; `none` is a panic, where a slice cuts a character.
unfoldable pub short_user : Text → Option Text
short_user user =
    if ltb 10 (length user)
    then elim (slice_to user 6) [
      | none ↦ none
      | some head ↦ elim (slice_from user (length user - 4)) [
        | none ↦ none
        | some tail ↦ some (head ++ (ellipsis ++ tail))
      ]
    ]
    else some user

unfoldable pub label : SubKey → Option Text
unfolding short_user channel
label (order_updates user) = elim (short_user user) [
  | none ↦ none
  | some short ↦ some (codes "orderUpdates:" ++ short)
]
label (l2_book coin sf n m) = some (
    codes "l2Book:"
    ++ (coin
        ++ (push_param (codes "/sf") sf
            ++ (push_param (codes "/n") n ++ push_param (codes "/m") m))))
label (l2_diff coin sf n m) = some (
    codes "l2Diff:"
    ++ (coin
        ++ (push_param (codes "/sf") sf
            ++ (push_param (codes "/n") n ++ push_param (codes "/m") m))))
label (trades coin) = some (codes "trades:" ++ coin)
label (l4_book coin) = some (codes "l4Book:" ++ coin)
label (bbo coin) = some (codes "bbo:" ++ coin)
label (book_diffs coin) = some (codes "bookDiffs:" ++ coin)

-- A request to an upstream socket.
pub data SubRequest : Type 0 where
  subscribe : SubKey → SubRequest
  unsubscribe : SubKey → SubRequest
