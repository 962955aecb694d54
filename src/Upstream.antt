-- ===== src/Upstream.antt =====
-- What a source sends and where it goes, from src/upstream.rs: `Frame`, `route`,
-- `block_time_ms` and `handle_text`. `serde_json` is a parameter: `parse` gives the frame of a
-- text, if it is one. The two readings of the wall clock and that of the monotonic clock are
-- arguments.
pub mod Fetch
pub mod Connection
pub mod Spoken
pub mod Wire
pub mod Settled
pub mod Twice
pub mod Printed
pub mod Routing
pub mod Gates
pub mod Backoff
pub mod Order
use hypeha.Base.{
  ℕ, suc, ◌+◌, ◌-◌, ◌*◌, ◌/◌, ◌%◌, ◌^◌, Bool, true, false, not, ◌&&◌, List, [], ◌∷◌, Option, none,
  some, ltb, leb, ◌==◌, if◌then◌else◌, max, Text, codes, to_ascii_lowercase,
}
use hypeha.SubKey.{SubKey, normalized}
use hypeha.Stats.{millis, secs, count_too_old, count_from_future}
use hypeha.Entry.{Seq}
use hypeha.Hub.{AppState, with_source}
use hypeha.Hub.Update.{on_update}

abbrev pub future_limit : ℕ
future_limit = secs 5

-- `d.as_millis() as u64`
abbrev pub as_millis : ℕ → ℕ
as_millis d = d / 1_000_000 % 2 ^ 64

abbrev pub is_ascii_digit : ℕ → Bool
is_ascii_digit c = leb b'0' c && leb c b'9'

-- What follows a prefix, if it is one.
unfoldable pub strip_prefix : Text → Text → Option Text
strip_prefix [] text = some text
strip_prefix (k ∷ key) [] = none
strip_prefix (k ∷ key) (c ∷ text) =
    let rest = strip_prefix key text in if k == c then rest else none

-- What follows the first occurrence of a key: `text.find(KEY)`, and the slice behind it.
unfoldable pub after_first : Text → Text → Option Text
unfolding strip_prefix
after_first key [] = strip_prefix key []
after_first key (c ∷ text) =
    let later = after_first key text in
    elim (strip_prefix key (c ∷ text)) [ none ↦ later | some rest ↦ some rest ]

unfoldable pub leading_digits : Text → Text
leading_digits [] = []
leading_digits (c ∷ text) =
    let rest = leading_digits text in if is_ascii_digit c then c ∷ rest else []

unfoldable pub number_onto : ℕ → Text → ℕ
number_onto n [] = n
number_onto n (c ∷ text) = number_onto (n * 10 + (c - 48)) text

-- `parse::<u64>().ok()` on ASCII digits: nothing for none at all, nor past the range.
unfoldable pub parse_u64 : Text → Option ℕ
unfolding number_onto
parse_u64 [] = none
parse_u64 (c ∷ text) = let n = number_onto 0 (c ∷ text) in if ltb n (2 ^ 64) then some n else none

abbrev pub time_key : Text
time_key = codes "\"time\":"

unfoldable pub block_time_ms : Text → Option ℕ
unfolding after_first leading_digits parse_u64
block_time_ms text = elim (after_first time_key text) [
  | none ↦ none
  | some rest ↦ parse_u64 (leading_digits rest)
]

pub record CoinTime : Type 0 where
  pub coin : Text
  pub time : ℕ

pub record L2Head : Type 0 where
  pub coin : Text
  pub time : ℕ
  pub n_sig_figs : Option ℕ
  pub n_levels : Option ℕ
  pub mantissa : Option ℕ

pub record TradeHead : Type 0 where
  pub coin : Text
  pub tid : ℕ

pub record OrderUpdateHead : Type 0 where
  pub user : Text
  pub height : ℕ

pub record CoinOnly : Type 0 where
  pub coin : Text

pub record L2DiffHead : Type 0 where
  pub coin : Text
  pub height : ℕ
  pub n_sig_figs : Option ℕ
  pub n_levels : Option ℕ
  pub mantissa : Option ℕ

pub data L2DiffFrame : Type 0 where
  snapshot updates : L2DiffHead → L2DiffFrame

pub record StatusHead : Type 0 where
  pub order : CoinOnly

pub record L4Updates : Type 0 where
  pub height : ℕ
  pub order_statuses : List StatusHead
  pub book_diffs : List CoinOnly

pub data L4Frame : Type 0 where
  snapshot : Text → ℕ → L4Frame
  updates : L4Updates → L4Frame

pub data Frame : Type 0 where
  bbo : CoinTime → Frame
  l2_book : L2Head → Frame
  trades : List TradeHead → Frame
  order_updates : List OrderUpdateHead → Frame
  l4_book : L4Frame → Frame
  l2_diff : L2DiffFrame → Frame
  error : Text → Frame

-- `L2DiffHead::key`
abbrev pub diff_key : L2DiffHead → SubKey
diff_key d = SubKey.l2_diff d.coin d.n_sig_figs d.n_levels d.mantissa

unfoldable pub max_tid : ℕ → List TradeHead → ℕ
max_tid m [] = m
max_tid m (t ∷ ts) = max_tid (max m t.tid) ts

unfoldable pub max_height : ℕ → List OrderUpdateHead → ℕ
max_height m [] = m
max_height m (u ∷ us) = max_height (max m u.height) us

-- The coin of `Updates`: that of the first status, else of the first diff.
abbrev pub updates_coin : List StatusHead → List CoinOnly → Option Text
updates_coin (s ∷ ss) ds = some s.order.coin
updates_coin [] (d ∷ ds) = some d.coin
updates_coin [] [] = none

unfoldable pub route_raw : Frame → Option (SubKey × Seq)
unfolding max_tid max_height
route_raw (Frame.bbo d) = some (SubKey.bbo d.coin, Seq.lead d.time)
route_raw (Frame.l2_book d) =
    some (SubKey.l2_book d.coin d.n_sig_figs d.n_levels d.mantissa, Seq.sticky d.time)
route_raw (Frame.trades []) = none
route_raw (Frame.trades (t ∷ ts)) = some (SubKey.trades t.coin, Seq.point (max_tid t.tid ts))
route_raw (Frame.order_updates []) = none
route_raw (Frame.order_updates (u ∷ us)) =
    some (SubKey.order_updates (to_ascii_lowercase u.user), Seq.block (max_height u.height us))
route_raw (Frame.l4_book (L4Frame.snapshot coin height)) =
    some (SubKey.l4_book coin, Seq.snapshot height)
route_raw (Frame.l4_book (L4Frame.updates u)) = elim (updates_coin u.order_statuses u.book_diffs) [
  | none ↦ none
  | some coin ↦ some (SubKey.l4_book coin, Seq.block u.height)
]
route_raw (Frame.l2_diff (L2DiffFrame.snapshot d)) = some (diff_key d, Seq.snapshot d.height)
route_raw (Frame.l2_diff (L2DiffFrame.updates d)) = some (diff_key d, Seq.sticky d.height)
route_raw (Frame.error msg) = none

unfoldable pub route : Frame → Option (SubKey × Seq)
unfolding route_raw
route frame = elim (route_raw frame) [ none ↦ none | some (key, seq) ↦ some (normalized key, seq) ]

-- Stamped further ahead of the clock than the limit.
abbrev pub is_from_future : ℕ → ℕ → Bool
is_from_future t now = ltb now t && ltb (as_millis future_limit) (t - now)

-- Older than the limit by the clock.
abbrev pub is_too_old : ℕ → ℕ → ℕ → Bool
is_too_old limit t now = ltb t now && ltb (as_millis limit) (now - t)

abbrev pub future_time : Option ℕ → ℕ → Bool
future_time none now = false
future_time (some t) now = is_from_future t now

abbrev pub old_time : Option ℕ → Option ℕ → ℕ → Bool
old_time none t now = false
old_time (some limit) none now = false
old_time (some limit) (some t) now = is_too_old limit t now

-- The clock as `handle_text` reads it: the wall clock for each of its two checks, in
-- milliseconds, and the monotonic clock for `on_update`, in nanoseconds.
pub record Clock : Type 0 where
  pub first_ms : ℕ
  pub second_ms : ℕ
  pub instant : ℕ

module _ {Q : Type 0} (try_send : Q → Text → Option Q) (parse : Text → Option Frame) where
  -- A frame that routes: refused by the clock, or arbitrated.
  unfoldable pub admit : ℕ → Clock → Text → SubKey × Seq → AppState Q → AppState Q
  admit src clock text (key, seq) st =
      if future_time (block_time_ms text) clock.first_ms
      then with_source src count_from_future st
      else if old_time st.max_age (block_time_ms text) clock.second_ms
      then with_source src count_too_old st
      else on_update try_send src key seq clock.instant text st

  unfoldable pub handle_text : ℕ → Clock → Text → AppState Q → AppState Q
  unfolding admit
  handle_text src clock text st = elim (parse text) [
    | none ↦ st
    | some frame ↦ elim (route frame) [ none ↦ st | some routed ↦ admit src clock text routed st ]
  ]
