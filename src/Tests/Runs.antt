-- ===== src/Tests/Runs.antt =====
-- Examples of a run of the load test, from its arguments to its end.
use hypeha.Base.{
  ℕ, ◌≡◌, refl, ◌≤◌, true, List, [], ◌∷◌, ◌++◌, none, some, is_empty, codes, arith, Text, replicate,
  length, if_pos,
}
use hypeha.Base.KeyMap.{put}
use hypeha.SubKey.{SubKey, label}
use hypeha.LoadTest.{is_text, default_key_stats, KeyStats, parse_sub, key_of_channel, split_once}
use hypeha.LoadTest.Args.{Args, Bail, Result, all_coins, all_subs, parse_each}
use hypeha.LoadTest.Arrivals.{Stream}
use hypeha.LoadTest.Plan.{lay_out, set_out, set_out_for, index_labels, used_slots_of, noise_slot_of}
use hypeha.LoadTest.Planned.{InRange, set_out-InRange}
use hypeha.LoadTest.Outcome.{close_all}
use hypeha.LoadTest.Rows.{all_ages, rows, standings, rows_without_proxy}
use hypeha.Tests.Data.{coin}

abbrev one_coin : Args
one_coin = record {
  url = codes "ws://p";
  channel = codes "bbo";
  coins = coin ∷ [];
  coins_file = none;
  subs = [];
  compare = codes "ws://a" ∷ [];
  noise_floor = true;
  connections = 2;
  levels = 20;
  token = none;
}

abbrev asked_for : List SubKey
asked_for = SubKey.bbo coin ∷ []

abbrev places : List (Text × ℕ)
places = (codes "bbo:BTC", 0) ∷ []

bbo_channel :
    (key : Text) (levels : ℕ) → key_of_channel (codes "bbo") key levels ≡ some (SubKey.bbo key)
unfolding key_of_channel
bbo_channel key levels = if_pos (is_text (codes "bbo") (codes "bbo")) refl _ _

parsed : parse_sub (codes "bbo:BTC") 20 ≡ some (SubKey.bbo coin)
unfolding parse_sub split_once
parsed = bbo_channel coin 20

one_parsed :
    parse_each
      (λ c. parse_sub (codes "bbo" ++ (b':' ∷ c)) 20)
      (λ c. Bail.unknown_channel (codes "bbo"))
      (coin ∷ [])
    ≡ Result.ok asked_for
unfolding parse_each
one_parsed = rw (parsed, parse_each) refl

collected : all_subs (λ path. none) one_coin ≡ Result.ok asked_for
unfolding all_subs all_coins parse_each
collected = rw (one_parsed, all_subs) refl

laid_out :
    set_out_for 30 one_coin asked_for ≡ some (Result.ok (lay_out 30 one_coin asked_for places))
unfolding set_out_for index_labels used_slots_of noise_slot_of label put
laid_out = refl

sets_out :
    set_out 30 (λ path. none) one_coin ≡ some (Result.ok (lay_out 30 one_coin asked_for places))
unfolding set_out
sets_out = rw (collected, set_out) laid_out

set_out-InRange_example : InRange (lay_out 30 one_coin asked_for places)
set_out-InRange_example =
    set_out-InRange 30 (λ path. none) one_coin (lay_out 30 one_coin asked_for places) sets_out

abbrev with_ages : List ℕ → Stream
with_ages ages = record {
  keys =
      (
        codes "bbo:BTC",
        record default_key_stats { ages_ms = ages; last_at = some 10; stalls = (5, 9) ∷ [] },
      )
      ∷ [];
  rejected = 0;
  age_by_sec = (40, 2) ∷ [];
  busy_ns = 0;
  ended = [];
}

enough_ages : 100 ≤ length (all_ages (with_ages (replicate 100 7)).keys)
unfolding all_ages
enough_ages = omega arith

silent_ages : is_empty (all_ages (with_ages []).keys) ≡ true
unfolding all_ages
silent_ages = refl

rows_without_proxy_example :
    standings (
      rows
        (λ n. 0)
        (λ n. 0)
        (λ n. 0)
        ((codes "wsarb", with_ages [])
          ∷ (codes "a", with_ages (replicate 100 7))
          ∷ (codes "b", with_ages (replicate 100 8))
          ∷ []))
    ≡ standings (
        rows
          (λ n. 0)
          (λ n. 0)
          (λ n. 0)
          ((codes "a", with_ages (replicate 100 7))
            ∷ (codes "b", with_ages (replicate 100 8))
            ∷ []))
rows_without_proxy_example =
    rows_without_proxy (λ n. 0) (λ n. 0) (λ n. 0) (codes "wsarb") (codes "a") (with_ages [])
      (with_ages (replicate 100 7)) ((codes "b", with_ages (replicate 100 8)) ∷ []) silent_ages
      enough_ages

abbrev node_streams : List Stream
node_streams = with_ages [] ∷ []

abbrev closed : Stream
closed = close_all 20 0 (with_ages [])

abbrev label_of_coin : Text
label_of_coin = codes "bbo:BTC"

abbrev stalled : KeyStats
stalled = record default_key_stats { ages_ms = []; last_at = some 10; stalls = (5, 9) ∷ [] }
