-- ===== src/Tests/Sources.antt =====
-- The sources: their frames, their statistics and the order in which they are asked.
use hypeha.Base.{
  Bool, ◌==◌, ◌*◌, ◌++◌, decimal, ◌≡◌, refl, ◌⊎◌, List, [], ◌∷◌, Option, some, Text, codes, arith,
}
use hypeha.SubKey.{normalized}
use hypeha.Stats.Windows.{pass_quiet, pass_window, idle_for-pass_quiet}
use hypeha.Stats.{window, idle_for, default_stats, count_from_future, count_too_old}
use hypeha.Entry.{Seq}
use hypeha.Hub.{AppState, Source, with_source}
use hypeha.Hub.Update.{on_update}
use hypeha.Upstream.Printed.{block_time_ms-decimal}
use hypeha.Upstream.{time_key, strip_prefix, Frame, Clock, route, handle_text, block_time_ms}
use hypeha.Upstream.Gates.{NotAhead, NotOld, handle_text_gates}
use hypeha.Upstream.Fetch.{Ranked}
use hypeha.Upstream.Routing.{RoutesTo, Echoes, route-Echoes}
use hypeha.Tests.Data.{coin, top, Queue, two_at_most, hub, live_source, dead_source}

abbrev quote : Frame
quote = Frame.bbo (record { coin = coin; time = 8_000 })

route-Echoes_example : RoutesTo (normalized top) (route quote)
route-Echoes_example = route-Echoes top quote (Echoes.bbo coin 8_000)

idle_for-pass_quiet_example :
    idle_for (pass_quiet 3 (pass_window 4 default_stats)) ≡ some (window * 3)
idle_for-pass_quiet_example =
    idle_for-pass_quiet 4 3 default_stats (record { in_range = omega arith; seen = refl })
      (omega arith) (omega arith) (omega arith)

-- Every text is a quote of the time 8000, by the upstream's parser.
abbrev always_quote : Text → Option Frame
always_quote text = some quote

abbrev quote_text : Text
quote_text = codes "{\"time\":8000}"

abbrev clock : Clock
clock = record { first_ms = 2_000; second_ms = 2_000; instant = 5 }

abbrev handled : AppState Queue
handled = handle_text two_at_most always_quote 0 clock quote_text hub

handle_text_gates_example :
    (NotAhead (block_time_ms quote_text) 2_000
      × NotOld (some 1_000_000_000) (block_time_ms quote_text) 2_000
      × (handled ≡ on_update two_at_most 0 top (Seq.lead 8_000) 5 quote_text hub))
    ⊎ ((¬ NotAhead (block_time_ms quote_text) 2_000)
        × (handled ≡ with_source 0 count_from_future hub))
    ⊎ (NotAhead (block_time_ms quote_text) 2_000
        × (¬ NotOld (some 1_000_000_000) (block_time_ms quote_text) 2_000)
        × (handled ≡ with_source 0 count_too_old hub))
unfolding route normalized
handle_text_gates_example =
    handle_text_gates two_at_most always_quote 0 clock quote_text hub quote top (Seq.lead 8_000)
      refl refl

abbrev both_sources : List Source
both_sources = dead_source ∷ live_source ∷ []

abbrev is_first : Ranked → Bool
is_first r = r.id == 0

block_time_ms-decimal_example :
    block_time_ms (codes "{" ++ (time_key ++ (decimal 1_203 ++ codes "}"))) ≡ some 1_203
unfolding strip_prefix
block_time_ms-decimal_example =
    block_time_ms-decimal (codes "{") (codes "}") 1_203 (omega arith) (refl, tt) refl
