-- ===== src/Tests/Pages.antt =====
-- Examples of what is printed.
use hypeha.Base.{ℕ, ◌≡◌, refl, leb, true, false, List, [], ◌∷◌, ltb, codes, length, take, Text}
use hypeha.LoadTest.{KeyStats, default_key_stats}
use hypeha.LoadTest.Notes.{max_notes, all_notes, print_notes, print_notes_lem}
use hypeha.Page.Race.{Peer, AtMost, marked_peers, mark_peers, mark_green, mark_lime, row_class}
use hypeha.Page.Leads.{green_row-leads}

abbrev racers : List (Peer ℕ)
racers =
    record { streaming = false; leads = 9; avg_lag_ms = 1; lag_n = 50; bad_days = 0 }
    ∷ record { streaming = true; leads = 3; avg_lag_ms = 8; lag_n = 4; bad_days = 0 }
    ∷ record { streaming = true; leads = 5; avg_lag_ms = 9; lag_n = 40; bad_days = 0 }
    ∷ []

-- Of the three, the last one's row is green.
green_row-leads_example : (leb 5 0 ≡ false) × (true ≡ true) × AtMost 5 racers
unfolding marked_peers mark_peers mark_green mark_lime row_class
green_row-leads_example =
    green_row-leads ltb (leb 5) 1000 racers 2
      (record { streaming = true; leads = 5; avg_lag_ms = 9; lag_n = 40; bad_days = 0 }) refl refl

abbrev noted : List (Text × KeyStats)
noted =
    (
      codes "bbo:BTC",
      record default_key_stats {
        stalls = (5, 9) ∷ (20, 4) ∷ (40, 3) ∷ [];
        violations = codes "down" ∷ [];
      },
    )
    ∷ []

print_notes_lem_example :
    let shown = take max_notes (all_notes noted) in
    print_notes noted (0, []) ≡ (length shown, shown)
print_notes_lem_example = print_notes_lem noted
