-- ===== src/Page/Tags.antt =====
-- How the statistics page tags a client's subscription: the table of the clients in `render_page` of
-- src/stats.rs. `none` is the panic of a label.
use hypeha.Base.{
  ℕ, ◌+◌, ◌≡◌, refl, ◌∙◌, Bool, true, false, not, [], ◌++◌, Option, none, some, if◌then◌else◌, Text,
  codes, decimal, arith, ◌||◌,
}
use hypeha.SubKey.{SubKey, label, single_sourced, is_incremental}
use hypeha.Entry.{SubEntry, Seq, arbitrate, on_sticky, is_rebuilding, is_leader}
use hypeha.Hub.{AppState, find_entry}
use hypeha.Hub.Registry.{is_parked, is_attached}
use hypeha.Hub.Members.{on_entry}
use hypeha.Hub.Loss.{lose_source_parks}
use hypeha.Hub.Recovery.{lose_source}

abbrev pub rebuilding_tag : Text
rebuilding_tag = codes " (rebuilding)"

abbrev pub node_tag : ℕ → Text
node_tag id = codes " (node" ++ (decimal (id + 1) ++ codes ")")

-- The tag of a subscription of a client on an entry.
unfoldable pub tag_of : SubKey → ℕ → SubEntry → Text
tag_of key id e =
    if is_rebuilding e id
    then rebuilding_tag
    else if not (single_sourced key)
    then []
    else elim e.block_leader [ none ↦ codes " (no source)" | some leader ↦ node_tag leader ]

unfoldable pub tagged : {Q : Type 0} → SubKey → ℕ → AppState Q → Option Text
unfolding tag_of
tagged key id st = elim (label key) [
  | none ↦ none
  | some text ↦ elim (find_entry key st) [
    | none ↦ some text
    | some e ↦ some (text ++ tag_of key id e)
  ]
]

or_comm : (a b : Bool) → (a || b) ≡ (b || a)
or_comm true true = refl
or_comm true false = refl
or_comm false true = refl
or_comm false false = refl

-- On a single-sourced key, a client that is not parked is shown the source whose frame went out last.
tag_of-arbitrate :
    (key : SubKey) (src v now id : ℕ) (e : SubEntry)
    → single_sourced key ≡ true
    → is_parked id e.pending ≡ false
    → (arbitrate key src (Seq.sticky v) now e).1.deliver ≡ true
    → tag_of key id (arbitrate key src (Seq.sticky v) now e).0 ≡ node_tag src
unfolding tag_of arbitrate on_sticky is_rebuilding
tag_of-arbitrate key src v now id e single here goes = ground (arith, single, here, goes)

-- Where an incremental key followed the lost source, everybody on it is shown to be rebuilt.
tag_of-lose_source :
    (source : ℕ) (key : SubKey) (e : SubEntry) (id : ℕ)
    → is_leader e.block_leader source ≡ true
    → is_incremental key ≡ true
    → on_entry id e ≡ true
    → tag_of key id (lose_source source key e) ≡ rebuilding_tag
unfolding tag_of is_rebuilding
tag_of-lose_source source key e id l k on =
    let parked = (lose_source_parks source key e id l k).1 in
    let rebuilt : is_rebuilding (lose_source source key e) id ≡ true =
      parked ∙ or_comm (is_parked id e.pending) (is_attached id e.subscribers) ∙ on in
    rw rebuilt refl
