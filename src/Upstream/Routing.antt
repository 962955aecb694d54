-- ===== src/Upstream/Routing.antt =====
-- `route`: the key and the ordering value of every frame.
use hypeha.Base.{
  ℕ, ◌≡◌, refl, List, [], ◌∷◌, Option, none, some, Text, ap, ◌∙◌, to_ascii_lowercase,
  to_ascii_lowercase_idem,
}
use hypeha.SubKey.{SubKey, normalized}
use hypeha.SubKey.Normal.{normalized_lem}
use hypeha.Entry.{Seq}
use hypeha.Upstream.{
  Frame, L4Frame, StatusHead, CoinOnly, L2DiffFrame, TradeHead, OrderUpdateHead, route, route_raw,
  updates_coin,
}

-- How each channel is arbitrated.
abbrev pub Suits : SubKey → Seq → Type 0
Suits (SubKey.trades coin) (Seq.point v) = Unit {0}
Suits (SubKey.bbo coin) (Seq.lead v) = Unit {0}
Suits (SubKey.l2_book coin sf n m) (Seq.sticky v) = Unit {0}
Suits (SubKey.l2_diff coin sf n m) (Seq.sticky v) = Unit {0}
Suits (SubKey.l2_diff coin sf n m) (Seq.snapshot v) = Unit {0}
Suits (SubKey.l4_book coin) (Seq.block v) = Unit {0}
Suits (SubKey.l4_book coin) (Seq.snapshot v) = Unit {0}
Suits (SubKey.order_updates user) (Seq.block v) = Unit {0}
Suits key seq = ⊥

abbrev pub RoutesWell : Option (SubKey × Seq) → Type 0
RoutesWell none = Unit {0}
RoutesWell (some (key, seq)) = Suits key seq × (normalized key ≡ key)

normalized-Suits : (key : SubKey) (seq : Seq) → Suits key seq → Suits (normalized key) seq
unfolding normalized
normalized-Suits (SubKey.trades coin) (Seq.point v) s = s
normalized-Suits (SubKey.bbo coin) (Seq.lead v) s = s
normalized-Suits (SubKey.l2_book coin sf n m) (Seq.sticky v) s = s
normalized-Suits (SubKey.l2_diff coin sf n m) (Seq.sticky v) s = s
normalized-Suits (SubKey.l2_diff coin sf n m) (Seq.snapshot v) s = s
normalized-Suits (SubKey.l4_book coin) (Seq.block v) s = s
normalized-Suits (SubKey.l4_book coin) (Seq.snapshot v) s = s
normalized-Suits (SubKey.order_updates user) (Seq.block v) s = s
normalized-Suits key seq s = absurd s

abbrev RawSuits : Option (SubKey × Seq) → Type 0
RawSuits none = Unit {0}
RawSuits (some (key, seq)) = Suits key seq

updates-RawSuits :
    (coin : Option Text) (height : ℕ)
    → let r : Option (SubKey × Seq) = elim coin [
      | none ↦ none
      | some c ↦ some (SubKey.l4_book c, Seq.block height)
    ] in
      RawSuits r
updates-RawSuits none height = tt
updates-RawSuits (some coin) height = tt

route_raw-RawSuits : (frame : Frame) → RawSuits (route_raw frame)
unfolding route_raw
route_raw-RawSuits (Frame.bbo d) = tt
route_raw-RawSuits (Frame.l2_book d) = tt
route_raw-RawSuits (Frame.trades []) = tt
route_raw-RawSuits (Frame.trades (t ∷ ts)) = tt
route_raw-RawSuits (Frame.order_updates []) = tt
route_raw-RawSuits (Frame.order_updates (u ∷ us)) = tt
route_raw-RawSuits (Frame.l4_book (L4Frame.snapshot coin height)) = tt
route_raw-RawSuits (Frame.l4_book (L4Frame.updates u)) =
    updates-RawSuits (updates_coin u.order_statuses u.book_diffs) u.height
route_raw-RawSuits (Frame.l2_diff (L2DiffFrame.snapshot d)) = tt
route_raw-RawSuits (Frame.l2_diff (L2DiffFrame.updates d)) = tt
route_raw-RawSuits (Frame.error msg) = tt

finish-RoutesWell :
    (r : Option (SubKey × Seq))
    → RawSuits r
    → let out : Option (SubKey × Seq) = elim r [
      | none ↦ none
      | some (key, seq) ↦ some (normalized key, seq)
    ] in
      RoutesWell out
finish-RoutesWell none s = tt
finish-RoutesWell (some (key, seq)) s = (normalized-Suits key seq s, (normalized_lem key).0)

-- Every frame that routes has a key in its one spelling and the ordering of its channel, and no
-- frame routes to `bookDiffs`.
route-RoutesWell : (frame : Frame) → RoutesWell (route frame)
unfolding route
route-RoutesWell frame = finish-RoutesWell (route_raw frame) (route_raw-RawSuits frame)

-- The frames that the upstream sends for a subscription, by its documented behaviour: it stamps
-- its default depth where the request leaves the depth out, it emits users in lower case, a batch
-- is of one coin or user, and a block's updates name the coin in one of two arrays.
pub data Echoes : SubKey → Frame → Type 0 where
  bbo :
      (coin : Text) (time : ℕ)
      → Echoes (SubKey.bbo coin) (Frame.bbo (record { coin = coin; time = time }))
  l2_book_default :
      (coin : Text) (time : ℕ) (sf m : Option ℕ)
      → Echoes (SubKey.l2_book coin sf none m) (
          Frame.l2_book (record {
            coin = coin;
            time = time;
            n_sig_figs = sf;
            n_levels = some 20;
            mantissa = m;
          }))
  l2_book :
      (coin : Text) (time : ℕ) (sf n m : Option ℕ)
      → Echoes (SubKey.l2_book coin sf n m) (
          Frame.l2_book
            (record { coin = coin; time = time; n_sig_figs = sf; n_levels = n; mantissa = m }))
  l2_diff_default :
      (coin : Text) (height : ℕ) (sf m : Option ℕ)
      → Echoes (SubKey.l2_diff coin sf none m) (
          Frame.l2_diff (
            L2DiffFrame.updates (record {
              coin = coin;
              height = height;
              n_sig_figs = sf;
              n_levels = some 20;
              mantissa = m;
            })))
  l2_diff :
      (coin : Text) (height : ℕ) (sf n m : Option ℕ)
      → Echoes (SubKey.l2_diff coin sf n m) (
          Frame.l2_diff (
            L2DiffFrame.updates (record {
              coin = coin;
              height = height;
              n_sig_figs = sf;
              n_levels = n;
              mantissa = m;
            })))
  l2_diff_snapshot_default :
      (coin : Text) (height : ℕ) (sf m : Option ℕ)
      → Echoes (SubKey.l2_diff coin sf none m) (
          Frame.l2_diff (
            L2DiffFrame.snapshot (record {
              coin = coin;
              height = height;
              n_sig_figs = sf;
              n_levels = some 20;
              mantissa = m;
            })))
  l2_diff_snapshot :
      (coin : Text) (height : ℕ) (sf n m : Option ℕ)
      → Echoes (SubKey.l2_diff coin sf n m) (
          Frame.l2_diff (
            L2DiffFrame.snapshot (record {
              coin = coin;
              height = height;
              n_sig_figs = sf;
              n_levels = n;
              mantissa = m;
            })))
  trades :
      (t : TradeHead) (ts : List TradeHead) → Echoes (SubKey.trades t.coin) (Frame.trades (t ∷ ts))
  order_updates :
      (user : Text) (height : ℕ) (us : List OrderUpdateHead)
      → Echoes
          (SubKey.order_updates user)
          (Frame.order_updates (record { user = to_ascii_lowercase user; height = height } ∷ us))
  l4_snapshot :
      (coin : Text) (height : ℕ)
      → Echoes (SubKey.l4_book coin) (Frame.l4_book (L4Frame.snapshot coin height))
  l4_statuses :
      (coin : Text) (height : ℕ) (ss : List StatusHead) (ds : List CoinOnly)
      → Echoes (SubKey.l4_book coin) (
          Frame.l4_book (
            L4Frame.updates (record {
              height = height;
              order_statuses = record { order = record { coin = coin } } ∷ ss;
              book_diffs = ds;
            })))
  l4_diffs :
      (coin : Text) (height : ℕ) (ds : List CoinOnly)
      → Echoes (SubKey.l4_book coin) (
          Frame.l4_book (
            L4Frame.updates (record {
              height = height;
              order_statuses = [];
              book_diffs = record { coin = coin } ∷ ds;
            })))

abbrev pub RoutesTo : SubKey → Option (SubKey × Seq) → Type 0
RoutesTo key none = ⊥
RoutesTo key (some (found, seq)) = found ≡ key

-- A frame that the upstream sends for a subscription routes to the key that the client's request is
-- kept under.
pub route-Echoes :
    (key : SubKey) (frame : Frame) → Echoes key frame → RoutesTo (normalized key) (route frame)
unfolding route route_raw normalized
route-Echoes _ _ (Echoes.bbo coin time) = refl
route-Echoes _ _ (Echoes.l2_book_default coin time sf m) = refl
route-Echoes _ _ (Echoes.l2_book coin time sf n m) = refl
route-Echoes _ _ (Echoes.l2_diff_default coin height sf m) = refl
route-Echoes _ _ (Echoes.l2_diff coin height sf n m) = refl
route-Echoes _ _ (Echoes.l2_diff_snapshot_default coin height sf m) = refl
route-Echoes _ _ (Echoes.l2_diff_snapshot coin height sf n m) = refl
route-Echoes _ _ (Echoes.trades t ts) = refl
route-Echoes _ _ (Echoes.order_updates user height us) =
    ap SubKey.order_updates
      (to_ascii_lowercase_idem (to_ascii_lowercase user) ∙ to_ascii_lowercase_idem user)
route-Echoes _ _ (Echoes.l4_snapshot coin height) = refl
route-Echoes _ _ (Echoes.l4_statuses coin height ss ds) = refl
route-Echoes _ _ (Echoes.l4_diffs coin height ds) = refl
