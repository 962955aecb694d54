-- ===== src/SubKey/Normal.antt =====
-- `normalized`: the one spelling of a key.
use hypeha.Base.{ℕ, ◌≡◌, refl, Option, none, some, arith, to_ascii_lowercase_idem, ap}
use hypeha.SubKey.{SubKey, normalized, fold_levels, channel, single_sourced, is_incremental}

fold_levels_idem : (n : Option ℕ) → fold_levels (fold_levels n) ≡ fold_levels n
fold_levels_idem none = refl
fold_levels_idem (some n) = ground arith

-- Normalising a key twice is normalising it once, and keeps its channel and how it is arbitrated.
pub normalized_lem :
    (key : SubKey)
    → (normalized (normalized key) ≡ normalized key)
      × (channel (normalized key) ≡ channel key)
      × (single_sourced (normalized key) ≡ single_sourced key)
      × (is_incremental (normalized key) ≡ is_incremental key)
unfolding normalized channel single_sourced is_incremental
normalized_lem (SubKey.trades coin) = (refl, refl, refl, refl)
normalized_lem (SubKey.l2_book coin sf n m) =
    (ap (λ l. SubKey.l2_book coin sf l m) (fold_levels_idem n), refl, refl, refl)
normalized_lem (SubKey.l2_diff coin sf n m) =
    (ap (λ l. SubKey.l2_diff coin sf l m) (fold_levels_idem n), refl, refl, refl)
normalized_lem (SubKey.l4_book coin) = (refl, refl, refl, refl)
normalized_lem (SubKey.bbo coin) = (refl, refl, refl, refl)
normalized_lem (SubKey.order_updates user) =
    (ap SubKey.order_updates (to_ascii_lowercase_idem user), refl, refl, refl)
normalized_lem (SubKey.book_diffs coin) = (refl, refl, refl, refl)
