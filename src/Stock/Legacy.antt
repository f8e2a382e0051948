-- ===== src/Stock/Legacy.antt =====
-- src/domain/stock.ts: the bridge from the older inventory estimate.
use trade_pal_africa.Base.{
  ℕ, Bool, true, false, ◌||◌, not, Option, none, some, List, [], ◌∷◌, ◌==◌, if◌then◌else◌, find, ok,
  Call, ◌>>=◌, pure,
}
use trade_pal_africa.Base.Int.{ℤ, pos, ◌==ℤ◌}
use trade_pal_africa.Accounting.Books.{merchant_entered, migrated_opening}
use trade_pal_africa.Stock.Rows.{
  StockError, opening_balance, legacy_mirror, of_adoption, of_legacy, Stock, get_stock_level,
}
use trade_pal_africa.Stock.Movements.{Move, allow_negative, post_stock_movement}

-- A variant that adopted an inventory item, with the estimate of the item; `item` is none for the
-- other variants.
pub record LegacyVariant : Type 0 where
  pub id : ℕ
  pub item : Option ℕ
  pub estimate : ℤ
  pub track_stock : Bool

pub record LegacyDrift : Type 0 where
  pub item : ℕ
  pub variant : ℕ
  pub estimate : ℤ
  pub on_hand : ℤ

abbrev pub drift_of : ℕ → Stock → LegacyVariant → Option ℕ → List LegacyDrift → List LegacyDrift
drift_of shop s v none rest = rest
drift_of shop s v (some item) rest =
    if (get_stock_level s shop v.id).on_hand ==ℤ v.estimate
    then rest
    else record {
      item = item;
      variant = v.id;
      estimate = v.estimate;
      on_hand = (get_stock_level s shop v.id).on_hand;
    }
      ∷ rest

unfoldable pub find_legacy_stock_drift : ℕ → Stock → List LegacyVariant → List LegacyDrift
find_legacy_stock_drift shop s [] = []
find_legacy_stock_drift shop s (v ∷ vs) =
    drift_of shop s v v.item (find_legacy_stock_drift shop s vs)

abbrev pub adopting_move : ℕ → ℕ → ℕ → ℤ → Move
adopting_move shop variant item estimate = record {
  shop = shop;
  variant = variant;
  kind = opening_balance;
  on_hand_delta = estimate;
  damaged_delta = pos 0;
  in_transit_delta = pos 0;
  reserved_release = pos 0;
  unit_cost = none;
  currency = none;
  occurred_at = none;
  provenance = some migrated_opening;
  key = some (of_adoption item);
  availability = some allow_negative;
  reversal_of = none;
}

unfoldable pub post_adoption_opening : ℕ → ℕ → ℕ → ℤ → Call Stock StockError Bool
post_adoption_opening shop variant item estimate s =
    if estimate ==ℤ pos 0
    then (ok false, s)
    else (post_stock_movement (adopting_move shop variant item estimate) >>= λ _. pure true) s

pub record LegacyMovement : Type 0 where
  pub id : ℕ
  pub item : ℕ
  pub delta : ℤ
  pub currency : Option ℕ

abbrev pub mirroring_move : ℕ → ℕ → LegacyMovement → Move
mirroring_move shop variant m = record (adopting_move shop variant m.item m.delta) {
  kind = legacy_mirror;
  currency = m.currency;
  provenance = some merchant_entered;
  key = some (of_legacy m.id);
}

abbrev pub adopted : ℕ → LegacyVariant → Bool
adopted item v = elim v.item [ none ↦ false | some i ↦ i == item ]

-- The mirrored movement, where the variant is found and tracked; an error is caught and logged.
unfoldable pub mirror_to : ℕ → LegacyMovement → Option LegacyVariant → Stock → Stock
mirror_to shop m none s = s
mirror_to shop m (some v) s =
    if not v.track_stock || m.delta ==ℤ pos 0
    then s
    else (post_stock_movement (mirroring_move shop v.id m) s).1

-- `mirrorLegacyMovement`, with the flag `stockV2`, the default shop and the variants.
unfoldable pub mirror_legacy_movement :
    Bool → ℕ → List LegacyVariant → LegacyMovement → Stock → Stock
unfolding mirror_to
mirror_legacy_movement enabled shop variants m s =
    if enabled then mirror_to shop m (find (adopted m.item) variants) s else s
