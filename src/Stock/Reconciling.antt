-- ===== src/Stock/Reconciling.antt =====
-- src/domain/stock.ts: `reconcileStock`, which compares the running balances with the movements and
-- the active reservations.
use trade_pal_africa.Base.{ℕ, Bool, ◌&&◌, List, [], ◌∷◌, ◌++◌, ◌==◌, if◌then◌else◌}
use trade_pal_africa.Base.Int.{ℤ, pos, ◌+ℤ◌, ◌==ℤ◌}
use trade_pal_africa.Stock.Rows.{Balance, Movement, Reservation, Stock}
use trade_pal_africa.Stock.Reservations.{is_active}

pub data StockField : Type 0 where
  on_hand_field damaged_field in_transit_field reserved_field : StockField

pub record StockMismatch : Type 0 where
  pub shop : ℕ
  pub variant : ℕ
  pub field : StockField
  pub balance : ℤ
  pub expected : ℤ

abbrev pub sum_where : {A : Type 0} → (A → Bool) → (A → ℤ) → List A → ℤ
sum_where p f [] = pos 0
sum_where p f (x ∷ xs) = (if p x then f x else pos 0) +ℤ sum_where p f xs

abbrev pub moves_row : ℕ → ℕ → Movement → Bool
moves_row shop variant m = m.shop == shop && m.variant == variant

abbrev pub holds_row : ℕ → ℕ → Reservation → Bool
holds_row shop variant r = is_active r.status && (r.shop == shop && r.variant == variant)

-- The sums of the two `groupBy` queries, zero where a pair of shop and variant has no group.
abbrev pub expected_of : StockField → Stock → ℕ → ℕ → ℤ
expected_of on_hand_field s shop variant =
    sum_where (moves_row shop variant) (λ m. m.on_hand_delta) s.movements
expected_of damaged_field s shop variant =
    sum_where (moves_row shop variant) (λ m. m.damaged_delta) s.movements
expected_of in_transit_field s shop variant =
    sum_where (moves_row shop variant) (λ m. m.in_transit_delta) s.movements
expected_of reserved_field s shop variant =
    sum_where (holds_row shop variant) (λ r. r.quantity) s.reservations

abbrev pub level_of : StockField → Balance → ℤ
level_of on_hand_field b = b.on_hand
level_of damaged_field b = b.damaged
level_of in_transit_field b = b.in_transit
level_of reserved_field b = b.reserved

abbrev pub check_field : Stock → Balance → StockField → List StockMismatch
check_field s b f =
    if level_of f b ==ℤ expected_of f s b.shop b.variant
    then []
    else record {
      shop = b.shop;
      variant = b.variant;
      field = f;
      balance = level_of f b;
      expected = expected_of f s b.shop b.variant;
    }
      ∷ []

abbrev pub check_row : Stock → Balance → List StockMismatch
check_row s b =
    check_field s b on_hand_field
    ++ (check_field s b damaged_field
        ++ (check_field s b in_transit_field ++ check_field s b reserved_field))

abbrev pub check_rows : Stock → List Balance → List StockMismatch
check_rows s [] = []
check_rows s (b ∷ bs) = check_row s b ++ check_rows s bs

unfoldable pub reconcile_stock : Stock → List StockMismatch
reconcile_stock s = check_rows s s.balances
