-- ===== src/Stock/Movements.antt =====
-- src/domain/stock.ts: `postMovementTx`, which every change of stock goes through.
use trade_pal_africa.Base.{
  ℕ, ◌+◌, Bool, true, false, ◌&&◌, ◌||◌, not, Option, none, some, List, [], ◌∷◌, ◌++◌, ◌==◌,
  if◌then◌else◌, or_else, is_some, find, any, update_where, Result, Call, ◌>>=◌, ◌>>◌, pure,
  throw_if, or_throw, gets, modify, transaction,
}
use trade_pal_africa.Base.Int.{ℤ, pos, ◌+ℤ◌, ◌-ℤ◌, ltb_ℤ, ◌==ℤ◌, max_ℤ}
use trade_pal_africa.Accounting.Books.{Provenance, merchant_entered}
use trade_pal_africa.Stock.Rows.{
  StockError, insufficient_stock, invalid, not_found, MovementKind, MovementKey, same_movement_key,
  Balance, Movement, Stock, is_row, new_row, on_books,
}
use trade_pal_africa.Stock.Costing.{Costing, costing}
use trade_pal_africa.Stock.Journalling.{journal_movement_if_enabled}

pub data Availability : Type 0 where
  require_available allow_negative : Availability

-- `PostMovementInput`; a delta that is left out is zero.
pub record Move : Type 0 where
  pub shop : ℕ
  pub variant : ℕ
  pub kind : MovementKind
  pub on_hand_delta : ℤ
  pub damaged_delta : ℤ
  pub in_transit_delta : ℤ
  pub reserved_release : ℤ
  pub unit_cost : Option ℤ
  pub currency : Option ℕ
  pub occurred_at : Option ℕ
  pub provenance : Option Provenance
  pub key : Option MovementKey
  pub availability : Option Availability
  pub reversal_of : Option ℕ

pub record PostedMovement : Type 0 where
  pub movement : Movement
  pub balance : Balance
  pub replayed : Bool

abbrev pub has_movement_key : MovementKey → Movement → Bool
has_movement_key k m = elim m.key [ none ↦ false | some j ↦ same_movement_key j k ]

abbrev pub find_by_key : Option MovementKey → List Movement → Option Movement
find_by_key none ms = none
find_by_key (some k) ms = find (has_movement_key k) ms

-- `lockBalance`: a row of zeros where there is none. The lock itself is the transaction's: its
-- calls follow one another.
abbrev pub ensure_row : ℕ → ℕ → List Balance → List Balance
ensure_row shop variant bs =
    if is_some (find (is_row shop variant) bs) then bs else bs ++ new_row shop variant ∷ []

-- `(input.availability ?? "REQUIRE_AVAILABLE") === "REQUIRE_AVAILABLE"`
abbrev pub requires_available : Option Availability → Bool
requires_available (some allow_negative) = false
requires_available _ = true

abbrev pub new_movement : Move → Costing → Stock → Movement
new_movement i c s = record {
  id = s.next_id;
  shop = i.shop;
  variant = i.variant;
  kind = i.kind;
  on_hand_delta = i.on_hand_delta;
  damaged_delta = i.damaged_delta;
  in_transit_delta = i.in_transit_delta;
  unit_cost = c.unit_cost;
  cost_currency = i.currency;
  cost_incomplete = c.incomplete;
  cost = c.cost;
  occurred_at = or_else i.occurred_at s.clock;
  provenance = or_else i.provenance merchant_entered;
  key = i.key;
  reversal_of = i.reversal_of;
}

abbrev pub currency_of : Move → Balance → Option ℕ
currency_of i b = elim i.currency [ none ↦ b.cost_currency | some k ↦ some k ]

abbrev pub moved_balance : Move → Costing → Balance → Balance
moved_balance i c b = record {
  shop = b.shop;
  variant = b.variant;
  on_hand = b.on_hand +ℤ i.on_hand_delta;
  reserved = b.reserved -ℤ i.reserved_release;
  damaged = b.damaged +ℤ i.damaged_delta;
  in_transit = b.in_transit +ℤ i.in_transit_delta;
  avg_cost = c.avg;
  uncosted = c.uncosted;
  cost_currency = currency_of i b;
}

-- The row of the movement and the new balance.
abbrev pub write_movement : Move → Costing → Balance → Stock → Stock
write_movement i c b s = record s {
  movements = s.movements ++ new_movement i c s ∷ [];
  balances = update_where (is_row i.shop i.variant) (moved_balance i c) s.balances;
  next_id = s.next_id + 1;
}

abbrev pub or_throw_result : {A : Type 0} → Result StockError A → Call Stock StockError A
or_throw_result r s = (r, s)

abbrev pub is_negative : ℤ → Bool
is_negative x = ltb_ℤ x (pos 0)

-- Whether a locked balance refuses the movement, and how.
unfoldable pub check_buckets : Move → Balance → Call Stock StockError (Unit {0})
check_buckets i b = do
  throw_if
      (is_negative (b.reserved -ℤ i.reserved_release)
        || is_negative (b.damaged +ℤ i.damaged_delta)
        || is_negative (b.in_transit +ℤ i.in_transit_delta))
      invalid
  throw_if
      (is_negative i.on_hand_delta
        && requires_available i.availability
        && is_negative ((b.on_hand +ℤ i.on_hand_delta) -ℤ (b.reserved -ℤ i.reserved_release)))
      (insufficient_stock (max_ℤ (pos 0) (b.on_hand -ℤ b.reserved)))

abbrev pub posted_with : Move → Balance → Costing → Stock → PostedMovement
posted_with i b c s = record {
  movement = new_movement i c s;
  balance = moved_balance i c b;
  replayed = false;
}

-- The row of the movement, the new balance, and the journal entry.
unfoldable pub record_movement : Move → Balance → Costing → Call Stock StockError PostedMovement
unfolding journal_movement_if_enabled
record_movement i b c = do
  m ← gets (new_movement i c)
  enabled ← gets (λ s. s.journals_enabled)
  modify (write_movement i c b)
  on_books (journal_movement_if_enabled enabled m (currency_of i b))
  pure (record { movement = m; balance = moved_balance i c b; replayed = false })

-- What a movement does to a balance that is locked.
unfoldable pub move_balance : Move → Balance → Call Stock StockError PostedMovement
unfolding check_buckets record_movement
move_balance i b = do
  check_buckets i b
  c ← or_throw_result (costing b i.on_hand_delta i.damaged_delta i.unit_cost)
  record_movement i b c

abbrev pub replayed_with : Movement → Balance → PostedMovement
replayed_with m b = record { movement = m; balance = b; replayed = true }

-- A key that is taken answers with the movement that has it.
unfoldable pub replay_movement : Movement → Call Stock StockError PostedMovement
replay_movement m = do
  row ← gets (λ s. find (is_row m.shop m.variant) s.balances)
  b ← or_throw row not_found
  pure (replayed_with m b)

unfoldable pub post_new_movement : Move → Call Stock StockError PostedMovement
unfolding move_balance
post_new_movement i = do
  shop_known ← gets (λ s. any (λ x. x == i.shop) s.shops)
  throw_if (not shop_known) not_found
  variant_known ← gets (λ s. any (λ x. x == i.variant) s.variants)
  throw_if (not variant_known) not_found
  modify (λ s. record s { balances = ensure_row i.shop i.variant s.balances })
  row ← gets (λ s. find (is_row i.shop i.variant) s.balances)
  b ← or_throw row not_found
  move_balance i b

unfoldable pub replay_or_post : Move → Option Movement → Call Stock StockError PostedMovement
unfolding replay_movement post_new_movement
replay_or_post i (some m) = replay_movement m
replay_or_post i none = post_new_movement i

unfoldable pub post_movement_tx : Move → Call Stock StockError PostedMovement
unfolding replay_or_post
post_movement_tx i = do
  throw_if
      (i.on_hand_delta ==ℤ pos 0 && (i.damaged_delta ==ℤ pos 0 && i.in_transit_delta ==ℤ pos 0))
      invalid
  existing ← gets (λ s. find_by_key i.key s.movements)
  replay_or_post i existing

unfoldable pub post_stock_movement : Move → Call Stock StockError PostedMovement
unfolding post_movement_tx
post_stock_movement i = transaction (post_movement_tx i)
