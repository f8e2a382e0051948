-- ===== src/Stock/Everyday.antt =====
-- src/domain/stock.ts: the everyday movements, and the reversal of a movement.
use trade_pal_africa.Base.{
  ℕ, Bool, false, ◌&&◌, not, Option, none, some, ◌==◌, if◌then◌else◌, or_else, is_some, find, Call,
  ◌>>=◌, ◌>>◌, throw_if, or_throw, gets,
}
use trade_pal_africa.Base.Int.{ℤ, pos, neg, leb_ℤ}
use trade_pal_africa.Accounting.Books.{Provenance, migrated_opening, system_derived}
use trade_pal_africa.Stock.Rows.{
  StockError, invalid, not_found, MovementKind, receipt, sale_fulfillment, spoilage,
  damage_quarantine, return_restock, reversal, MovementKey, caller_key, Movement, Stock,
  get_stock_policy,
}
use trade_pal_africa.Stock.Movements.{
  Move, PostedMovement, require_available, allow_negative, post_stock_movement, replay_movement,
}

-- `Common`: what an everyday movement is given. Its key is the caller's.
pub record Common : Type 0 where
  pub shop : ℕ
  pub variant : ℕ
  pub quantity : ℤ
  pub occurred_at : Option ℕ
  pub key : Option ℕ
  pub provenance : Option Provenance
  pub currency : Option ℕ
  pub unit_cost : Option ℤ

abbrev pub positive_qty : ℤ → Call Stock StockError (Unit {0})
positive_qty n = throw_if (leb_ℤ n (pos 0)) invalid

abbrev pub caller : Option ℕ → Option MovementKey
caller none = none
caller (some k) = some (caller_key k)

-- A movement of a kind, with its changes of the on-hand and the damaged bucket.
abbrev pub move_of : Common → MovementKind → ℤ → ℤ → Move
move_of c kind on_hand damaged = record {
  shop = c.shop;
  variant = c.variant;
  kind = kind;
  on_hand_delta = on_hand;
  damaged_delta = damaged;
  in_transit_delta = pos 0;
  reserved_release = pos 0;
  unit_cost = c.unit_cost;
  currency = c.currency;
  occurred_at = c.occurred_at;
  provenance = c.provenance;
  key = caller c.key;
  availability = none;
  reversal_of = none;
}

unfoldable pub receive_stock : Common → Call Stock StockError PostedMovement
receive_stock c = do
  positive_qty c.quantity
  post_stock_movement (move_of c receipt c.quantity (pos 0))

unfoldable pub record_opening_balance : Common → Call Stock StockError PostedMovement
record_opening_balance c = do
  positive_qty c.quantity
  post_stock_movement (record (move_of c MovementKind.opening_balance c.quantity (pos 0)) {
    provenance = some migrated_opening;
  })

-- The policy, or the caller, may ask for available stock; an approver lifts it.
abbrev pub is_strict : Option Bool → Bool → Stock → Bool
is_strict require approved s = or_else require (get_stock_policy s).blocks_negative && not approved

unfoldable pub fulfil_sale : Common → Option Bool → Bool → Call Stock StockError PostedMovement
fulfil_sale c require approved = do
  positive_qty c.quantity
  strict ← gets (is_strict require approved)
  post_stock_movement
      (record (move_of (record c { unit_cost = none }) sale_fulfillment (neg c.quantity) (pos 0)) {
        availability = some (if strict then require_available else allow_negative);
      })

unfoldable pub record_spoilage : Common → Call Stock StockError PostedMovement
record_spoilage c = do
  positive_qty c.quantity
  post_stock_movement (move_of (record c { unit_cost = none }) spoilage (neg c.quantity) (pos 0))

unfoldable pub record_owner_withdrawal : Common → Call Stock StockError PostedMovement
record_owner_withdrawal c = do
  positive_qty c.quantity
  post_stock_movement (
      move_of (record c { unit_cost = none }) MovementKind.owner_withdrawal (neg c.quantity)
        (pos 0))

unfoldable pub quarantine_stock : Common → Call Stock StockError PostedMovement
quarantine_stock c = do
  positive_qty c.quantity
  post_stock_movement (
      move_of (record c { unit_cost = none; currency = none }) damage_quarantine (neg c.quantity)
        c.quantity)

unfoldable pub write_off_quarantined : Common → Call Stock StockError PostedMovement
write_off_quarantined c = do
  positive_qty c.quantity
  post_stock_movement (move_of (record c { unit_cost = none }) spoilage (pos 0) (neg c.quantity))

unfoldable pub restock_return : Common → Call Stock StockError PostedMovement
restock_return c = do
  positive_qty c.quantity
  post_stock_movement (move_of c return_restock c.quantity (pos 0))

abbrev pub reversing_move : Movement → Move
reversing_move m = record {
  shop = m.shop;
  variant = m.variant;
  kind = reversal;
  on_hand_delta = neg m.on_hand_delta;
  damaged_delta = neg m.damaged_delta;
  in_transit_delta = neg m.in_transit_delta;
  reserved_release = pos 0;
  unit_cost = m.unit_cost;
  currency = m.cost_currency;
  occurred_at = none;
  provenance = some system_derived;
  key = none;
  availability = some allow_negative;
  reversal_of = some m.id;
}

abbrev pub reverses : ℕ → Movement → Bool
reverses i m = elim m.reversal_of [ none ↦ false | some j ↦ j == i ]

unfoldable pub replay_or_reverse : Movement → Option Movement → Call Stock StockError PostedMovement
replay_or_reverse m (some existing) = replay_movement existing
replay_or_reverse m none = post_stock_movement (reversing_move m)

unfoldable pub reverse_one : Movement → Call Stock StockError PostedMovement
unfolding replay_or_reverse
reverse_one original = do
  throw_if (is_some original.reversal_of) invalid
  existing ← gets (λ s. find (reverses original.id) s.movements)
  replay_or_reverse original existing

unfoldable pub reverse_stock_movement : ℕ → Call Stock StockError PostedMovement
unfolding reverse_one
reverse_stock_movement movement_id = do
  found ← gets (λ s. find (λ (m : Movement). m.id == movement_id) s.movements)
  original ← or_throw found not_found
  reverse_one original
