-- ===== src/Stock/Fulfilment.antt =====
-- src/domain/stock.ts: `fulfilReservation`, which turns a hold into a sale.
use trade_pal_africa.Base.{
  ℕ, Bool, true, false, ◌&&◌, ◌||◌, not, Option, none, some, ◌==◌, leb, length, if◌then◌else◌,
  or_else, find, keep, update_where, Call, ◌>>=◌, ◌>>◌, throw_if, or_throw, gets, modify,
  transaction,
}
use trade_pal_africa.Base.Int.{ℤ, pos, ◌-ℤ◌, neg, ltb_ℤ, ◌==ℤ◌}
use trade_pal_africa.Stock.Rows.{
  StockError, invalid, not_found, reservation_closed, sale_fulfillment, of_fulfilment, Reservation,
  Stock,
}
use trade_pal_africa.Stock.Movements.{Move, PostedMovement, allow_negative, post_movement_tx}
use trade_pal_africa.Stock.Everyday.{positive_qty}
use trade_pal_africa.Stock.Reservations.{is_active, is_open, has_id, close_row, consume}

-- The rows that the claim changes: also guarded on the quantity read, if the rest is kept.
abbrev pub is_claimed : Bool → Reservation → Reservation → Bool
is_claimed kept r x = is_open r.id x && (not kept || x.quantity ==ℤ r.quantity)

abbrev pub claim_row : Bool → ℤ → ℕ → Reservation → Reservation → Reservation
claim_row true q now r x = record x { quantity = r.quantity -ℤ q }
claim_row false q now r x = close_row consume now x

abbrev pub fulfilling_move : Reservation → ℤ → Bool → Option ℕ → Move
fulfilling_move r q kept currency = record {
  shop = r.shop;
  variant = r.variant;
  kind = sale_fulfillment;
  on_hand_delta = neg q;
  damaged_delta = pos 0;
  in_transit_delta = pos 0;
  reserved_release = if kept then q else r.quantity;
  unit_cost = none;
  currency = currency;
  occurred_at = none;
  provenance = none;
  key = some (of_fulfilment r.id r.quantity);
  availability = some allow_negative;
  reversal_of = none;
}

-- `options` of `fulfilReservation`.
pub record Fulfilment : Type 0 where
  pub quantity : Option ℤ
  pub keep_remainder : Bool
  pub now : ℕ
  pub currency : Option ℕ

abbrev pub keeps_rest : Fulfilment → Reservation → Bool
keeps_rest o r = o.keep_remainder && ltb_ℤ (or_else o.quantity r.quantity) r.quantity

abbrev pub taken : Fulfilment → Reservation → ℤ
taken o r = or_else o.quantity r.quantity

abbrev pub claim_rows : Fulfilment → Reservation → Stock → Stock
claim_rows o r s = record s {
  reservations =
      update_where (is_claimed (keeps_rest o r) r) (claim_row (keeps_rest o r) (taken o r) o.now r)
        s.reservations;
}

unfoldable pub claim_and_move : Fulfilment → Reservation → Call Stock StockError PostedMovement
claim_and_move o r = do
  count ← gets (λ s. length (keep (is_claimed (keeps_rest o r) r) s.reservations))
  modify (claim_rows o r)
  throw_if (not (count == 1)) reservation_closed
  post_movement_tx (fulfilling_move r (taken o r) (keeps_rest o r) o.currency)

unfoldable pub fulfil_found : Fulfilment → Reservation → Call Stock StockError PostedMovement
unfolding claim_and_move
fulfil_found o r = do
  positive_qty (taken o r)
  throw_if (ltb_ℤ r.quantity (taken o r)) invalid
  throw_if (not (is_active r.status)) reservation_closed
  throw_if (leb r.expires_at o.now) reservation_closed
  claim_and_move o r

abbrev pub fulfil_body : ℕ → Fulfilment → Call Stock StockError PostedMovement
fulfil_body reservation_id o = do
  found ← gets (λ s. find (has_id reservation_id) s.reservations)
  r ← or_throw found not_found
  fulfil_found o r

unfoldable pub fulfil_reservation : ℕ → Fulfilment → Call Stock StockError PostedMovement
unfolding fulfil_found
fulfil_reservation reservation_id o = transaction (fulfil_body reservation_id o)
