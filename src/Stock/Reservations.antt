-- ===== src/Stock/Reservations.antt =====
-- src/domain/stock.ts: reservations, from the hold to its release, expiry or fulfilment.
use trade_pal_africa.Base.{
  ℕ, ◌+◌, Bool, true, false, ◌&&◌, not, Option, none, some, List, [], ◌∷◌, ◌++◌, ◌==◌, ltb, leb,
  length, if◌then◌else◌, is_some, find, any, keep, update_where, Call, ◌>>=◌, ◌>>◌, pure, throw_if,
  or_throw, gets, modify, transaction,
}
use trade_pal_africa.Base.Int.{ℤ, pos, ◌+ℤ◌, ◌-ℤ◌, neg, ltb_ℤ, max_ℤ}
use trade_pal_africa.Stock.Rows.{
  StockError, insufficient_stock, invalid, not_found, Balance, Reservation, ReservationStatus,
  active, released, expired, consumed, Stock, is_row, get_stock_policy,
}
use trade_pal_africa.Stock.Movements.{ensure_row}
use trade_pal_africa.Stock.Everyday.{positive_qty}

abbrev pub is_active : ReservationStatus → Bool
is_active active = true
is_active _ = false

pub record ReserveInput : Type 0 where
  pub shop : ℕ
  pub variant : ℕ
  pub quantity : ℤ
  pub reference : ℕ
  pub key : ℕ
  pub expires_at : ℕ
  pub now : ℕ

pub record Reserved : Type 0 where
  pub reservation : Reservation
  pub replayed : Bool

abbrev pub new_reservation : ReserveInput → Stock → Reservation
new_reservation i s = record {
  id = s.next_id;
  shop = i.shop;
  variant = i.variant;
  quantity = i.quantity;
  status = active;
  expires_at = i.expires_at;
  reference = i.reference;
  key = i.key;
  settled_at = none;
}

abbrev pub add_reserved : ℤ → Balance → Balance
add_reserved q b = record b { reserved = b.reserved +ℤ q }

abbrev pub write_reservation : ReserveInput → Stock → Stock
write_reservation i s = record s {
  reservations = s.reservations ++ new_reservation i s ∷ [];
  balances = update_where (is_row i.shop i.variant) (add_reserved i.quantity) s.balances;
  next_id = s.next_id + 1;
}

-- The row of a balance, made if need be and locked.
unfoldable pub lock_balance : ℕ → ℕ → Call Stock StockError Balance
lock_balance shop variant = do
  modify (λ s. record s { balances = ensure_row shop variant s.balances })
  row ← gets (λ s. find (is_row shop variant) s.balances)
  or_throw row not_found

-- The hold on a balance that is locked.
unfoldable pub hold : ReserveInput → Balance → Call Stock StockError Reserved
hold i b = do
  policy ← gets get_stock_policy
  throw_if (ltb_ℤ (b.on_hand -ℤ b.reserved) i.quantity && not policy.allow_backorder)
      (insufficient_stock (max_ℤ (pos 0) (b.on_hand -ℤ b.reserved)))
  r ← gets (new_reservation i)
  modify (write_reservation i)
  pure (record { reservation = r; replayed = false })

unfoldable pub reserve_new : ReserveInput → Call Stock StockError Reserved
unfolding lock_balance hold
reserve_new i = do
  shop_known ← gets (λ s. any (λ x. x == i.shop) s.shops)
  throw_if (not shop_known) not_found
  variant_known ← gets (λ s. any (λ x. x == i.variant) s.variants)
  throw_if (not variant_known) not_found
  b ← lock_balance i.shop i.variant
  hold i b

unfoldable pub reserve_or_replay :
    ReserveInput → Option Reservation → Call Stock StockError Reserved
unfolding reserve_new
reserve_or_replay i (some r) = pure (record { reservation = r; replayed = true })
reserve_or_replay i none = reserve_new i

abbrev pub has_reservation_key : ℕ → Reservation → Bool
has_reservation_key k r = r.key == k

abbrev pub reserve_body : ReserveInput → Call Stock StockError Reserved
reserve_body i s = reserve_or_replay i (find (has_reservation_key i.key) s.reservations) s

unfoldable pub reserve_stock : ReserveInput → Call Stock StockError Reserved
unfolding reserve_or_replay
reserve_stock i = do
  positive_qty i.quantity
  throw_if (leb i.expires_at i.now) invalid
  transaction (reserve_body i)

abbrev pub has_id : ℕ → Reservation → Bool
has_id i r = r.id == i

-- The rows that an `updateMany` with this id and the status ACTIVE changes.
abbrev pub is_open : ℕ → Reservation → Bool
is_open i r = r.id == i && is_active r.status

pub data Closing : Type 0 where
  release expire consume : Closing

abbrev pub closed_as : Closing → ReservationStatus
closed_as release = released
closed_as expire = expired
closed_as consume = consumed

abbrev pub close_row : Closing → ℕ → Reservation → Reservation
close_row to now r = record r { status = closed_as to; settled_at = some now }

-- `if (to !== "CONSUMED")`: the hold goes back to what is available.
abbrev pub give_back : Closing → Reservation → List Balance → List Balance
give_back consume r bs = bs
give_back _ r bs = update_where (is_row r.shop r.variant) (add_reserved (neg r.quantity)) bs

-- The writes of `closeReservation`; `none` where another call closed the row first.
unfoldable pub close_rows : Closing → ℕ → Reservation → Call Stock StockError (Option Reservation)
close_rows to now r = do
  count ← gets (λ s. length (keep (is_open r.id) s.reservations))
  modify (λ s. record s {
    reservations = update_where (is_open r.id) (close_row to now) s.reservations;
  })
  modify (λ s. if count == 1 then record s { balances = give_back to r s.balances } else s)
  pure (if count == 1 then some r else none)

unfoldable pub close_active : Closing → ℕ → Reservation → Call Stock StockError (Option Reservation)
unfolding lock_balance close_rows
close_active to now r = do lock_balance r.shop r.variant; close_rows to now r

unfoldable pub close_found : Closing → ℕ → Reservation → Call Stock StockError (Option Reservation)
unfolding close_active
close_found to now r s = if is_active r.status then close_active to now r s else pure none s

unfoldable pub close_reservation : Closing → ℕ → ℕ → Call Stock StockError (Option Reservation)
unfolding close_found
close_reservation to reservation_id now = do
  found ← gets (λ s. find (has_id reservation_id) s.reservations)
  r ← or_throw found not_found
  close_found to now r

unfoldable pub release_reservation : ℕ → ℕ → Call Stock StockError Bool
unfolding close_reservation
release_reservation reservation_id now = do
  closed ← transaction (close_reservation release reservation_id now)
  pure (is_some closed)

-- The loop of `expireReservations` over the rows that are due; a throw ends it.
unfoldable pub expire_each : ℕ → List Reservation → ℕ → Call Stock StockError ℕ
unfolding close_reservation
expire_each now [] count = pure count
expire_each now (r ∷ rs) count = do
  closed ← transaction (close_reservation expire r.id now)
  expire_each now rs (if is_some closed then count + 1 else count)

abbrev pub is_due : ℕ → Reservation → Bool
is_due now r = is_active r.status && leb r.expires_at now

-- `expireReservations`, where `due` is the order and the limit of the query: the first 500 rows
-- that are due, by their expiry.
unfoldable pub expire_reservations :
    (List Reservation → List Reservation) → ℕ → Call Stock StockError ℕ
unfolding expire_each
expire_reservations due now = do
  rows ← gets (λ s. due (keep (is_due now) s.reservations))
  expire_each now rows 0

abbrev pub extends : ℕ → ℕ → Reservation → Bool
extends i new_expires_at r = is_open i r && ltb r.expires_at new_expires_at

unfoldable pub extend_reservation : ℕ → ℕ → Call Stock StockError Bool
extend_reservation reservation_id new_expires_at = do
  count ← gets (λ s. length (keep (extends reservation_id new_expires_at) s.reservations))
  modify (λ s. record s {
    reservations =
        update_where (extends reservation_id new_expires_at)
          (λ r. record r { expires_at = new_expires_at }) s.reservations;
  })
  row ← gets (λ s. find (has_id reservation_id) s.reservations)
  pure (if count == 1 then true else elim row [ none ↦ false | some r ↦ is_active r.status ])
