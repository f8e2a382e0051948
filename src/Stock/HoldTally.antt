-- ===== src/Stock/HoldTally.antt =====
-- The calls on reservations keep the balances in agreement with the movements.
use trade_pal_africa.Base.{
  ℕ, ◌+◌, Bool, true, false, not, Option, none, some, List, [], ◌∷◌, ◌==◌, refl, find, length, keep,
  update_where, if◌then◌else◌, is_some, inl, inr, Bool-cases, ◌>>=◌, pure, or_throw, Preserves,
  guard-holds, Preserves-bind, Preserves-transaction, transaction,
}
use trade_pal_africa.Base.Int.{ℤ}
use trade_pal_africa.Stock.Rows.{
  not_found, reservation_closed, Balance, Movement, Reservation, Stock, is_row,
}
use trade_pal_africa.Stock.Movements.{post_movement_tx}
use trade_pal_africa.Stock.Reservations.{
  has_id, is_active, is_open, close_row, ReserveInput, add_reserved, hold, lock_balance,
  reserve_new, reserve_or_replay, reserve_body, reserve_stock, Closing, release, expire, consume,
  give_back, close_rows, close_active, close_found, close_reservation, release_reservation,
  expire_each, expire_reservations, extend_reservation,
}
use trade_pal_africa.Stock.Fulfilment.{
  taken, claim_rows, keeps_rest, is_claimed, fulfilling_move, Fulfilment, claim_and_move,
  fulfil_found, fulfil_body, fulfil_reservation,
}
use trade_pal_africa.Stock.Tally.{
  IsTallied, ensure_row-IsTallied, update-IsTallied, on_hand_bucket, damaged_bucket,
  in_transit_bucket, Bucket, RowTallied,
}
use trade_pal_africa.Stock.MovementTally.{Tallied, post_movement_tx-Tallied}

kept :
    (q : ℤ) (ms : List Movement) (k : Bucket) (x : Balance)
    → RowTallied k ms x
    → RowTallied k ms (add_reserved q x)
kept q ms on_hand_bucket x h = h
kept q ms damaged_bucket x h = h
kept q ms in_transit_bucket x h = h

hold_kept :
    (p : Balance → Bool) (q : ℤ) (bs : List Balance) (ms : List Movement)
    → IsTallied bs ms
    → IsTallied (update_where p (add_reserved q) bs) ms
hold_kept p q bs ms t =
    update-IsTallied p (add_reserved q) bs ms (λ x shop variant. refl) (kept q ms) t

give_back-Tallied :
    (to : Closing) (r : Reservation) (bs : List Balance) (ms : List Movement)
    → IsTallied bs ms
    → IsTallied (give_back to r bs) ms
give_back-Tallied consume r bs ms t = t
give_back-Tallied release r bs ms t = hold_kept _ _ bs ms t
give_back-Tallied expire r bs ms t = hold_kept _ _ bs ms t

-- The steps on the rows of one reservation.
reserve_locked-Tallied :
    (i : ReserveInput) (s : Stock) (row : Option Balance)
    → Tallied s
    → Tallied ((or_throw row not_found >>= hold i) s).1
unfolding hold
reserve_locked-Tallied i s none t = t
reserve_locked-Tallied i s (some b) t =
    search
      (guard-holds Tallied, hold_kept (is_row i.shop i.variant) i.quantity s.balances s.movements t)

reserve_new-Tallied : (i : ReserveInput) → Preserves Tallied (reserve_new i)
unfolding reserve_new lock_balance
reserve_new-Tallied i s t =
    search (guard-holds Tallied, reserve_locked-Tallied, ensure_row-IsTallied)

reserve_or_replay-Tallied :
    (i : ReserveInput) (existing : Option Reservation)
    → Preserves Tallied (reserve_or_replay i existing)
unfolding reserve_or_replay
reserve_or_replay-Tallied i (some r) s t = t
reserve_or_replay-Tallied i none s t = reserve_new-Tallied i s t

reserve_body-Tallied : (i : ReserveInput) → Preserves Tallied (reserve_body i)
reserve_body-Tallied i s t = reserve_or_replay-Tallied i _ s t

pub reserve_stock-Tallied : (i : ReserveInput) → Preserves Tallied (reserve_stock i)
unfolding reserve_stock
reserve_stock-Tallied i s t =
    search (guard-holds Tallied, Preserves-transaction Tallied, reserve_body-Tallied)

give_if-Tallied :
    (to : Closing) (r : Reservation) (s : Stock) (only_one : Bool)
    → Tallied s
    → Tallied (if only_one then record s { balances = give_back to r s.balances } else s)
give_if-Tallied to r s true t = give_back-Tallied to r s.balances s.movements t
give_if-Tallied to r s false t = t

close_row_of-Tallied :
    (to : Closing) (now : ℕ) (r : Reservation) (s : Stock) (row : Option Balance)
    → Tallied s
    → Tallied ((or_throw row not_found >>= λ _. close_rows to now r) s).1
unfolding close_rows
close_row_of-Tallied to now r s none t = t
close_row_of-Tallied to now r s (some b) t =
    give_if-Tallied to r
      (record s { reservations = update_where (is_open r.id) (close_row to now) s.reservations })
      (length (keep (is_open r.id) s.reservations) == 1) t

close_active-Tallied :
    (to : Closing) (now : ℕ) (r : Reservation) → Preserves Tallied (close_active to now r)
unfolding close_active lock_balance
close_active-Tallied to now r s t = search (close_row_of-Tallied, ensure_row-IsTallied)

close_found-Tallied :
    (to : Closing) (now : ℕ) (r : Reservation) → Preserves Tallied (close_found to now r)
unfolding close_found
close_found-Tallied to now r s t = elim (Bool-cases (is_active r.status)) [
  | inl e ↦ rw e (close_active-Tallied to now r s t)
  | inr e ↦ rw e t
]

close_of-Tallied :
    (to : Closing) (now : ℕ) (s : Stock) (found : Option Reservation)
    → Tallied s
    → Tallied ((or_throw found not_found >>= close_found to now) s).1
close_of-Tallied to now s none t = t
close_of-Tallied to now s (some r) t = close_found-Tallied to now r s t

close_reservation-Tallied :
    (to : Closing) (i : ℕ) (now : ℕ) → Preserves Tallied (close_reservation to i now)
unfolding close_reservation
close_reservation-Tallied to i now s t = search close_of-Tallied

close_tx-Tallied :
    (to : Closing) (i : ℕ) (now : ℕ) → Preserves Tallied (transaction (close_reservation to i now))
close_tx-Tallied to i now = Preserves-transaction Tallied _ (close_reservation-Tallied to i now)

pub release_reservation-Tallied : (i now : ℕ) → Preserves Tallied (release_reservation i now)
unfolding release_reservation
release_reservation-Tallied i now =
    Preserves-bind Tallied (transaction (close_reservation release i now))
      (λ closed. pure (is_some closed)) (close_tx-Tallied release i now) (λ closed s t. t)

expire_each-Tallied :
    (now : ℕ) (rs : List Reservation) (count : ℕ) → Preserves Tallied (expire_each now rs count)
unfolding expire_each
expire_each-Tallied now [] count = λ s t. t
expire_each-Tallied now (r ∷ rs) count =
    Preserves-bind Tallied (transaction (close_reservation expire r.id now))
      (λ closed. expire_each now rs (if is_some closed then count + 1 else count))
      (close_tx-Tallied expire r.id now)
      (λ closed. expire_each-Tallied now rs (if is_some closed then count + 1 else count))

pub expire_reservations-Tallied :
    (due : List Reservation → List Reservation) (now : ℕ)
    → Preserves Tallied (expire_reservations due now)
unfolding expire_reservations
expire_reservations-Tallied due now s t = expire_each-Tallied now _ 0 s t

pub extend_reservation-Tallied : (i at : ℕ) → Preserves Tallied (extend_reservation i at)
unfolding extend_reservation
extend_reservation-Tallied i at s t = t

claim_and_move-Tallied : (o : Fulfilment) (r : Reservation) → Preserves Tallied (claim_and_move o r)
unfolding claim_and_move
claim_and_move-Tallied o r s t =
    guard-holds Tallied (not (length (keep (is_claimed (keeps_rest o r) r) s.reservations) == 1))
      reservation_closed
      (post_movement_tx (fulfilling_move r (taken o r) (keeps_rest o r) o.currency))
      (claim_rows o r s) t (post_movement_tx-Tallied _ (claim_rows o r s) t)

fulfil_found-Tallied : (o : Fulfilment) (r : Reservation) → Preserves Tallied (fulfil_found o r)
unfolding fulfil_found
fulfil_found-Tallied o r s t = search (guard-holds Tallied, claim_and_move-Tallied)

fulfil_of-Tallied :
    (o : Fulfilment) (s : Stock) (found : Option Reservation)
    → Tallied s
    → Tallied ((or_throw found not_found >>= fulfil_found o) s).1
fulfil_of-Tallied o s none t = t
fulfil_of-Tallied o s (some r) t = fulfil_found-Tallied o r s t

fulfil_body-Tallied : (i : ℕ) (o : Fulfilment) → Preserves Tallied (fulfil_body i o)
fulfil_body-Tallied i o s t = fulfil_of-Tallied o s (find (has_id i) s.reservations) t

pub fulfil_reservation-Tallied :
    (i : ℕ) (o : Fulfilment) → Preserves Tallied (fulfil_reservation i o)
unfolding fulfil_reservation
fulfil_reservation-Tallied i o =
    Preserves-transaction Tallied (fulfil_body i o) (fulfil_body-Tallied i o)
