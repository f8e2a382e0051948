-- ===== src/Stock/Examples.antt =====
-- Runs of the stock calls on one shop and one variant.
use trade_pal_africa.Base.{
  ℕ, ◌≡◌, refl, Option, none, some, List, [], ◌∷◌, ok, err, arith, true, false, not, All, ◌⊎◌, find,
  keep,
}
use trade_pal_africa.Base.Int.{ℤ, pos, neg, ◌-ℤ◌, ◌<ℤ◌, ◌≤ℤ◌, ◌*ℤ◌, max_ℤ}
use trade_pal_africa.Accounting.Books.{Books}
use trade_pal_africa.Stock.Rows.{
  insufficient_stock, Balance, Reservation, active, released, is_row, Stock, get_stock_level,
  get_stock_policy, caller_key, sale_fulfillment,
}
use trade_pal_africa.Stock.Costing.{Costing, cost_out}
use trade_pal_africa.Stock.Movements.{
  Move, replayed_with, new_movement, moved_balance, write_movement, post_stock_movement,
}
use trade_pal_africa.Stock.Everyday.{Common, move_of, fulfil_sale}
use trade_pal_africa.Stock.Reservations.{ReserveInput, reserve_stock, release_reservation, has_id}
use trade_pal_africa.Stock.Reconciling.{
  StockMismatch, on_hand_field, damaged_field, in_transit_field, reserved_field, expected_of,
  reconcile_stock,
}
use trade_pal_africa.Stock.Requests.{Request, receive, sale, reserve, quarantine, serve_all}
use trade_pal_africa.Stock.Consistency.{get_stock_level_sums, reconcile_stock_reports}
use trade_pal_africa.Stock.Outcomes.{post_stock_movement_replayed}
use trade_pal_africa.Stock.CostOutcome.{cost_out_complete}
use trade_pal_africa.Stock.Selling.{IsSold, fulfil_sale_outcome}
use trade_pal_africa.Stock.Holding.{IsHeld, reserve_stock_outcome, release_reservation_twice}

abbrev no_books : Books
no_books = record { accounts = []; entries = []; next_id = 0; clock = 7 }

abbrev new_stock : Stock
new_stock = record {
  shops = 1 ∷ [];
  variants = 2 ∷ [];
  balances = [];
  movements = [];
  reservations = [];
  counts = [];
  transfers = [];
  policy = none;
  journals_enabled = false;
  books = no_books;
  next_id = 10;
  clock = 7;
}

abbrev common : ℤ → Option ℕ → Common
common q key = record {
  shop = 1;
  variant = 2;
  quantity = q;
  occurred_at = none;
  key = key;
  provenance = none;
  currency = none;
  unit_cost = some (pos 30);
}

abbrev hold_of_two : ReserveInput
hold_of_two = record {
  shop = 1;
  variant = 2;
  quantity = pos 2;
  reference = 4;
  key = 5;
  expires_at = 20;
  now = 8;
}

abbrev day : List Request
day =
    receive (common (pos 5) none)
    ∷ sale (common (pos 3) (some 6)) (some true) false
    ∷ reserve hold_of_two
    ∷ sale (common (pos 1) none) (some true) false
    ∷ quarantine (common (pos 1) none)
    ∷ []

get_stock_level_sums_example :
    ((get_stock_level (serve_all day new_stock) 1 2).on_hand
      ≡ expected_of on_hand_field (serve_all day new_stock) 1 2)
    × ((get_stock_level (serve_all day new_stock) 1 2).damaged
        ≡ expected_of damaged_field (serve_all day new_stock) 1 2)
    × ((get_stock_level (serve_all day new_stock) 1 2).in_transit
        ≡ expected_of in_transit_field (serve_all day new_stock) 1 2)
get_stock_level_sums_example = get_stock_level_sums day new_stock refl refl 1 2

reconcile_stock_reports_example :
    All
      (λ (m : StockMismatch). m.field ≡ reserved_field)
      (reconcile_stock (serve_all day new_stock))
reconcile_stock_reports_example = reconcile_stock_reports day new_stock refl refl

abbrev row_of_five : Balance
row_of_five = record {
  shop = 1;
  variant = 2;
  on_hand = pos 5;
  reserved = pos 1;
  damaged = pos 0;
  in_transit = pos 0;
  avg_cost = some (pos 30);
  uncosted = pos 0;
  cost_currency = none;
}

abbrev held_row : Reservation
held_row = record {
  id = 3;
  shop = 1;
  variant = 2;
  quantity = pos 1;
  status = active;
  expires_at = 20;
  reference = 9;
  key = 1;
  settled_at = none;
}

abbrev stocked : Stock
stocked = record new_stock { balances = row_of_five ∷ []; reservations = held_row ∷ [] }

fulfil_sale_outcome_example :
    ((pos 5 -ℤ pos 1 <ℤ pos 3)
      × (fulfil_sale (common (pos 3) (some 6)) (some true) false stocked
          ≡ (err (insufficient_stock (max_ℤ (pos 0) (pos 5 -ℤ pos 1))), stocked)))
    ⊎ ((pos 3 ≤ℤ pos 5 -ℤ pos 1) × IsSold (common (pos 3) (some 6)) row_of_five stocked)
fulfil_sale_outcome_example =
    fulfil_sale_outcome (common (pos 3) (some 6)) 2 stocked row_of_five refl refl refl refl refl
      (omega arith, omega arith, omega arith) refl

abbrev take_three : Move
take_three = move_of (common (pos 3) (some 6)) sale_fulfillment (neg (pos 3)) (pos 0)

abbrev three_costed : Costing
three_costed = cost_out row_of_five (pos 3) none

post_stock_movement_replayed_example :
    post_stock_movement take_three (write_movement take_three three_costed row_of_five stocked) ≡ (
      ok (
          replayed_with
            (new_movement take_three three_costed stocked)
            (moved_balance take_three three_costed row_of_five)),
      write_movement take_three three_costed row_of_five stocked,
    )
unfolding neg
post_stock_movement_replayed_example =
    post_stock_movement_replayed take_three (caller_key 6) three_costed row_of_five stocked refl
      refl refl refl

reserve_stock_outcome_example :
    ((pos 5 -ℤ pos 1 <ℤ pos 2)
      × ((get_stock_policy stocked).allow_backorder ≡ false)
      × (reserve_stock hold_of_two stocked
          ≡ (err (insufficient_stock (max_ℤ (pos 0) (pos 5 -ℤ pos 1))), stocked)))
    ⊎ (((pos 2 ≤ℤ pos 5 -ℤ pos 1) ⊎ ((get_stock_policy stocked).allow_backorder ≡ true))
        × IsHeld hold_of_two row_of_five stocked)
reserve_stock_outcome_example =
    reserve_stock_outcome hold_of_two 1 stocked row_of_five refl refl refl refl refl refl

release_reservation_twice_example :
    (s' : Stock) × (release_reservation 3 9 stocked ≡ (ok true, s'))
    × (find (has_id 3) s'.reservations
        ≡ some (record held_row { status = released; settled_at = some 9 }))
    × (find (is_row 1 2) s'.balances ≡ some (record row_of_five { reserved = pos 1 -ℤ pos 1 }))
    × (keep (λ y. not (has_id 3 y)) s'.reservations
        ≡ keep (λ y. not (has_id 3 y)) stocked.reservations)
    × (keep (λ y. not (is_row 1 2 y)) s'.balances ≡ keep (λ y. not (is_row 1 2 y)) stocked.balances)
    × (s'.movements ≡ stocked.movements)
    × (release_reservation 3 11 s' ≡ (ok false, s'))
release_reservation_twice_example =
    release_reservation_twice 3 9 11 stocked held_row row_of_five refl refl refl refl

three_complete : (cost_out row_of_five (pos 3) none).incomplete ≡ false
unfolding cost_out ◌-ℤ◌
three_complete = refl

cost_out_complete_example :
    ((cost_out row_of_five (pos 3) none).cost ≡ some (pos 30 *ℤ pos 3))
    × ((cost_out row_of_five (pos 3) none).uncosted ≡ pos 0)
cost_out_complete_example = cost_out_complete row_of_five 2 none (pos 30) refl three_complete
