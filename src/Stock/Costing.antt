-- ===== src/Stock/Costing.antt =====
-- src/domain/stock.ts: what a movement does to the average cost of a balance, and what it costs.
use trade_pal_africa.Base.{Bool, false, ◌||◌, Option, none, some, if◌then◌else◌, Result, ok, err}
use trade_pal_africa.Base.Int.{ℤ, pos, ◌+ℤ◌, ◌-ℤ◌, ◌*ℤ◌, neg, ltb_ℤ, ◌==ℤ◌, max_ℤ, min_ℤ}
use trade_pal_africa.Rounding.{RangeError, div_round_half_up}
use trade_pal_africa.Stock.Rows.{StockError, invalid, division_error, Balance}

pub record Costing : Type 0 where
  pub avg : Option ℤ
  pub uncosted : ℤ
  pub cost : Option ℤ
  pub unit_cost : Option ℤ
  pub incomplete : Bool

abbrev pub costed_units : Balance → ℤ
costed_units b = max_ℤ (pos 0) (b.on_hand -ℤ b.uncosted)

abbrev pub average_or_throw : Balance → Option ℤ → Result RangeError ℤ → Result StockError Costing
average_or_throw b unit_cost (ok avg) = ok (record {
  avg = some avg;
  uncosted = b.uncosted;
  cost = none;
  unit_cost = unit_cost;
  incomplete = false;
})
average_or_throw b unit_cost (err _) = err division_error

-- The moving average over the costed units, once `q` units at the cost `c` have come in.
unfoldable pub moving_average : Option ℤ → ℤ → ℤ → ℤ → Result RangeError ℤ
moving_average none costed_before c q = ok c
moving_average (some avg) costed_before c q =
    if costed_before ==ℤ pos 0
    then ok c
    else div_round_half_up (avg *ℤ costed_before +ℤ c *ℤ q) (costed_before +ℤ q)

-- Units that come in: with a cost they join the average, without one they are tracked.
unfoldable pub cost_in : Balance → ℤ → Option ℤ → Result StockError Costing
unfolding moving_average
cost_in b q (some c) =
    if ltb_ℤ c (pos 0)
    then err invalid
    else average_or_throw b (some c) (moving_average b.avg_cost (costed_units b) c q)
cost_in b q none = ok (record {
  avg = b.avg_cost;
  uncosted = b.uncosted +ℤ q;
  cost = none;
  unit_cost = none;
  incomplete = false;
})

-- The units of an outflow of `q`: the uncosted ones first, then the costed ones, then those that
-- were never on hand.
abbrev pub uncosted_consumed : Balance → ℤ → ℤ
uncosted_consumed b q = min_ℤ q (max_ℤ (pos 0) b.uncosted)

abbrev pub costed_portion : Balance → ℤ → ℤ
costed_portion b q = min_ℤ (q -ℤ uncosted_consumed b q) (costed_units b)

abbrev pub beyond : Balance → ℤ → ℤ
beyond b q = q -ℤ uncosted_consumed b q -ℤ costed_portion b q

-- The cost of `n` units at the average, if there is an average and a unit.
abbrev pub cost_at : Option ℤ → ℤ → Option ℤ
cost_at none n = none
cost_at (some avg) n = if ltb_ℤ (pos 0) n then some (avg *ℤ n) else none

abbrev pub unit_cost_at : Option ℤ → ℤ → Option ℤ
unit_cost_at none n = none
unit_cost_at (some avg) n = if ltb_ℤ (pos 0) n then some avg else none

abbrev pub given_or : Option ℤ → Option ℤ → Option ℤ
given_or none d = d
given_or (some c) d = some c

unfoldable pub cost_out : Balance → ℤ → Option ℤ → Costing
cost_out b q given = record {
  avg = b.avg_cost;
  uncosted = b.uncosted -ℤ uncosted_consumed b q;
  cost = cost_at b.avg_cost (costed_portion b q);
  unit_cost = given_or given (unit_cost_at b.avg_cost (costed_portion b q));
  incomplete = ltb_ℤ (pos 0) (uncosted_consumed b q) || ltb_ℤ (pos 0) (beyond b q);
}

abbrev pub avg_or : Option ℤ → Option ℤ → Option ℤ
avg_or none given = given
avg_or (some avg) _ = some avg

-- Quarantined units that are written off leave at the average.
unfoldable pub cost_quarantined : Balance → ℤ → Option ℤ → Costing
cost_quarantined b damaged_delta given = record {
  avg = b.avg_cost;
  uncosted = b.uncosted;
  cost = cost_at b.avg_cost (neg damaged_delta);
  unit_cost = if ltb_ℤ damaged_delta (pos 0) then avg_or b.avg_cost given else given;
  incomplete = false;
}

unfoldable pub costing : Balance → ℤ → ℤ → Option ℤ → Result StockError Costing
unfolding cost_in cost_out cost_quarantined
costing b on_hand_delta damaged_delta unit_cost =
    if ltb_ℤ (pos 0) on_hand_delta
    then cost_in b on_hand_delta unit_cost
    else if ltb_ℤ on_hand_delta (pos 0)
    then ok (cost_out b (neg on_hand_delta) unit_cost)
    else ok (cost_quarantined b damaged_delta unit_cost)
