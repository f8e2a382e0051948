-- ===== src/Trade/Examples.antt =====
-- src/domain/trade/common.ts and credit.ts: a line in three shipments, and a customer at the limit.
use trade_pal_africa.Base.{true, false, ◌↔◌, none, some, List, [], ◌∷◌, All, ◌≡◌, refl, arith, ok}
use trade_pal_africa.Base.Int.{ℤ, pos, ◌+ℤ◌, ◌-ℤ◌, ◌≤ℤ◌, ◌*ℤ◌}
use trade_pal_africa.Rounding.{half_up}
use trade_pal_africa.Trade.Value.{charge_each, sum_ℤ}
use trade_pal_africa.Trade.Credit.{
  Ledger, Order, Partner, Invoice, issued, other_order, CreditEvaluation, OrderLine, sell, accepted,
  evaluate_trade_credit, limit_exceeded,
}
use trade_pal_africa.Trade.Charging.{charge_each_exact}
use trade_pal_africa.Trade.Exposure.{IsWithin, IsClear, evaluate_trade_credit_foresees}

three_thirds : charge_each (pos 100) 3 0 (1 ∷ 1 ∷ 1 ∷ []) ≡ ok (pos 33 ∷ pos 34 ∷ pos 33 ∷ [])
unfolding charge_each half_up ◌*ℤ◌ ◌-ℤ◌
three_thirds = refl

charge_each_exact_example :
    (charges : List ℤ) × (charge_each (pos 100) 3 0 (1 ∷ 1 ∷ 1 ∷ []) ≡ ok charges)
    × (sum_ℤ charges ≡ pos 100)
    × All (λ a. pos 0 ≤ℤ a) charges
charge_each_exact_example = charge_each_exact 100 3 (1 ∷ 1 ∷ 1 ∷ []) (omega arith) (omega arith)

abbrev a_line : OrderLine
a_line = record { line_total_minor = pos 100; base_quantity = 3; shipped_base = 1 }

abbrev an_invoice : Invoice
an_invoice = record {
  partner_id = 4;
  side = sell;
  status = issued;
  total_minor = pos 33;
  credited_minor = pos 0;
  paid_minor = pos 0;
  due_date = none;
}

abbrev a_ledger : Ledger
a_ledger = record {
  partners =
      record { id = 4; credit_limit_minor = some (pos 90); block_when_overdue_days = none } ∷ [];
  invoices = an_invoice ∷ [];
  orders = record { partner_id = 4; side = sell; acceptance = accepted; lines = a_line ∷ [] } ∷ [];
}

-- 33 invoiced and 67 still to ship are above a limit of 90.
limit_reached :
    (evaluate_trade_credit 4 (pos 0) 500 a_ledger).0
    ≡ ok (record {
      allowed = false;
      reasons = limit_exceeded ∷ [];
      exposure_minor = pos 100;
      limit_minor = some (pos 90);
      oldest_overdue_days = 0;
    })
unfolding evaluate_trade_credit half_up ◌*ℤ◌ ◌-ℤ◌ ◌+ℤ◌
limit_reached = refl

abbrev a_partner : Partner
a_partner = record { id = 4; credit_limit_minor = some (pos 90); block_when_overdue_days = none }

abbrev an_order : Order
an_order = record {
  partner_id = 4;
  side = sell;
  acceptance = other_order;
  lines = record { line_total_minor = pos 40; base_quantity = 8; shipped_base = 0 } ∷ [];
}

abbrev credit_for_forty : CreditEvaluation
credit_for_forty = record {
  allowed = true;
  reasons = [];
  exposure_minor = pos 33;
  limit_minor = some (pos 90);
  oldest_overdue_days = 0;
}

forty_allowed :
    (evaluate_trade_credit 4 (pos 40) 500 (record a_ledger { orders = an_order ∷ [] })).0
    ≡ ok credit_for_forty
unfolding evaluate_trade_credit ◌-ℤ◌ ◌+ℤ◌
forty_allowed = refl

evaluate_trade_credit_foresees_example :
    (e : CreditEvaluation) × ((evaluate_trade_credit 4
        (pos 0)
        500
        (record a_ledger { orders = record an_order { acceptance = accepted } ∷ [] })).0
      ≡ ok e)
    × (e.exposure_minor ≡ pos 33 +ℤ pos 40)
    × ((true ≡ true)
        ↔ (IsWithin (some (pos 90)) e.exposure_minor × IsClear none e.oldest_overdue_days))
unfolding ◌+ℤ◌
evaluate_trade_credit_foresees_example =
    evaluate_trade_credit_foresees 500 a_ledger a_partner an_order [] [] credit_for_forty refl refl
      refl (refl, tt) forty_allowed
