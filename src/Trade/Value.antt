-- ===== src/Trade/Value.antt =====
-- src/domain/trade/common.ts, `cumulativeValue`, and the charge of a shipment in
-- src/domain/trade/fulfilment.ts. Quantities are natural: the code's tests for zero or less are tests
-- for zero.
use trade_pal_africa.Base.{ℕ, ◌+◌, List, [], ◌∷◌, leb, ◌==◌, if◌then◌else◌, Result, ok, err}
use trade_pal_africa.Base.Int.{ℤ, pos, ◌+ℤ◌, ◌-ℤ◌, ◌*ℤ◌}
use trade_pal_africa.Rounding.{RangeError, div_round_half_up}

unfoldable pub cumulative_value : ℤ → ℕ → ℕ → Result RangeError ℤ
unfolding div_round_half_up
cumulative_value line_total ordered cum =
    if cum == 0
    then ok (pos 0)
    else if leb ordered cum
    then ok line_total
    else div_round_half_up (line_total *ℤ pos cum) (pos ordered)

abbrev pub less : Result RangeError ℤ → Result RangeError ℤ → Result RangeError ℤ
less (err e) _ = err e
less (ok a) (err e) = err e
less (ok a) (ok b) = ok (a -ℤ b)

-- The value of `quantity` units that are shipped after `shipped` of them.
unfoldable pub charge : ℤ → ℕ → ℕ → ℕ → Result RangeError ℤ
unfolding cumulative_value
charge line_total ordered shipped quantity =
    less (cumulative_value line_total ordered (shipped + quantity))
      (cumulative_value line_total ordered shipped)

abbrev pub before_all :
    Result RangeError ℤ → Result RangeError (List ℤ) → Result RangeError (List ℤ)
before_all (err e) _ = err e
before_all (ok a) (err e) = err e
before_all (ok a) (ok bs) = ok (a ∷ bs)

-- One shipment after the other.
unfoldable pub charge_each : ℤ → ℕ → ℕ → List ℕ → Result RangeError (List ℤ)
unfolding charge
charge_each line_total ordered shipped [] = ok []
charge_each line_total ordered shipped (q ∷ qs) =
    before_all (charge line_total ordered shipped q)
      (charge_each line_total ordered (shipped + q) qs)

abbrev pub sum_ℤ : List ℤ → ℤ
sum_ℤ [] = pos 0
sum_ℤ (a ∷ bs) = a +ℤ sum_ℤ bs
