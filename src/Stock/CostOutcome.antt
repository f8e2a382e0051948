-- ===== src/Stock/CostOutcome.antt =====
-- What an outflow of stock costs when it is not flagged as incomplete.
use trade_pal_africa.Base.{ℕ, suc, Bool, true, false, ◌||◌, ◌≡◌, refl, ap, ◌∙◌, arith, Option, some}
use trade_pal_africa.Base.Int.{ℤ, pos, ◌-ℤ◌, ◌*ℤ◌, ◌≤ℤ◌, ltb_ℤ, min_ℤ, max_ℤ, int_laws}
use trade_pal_africa.Stock.Rows.{Balance}
use trade_pal_africa.Stock.Costing.{
  uncosted_consumed, costed_portion, costed_units, beyond, cost_at, cost_out,
}

min_ℤ_le : (a b : ℤ) → min_ℤ a b ≤ℤ a
min_ℤ_le a b = ground arith

min_max_nonnegative : (n : ℕ) (u : ℤ) → pos 0 ≤ℤ min_ℤ (pos n) (max_ℤ (pos 0) u)
min_max_nonnegative n u = ground arith

not_above : (x : ℤ) → ltb_ℤ (pos 0) x ≡ false → x ≤ℤ pos 0
not_above x h = ground arith

either_false : (x y : Bool) → x || y ≡ false → (x ≡ false) × (y ≡ false)
either_false false false h = (refl, refl)
either_false false true h = cc
either_false true y h = cc

zero_of : (x : ℤ) → pos 0 ≤ℤ x → x ≤ℤ pos 0 → x ≡ pos 0
zero_of x p q = omega int_laws

whole_of : (q p : ℤ) → p ≤ℤ q -ℤ pos 0 → q -ℤ pos 0 -ℤ p ≤ℤ pos 0 → p ≡ q
whole_of q p h k = omega int_laws

suc_above : (n : ℕ) → ltb_ℤ (pos 0) (pos (suc n)) ≡ true
suc_above n = ground arith

all_costed : (q c p : ℤ) → c ≡ pos 0 → p ≤ℤ q -ℤ c → q -ℤ c -ℤ p ≤ℤ pos 0 → p ≡ q
all_costed q c p e h k = whole_of q p (rw e at h) (rw e at k)

cost_whole :
    (avg : Option ℤ) (a x : ℤ) (n : ℕ)
    → avg ≡ some a
    → x ≡ pos (suc n)
    → cost_at avg x ≡ some (a *ℤ pos (suc n))
cost_whole avg a x n e f = rw (e, f, suc_above n) refl

taken_from : (u : ℤ) → u -ℤ pos 0 ≡ u
taken_from u = omega int_laws

-- The parts of an outflow that takes no uncosted unit and none that was never on hand.
complete_parts :
    (b : Balance) (n : ℕ)
    → (ltb_ℤ (pos 0) (uncosted_consumed b (pos (suc n))) || ltb_ℤ (pos 0) (beyond b (pos (suc n))))
      ≡ false
    → (uncosted_consumed b (pos (suc n)) ≡ pos 0) × (costed_portion b (pos (suc n)) ≡ pos (suc n))
complete_parts b n h =
    let (u, y) = either_false _ _ h in
    let none_uncosted =
      zero_of (uncosted_consumed b (pos (suc n))) (min_max_nonnegative (suc n) b.uncosted)
        (not_above _ u) in
    let at_most = min_ℤ_le (pos (suc n) -ℤ uncosted_consumed b (pos (suc n))) (costed_units b) in
    let at_least = not_above (beyond b (pos (suc n))) y in
    (none_uncosted, all_costed (pos (suc n)) _ _ none_uncosted at_most at_least)

-- An outflow of units from a balance with an average cost, if it is not flagged as incomplete, costs
-- the average for every unit, and leaves the count of uncosted units as it was.
pub cost_out_complete :
    (b : Balance) (n : ℕ) (given : Option ℤ) (a : ℤ)
    → b.avg_cost ≡ some a
    → (cost_out b (pos (suc n)) given).incomplete ≡ false
    → ((cost_out b (pos (suc n)) given).cost ≡ some (a *ℤ pos (suc n)))
      × ((cost_out b (pos (suc n)) given).uncosted ≡ b.uncosted)
unfolding cost_out
cost_out_complete b n given a avg h =
    let (none_uncosted, all) = complete_parts b n h in
    (
      cost_whole b.avg_cost a _ n avg all,
      ap (λ x. b.uncosted -ℤ x) none_uncosted ∙ taken_from b.uncosted,
    )
