-- ===== src/Trade/Exposure.antt =====
-- src/domain/trade/credit.ts: what a credit decision on an order foresees of its acceptance.
use trade_pal_africa.Base.{
  ℕ, zero, suc, ◌>>=◌, pure, subst, ◌<◌, true, false, Option, none, some, List, ◌∷◌, ◌++◌, Result,
  ok, err, find, keep, All, ◌≡◌, refl, sym, ap, ◌∙◌, ◌⊎◌, ◌↔◌, inl, inr, Bool-cases, arith,
}
use trade_pal_africa.Base.Int.{ℤ, pos, ◌+ℤ◌, ◌≤ℤ◌, int_laws}
use trade_pal_africa.Rounding.{RangeError}
use trade_pal_africa.Trade.Credit.{
  Order, OrderLine, Partner, Ledger, CreditError, CreditEvaluation, sell, accepted, other_order,
  range, sum_totals, invoiced, oldest_overdue, counts_invoice, evaluation, has_partner, reasons_for,
  evaluate_trade_credit, is_empty, over_limit, blocked, or_range,
}
use trade_pal_africa.Trade.Backlog.{open_value, open_value-accepted}

-- An exposure that the limit of a customer allows.
abbrev pub IsWithin : Option ℤ → ℤ → Type 0
IsWithin none exposure = Unit {0}
IsWithin (some limit) exposure = exposure ≤ℤ limit

-- An oldest overdue invoice that does not block a customer: it is of no day, or of fewer days than
-- the rule blocks from.
abbrev pub IsClear : Option ℕ → ℕ → Type 0
IsClear none days = Unit {0}
IsClear (some cut) days = (days ≡ 0) ⊎ (days < cut)

-- The answer for a known customer, from the value that is open.
answer : Partner → ℤ → ℕ → ℤ → Result RangeError ℤ → Result CreditError CreditEvaluation
answer p invoices days additional (err x) = err (range x)
answer p invoices days additional (ok u) = ok (evaluation p (invoices +ℤ u) additional days)

from_value :
    (s : Ledger) (p : Partner) (invoices additional : ℤ) (days : ℕ) (r : Result RangeError ℤ)
    → ((or_range r >>= λ u. pure (evaluation p (invoices +ℤ u) additional days)) s).0
      ≡ answer p invoices days additional r
unfolding answer
from_value s p invoices additional days (ok u) = refl
from_value s p invoices additional days (err x) = refl

evaluate-answer :
    (partner now : ℕ) (additional : ℤ) (s : Ledger) (p : Partner)
    → find (has_partner partner) s.partners ≡ some p
    → let invoices = keep (counts_invoice p.id) s.invoices in
      (evaluate_trade_credit partner additional now s).0
      ≡ answer p
          (invoiced invoices)
          (oldest_overdue now invoices)
          additional
          (open_value p.id s.orders)
unfolding evaluate_trade_credit answer
evaluate-answer partner now additional s p found =
    let invoices = keep (counts_invoice p.id) s.invoices in
    rw found (
      from_value s p (invoiced invoices) additional (oldest_overdue now invoices)
        (open_value p.id s.orders))

over_limit-IsWithin : (limit : Option ℤ) (a : ℤ) → (over_limit limit a ≡ false) ↔ IsWithin limit a
over_limit-IsWithin none a = ((λ _. tt), (λ _. refl))
over_limit-IsWithin (some limit) a = ((λ h. ground arith), (λ h. ground arith))

blocked-IsClear : (cut : Option ℕ) (days : ℕ) → (blocked cut days ≡ false) ↔ IsClear cut days
blocked-IsClear none days = ((λ _. tt), (λ _. refl))
blocked-IsClear (some cut) zero = ((λ _. inl refl), (λ _. ground arith))
blocked-IsClear (some cut) (suc n) = ((λ h. inr (ground arith)), (λ h. ground arith))

allowed_exact :
    (p : Partner) (a : ℤ) (days : ℕ)
    → (is_empty (reasons_for p a days) ≡ true)
      ↔ (IsWithin p.credit_limit_minor a × IsClear p.block_when_overdue_days days)
unfolding reasons_for
allowed_exact p a days =
    let (to, from) = over_limit-IsWithin p.credit_limit_minor a in
    let (to_clear, from_clear) = blocked-IsClear p.block_when_overdue_days days in
    (
      λ h. elim (Bool-cases (over_limit p.credit_limit_minor a)) [
        | inl e ↦ let wrong = rw e at h in absurd (ground arith)
        | inr e ↦ elim (Bool-cases (blocked p.block_when_overdue_days days)) [
          | inl k ↦ let wrong = rw (e, k) at h in absurd (ground arith)
          | inr k ↦ (to e, to_clear k)
        ]
      ],
      λ h. rw (from h.0, from_clear h.1) refl,
    )

exposed : (a u t : ℤ) → a +ℤ (u +ℤ t) ≡ a +ℤ u +ℤ t
exposed a u t = omega int_laws

evaluation_of : CreditEvaluation → Result CreditError CreditEvaluation → CreditEvaluation
evaluation_of d (ok e) = e
evaluation_of d (err _) = d

-- An evaluation, and the one after the acceptance of an order for `t`, from the value open before.
abbrev Foresees : Partner → ℤ → ℕ → ℤ → Result RangeError ℤ → CreditEvaluation → Type 0
Foresees p invoices days t after e =
    (e' : CreditEvaluation) × (answer p invoices days (pos 0) after ≡ ok e')
    × (e'.exposure_minor ≡ e.exposure_minor +ℤ t)
    × ((e.allowed ≡ true) ↔ (
        IsWithin p.credit_limit_minor e'.exposure_minor
        × IsClear p.block_when_overdue_days e'.oldest_overdue_days))

evaluation-Foresees :
    (p : Partner) (invoices u t : ℤ) (days : ℕ)
    → Foresees p invoices days t (ok (u +ℤ t)) (evaluation p (invoices +ℤ u) t days)
unfolding answer
evaluation-Foresees p invoices u t days = (
  evaluation p (invoices +ℤ (u +ℤ t)) (pos 0) days,
  refl,
  exposed invoices u t,
  subst
      (λ a.
        (is_empty (reasons_for p (invoices +ℤ u +ℤ t) days) ≡ true)
        ↔ (IsWithin p.credit_limit_minor a × IsClear p.block_when_overdue_days days))
      (sym (exposed invoices u t)) (allowed_exact p (invoices +ℤ u +ℤ t) days),
)

foreseen :
    (p : Partner) (invoices t : ℤ) (days : ℕ) (before after : Result RangeError ℤ)
    (e : CreditEvaluation)
    → ((u : ℤ) → before ≡ ok u → after ≡ ok (u +ℤ t))
    → answer p invoices days t before ≡ ok e
    → Foresees p invoices days t after e
unfolding answer evaluation_of
foreseen p invoices t days (err x) after e grows h = cc
foreseen p invoices t days (ok u) after e grows h =
    subst (λ r. Foresees p invoices days t r e) (sym (grows u refl))
      (subst (λ x. Foresees p invoices days t (ok (u +ℤ t)) x) (ap (evaluation_of e) h)
        (evaluation-Foresees p invoices u t days))

-- What a credit decision foresees. For a known customer and a sales order of theirs that is not
-- accepted yet and of which nothing was shipped, let the evaluation for the order's total answer
-- `e`. Then the evaluation after the order's acceptance answers, with its total added to the
-- exposure, and `e` allows the order exactly where the exposure after it is within the limit of
-- the customer, if there is one, and the oldest overdue invoice is of no day or, if there is a
-- rule, of fewer days than it blocks from.
pub evaluate_trade_credit_foresees :
    (now : ℕ) (s : Ledger) (p : Partner) (o : Order) (xs ys : List Order) (e : CreditEvaluation)
    → find (has_partner p.id) s.partners ≡ some p
    → o.partner_id ≡ p.id
    → o.side ≡ sell
    → All (λ (l : OrderLine). l.shipped_base ≡ 0) o.lines
    → (evaluate_trade_credit p.id
        (sum_totals o.lines)
        now
        (record s { orders = xs ++ record o { acceptance = other_order } ∷ ys })).0
      ≡ ok e
    → (e' : CreditEvaluation) × ((evaluate_trade_credit p.id
          (pos 0)
          now
          (record s { orders = xs ++ record o { acceptance = accepted } ∷ ys })).0
        ≡ ok e')
      × (e'.exposure_minor ≡ e.exposure_minor +ℤ sum_totals o.lines)
      × ((e.allowed ≡ true) ↔ (
          IsWithin p.credit_limit_minor e'.exposure_minor
          × IsClear p.block_when_overdue_days e'.oldest_overdue_days))
evaluate_trade_credit_foresees now s p o xs ys e found its sells unshipped before =
    let invoices = keep (counts_invoice p.id) s.invoices in
    let t = sum_totals o.lines in
    let pending = record s { orders = xs ++ record o { acceptance = other_order } ∷ ys } in
    let done = record s { orders = xs ++ record o { acceptance = accepted } ∷ ys } in
    let (e', answered, exposure, allowed) =
      foreseen p (invoiced invoices) t (oldest_overdue now invoices) _ _ e
        (λ u. open_value-accepted p.id o xs ys u its sells unshipped)
        (sym (evaluate-answer p.id now t pending p found) ∙ before) in
    (e', evaluate-answer p.id now (pos 0) done p found ∙ answered, exposure, allowed)
