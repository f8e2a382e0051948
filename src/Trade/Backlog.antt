-- ===== src/Trade/Backlog.antt =====
-- src/domain/trade/credit.ts: what of a customer's orders is accepted and not invoiced, before and
-- after the acceptance of one.
use trade_pal_africa.Base.{
  ℕ, true, false, List, [], ◌∷◌, ◌++◌, Result, ok, err, keep, All, ◌≡◌, refl, ap, ◌∙◌, inl, inr,
  Bool-cases, arith,
}
use trade_pal_africa.Base.Int.{ℤ, pos, pos_part, neg_part, ◌+ℤ◌, ◌-ℤ◌, int_laws}
use trade_pal_africa.Rounding.{RangeError}
use trade_pal_africa.Trade.Value.{cumulative_value}
use trade_pal_africa.Trade.Credit.{
  Order, OrderLine, sell, accepted, other_order, uninvoiced, uninvoiced_of, sum_totals, lines_of,
  counts_order,
}

value_of : ℤ → Result RangeError ℤ → ℤ
value_of d (ok a) = a
value_of d (err _) = d

-- The equation of two integers, part by part.
parts : {a b : ℤ} → a ≡ b → (pos_part a ≡ pos_part b) × (neg_part a ≡ neg_part b)
parts e = (ap pos_part e, ap neg_part e)

pushed : (a w t u : ℤ) → a +ℤ w ≡ u → a +ℤ (w +ℤ t) ≡ u +ℤ t
pushed a w t u h = omega (int_laws, parts h)

grown_line :
    (l : OrderLine) (v rest rest' : Result RangeError ℤ) (t u : ℤ)
    → ((w : ℤ) → rest ≡ ok w → rest' ≡ ok (w +ℤ t))
    → uninvoiced_of l v rest ≡ ok u
    → uninvoiced_of l v rest' ≡ ok (u +ℤ t)
unfolding value_of
grown_line l (err x) rest rest' t u grow h = cc
grown_line l (ok v) (err x) rest' t u grow h = cc
grown_line l (ok v) (ok w) rest' t u grow h =
    rw (grow w refl) (ap ok (pushed (l.line_total_minor -ℤ v) w t u (ap (value_of u) h)))

-- More that is uninvoiced at the end is more in all.
uninvoiced-grown :
    (ls bs bs' : List OrderLine) (t u : ℤ)
    → ((w : ℤ) → uninvoiced bs ≡ ok w → uninvoiced bs' ≡ ok (w +ℤ t))
    → uninvoiced (ls ++ bs) ≡ ok u
    → uninvoiced (ls ++ bs') ≡ ok (u +ℤ t)
unfolding uninvoiced
uninvoiced-grown [] bs bs' t u grow h = grow u h
uninvoiced-grown (l ∷ ls) bs bs' t u grow h =
    grown_line l (cumulative_value l.line_total_minor l.base_quantity l.shipped_base)
      (uninvoiced (ls ++ bs)) (uninvoiced (ls ++ bs')) t u
      (λ w. uninvoiced-grown ls bs bs' t w grow) h

at_the_front : (t w rest : ℤ) → t -ℤ pos 0 +ℤ (w +ℤ rest) ≡ w +ℤ (t +ℤ rest)
at_the_front t w rest = omega int_laws

plus_none : (w : ℤ) → w ≡ w +ℤ pos 0
plus_none w = omega int_laws

uninvoiced-unshipped :
    (ls bs : List OrderLine) (w : ℤ)
    → All (λ (l : OrderLine). l.shipped_base ≡ 0) ls
    → uninvoiced bs ≡ ok w
    → uninvoiced (ls ++ bs) ≡ ok (w +ℤ sum_totals ls)
unfolding uninvoiced cumulative_value
uninvoiced-unshipped [] bs w none_shipped h = h ∙ ap ok (plus_none w)
uninvoiced-unshipped (l ∷ ls) bs w none_shipped h =
    rw (none_shipped.0, uninvoiced-unshipped ls bs w none_shipped.1 h)
      (ap ok (at_the_front l.line_total_minor w (sum_totals ls)))

-- The value of a seller's orders to a customer that are accepted and not invoiced.
abbrev pub open_value : ℕ → List Order → Result RangeError ℤ
open_value p os = uninvoiced (lines_of (keep (counts_order p) os))

counted :
    (p : ℕ) (o : Order)
    → o.partner_id ≡ p
    → o.side ≡ sell
    → counts_order p (record o { acceptance = accepted }) ≡ true
counted p o its sells = rw (sells) (ground arith)

uncounted : (p : ℕ) (o : Order) → counts_order p (record o { acceptance = other_order }) ≡ false
uncounted p o = ground arith

pub open_value-accepted :
    (p : ℕ) (o : Order) (xs ys : List Order) (u : ℤ)
    → o.partner_id ≡ p
    → o.side ≡ sell
    → All (λ (l : OrderLine). l.shipped_base ≡ 0) o.lines
    → open_value p (xs ++ record o { acceptance = other_order } ∷ ys) ≡ ok u
    → open_value p (xs ++ record o { acceptance = accepted } ∷ ys) ≡ ok (u +ℤ sum_totals o.lines)
open_value-accepted p o [] ys u its sells unshipped h = rw (counted p o its sells) (
    uninvoiced-unshipped o.lines (lines_of (keep (counts_order p) ys)) u unshipped
      (rw (uncounted p o) at h))
open_value-accepted p o (x ∷ xs) ys u its sells unshipped h = elim (Bool-cases (counts_order p x)) [
  | inl e ↦ rw e (
      uninvoiced-grown x.lines _ _ (sum_totals o.lines) u
        (λ w. open_value-accepted p o xs ys w its sells unshipped) (rw e at h))
  | inr e ↦ rw e (open_value-accepted p o xs ys u its sells unshipped (rw e at h))
]
