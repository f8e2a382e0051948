-- ===== src/Trade/Credit.antt =====
-- src/domain/trade/credit.ts: the exposure of a seller to a customer, and whether it allows more.
use trade_pal_africa.Base.{
  ℕ, ◌-◌, ◌/◌, Bool, true, false, ◌&&◌, Option, none, some, List, [], ◌∷◌, ◌++◌, max, leb, ltb,
  ◌==◌, if◌then◌else◌, find, keep, Result, ok, err, Call, ◌>>=◌, pure, or_throw, gets,
}
use trade_pal_africa.Base.Int.{ℤ, pos, ◌+ℤ◌, ◌-ℤ◌, leb_ℤ, ltb_ℤ}
use trade_pal_africa.Rounding.{RangeError}
use trade_pal_africa.Trade.Value.{cumulative_value}

pub data Side : Type 0 where
  buy sell : Side

pub data InvoiceStatus : Type 0 where
  issued other_invoice : InvoiceStatus

pub data Acceptance : Type 0 where
  accepted other_order : Acceptance

pub record Invoice : Type 0 where
  pub partner_id : ℕ
  pub side : Side
  pub status : InvoiceStatus
  pub total_minor : ℤ
  pub credited_minor : ℤ
  pub paid_minor : ℤ
  pub due_date : Option ℕ

pub record OrderLine : Type 0 where
  pub line_total_minor : ℤ
  pub base_quantity : ℕ
  pub shipped_base : ℕ

pub record Order : Type 0 where
  pub partner_id : ℕ
  pub side : Side
  pub acceptance : Acceptance
  pub lines : List OrderLine

pub record Partner : Type 0 where
  pub id : ℕ
  pub credit_limit_minor : Option ℤ
  pub block_when_overdue_days : Option ℕ

-- The rows of the seller.
pub record Ledger : Type 0 where
  pub partners : List Partner
  pub invoices : List Invoice
  pub orders : List Order

pub data CreditError : Type 0 where
  not_found : CreditError
  range : RangeError → CreditError

pub data Reason : Type 0 where
  limit_exceeded overdue_block : Reason

pub record CreditEvaluation : Type 0 where
  pub allowed : Bool
  pub reasons : List Reason
  pub exposure_minor : ℤ
  pub limit_minor : Option ℤ
  pub oldest_overdue_days : ℕ

abbrev pub outstanding_of : Invoice → ℤ
outstanding_of i = i.total_minor -ℤ i.credited_minor -ℤ i.paid_minor

-- src/domain/trade/orders.ts, `sumTotals`: the total of an order, which its acceptance asks credit for.
abbrev pub sum_totals : List OrderLine → ℤ
sum_totals [] = pos 0
sum_totals (l ∷ ls) = l.line_total_minor +ℤ sum_totals ls

abbrev is_sell : Side → Bool
is_sell sell = true
is_sell buy = false

abbrev is_issued : InvoiceStatus → Bool
is_issued issued = true
is_issued other_invoice = false

abbrev is_accepted : Acceptance → Bool
is_accepted accepted = true
is_accepted other_order = false

abbrev pub counts_invoice : ℕ → Invoice → Bool
counts_invoice p i = i.partner_id == p && is_sell i.side && is_issued i.status

abbrev pub counts_order : ℕ → Order → Bool
counts_order p o = o.partner_id == p && is_sell o.side && is_accepted o.acceptance

-- The loop over the invoices: one that is settled is passed over.
unfoldable pub invoiced : List Invoice → ℤ
invoiced [] = pos 0
invoiced (i ∷ is) =
    let rest = invoiced is in
    if leb_ℤ (outstanding_of i) (pos 0) then rest else outstanding_of i +ℤ rest

abbrev days_overdue : ℕ → Option ℕ → ℕ
days_overdue now none = 0
days_overdue now (some due) = if ltb due now then (now - due) / 86_400_000 else 0

unfoldable pub oldest_overdue : ℕ → List Invoice → ℕ
oldest_overdue now [] = 0
oldest_overdue now (i ∷ is) =
    let rest = oldest_overdue now is in
    if leb_ℤ (outstanding_of i) (pos 0) then rest else max (days_overdue now i.due_date) rest

abbrev pub uninvoiced_of :
    OrderLine → Result RangeError ℤ → Result RangeError ℤ → Result RangeError ℤ
uninvoiced_of l (err e) _ = err e
uninvoiced_of l (ok v) (err e) = err e
uninvoiced_of l (ok v) (ok rest) = ok (l.line_total_minor -ℤ v +ℤ rest)

-- What of the lines is accepted and not yet shipped.
unfoldable pub uninvoiced : List OrderLine → Result RangeError ℤ
unfolding cumulative_value
uninvoiced [] = ok (pos 0)
uninvoiced (l ∷ ls) =
    uninvoiced_of l (cumulative_value l.line_total_minor l.base_quantity l.shipped_base)
      (uninvoiced ls)

abbrev pub lines_of : List Order → List OrderLine
lines_of [] = []
lines_of (o ∷ os) = o.lines ++ lines_of os

abbrev pub or_range : Result RangeError ℤ → Call Ledger CreditError ℤ
or_range (ok a) s = (ok a, s)
or_range (err e) s = (err (range e), s)

abbrev pub over_limit : Option ℤ → ℤ → Bool
over_limit none a = false
over_limit (some limit) a = ltb_ℤ limit a

abbrev pub blocked : Option ℕ → ℕ → Bool
blocked none days = false
blocked (some cut) days = leb cut days && ltb 0 days

abbrev when : Bool → Reason → List Reason
when b r = if b then r ∷ [] else []

unfoldable pub reasons_for : Partner → ℤ → ℕ → List Reason
reasons_for p wanted days =
    when (over_limit p.credit_limit_minor wanted) limit_exceeded
    ++ when (blocked p.block_when_overdue_days days) overdue_block

abbrev pub is_empty : List Reason → Bool
is_empty [] = true
is_empty _ = false

abbrev pub evaluation : Partner → ℤ → ℤ → ℕ → CreditEvaluation
evaluation p exposure additional days = record {
  allowed = is_empty (reasons_for p (exposure +ℤ additional) days);
  reasons = reasons_for p (exposure +ℤ additional) days;
  exposure_minor = exposure;
  limit_minor = p.credit_limit_minor;
  oldest_overdue_days = days;
}

abbrev pub has_partner : ℕ → Partner → Bool
has_partner i p = p.id == i

unfoldable pub evaluate_trade_credit : ℕ → ℤ → ℕ → Call Ledger CreditError CreditEvaluation
unfolding invoiced oldest_overdue uninvoiced reasons_for
evaluate_trade_credit partner additional now = do
  s ← gets (λ s. s)
  p ← or_throw (find (has_partner partner) s.partners) not_found
  let invoices = keep (counts_invoice p.id) s.invoices
  open_value ← or_range (uninvoiced (lines_of (keep (counts_order p.id) s.orders)))
  pure (evaluation p (invoiced invoices +ℤ open_value) additional (oldest_overdue now invoices))
