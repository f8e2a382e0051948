-- ===== src/Refunds/Outcomes.antt =====
-- src/domain/merchantPayments/refunds.ts, `applyRefundOutcome`, and any sequence of requests and
-- events.
use trade_pal_africa.Base.{
  ℕ, Bool, false, ◌&&◌, Option, none, some, List, [], ◌∷◌, ◌==◌, if◌then◌else◌, find,
}
use trade_pal_africa.Refunds.Rows.{Attempt, Refund, Payments, refund_unknown, refund_amount, raise}
use trade_pal_africa.Refunds.Calls.{
  PaymentsError, Answer, succeeds, fails, Adapter, RefundInput, apply_refund_result,
  refund_through_provider,
}

-- A callback of a provider about a refund.
pub record RefundEvent : Type 0 where
  pub provider : ℕ
  pub payment_ref : ℕ
  pub refund_ref : ℕ
  pub has_succeeded : Bool
  pub amount : ℕ

abbrev pub answer_of : RefundEvent → Answer
answer_of e = if e.has_succeeded then succeeds else fails

abbrev pub status_code : RefundEvent → ℕ
status_code e = if e.has_succeeded then 1 else 0

abbrev names_ref : ℕ → Option ℕ → Bool
names_ref ref none = false
names_ref ref (some n) = n == ref

abbrev pub is_about : ℕ → ℕ → Refund → Bool
is_about attempt ref r = r.attempt_id == attempt && names_ref ref r.external_ref

abbrev pub refund_of : RefundEvent → Option ℕ → Payments → Option Refund
refund_of e none s = none
refund_of e (some i) s = find (is_about i e.refund_ref) s.refunds

module _ (booked : Refund → Bool) where
  unfoldable pub apply_to : RefundEvent → Option Refund → Payments → Payments
  unfolding raise
  apply_to e none s = raise (refund_unknown e.provider e.refund_ref) s
  apply_to e (some r) s =
      if e.amount == r.amount
      then apply_refund_result (λ _. none) booked r.id (answer_of e) (some e.refund_ref) s
      else raise (refund_amount r.id (status_code e)) s

  unfoldable pub apply_refund_outcome : RefundEvent → Payments → Payments
  unfolding apply_to
  apply_refund_outcome e s = apply_to e (refund_of e (s.attempt_of e.provider e.payment_ref) s) s

  -- A request, with the adapters as they answer at that time, or an event.
  pub data Happening : Type 0 where
    request : (ℕ → Option Adapter) → RefundInput → Happening
    event : RefundEvent → Happening

  module _ (validate : RefundInput → Attempt → Option PaymentsError)
      (others : Payments → Payments) where
    unfoldable pub happen : Happening → Payments → Payments
    unfolding apply_refund_outcome
    happen (request registry i) s = (refund_through_provider registry booked validate others i s).1
    happen (event e) s = apply_refund_outcome e s

    abbrev pub happen_all : List Happening → Payments → Payments
    happen_all [] s = s
    happen_all (h ∷ hs) s = happen_all hs (happen h s)
