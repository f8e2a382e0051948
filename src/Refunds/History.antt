-- ===== src/Refunds/History.antt =====
-- src/domain/merchantPayments/refunds.ts: what is refunded, over any sequence of requests and events.
use trade_pal_africa.Base.{
  ℕ, ◌≤◌, Bool, Option, none, some, List, [], ◌∷◌, ◌==◌, ◌≡◌, arith, Bool-cases, inl, inr,
}
use trade_pal_africa.Refunds.Rows.{Attempt, Refund, Payments, refund_unknown, refund_amount}
use trade_pal_africa.Refunds.Calls.{PaymentsError, RefundInput}
use trade_pal_africa.Refunds.Outcomes.{
  RefundEvent, answer_of, status_code, apply_to, apply_refund_outcome, refund_of, Happening,
  request, event, happen, happen_all,
}
use trade_pal_africa.Refunds.Covered.{CoveredWith, live}
use trade_pal_africa.Refunds.Safety.{Covered, raise-CoveredWith, apply_refund_result-Covered}
use trade_pal_africa.Refunds.Bound.{refund_through_provider-Covered}

module _ (booked : Refund → Bool) where
  apply_to-Covered :
      (e : RefundEvent) (o : Option Refund) (s : Payments)
      → Covered s
      → Covered (apply_to booked e o s)
  unfolding apply_to
  apply_to-Covered e none s h = raise-CoveredWith 0 0 (refund_unknown e.provider e.refund_ref) s h
  apply_to-Covered e (some r) s h = elim (Bool-cases (e.amount == r.amount)) [
    | inl q ↦
        rw q (
          apply_refund_result-Covered (λ _. none) booked r.id (answer_of e) (some e.refund_ref) s h)
    | inr q ↦ rw q (raise-CoveredWith 0 0 (refund_amount r.id (status_code e)) s h)
  ]

  module _ (validate : RefundInput → Attempt → Option PaymentsError) (others : Payments → Payments)
      (calm : (i x : ℕ) (s : Payments) → CoveredWith i x s → CoveredWith i x (others s)) where
    happen-Covered :
        (h : Happening booked) (s : Payments)
        → Covered s
        → Covered (happen booked validate others h s)
    unfolding happen apply_refund_outcome
    happen-Covered (request registry i) s c =
        refund_through_provider-Covered registry booked validate others calm i s c
    happen-Covered (event e) s c =
        apply_to-Covered e (refund_of e (s.attempt_of e.provider e.payment_ref) s) s c

    happen_all-Covered :
        (hs : List (Happening booked)) (s : Payments)
        → Covered s
        → Covered (happen_all booked validate others hs s)
    happen_all-Covered [] s c = c
    happen_all-Covered (h ∷ hs) s c =
        happen_all-Covered hs (happen booked validate others h s) (happen-Covered h s c)

    -- Where other clients leave what is reserved covered and, of every attempt, the refunds that have
    -- not failed are within what is reserved and that within what was captured, then after any
    -- sequence of requests and events, whatever the adapters, the store's checks and its bookkeeping
    -- answer, the refunds of an attempt that have not failed come to no more than it captured.
    pub refunds_within_captured :
        (hs : List (Happening booked)) (s : Payments) (i : ℕ) (a : Attempt)
        → Covered s
        → (happen_all booked validate others hs s).attempts i ≡ some a
        → live i (happen_all booked validate others hs s).refunds ≤ a.captured
    refunds_within_captured hs s i a c e =
        let within = happen_all-Covered hs s c i a e in omega (arith, within)
