-- ===== src/Refunds/Examples.antt =====
-- src/domain/merchantPayments/refunds.ts: two refunds of one payment, and the theorems at them.
use trade_pal_africa.Base.{
  ℕ, ◌+◌, ◌≤◌, Bool, true, false, ◌&&◌, Option, none, some, List, [], ◌∷◌, ◌==◌, if◌then◌else◌, ◌≡◌,
  refl, arith, err, Bool-cases, inl, inr, subst,
}
use mathlib.Core.Option.{some-injective}
use trade_pal_africa.Base.Int.{pos}
use trade_pal_africa.Refunds.Rows.{
  Attempt, succeeded, Intent, store_order, Payments, Refund, raise, release, reserve, mark_open,
}
use trade_pal_africa.Refunds.Calls.{
  PaymentsError, refund_limit, Adapter, Reply, answered, succeeds, rejected, RefundInput,
  refund_through_provider, fail_refund,
}
use trade_pal_africa.Refunds.Covered.{live}
use trade_pal_africa.Refunds.Safety.{Covered}
use trade_pal_africa.Refunds.Outcomes.{Happening, request, event, happen, happen_all}
use trade_pal_africa.Refunds.History.{refunds_within_captured}

abbrev an_attempt : Attempt
an_attempt = record {
  intent_id = 5;
  provider = 2;
  status = succeeded;
  captured = 100;
  refunded = 0;
}

abbrev an_intent : Intent
an_intent = record { subject = store_order; paid = 100; refunded = 0 }

abbrev some_payments : Payments
some_payments = record {
  attempts = λ i. if i == 1 then some an_attempt else none;
  intents = λ i. if i == 5 then some an_intent else none;
  refunds = [];
  exceptions = [];
  next_id = 1;
  attempt_of = λ provider ref. if provider == 2 && ref == 70 then some 1 else none;
}

abbrev a_request : ℕ → ℕ → RefundInput
a_request amount key = record {
  attempt_id = 1;
  amount_minor = pos amount;
  short_reason = false;
  key = key;
  has_target = true;
}

abbrev one_adapter : Reply → ℕ → Option Adapter
one_adapter reply i =
    if i == 2 then some (record { can_refund = true; refund = λ _. reply }) else none

abbrev all_booked : Refund → Bool
all_booked _ = true

abbrev all_valid : RefundInput → Attempt → Option PaymentsError
all_valid _ _ = none

abbrev nobody : Payments → Payments
nobody s = s

abbrev asking_sixty : Reply → Payments
asking_sixty reply =
    (refund_through_provider (one_adapter reply) all_booked all_valid nobody (a_request 60 9)
      some_payments).1

abbrev refunded_of : Option Attempt → ℕ
refunded_of none = 0
refunded_of (some a) = a.refunded

sixty_sent : refunded_of ((asking_sixty (answered succeeds none)).attempts 1) ≡ 60
unfolding refund_through_provider reserve mark_open
sixty_sent = refl

-- A refund that the provider rejects is given back, and a person is told.
sixty_rejected : refunded_of ((asking_sixty rejected).attempts 1) ≡ 0
unfolding refund_through_provider fail_refund release raise reserve mark_open
sixty_rejected = refl

second_sixty :
    (refund_through_provider
      (one_adapter rejected)
      all_booked
      all_valid
      nobody
      (a_request 60 10)
      (asking_sixty (answered succeeds none))).0
    ≡ err refund_limit
unfolding refund_through_provider reserve mark_open
second_sixty = refl

some_payments-Covered : Covered some_payments
unfolding live
some_payments-Covered j a e = elim (Bool-cases (j == 1)) [
  | inl q ↦
      subst (λ b. (0 + (if j == 0 then 0 else 0) ≤ b.refunded) × (b.refunded ≤ b.captured))
        (some-injective an_attempt a (rw q at e)) (ground arith, omega arith)
  | inr q ↦ let never = rw q at e in cc
]

-- A refund of 60 that the provider sends, one of 60 that is refused, one of 30 that is rejected, and an
-- event about a refund that is unknown.
abbrev four_happenings : List (Happening all_booked)
four_happenings =
    request (one_adapter (answered succeeds (some 80))) (a_request 60 9)
    ∷ request (one_adapter (answered succeeds none)) (a_request 60 10)
    ∷ request (one_adapter rejected) (a_request 30 11)
    ∷ event (record {
      provider = 2;
      payment_ref = 70;
      refund_ref = 81;
      has_succeeded = true;
      amount = 5;
    })
    ∷ []

abbrev at_the_end : Payments
at_the_end = happen_all all_booked all_valid nobody four_happenings some_payments

sixty_of_hundred : at_the_end.attempts 1 ≡ some (record an_attempt { refunded = 60 })
unfolding happen refund_through_provider fail_refund release raise reserve mark_open
sixty_of_hundred = refl

refunds_within_captured_example : live 1 at_the_end.refunds ≤ 100
refunds_within_captured_example =
    refunds_within_captured all_booked all_valid nobody (λ i x s h. h) four_happenings some_payments
      1 (record an_attempt { refunded = 60 }) some_payments-Covered sixty_of_hundred
