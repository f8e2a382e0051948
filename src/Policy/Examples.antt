-- ===== src/Policy/Examples.antt =====
-- src/domain/paymentPurpose.ts and riskLabel.ts: the theorems at concrete inputs.
use trade_pal_africa.Base.{some, List, All, ◌⊎◌, ◌≢◌, [], ◌∷◌, ◌≡◌, refl, ok}
use trade_pal_africa.Policy.Purpose.{
  pawapay, platform_subscription, assert_provider_allowed_for_purpose, one_purpose,
}
use trade_pal_africa.Policy.Risk.{
  DebtHistoryEntry, paid, unpaid, compute_risk_label, compute_risk_label_exact, IsSome, IsOverdue,
  IsPaidLate, risky, late_payer, good_payer, unknown,
}

subscription_let_through : assert_provider_allowed_for_purpose pawapay platform_subscription ≡ ok tt
unfolding assert_provider_allowed_for_purpose
subscription_let_through = refl

one_purpose_example : platform_subscription ≡ platform_subscription
one_purpose_example =
    one_purpose pawapay platform_subscription platform_subscription subscription_let_through
      subscription_let_through

abbrev paid_in_time : DebtHistoryEntry
paid_in_time = record { status = paid; due_date = some 50; updated_at = 40 }

abbrev still_unpaid : DebtHistoryEntry
still_unpaid = record { status = unpaid; due_date = some 60; updated_at = 10 }

abbrev two_debts : List DebtHistoryEntry
two_debts = paid_in_time ∷ still_unpaid ∷ []

overdue_label : compute_risk_label 90 two_debts ≡ risky
unfolding compute_risk_label
overdue_label = refl

late_label :
    compute_risk_label 55 (record paid_in_time { updated_at = 51 } ∷ still_unpaid ∷ []) ≡ late_payer
unfolding compute_risk_label
late_label = refl

compute_risk_label_exact_example :
    ((compute_risk_label 90 two_debts ≡ risky) × IsSome (IsOverdue 90) two_debts)
    ⊎ ((compute_risk_label 90 two_debts ≡ late_payer)
        × All (λ d. ¬ IsOverdue 90 d) two_debts
        × IsSome IsPaidLate two_debts)
    ⊎ ((compute_risk_label 90 two_debts ≡ good_payer)
        × All (λ d. ¬ IsOverdue 90 d) two_debts
        × All (λ d. ¬ IsPaidLate d) two_debts
        × IsSome (λ d. d.status ≡ paid) two_debts)
    ⊎ ((compute_risk_label 90 two_debts ≡ unknown)
        × All (λ d. ¬ IsOverdue 90 d) two_debts
        × All (λ d. d.status ≢ paid) two_debts)
compute_risk_label_exact_example = compute_risk_label_exact 90 two_debts
