-- ===== src/Policy/Risk.antt =====
-- src/domain/riskLabel.ts: the label of a customer from the history of debts.
use trade_pal_africa.Base.{
  ℕ, Bool, true, false, ◌&&◌, Option, none, some, List, [], ◌∷◌, ◌++◌, ltb, if◌then◌else◌, any, ◌≡◌,
  ◌≢◌, refl, arith, ◌⊎◌, inl, inr, ◌<◌, Bool-cases, All, ap, ◌∙◌,
}

pub data DebtStatus : Type 0 where
  unpaid partially_paid paid written_off : DebtStatus

pub record DebtHistoryEntry : Type 0 where
  pub status : DebtStatus
  pub due_date : Option ℕ
  pub updated_at : ℕ

pub data RiskLabel : Type 0 where
  unknown good_payer late_payer risky : RiskLabel

abbrev is_owed : DebtStatus → Bool
is_owed unpaid = true
is_owed partially_paid = true
is_owed _ = false

abbrev pub is_paid : DebtStatus → Bool
is_paid paid = true
is_paid _ = false

abbrev is_before : Option ℕ → ℕ → Bool
is_before none t = false
is_before (some d) t = ltb d t

abbrev pub is_overdue_open : ℕ → DebtHistoryEntry → Bool
is_overdue_open now d = is_owed d.status && is_before d.due_date now

abbrev pub is_paid_late : DebtHistoryEntry → Bool
is_paid_late d = is_paid d.status && is_before d.due_date d.updated_at

unfoldable pub label_of : Bool → Bool → Bool → RiskLabel
label_of overdue late settled =
    if overdue then risky else if late then late_payer else if settled then good_payer else unknown

unfoldable pub compute_risk_label : ℕ → List DebtHistoryEntry → RiskLabel
unfolding label_of
compute_risk_label now [] = unknown
compute_risk_label now (d ∷ ds) =
    label_of (any (is_overdue_open now) (d ∷ ds)) (any is_paid_late (d ∷ ds))
      (any (λ e. is_paid e.status) (d ∷ ds))

label-any :
    (now : ℕ) (ds : List DebtHistoryEntry)
    → compute_risk_label now ds
      ≡ label_of
          (any (is_overdue_open now) ds)
          (any is_paid_late ds)
          (any (λ e. is_paid e.status) ds)
unfolding compute_risk_label
label-any now [] = refl
label-any now (d ∷ ds) = refl

-- A debt that is open or partly paid, with a due date before `now`.
abbrev pub IsOverdue : ℕ → DebtHistoryEntry → Type 0
IsOverdue now d =
    ((d.status ≡ unpaid) ⊎ (d.status ≡ partially_paid))
    × (due : ℕ) × (d.due_date ≡ some due)
    × (due < now)

-- A debt that was paid, and last changed after its due date.
abbrev pub IsPaidLate : DebtHistoryEntry → Type 0
IsPaidLate d = (d.status ≡ paid) × (due : ℕ) × (d.due_date ≡ some due) × (due < d.updated_at)

-- Some debt of a history is such.
abbrev pub IsSome : (DebtHistoryEntry → Type 0) → List DebtHistoryEntry → Type 0
IsSome P ds =
    (before : List DebtHistoryEntry) × (d : DebtHistoryEntry) × (after : List DebtHistoryEntry)
    × (ds ≡ before ++ d ∷ after)
    × P d

owed_cases : (st : DebtStatus) → is_owed st ≡ true → (st ≡ unpaid) ⊎ (st ≡ partially_paid)
owed_cases unpaid h = inl refl
owed_cases partially_paid h = inr refl
owed_cases paid h = cc
owed_cases written_off h = cc

before_some : (o : Option ℕ) (t : ℕ) → is_before o t ≡ true → (due : ℕ) × (o ≡ some due) × (due < t)
before_some none t h = cc
before_some (some due) t h = (due, refl, ground arith)

paid_only : (st : DebtStatus) → is_paid st ≡ true → st ≡ paid
paid_only unpaid h = cc
paid_only partially_paid h = cc
paid_only paid h = refl
paid_only written_off h = cc

is_overdue_open-IsOverdue :
    (now : ℕ) (d : DebtHistoryEntry) → is_overdue_open now d ≡ true → IsOverdue now d
is_overdue_open-IsOverdue now d h =
    let (due, dated, passed) = before_some d.due_date now (ground arith) in
    (owed_cases d.status (ground arith), due, dated, passed)

IsOverdue-is_overdue_open :
    (now : ℕ) (d : DebtHistoryEntry) → IsOverdue now d → is_overdue_open now d ≡ true
IsOverdue-is_overdue_open now d (inl e, due, dated, passed) = rw (e, dated) (ground arith)
IsOverdue-is_overdue_open now d (inr e, due, dated, passed) = rw (e, dated) (ground arith)

is_paid_late-IsPaidLate : (d : DebtHistoryEntry) → is_paid_late d ≡ true → IsPaidLate d
is_paid_late-IsPaidLate d h =
    let (due, dated, passed) = before_some d.due_date d.updated_at (ground arith) in
    (paid_only d.status (ground arith), due, dated, passed)

IsPaidLate-is_paid_late : (d : DebtHistoryEntry) → IsPaidLate d → is_paid_late d ≡ true
IsPaidLate-is_paid_late d (e, due, dated, passed) = rw (e, dated) (ground arith)

paid-IsPaid : (d : DebtHistoryEntry) → is_paid d.status ≡ true → d.status ≡ paid
paid-IsPaid d h = paid_only d.status h

IsPaid-paid : (d : DebtHistoryEntry) → d.status ≡ paid → is_paid d.status ≡ true
IsPaid-paid d h = rw h refl

-- A test on the debts of a history, by what it means for one debt.
any-IsSome :
    (P : DebtHistoryEntry → Type 0) (p : DebtHistoryEntry → Bool) (ds : List DebtHistoryEntry)
    → ((d : DebtHistoryEntry) → p d ≡ true → P d)
    → any p ds ≡ true
    → IsSome P ds
any-IsSome P p [] to h = cc
any-IsSome P p (d ∷ ds) to h = elim (Bool-cases (p d)) [
  | inl e ↦ ([], d, ds, refl, to d e)
  | inr e ↦
      let (before, x, after, split, holds) = any-IsSome P p ds to (rw e at h) in
      (d ∷ before, x, after, ap (λ xs. d ∷ xs) split, holds)
]

any-none :
    (P : DebtHistoryEntry → Type 0) (p : DebtHistoryEntry → Bool) (ds : List DebtHistoryEntry)
    → ((d : DebtHistoryEntry) → P d → p d ≡ true)
    → any p ds ≡ false
    → All (λ d. ¬ P d) ds
any-none P p [] from h = tt
any-none P p (d ∷ ds) from h = elim (Bool-cases (p d)) [
  | inl e ↦ let wrong = rw e at h in cc
  | inr e ↦ ((λ holds. let hit = from d holds in cc), any-none P p ds from (rw e at h))
]

-- The label of a history. It is risky exactly where some debt is open or partly paid with a due
-- date before now; else late payer exactly where some debt was paid and last changed after its due
-- date; else good payer exactly where some debt was paid; and unknown where none of these holds.
pub compute_risk_label_exact :
    (now : ℕ) (ds : List DebtHistoryEntry)
    → ((compute_risk_label now ds ≡ risky) × IsSome (IsOverdue now) ds)
      ⊎ ((compute_risk_label now ds ≡ late_payer)
          × All (λ d. ¬ IsOverdue now d) ds
          × IsSome IsPaidLate ds)
      ⊎ ((compute_risk_label now ds ≡ good_payer)
          × All (λ d. ¬ IsOverdue now d) ds
          × All (λ d. ¬ IsPaidLate d) ds
          × IsSome (λ d. d.status ≡ paid) ds)
      ⊎ ((compute_risk_label now ds ≡ unknown)
          × All (λ d. ¬ IsOverdue now d) ds
          × All (λ d. d.status ≢ paid) ds)
unfolding label_of
compute_risk_label_exact now ds =
    let settled = λ (e : DebtHistoryEntry). is_paid e.status in
    let label = label-any now ds in
    elim (Bool-cases (any (is_overdue_open now) ds)) [
      | inl o ↦
          inl (label ∙ rw o refl, any-IsSome (IsOverdue now) _ ds (is_overdue_open-IsOverdue now) o)
      | inr o ↦
          let sound = any-none (IsOverdue now) _ ds (IsOverdue-is_overdue_open now) o in
          elim (Bool-cases (any is_paid_late ds)) [
            | inl l ↦ inr (
                inl (
                  label ∙ rw (o, l) refl,
                  sound,
                  any-IsSome IsPaidLate _ ds is_paid_late-IsPaidLate l,
                ))
            | inr l ↦ elim (Bool-cases (any settled ds)) [
              | inl p ↦ inr (
                  inr (
                    inl (
                      label ∙ rw (o, l, p) refl,
                      sound,
                      any-none IsPaidLate _ ds IsPaidLate-is_paid_late l,
                      any-IsSome (λ d. d.status ≡ paid) settled ds paid-IsPaid p,
                    )))
              | inr p ↦ inr (
                  inr (
                    inr (
                      label ∙ rw (o, l, p) refl,
                      sound,
                      any-none (λ d. d.status ≡ paid) settled ds IsPaid-paid p,
                    )))
            ]
          ]
    ]
