-- ===== src/Accounting/Charting.antt =====
-- After `ensureChartOfAccounts` every system account has a row, so that no posting rule stops at an
-- unknown account.
use trade_pal_africa.Base.{
  ℕ, suc, ◌≡◌, refl, inl, inr, Bool, true, not, ◌||◌, some, List, [], ◌∷◌, arith, ltb, Bool-cases,
  Option-cases, length, any, keep, All, All-append, if◌then◌else◌, ◌==◌, ==_iff, any-append_left,
  any-append_right,
}
use trade_pal_africa.Accounting.Chart.{
  SystemKey, code_of, same_key, same_key_iff, code_of-injective, system_accounts, cash,
}
use trade_pal_africa.Accounting.Books.{
  Account, Books, has_system_key, create_account, create_accounts, account_id, missing_accounts,
  ensure_chart_of_accounts,
}

-- An account that bears the code of a system account is that system account.
abbrev pub IsStandard : List Account → Type 0
IsStandard = All (λ a. (k : SystemKey) → a.code ≡ code_of k → has_system_key k a ≡ true)

abbrev pub has_row : SystemKey → Books → Bool
has_row k b = any (has_system_key k) b.accounts

taken_has_row :
    (k : SystemKey) (as_ : List Account)
    → IsStandard as_
    → any (λ (a : Account). a.code == code_of k || has_system_key k a) as_ ≡ true
    → any (has_system_key k) as_ ≡ true
taken_has_row k [] s h = cc
taken_has_row k (a ∷ as_) s h = elim (Bool-cases (a.code == code_of k)) [
  | inl e ↦ rw (s.0 k ((==_iff a.code (code_of k)).0 e)) refl
  | inr e ↦ ground (arith, taken_has_row k as_ s.1)
]

same_key_refl : (k : SystemKey) → same_key k k ≡ true
same_key_refl k = (same_key_iff k k).1 refl

create_account-has_row :
    (k : SystemKey) (b : Books) → IsStandard b.accounts → has_row k (create_account k b) ≡ true
create_account-has_row k b s =
    elim (Bool-cases
      (any (λ (a : Account). a.code == code_of k || has_system_key k a) b.accounts)) [
        | inl taken ↦ rw taken (taken_has_row k b.accounts s taken)
        | inr free ↦
            rw free (any-append_right (has_system_key k) b.accounts _ (rw (same_key_refl k) refl))
      ]

create_account-keeps_row :
    (j k : SystemKey) (b : Books) → has_row j b ≡ true → has_row j (create_account k b) ≡ true
create_account-keeps_row j k b h =
    elim (Bool-cases
      (any (λ (a : Account). a.code == code_of k || has_system_key k a) b.accounts)) [
        | inl taken ↦ rw taken h
        | inr free ↦ rw free (any-append_left (has_system_key j) b.accounts _ h)
      ]

create_account-IsStandard :
    (k : SystemKey) (b : Books) → IsStandard b.accounts → IsStandard (create_account k b).accounts
create_account-IsStandard k b s =
    elim (Bool-cases
      (any (λ (a : Account). a.code == code_of k || has_system_key k a) b.accounts)) [
        | inl taken ↦ rw taken s
        | inr free ↦ rw free (
            All-append _ b.accounts _ s (λ j e. (same_key_iff k j).1 (code_of-injective k j e), tt))
      ]

create_accounts-keeps_row :
    (j : SystemKey) (ks : List SystemKey) (b : Books)
    → has_row j b ≡ true
    → has_row j (create_accounts ks b) ≡ true
unfolding create_accounts
create_accounts-keeps_row j [] b h = h
create_accounts-keeps_row j (k ∷ ks) b h =
    create_accounts-keeps_row j ks (create_account k b) (create_account-keeps_row j k b h)

create_accounts-has_row :
    (j : SystemKey) (ks : List SystemKey) (b : Books)
    → IsStandard b.accounts
    → any (same_key j) ks ≡ true
    → has_row j (create_accounts ks b) ≡ true
unfolding create_accounts
create_accounts-has_row j [] b s h = cc
create_accounts-has_row j (k ∷ ks) b s h = elim (Bool-cases (same_key j k)) [
  | inl e ↦
      rw ((same_key_iff j k).0 e)
        (create_accounts-keeps_row k ks (create_account k b) (create_account-has_row k b s))
  | inr e ↦
      create_accounts-has_row j ks (create_account k b) (create_account-IsStandard k b s)
        (rw e at h)
]

in_system_accounts : (k : SystemKey) → any (same_key k) system_accounts ≡ true
unfolding same_key code_of
in_system_accounts cash = refl
in_system_accounts _ = refl

any-keep :
    (k : SystemKey) (p : SystemKey → Bool) (ks : List SystemKey)
    → p k ≡ true
    → any (same_key k) ks ≡ true
    → any (same_key k) (keep p ks) ≡ true
any-keep k p [] h e = cc
any-keep k p (j ∷ ks) h e = elim (Bool-cases (same_key k j)) [
  | inl same ↦ let pj : p j ≡ true = rw (← (same_key_iff k j).0 same) h in rw (pj, same) refl
  | inr other ↦ elim (Bool-cases (p j)) [
    | inl q ↦ rw (q, other) (any-keep k p ks h (rw other at e))
    | inr q ↦ rw q (any-keep k p ks h (rw other at e))
  ]
]

has_row-account_id :
    (k : SystemKey) (as_ : List Account)
    → any (has_system_key k) as_ ≡ true
    → (i : ℕ) × (account_id as_ k ≡ some i)
unfolding account_id
has_row-account_id k [] h = cc
has_row-account_id k (a ∷ as_) h = elim (Option-cases (account_id as_ k)) [
  | inl e ↦ elim (Bool-cases (has_system_key k a)) [
    | inl here ↦ (a.id, rw (e, here))
    | inr other ↦ let (i, f) = has_row-account_id k as_ (rw other at h) in (i, rw f)
  ]
  | inr (i, e) ↦ (i, rw e)
]

create_if_missing :
    (k : SystemKey) (ks : List SystemKey) (b : Books)
    → has_row k (create_accounts ks b) ≡ true
    → has_row k (if ltb 0 (length ks) then create_accounts ks b else b) ≡ true
unfolding create_accounts
create_if_missing k [] b h = h
create_if_missing k (j ∷ ks) b h =
    let long : ltb 0 (suc (length ks)) ≡ true = ground arith in rw long h

missing-has_row :
    (k : SystemKey) (b : Books)
    → IsStandard b.accounts
    → has_row k (create_accounts (missing_accounts b.accounts) b) ≡ true
unfolding missing_accounts
missing-has_row k b s = elim (Bool-cases (has_row k b)) [
  | inl there ↦ create_accounts-keeps_row k _ b there
  | inr absent ↦ create_accounts-has_row k _ b s (
      any-keep k (λ j. not (any (has_system_key j) b.accounts)) system_accounts (rw absent refl)
        (in_system_accounts k))
]

-- Where every row with a system code stands for the system account of that code, the chart has a
-- row for every system account after the call.
pub ensure_chart_complete :
    (b : Books) (k : SystemKey)
    → IsStandard b.accounts
    → (i : ℕ) × (account_id (ensure_chart_of_accounts b).1.accounts k ≡ some i)
unfolding ensure_chart_of_accounts
ensure_chart_complete b k s =
    has_row-account_id k _
      (create_if_missing k (missing_accounts b.accounts) b (missing-has_row k b s))
