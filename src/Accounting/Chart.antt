-- ===== src/Accounting/Chart.antt =====
-- src/domain/accounting.ts: the chart of accounts that every business has, and the account that a
-- payment method maps to. The code is the account's number; its display name is left out.
use trade_pal_africa.Base.{
  ℕ, List, [], ◌∷◌, Bool, ◌==◌, ◌≡◌, refl, ◌↔◌, sym, ◌∙◌, ap, true, ==_iff, if◌then◌else◌,
}

pub data AccountType : Type 0 where
  asset liability equity revenue expense : AccountType

pub data SystemKey : Type 0 where
  cash mobile_money bank unclassified_funds ar inventory provider_clearing unresolved_legacy :
      SystemKey
  ap_payable customer_advances debt_note_suspense owner_capital owner_withdrawals : SystemKey
  opening_balance_equity sales_revenue delivery_fees sales_returns cogs : SystemKey
  inventory_shrinkage cash_over_short operating_expenses payment_fees : SystemKey

unfoldable pub code_of : SystemKey → ℕ
code_of cash = 1000
code_of mobile_money = 1010
code_of bank = 1020
code_of unclassified_funds = 1090
code_of ar = 1100
code_of inventory = 1200
code_of provider_clearing = 1300
code_of unresolved_legacy = 1900
code_of ap_payable = 2000
code_of customer_advances = 2100
code_of debt_note_suspense = 2900
code_of owner_capital = 3000
code_of owner_withdrawals = 3100
code_of opening_balance_equity = 3900
code_of sales_revenue = 4000
code_of delivery_fees = 4100
code_of sales_returns = 4900
code_of cogs = 5000
code_of inventory_shrinkage = 5100
code_of cash_over_short = 5200
code_of operating_expenses = 6000
code_of payment_fees = 6100

unfoldable pub type_of : SystemKey → AccountType
type_of cash = asset
type_of mobile_money = asset
type_of bank = asset
type_of unclassified_funds = asset
type_of ar = asset
type_of inventory = asset
type_of provider_clearing = asset
type_of unresolved_legacy = asset
type_of ap_payable = liability
type_of customer_advances = liability
type_of debt_note_suspense = liability
type_of owner_capital = equity
type_of owner_withdrawals = equity
type_of opening_balance_equity = equity
type_of sales_revenue = revenue
type_of delivery_fees = revenue
type_of sales_returns = revenue
type_of cogs = expense
type_of inventory_shrinkage = expense
type_of cash_over_short = expense
type_of operating_expenses = expense
type_of payment_fees = expense

-- `SYSTEM_ACCOUNTS`, in the order of the source.
abbrev pub system_accounts : List SystemKey
system_accounts =
    cash ∷ mobile_money ∷ bank ∷ unclassified_funds ∷ ar ∷ inventory ∷ provider_clearing
    ∷ unresolved_legacy ∷ ap_payable ∷ customer_advances ∷ debt_note_suspense ∷ owner_capital
    ∷ owner_withdrawals ∷ opening_balance_equity ∷ sales_revenue ∷ delivery_fees ∷ sales_returns
    ∷ cogs ∷ inventory_shrinkage ∷ cash_over_short ∷ operating_expenses ∷ payment_fees ∷ []

-- Equal keys, by their codes, which differ from key to key.
unfoldable pub same_key : SystemKey → SystemKey → Bool
same_key a b = code_of a == code_of b

-- The inverse of `code_of`, at the codes of the chart.
key_of_code : ℕ → SystemKey
key_of_code c =
    if c == 1000
    then cash
    else if c == 1010
    then mobile_money
    else if c == 1020
    then bank
    else if c == 1090
    then unclassified_funds
    else if c == 1100
    then ar
    else if c == 1200
    then inventory
    else if c == 1300
    then provider_clearing
    else if c == 1900
    then unresolved_legacy
    else if c == 2000
    then ap_payable
    else if c == 2100
    then customer_advances
    else if c == 2900
    then debt_note_suspense
    else if c == 3000
    then owner_capital
    else if c == 3100
    then owner_withdrawals
    else if c == 3900
    then opening_balance_equity
    else if c == 4000
    then sales_revenue
    else if c == 4100
    then delivery_fees
    else if c == 4900
    then sales_returns
    else if c == 5000
    then cogs
    else if c == 5100
    then inventory_shrinkage
    else if c == 5200
    then cash_over_short
    else if c == 6000
    then operating_expenses
    else payment_fees

key_of_code-code_of : (k : SystemKey) → key_of_code (code_of k) ≡ k
unfolding key_of_code code_of
key_of_code-code_of cash = refl
key_of_code-code_of _ = refl

pub code_of-injective : (a b : SystemKey) → code_of a ≡ code_of b → a ≡ b
code_of-injective a b e = sym (key_of_code-code_of a) ∙ ap key_of_code e ∙ key_of_code-code_of b

pub same_key_iff : (a b : SystemKey) → (same_key a b ≡ true) ↔ (a ≡ b)
unfolding same_key
same_key_iff a b = (
  λ h. code_of-injective a b ((==_iff (code_of a) (code_of b)).0 h),
  λ e. (==_iff (code_of a) (code_of b)).1 (ap code_of e),
)

pub data PaymentMethod : Type 0 where
  cash mobile_money bank unspecified : PaymentMethod

unfoldable pub account_for_method : PaymentMethod → SystemKey
account_for_method PaymentMethod.cash = SystemKey.cash
account_for_method PaymentMethod.mobile_money = SystemKey.mobile_money
account_for_method PaymentMethod.bank = SystemKey.bank
account_for_method unspecified = unclassified_funds
