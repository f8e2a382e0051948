-- ===== src/Accounting/Rules.antt =====
-- src/domain/accounting.ts: the posting rules, from the merchant's words to journal lines.
use trade_pal_africa.Base.{
  ℕ, ◌||◌, Option, none, some, List, [], ◌∷◌, ◌++◌, map, any, Call, ◌>>◌, throw_if, if◌then◌else◌,
}
use trade_pal_africa.Base.Int.{ℤ, pos, ◌+ℤ◌, ◌-ℤ◌, neg, leb_ℤ, ltb_ℤ, ◌==ℤ◌}
use trade_pal_africa.Accounting.Chart.{
  SystemKey, inventory, ar, ap_payable, provider_clearing, customer_advances, owner_capital,
  opening_balance_equity, sales_revenue, sales_returns, cogs, inventory_shrinkage, cash_over_short,
  operating_expenses, payment_fees, PaymentMethod, account_for_method,
}
use trade_pal_africa.Accounting.Books.{
  JournalError, invalid, EntryKind, Provenance, migrated_opening, SourceType, JournalKey, Header,
  Books, Posted,
}
use trade_pal_africa.Accounting.Posting.{LineInput, debit_line, credit_line, post_journal}

-- `Common`: what every posting rule is given.
pub record Common : Type 0 where
  pub currency : ℕ
  pub key : JournalKey
  pub occurred_at : Option ℕ
  pub provenance : Option Provenance
  pub source : Option (SourceType × ℕ)

abbrev pub header : Common → EntryKind → Header
header c kind = record {
  currency = c.currency;
  kind = kind;
  key = c.key;
  occurred_at = c.occurred_at;
  provenance = c.provenance;
  source = c.source;
}

abbrev pub positive : ℤ → Call Books JournalError (Unit {0})
positive amount = throw_if (leb_ℤ amount (pos 0)) invalid

pub record Receipt : Type 0 where
  pub method : PaymentMethod
  pub amount : ℤ

unfoldable pub received : List Receipt → ℤ
received [] = pos 0
received (r ∷ rs) = r.amount +ℤ received rs

abbrev pub receipt_line : Receipt → LineInput
receipt_line r = debit_line (account_for_method r.method) r.amount

-- `if (cost && cost > 0n) lines.push(…)`
abbrev pub cost_lines : SystemKey → SystemKey → Option ℤ → List LineInput
cost_lines d c none = []
cost_lines d c (some cost) =
    if ltb_ℤ (pos 0) cost then debit_line d cost ∷ credit_line c cost ∷ [] else []

unfoldable pub sale_lines : ℤ → List Receipt → Option ℤ → List LineInput
sale_lines total receipts cost =
    let on_credit = total -ℤ received receipts in
    map receipt_line receipts
    ++ ((if ltb_ℤ (pos 0) on_credit then debit_line ar on_credit ∷ [] else [])
        ++ (credit_line sales_revenue total ∷ cost_lines cogs inventory cost))

unfoldable pub post_sale : Common → ℤ → List Receipt → Option ℤ → Call Books JournalError Posted
post_sale c total receipts cost = do
  positive total
  throw_if (any (λ (r : Receipt). leb_ℤ r.amount (pos 0)) receipts) invalid
  throw_if (ltb_ℤ total (received receipts)) invalid
  post_journal (header c EntryKind.sale) (sale_lines total receipts cost)

-- An entry with one debit and one credit of a positive amount.
unfoldable pub post_pair :
    Common → EntryKind → SystemKey → SystemKey → ℤ → Call Books JournalError Posted
post_pair c kind d k amount = do
  positive amount
  post_journal (header c kind) (debit_line d amount ∷ credit_line k amount ∷ [])

unfoldable pub post_debt_collection : Common → ℤ → PaymentMethod → Call Books JournalError Posted
unfolding post_pair
post_debt_collection c amount method =
    post_pair c EntryKind.debt_payment (account_for_method method) ar amount

-- `PaymentMethod | "CREDIT"`
pub data PaidWith : Type 0 where
  by_method : PaymentMethod → PaidWith
  on_credit : PaidWith

abbrev pub paid_from : PaidWith → SystemKey
paid_from (by_method m) = account_for_method m
paid_from on_credit = ap_payable

unfoldable pub post_expense : Common → ℤ → PaidWith → Call Books JournalError Posted
unfolding post_pair
post_expense c amount paid_with =
    post_pair c EntryKind.expense operating_expenses (paid_from paid_with) amount

unfoldable pub post_stock_purchase : Common → ℤ → PaidWith → Call Books JournalError Posted
unfolding post_pair
post_stock_purchase c amount paid_with =
    post_pair c EntryKind.stock_purchase inventory (paid_from paid_with) amount

unfoldable pub post_fee : Common → ℤ → PaymentMethod → Call Books JournalError Posted
unfolding post_pair
post_fee c amount from = post_pair c EntryKind.fee payment_fees (account_for_method from) amount

unfoldable pub refund_lines : ℤ → PaymentMethod → Option ℤ → List LineInput
refund_lines amount paid_with restock_cost =
    debit_line sales_returns amount
    ∷ credit_line (account_for_method paid_with) amount
    ∷ cost_lines inventory cogs restock_cost

unfoldable pub post_refund : Common → ℤ → PaymentMethod → Option ℤ → Call Books JournalError Posted
post_refund c amount paid_with restock_cost = do
  positive amount
  post_journal (header c EntryKind.refund) (refund_lines amount paid_with restock_cost)

unfoldable pub post_owner_withdrawal : Common → ℤ → PaymentMethod → Call Books JournalError Posted
unfolding post_pair
post_owner_withdrawal c amount from =
    post_pair c EntryKind.owner_withdrawal SystemKey.owner_withdrawals (account_for_method from)
      amount

unfoldable pub post_owner_contribution : Common → ℤ → PaymentMethod → Call Books JournalError Posted
unfolding post_pair
post_owner_contribution c amount into =
    post_pair c EntryKind.owner_contribution (account_for_method into) owner_capital amount

unfoldable pub post_customer_advance : Common → ℤ → PaymentMethod → Call Books JournalError Posted
unfolding post_pair
post_customer_advance c amount method =
    post_pair c EntryKind.customer_advance (account_for_method method) customer_advances amount

pub data Destination : Type 0 where
  bank mobile_money : Destination

abbrev pub destination_account : Destination → SystemKey
destination_account bank = SystemKey.bank
destination_account mobile_money = SystemKey.mobile_money

unfoldable pub settlement_lines : ℤ → ℤ → Destination → List LineInput
settlement_lines gross fee destination =
    debit_line (destination_account destination) (gross -ℤ fee)
    ∷ credit_line provider_clearing gross
    ∷ (if ltb_ℤ (pos 0) fee then debit_line payment_fees fee ∷ [] else [])

unfoldable pub post_provider_settlement :
    Common → ℤ → ℤ → Destination → Call Books JournalError Posted
post_provider_settlement c gross fee destination = do
  positive gross
  throw_if (ltb_ℤ fee (pos 0) || leb_ℤ gross fee) invalid
  post_journal (header c EntryKind.settlement) (settlement_lines gross fee destination)

pub data LossAccount : Type 0 where
  shrinkage owner_withdrawals : LossAccount

abbrev pub loss_account : LossAccount → SystemKey
loss_account shrinkage = inventory_shrinkage
loss_account owner_withdrawals = SystemKey.owner_withdrawals

abbrev pub write_down_kind : LossAccount → EntryKind
write_down_kind shrinkage = EntryKind.stock_write_down
write_down_kind owner_withdrawals = EntryKind.owner_stock_withdrawal

unfoldable pub post_stock_write_down : Common → ℤ → LossAccount → Call Books JournalError Posted
unfolding post_pair
post_stock_write_down c cost into =
    post_pair c (write_down_kind into) (loss_account into) inventory cost

unfoldable pub post_stock_write_up : Common → ℤ → Call Books JournalError Posted
unfolding post_pair
post_stock_write_up c cost = post_pair c EntryKind.stock_write_up inventory inventory_shrinkage cost

pub record Opening : Type 0 where
  pub account : SystemKey
  pub amount : ℤ

unfoldable pub opening_sum : List Opening → ℤ
opening_sum [] = pos 0
opening_sum (o ∷ os) = o.amount +ℤ opening_sum os

-- The line that makes assets and liabilities meet.
unfoldable pub equity_lines : ℤ → ℤ → List LineInput
equity_lines assets owed =
    if ltb_ℤ owed assets
    then credit_line opening_balance_equity (assets -ℤ owed) ∷ []
    else if ltb_ℤ assets owed
    then debit_line opening_balance_equity (owed -ℤ assets) ∷ []
    else []

unfoldable pub opening_lines : List Opening → List Opening → List LineInput
opening_lines assets liabilities =
    map (λ (a : Opening). debit_line a.account a.amount) assets
    ++ (map (λ (l : Opening). credit_line l.account l.amount) liabilities
        ++ equity_lines (opening_sum assets) (opening_sum liabilities))

unfoldable pub post_opening_balance :
    Common → List Opening → List Opening → Call Books JournalError Posted
post_opening_balance c assets liabilities =
    post_journal
      (header (record c { provenance = some migrated_opening }) EntryKind.opening_balance)
      (opening_lines assets liabilities)

unfoldable pub cash_adjustment_lines : ℤ → List LineInput
cash_adjustment_lines difference =
    if ltb_ℤ (pos 0) difference
    then debit_line SystemKey.cash difference ∷ credit_line cash_over_short difference ∷ []
    else debit_line cash_over_short (neg difference)
      ∷ credit_line SystemKey.cash (neg difference)
      ∷ []

unfoldable pub post_cash_adjustment : Common → ℤ → Call Books JournalError Posted
post_cash_adjustment c difference = do
  throw_if (difference ==ℤ pos 0) invalid
  post_journal (header c EntryKind.cash_adjustment) (cash_adjustment_lines difference)
