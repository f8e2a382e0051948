-- ===== src/Accounting/Reading.antt =====
-- src/domain/accounting.ts: the trial balance and the net of one account. A group of an SQL
-- `groupBy` holds the sums of its lines, and an account with no line has no group, which reads as
-- zero.
use trade_pal_africa.Base.{
  ℕ, Bool, ◌&&◌, true, Option, none, some, List, [], ◌∷◌, ◌==◌, leb, ltb, if◌then◌else◌, keep, find,
}
use trade_pal_africa.Base.Int.{ℤ, pos, ◌+ℤ◌, ◌-ℤ◌, ◌==ℤ◌}
use trade_pal_africa.Accounting.Chart.{AccountType, SystemKey}
use trade_pal_africa.Accounting.Books.{Account, Line, Entry, Books, has_system_key}

-- `options`: a currency, and a window whose end is exclusive.
pub record Window : Type 0 where
  pub currency : ℕ
  pub from : Option ℕ
  pub to : Option ℕ

abbrev pub not_before : Option ℕ → ℕ → Bool
not_before none t = true
not_before (some from) t = leb from t

abbrev pub is_before : Option ℕ → ℕ → Bool
is_before none t = true
is_before (some to) t = ltb t to

abbrev pub in_window : Window → Entry → Bool
in_window w e =
    e.currency == w.currency && (not_before w.from e.occurred_at && is_before w.to e.occurred_at)

-- The sum over one side of the lines of an account.
unfoldable pub side_sum : (Line → ℤ) → ℕ → List Line → ℤ
side_sum side i [] = pos 0
side_sum side i (l ∷ ls) = (if l.account_id == i then side l else pos 0) +ℤ side_sum side i ls

unfoldable pub window_sum : (Line → ℤ) → ℕ → List Entry → ℤ
unfolding side_sum
window_sum side i [] = pos 0
window_sum side i (e ∷ es) = side_sum side i e.lines +ℤ window_sum side i es

abbrev pub debit_side : Line → ℤ
debit_side l = l.debit

abbrev pub credit_side : Line → ℤ
credit_side l = l.credit

pub record BalanceRow : Type 0 where
  pub system_key : Option SystemKey
  pub code : ℕ
  pub kind : AccountType
  pub debit : ℤ
  pub credit : ℤ
  pub net : ℤ

-- `orderBy: { code: "asc" }`
unfoldable pub insert_by_code : Account → List Account → List Account
insert_by_code a [] = a ∷ []
insert_by_code a (x ∷ xs) = if leb a.code x.code then a ∷ x ∷ xs else x ∷ insert_by_code a xs

unfoldable pub sort_by_code : List Account → List Account
sort_by_code [] = []
sort_by_code (a ∷ as_) = insert_by_code a (sort_by_code as_)

unfoldable pub balance_row : List Entry → Account → BalanceRow
unfolding window_sum
balance_row es a =
    let d = window_sum debit_side a.id es in
    let c = window_sum credit_side a.id es in
    record {
      system_key = a.system_key;
      code = a.code;
      kind = a.kind;
      debit = d;
      credit = c;
      net = d -ℤ c;
    }

-- The loop over the accounts; one with nothing on either side has no row.
unfoldable pub balance_rows : List Entry → List Account → List BalanceRow
unfolding balance_row
balance_rows es [] = []
balance_rows es (a ∷ as_) =
    let row = balance_row es a in
    let rest = balance_rows es as_ in
    if row.debit ==ℤ pos 0 && row.credit ==ℤ pos 0 then rest else row ∷ rest

pub record TrialBalance : Type 0 where
  pub rows : List BalanceRow
  pub total_debit : ℤ
  pub total_credit : ℤ

unfoldable pub row_sum : (BalanceRow → ℤ) → List BalanceRow → ℤ
row_sum f [] = pos 0
row_sum f (r ∷ rs) = f r +ℤ row_sum f rs

unfoldable pub trial_balance : Books → Window → TrialBalance
unfolding balance_rows sort_by_code insert_by_code row_sum
trial_balance b w =
    let rows = balance_rows (keep (in_window w) b.entries) (sort_by_code b.accounts) in
    record {
      rows = rows;
      total_debit = row_sum (λ r. r.debit) rows;
      total_credit = row_sum (λ r. r.credit) rows;
    }

-- The net debit balance of one system account in a window.
unfoldable pub account_net : Books → SystemKey → Window → ℤ
unfolding window_sum
account_net b k w = elim (find (has_system_key k) b.accounts) [
  | none ↦ pos 0
  | some a ↦
      let es = keep (in_window w) b.entries in
      window_sum debit_side a.id es -ℤ window_sum credit_side a.id es
]
