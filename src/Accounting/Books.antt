-- ===== src/Accounting/Books.antt =====
-- src/domain/accounting.ts: the rows of the books, and the chart of accounts that a business gets.
-- The rows are those of one business, since the client is scoped to it. A row's id is a counter
-- that the database draws from; the clock is the time that `new Date()` reads. Text that nothing
-- reads back (memo, evidence, actor, account name) is left out.
use trade_pal_africa.Base.{
  ℕ, ◌+◌, Bool, false, ◌&&◌, ◌||◌, not, Option, none, some, List, [], ◌∷◌, ◌++◌, ◌==◌, ltb,
  if◌then◌else◌, is_some, length, any, keep, Call, ◌>>=◌, ◌>>◌, pure, gets, modify,
}
use trade_pal_africa.Base.Int.{ℤ}
use trade_pal_africa.Accounting.Chart.{
  AccountType, SystemKey, code_of, type_of, same_key, system_accounts,
}

pub data JournalError : Type 0 where
  imbalance invalid not_found already_reversed reversal_of_reversal : JournalError
  -- a violated unique index that is thrown on
  unique_violation : JournalError

pub data EntryKind : Type 0 where
  sale debt_payment expense stock_purchase fee refund owner_withdrawal : EntryKind
  owner_contribution customer_advance settlement owner_stock_withdrawal stock_write_down : EntryKind
  stock_write_up opening_balance cash_adjustment reversal debt_note cogs restock : EntryKind
  -- a kind that a caller outside this file gives
  other_kind : ℕ → EntryKind

pub data Provenance : Type 0 where
  merchant_entered document_supported provider_confirmed reconciled : Provenance
  migrated_opening system_derived : Provenance

pub data SourceType : Type 0 where
  stock_movement journal_entry transaction stock_transfer other_source : SourceType

-- An idempotency key is a template with the ids in it; a key of another caller is a number.
pub data JournalKey : Type 0 where
  of_movement of_reversal of_transaction : ℕ → JournalKey
  of_shortfall : ℕ → ℕ → JournalKey
  other_key : ℕ → JournalKey

abbrev pub same_journal_key : JournalKey → JournalKey → Bool
same_journal_key (of_movement a) (of_movement b) = a == b
same_journal_key (of_reversal a) (of_reversal b) = a == b
same_journal_key (of_transaction a) (of_transaction b) = a == b
same_journal_key (of_shortfall a b) (of_shortfall c d) = a == c && b == d
same_journal_key (other_key a) (other_key b) = a == b
same_journal_key _ _ = false

pub record Account : Type 0 where
  pub id : ℕ
  pub code : ℕ
  pub kind : AccountType
  pub system_key : Option SystemKey

pub record Line : Type 0 where
  pub account_id : ℕ
  pub debit : ℤ
  pub credit : ℤ

pub record Header : Type 0 where
  pub currency : ℕ
  pub kind : EntryKind
  pub key : JournalKey
  pub occurred_at : Option ℕ
  pub provenance : Option Provenance
  pub source : Option (SourceType × ℕ)

pub record Entry : Type 0 where
  pub id : ℕ
  pub currency : ℕ
  pub occurred_at : ℕ
  pub kind : EntryKind
  pub source : Option (SourceType × ℕ)
  pub provenance : Provenance
  pub key : JournalKey
  pub reversal_of : Option ℕ
  pub lines : List Line

pub record Books : Type 0 where
  pub accounts : List Account
  pub entries : List Entry
  pub next_id : ℕ
  pub clock : ℕ

pub record Posted : Type 0 where
  pub entry : Entry
  pub created : Bool

abbrev pub has_system_key : SystemKey → Account → Bool
has_system_key k a = elim a.system_key [ none ↦ false | some j ↦ same_key j k ]

abbrev pub system_account : SystemKey → Books → Account
system_account k b = record {
  id = b.next_id;
  code = code_of k;
  kind = type_of k;
  system_key = some k;
}

-- `createMany` with `skipDuplicates`: the code and the system key are unique for the business.
abbrev pub create_account : SystemKey → Books → Books
create_account k b =
    if any (λ (a : Account). a.code == code_of k || has_system_key k a) b.accounts
    then b
    else record b { accounts = b.accounts ++ system_account k b ∷ []; next_id = b.next_id + 1 }

unfoldable pub create_accounts : List SystemKey → Books → Books
create_accounts [] b = b
create_accounts (k ∷ ks) b = create_accounts ks (create_account k b)

-- The id that the returned map holds for a key: that of the last row with the key.
unfoldable pub account_id : List Account → SystemKey → Option ℕ
account_id [] k = none
account_id (a ∷ as_) k =
    let later = account_id as_ k in
    if is_some later then later else if has_system_key k a then some a.id else none

unfoldable pub missing_accounts : List Account → List SystemKey
missing_accounts existing = keep (λ k. not (any (has_system_key k) existing)) system_accounts

unfoldable pub ensure_chart_of_accounts : Call Books JournalError (SystemKey → Option ℕ)
ensure_chart_of_accounts = do
  existing ← gets (λ b. b.accounts)
  let missing = missing_accounts existing
  modify (λ b. if ltb 0 (length missing) then create_accounts missing b else b)
  all ← gets (λ b. b.accounts)
  pure (account_id all)
