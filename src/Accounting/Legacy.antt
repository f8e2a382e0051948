-- ===== src/Accounting/Legacy.antt =====
-- src/domain/accounting.ts: the bridge that journals the transactions of the earlier ledger.
use trade_pal_africa.Base.{
  ℕ, ◌+◌, Bool, true, false, ◌&&◌, ◌||◌, not, Option, none, some, List, [], ◌∷◌, ◌==◌, leb,
  if◌then◌else◌, is_some, length, find, any, Call, ◌>>=◌, pure, gets,
}
use trade_pal_africa.Base.Int.{ℤ, pos, leb_ℤ}
use trade_pal_africa.Accounting.Chart.{
  SystemKey, unclassified_funds, ar, inventory, unresolved_legacy, debt_note_suspense,
  sales_revenue, operating_expenses,
}
use trade_pal_africa.Accounting.Books.{
  JournalError, EntryKind, merchant_entered, SourceType, transaction, of_transaction, Entry, Books,
  Posted,
}
use trade_pal_africa.Accounting.Posting.{
  debit_line, credit_line, has_key, reverses, post_journal, reverse_journal_entry,
}
use trade_pal_africa.Accounting.Rules.{Common, header}

pub data TransactionType : Type 0 where
  sale purchase payment_received expense debt_note stock_adjustment : TransactionType

pub data PaymentStatus : Type 0 where
  paid credit partial : PaymentStatus

pub record Transaction : Type 0 where
  pub id : ℕ
  pub kind : TransactionType
  pub payment_status : Option PaymentStatus
  pub amount : ℤ
  pub currency : ℕ
  pub created_at : ℕ
  pub reversal_of : Option ℕ

abbrev pub base : Transaction → Common
base t = record {
  currency = t.currency;
  key = of_transaction t.id;
  occurred_at = some t.created_at;
  provenance = some merchant_entered;
  source = some (transaction, t.id);
}

-- Where the money of a sale went, by what was recorded of its payment.
abbrev pub sale_account : Option PaymentStatus → SystemKey
sale_account (some paid) = unclassified_funds
sale_account (some credit) = ar
sale_account _ = unresolved_legacy

abbrev pub entry_of :
    TransactionType → Option PaymentStatus → Option (EntryKind × SystemKey × SystemKey)
entry_of sale status = some (EntryKind.sale, sale_account status, sales_revenue)
entry_of payment_received _ = some (EntryKind.debt_payment, unclassified_funds, ar)
entry_of debt_note _ = some (EntryKind.debt_note, ar, debt_note_suspense)
entry_of purchase _ = some (EntryKind.stock_purchase, inventory, unclassified_funds)
entry_of expense _ = some (EntryKind.expense, operating_expenses, unclassified_funds)
entry_of stock_adjustment _ = none

abbrev pub posted : Posted → Call Books JournalError (Option Posted)
posted p = pure (some p)

-- The reversal of what the original transaction posted, if it did.
unfoldable pub reverse_if_found :
    Transaction → Option Entry → Call Books JournalError (Option Posted)
reverse_if_found t none = pure none
reverse_if_found t (some e) = reverse_journal_entry e.id (some t.created_at) >>= posted

-- The `switch` over the type; `default` posts nothing.
unfoldable pub post_by_type :
    Transaction
    → Option (EntryKind × SystemKey × SystemKey)
    → Call Books JournalError (Option Posted)
post_by_type t none = pure none
post_by_type t (some (kind, d, c)) =
    post_journal (header (base t) kind) (debit_line d t.amount ∷ credit_line c t.amount ∷ [])
    >>= posted

unfoldable pub post_unless_reversal :
    Transaction → Option ℕ → Call Books JournalError (Option Posted)
unfolding reverse_if_found post_by_type
post_unless_reversal t (some original_id) b =
    reverse_if_found t (find (has_key (of_transaction original_id)) b.entries) b
post_unless_reversal t none b =
    if leb_ℤ t.amount (pos 0)
    then pure none b
    else post_by_type t (entry_of t.kind t.payment_status) b

unfoldable pub post_legacy_transaction_journal :
    Transaction → Call Books JournalError (Option Posted)
unfolding post_unless_reversal
post_legacy_transaction_journal t = post_unless_reversal t t.reversal_of

-- `journalLegacyTransactionIfEnabled`: a failure is logged and goes no further.
unfoldable pub journal_legacy_transaction_if_enabled : Bool → Transaction → Books → Books
unfolding post_legacy_transaction_journal
journal_legacy_transaction_if_enabled enabled t b =
    if enabled then (post_legacy_transaction_journal t b).1 else b

abbrev is_source : ℕ → Option (SourceType × ℕ) → Bool
is_source i (some (transaction, j)) = j == i
is_source _ _ = false

-- `entryOfTxn.get(id)`: the last entry of a transaction, since later ones overwrite it in the map.
pub entry_of_txn : List Entry → ℕ → Option ℕ
entry_of_txn [] i = none
entry_of_txn (e ∷ es) i =
    let later = entry_of_txn es i in
    if is_some later then later else if is_source i e.source then some e.id else none

abbrev pub is_stock_adjustment : TransactionType → Bool
is_stock_adjustment stock_adjustment = true
is_stock_adjustment _ = false

-- Whether the loop pushes a transaction, given the ids pushed so far.
unfoldable pub is_missing : List Entry → List ℕ → Transaction → Bool
is_missing es missing_ids t = elim t.reversal_of [
  | some original_id ↦ elim (entry_of_txn es original_id) [
    | some original_entry ↦ not (any (reverses original_entry) es)
    | none ↦ any (λ i. i == original_id) missing_ids
  ]
  | none ↦
      not (is_some (entry_of_txn es t.id))
      && not (is_stock_adjustment t.kind || leb_ℤ t.amount (pos 0))
]

-- The loop of `findUnjournaledTransactions`, over the transactions from the oldest on.
unfoldable pub find_unjournaled : ℕ → List Entry → List Transaction → List ℕ → List Transaction
unfolding is_missing
find_unjournaled limit es [] missing_ids = []
find_unjournaled limit es (t ∷ ts) missing_ids =
    let pushed = t.id ∷ missing_ids in
    let later = find_unjournaled limit es ts pushed in
    let skipped = find_unjournaled limit es ts missing_ids in
    if is_missing es missing_ids t
    then (if leb limit (length pushed) then t ∷ [] else t ∷ later)
    else skipped

abbrev pub was_created : Option Posted → Bool
was_created none = false
was_created (some p) = p.created

-- The loop of `backfillJournals`; a throw ends it, with what was posted before still posted.
unfoldable pub backfill : List Transaction → ℕ → ℕ → Call Books JournalError (ℕ × ℕ)
unfolding post_legacy_transaction_journal
backfill [] posted_count skipped = pure (posted_count, skipped)
backfill (t ∷ ts) posted_count skipped = do
  result ← post_legacy_transaction_journal t
  backfill ts (if was_created result then posted_count + 1 else posted_count)
      (if was_created result then skipped else skipped + 1)

-- `backfillJournals`, with the transactions in the order of their creation.
unfoldable pub backfill_journals : List Transaction → ℕ → Call Books JournalError (ℕ × ℕ)
unfolding find_unjournaled backfill
backfill_journals txns limit = do
  missing ← gets (λ b. find_unjournaled limit b.entries txns [])
  backfill missing 0 0
