-- ===== src/Accounting/Posting.antt =====
-- src/domain/accounting.ts: `insertEntry`, `postJournal` and `reverseJournalEntry`.
use trade_pal_africa.Base.{
  ℕ, ◌+◌, Bool, true, false, ◌&&◌, ◌||◌, not, Option, none, some, List, [], ◌∷◌, ◌++◌, map, ◌==◌,
  ltb, if◌then◌else◌, or_else, is_some, length, find, any, keep, Result, ok, err, Call, ◌>>=◌, ◌>>◌,
  pure, throw_if, or_throw, gets,
}
use trade_pal_africa.Base.Int.{ℤ, pos, ◌+ℤ◌, ltb_ℤ, ◌==ℤ◌}
use trade_pal_africa.Accounting.Chart.{SystemKey}
use trade_pal_africa.Accounting.Books.{
  JournalError, imbalance, invalid, not_found, reversal_of_reversal, unique_violation, reversal,
  merchant_entered, system_derived, journal_entry, JournalKey, of_reversal, same_journal_key, Line,
  Header, Entry, Books, Posted, ensure_chart_of_accounts,
}

-- A side that the caller leaves out is zero.
pub record LineInput : Type 0 where
  pub account : SystemKey
  pub debit : Option ℤ
  pub credit : Option ℤ

abbrev pub debit_line : SystemKey → ℤ → LineInput
debit_line k x = record { account = k; debit = some x; credit = none }

abbrev pub credit_line : SystemKey → ℤ → LineInput
credit_line k x = record { account = k; debit = none; credit = some x }

unfoldable pub debits : List Line → ℤ
debits [] = pos 0
debits (l ∷ ls) = l.debit +ℤ debits ls

unfoldable pub credits : List Line → ℤ
credits [] = pos 0
credits (l ∷ ls) = l.credit +ℤ credits ls

abbrev pub is_non_zero : Line → Bool
is_non_zero l = ltb_ℤ (pos 0) l.debit || ltb_ℤ (pos 0) l.credit

abbrev pub is_malformed : Line → Bool
is_malformed l =
    ltb_ℤ l.debit (pos 0)
    || ltb_ℤ l.credit (pos 0)
    || (ltb_ℤ (pos 0) l.debit && ltb_ℤ (pos 0) l.credit)

abbrev pub has_key : JournalKey → Entry → Bool
has_key k e = same_journal_key e.key k

abbrev pub new_entry : Header → List Line → Option ℕ → Books → Entry
new_entry h lines reversal_of b = record {
  id = b.next_id;
  currency = h.currency;
  occurred_at = or_else h.occurred_at b.clock;
  kind = h.kind;
  source = h.source;
  provenance = or_else h.provenance merchant_entered;
  key = h.key;
  reversal_of = reversal_of;
  lines = lines;
}

abbrev pub reverses : ℕ → Entry → Bool
reverses i e = elim e.reversal_of [ none ↦ false | some j ↦ j == i ]

abbrev pub reversal_taken : Option ℕ → List Entry → Bool
reversal_taken none es = false
reversal_taken (some i) es = any (reverses i) es

-- `journalEntry.create`. `none` is the violation of a unique index: the key, or the entry that is
-- reversed, is taken.
abbrev pub create_entry : Header → List Line → Option ℕ → Books → Option Entry × Books
create_entry h lines reversal_of b =
    let entry = new_entry h lines reversal_of b in
    let taken = any (has_key h.key) b.entries || reversal_taken reversal_of b.entries in
    if taken
    then (none, b)
    else (some entry, record b { entries = b.entries ++ entry ∷ []; next_id = b.next_id + 1 })

-- The `catch` of a violated unique index: the entry that won the race is the answer, and without
-- one the error is thrown on.
abbrev pub answer_race : Option Entry → Result JournalError Posted
answer_race (some raced) = ok (record { entry = raced; created = false })
answer_race none = err unique_violation

abbrev pub settle_race : JournalKey → Option Entry × Books → Result JournalError Posted × Books
settle_race k (some e, b) = (ok (record { entry = e; created = true }), b)
settle_race k (none, b) = (answer_race (find (has_key k) b.entries), b)

-- The creation, with what others wrote since the key was looked up.
unfoldable pub create_or_find :
    (Books → Books) → Header → List Line → Option ℕ → Call Books JournalError Posted
create_or_find others h lines reversal_of b =
    settle_race h.key (create_entry h lines reversal_of (others b))

-- The entry that was found for the key, or a new one.
unfoldable pub found_or_create :
    (Books → Books) → Header → List Line → Option ℕ → Option Entry → Call Books JournalError Posted
unfolding create_or_find
found_or_create others h lines reversal_of (some e) = pure (record { entry = e; created = false })
found_or_create others h lines reversal_of none = create_or_find others h lines reversal_of

-- `insertEntry`, where `others` is what other clients write between its look-up and its insert.
unfoldable pub insert_entry_among :
    (Books → Books) → Header → List Line → Option ℕ → Call Books JournalError Posted
unfolding found_or_create
insert_entry_among others h lines reversal_of = do
  let non_zero = keep is_non_zero lines
  throw_if (any is_malformed non_zero) invalid
  throw_if (ltb (length non_zero) 2) invalid
  throw_if (not (debits non_zero ==ℤ credits non_zero)) imbalance
  existing ← gets (λ b. find (has_key h.key) b.entries)
  found_or_create others h non_zero reversal_of existing

abbrev pub insert_entry : Header → List Line → Option ℕ → Call Books JournalError Posted
insert_entry = insert_entry_among (λ b. b)

-- The line of an input, in front of those of the inputs that follow.
unfoldable pub resolve_line : LineInput → Option ℕ → Option (List Line) → Option (List Line)
resolve_line l none rest = none
resolve_line l (some i) none = none
resolve_line l (some i) (some rest) = some (
    record { account_id = i; debit = or_else l.debit (pos 0); credit = or_else l.credit (pos 0) }
    ∷ rest)

-- `input.lines.map(…)`; `none` where an account is unknown.
unfoldable pub resolve : (SystemKey → Option ℕ) → List LineInput → Option (List Line)
unfolding resolve_line
resolve accounts [] = some []
resolve accounts (l ∷ ls) = resolve_line l (accounts l.account) (resolve accounts ls)

unfoldable pub post_journal : Header → List LineInput → Call Books JournalError Posted
post_journal h inputs = do
  accounts ← ensure_chart_of_accounts
  lines ← or_throw (resolve accounts inputs) invalid
  insert_entry h lines none

abbrev pub swap_sides : Line → Line
swap_sides l = record { account_id = l.account_id; debit = l.credit; credit = l.debit }

abbrev pub reversal_header : Entry → Option ℕ → ℕ → Header
reversal_header original occurred_at now = record {
  currency = original.currency;
  kind = reversal;
  key = of_reversal original.id;
  occurred_at = some (or_else occurred_at now);
  provenance = some system_derived;
  source = some (journal_entry, original.id);
}

-- `reverseJournalEntry`, once the original is found.
unfoldable pub reverse_entry : Option ℕ → Entry → Call Books JournalError Posted
reverse_entry occurred_at original = do
  throw_if (is_some original.reversal_of) reversal_of_reversal
  now ← gets (λ b. b.clock)
  insert_entry (reversal_header original occurred_at now) (map swap_sides original.lines)
      (some original.id)

unfoldable pub reverse_journal_entry : ℕ → Option ℕ → Call Books JournalError Posted
unfolding reverse_entry
reverse_journal_entry entry_id occurred_at = do
  found ← gets (λ b. find (λ (e : Entry). e.id == entry_id) b.entries)
  original ← or_throw found not_found
  reverse_entry occurred_at original
