-- ===== src/Accounting/Examples.antt =====
-- Runs of the accounting on the books of a new business.
use trade_pal_africa.Base.{
  ℕ, ◌+◌, inl, inr, find, ◌==◌, arith, ◌≡◌, ◌⊎◌, refl, none, some, List, [], ◌∷◌, ◌++◌, ok, err,
  any, true, false,
}
use trade_pal_africa.Base.Int.{pos, ◌<ℤ◌, ◌≤ℤ◌, leb_ℤ, ◌+ℤ◌}
use trade_pal_africa.Accounting.Chart.{inventory, PaymentMethod}
use trade_pal_africa.Accounting.Books.{
  Books, Entry, Header, Line, EntryKind, other_key, of_reversal, account_id,
  ensure_chart_of_accounts, invalid,
}
use trade_pal_africa.Accounting.Posting.{
  reverse_journal_entry, reversal_taken, has_key, insert_entry_among, found_or_create,
  create_or_find, new_entry, debits, credits,
}
use trade_pal_africa.Accounting.Rules.{
  Common, Receipt, post_sale, sale_lines, received, post_refund, refund_lines, Destination,
  post_provider_settlement, settlement_lines,
}
use trade_pal_africa.Accounting.Reading.{Window, trial_balance}
use trade_pal_africa.Accounting.Invariant.{IsSound, IsCharted}
use trade_pal_africa.Accounting.Requests.{Request, sale, reverse, serve_all}
use trade_pal_africa.Accounting.Soundness.{serve_all-IsSound, serve_all-IsCharted}
use trade_pal_africa.Accounting.TrialBalance.{trial_balance_balances}
use trade_pal_africa.Accounting.Outcomes.{insert_entry_replayed}
use trade_pal_africa.Accounting.Charting.{ensure_chart_complete}
use trade_pal_africa.Accounting.Balancing.{IsPosted}
use trade_pal_africa.Accounting.PayoutOutcomes.{
  post_refund_outcome, post_provider_settlement_outcome,
}
use trade_pal_africa.Accounting.Reversal.{net, reverse_journal_entry_cancels}
use trade_pal_africa.Accounting.RuleOutcomes.{post_sale_outcome}

abbrev new_books : Books
new_books = record { accounts = []; entries = []; next_id = 0; clock = 7 }

new_books-IsSound : IsSound new_books
new_books-IsSound = record { balanced = tt; keys = tt; ids = tt }

new_books-IsCharted : IsCharted new_books
new_books-IsCharted = record { distinct = tt; account_ids = tt; known = tt }

abbrev sale_common : Common
sale_common = record {
  currency = 1;
  key = other_key 3;
  occurred_at = none;
  provenance = none;
  source = none;
}

abbrev cash_receipt : Receipt
cash_receipt = record { method = PaymentMethod.cash; amount = pos 60 }

abbrev day : List Request
day =
    sale sale_common (pos 100) (cash_receipt ∷ []) (some (pos 40))
    ∷ sale sale_common (pos 100) (cash_receipt ∷ []) (some (pos 40))
    ∷ reverse 22 none
    ∷ []

serve_all-IsSound_example :
    IsSound (serve_all day new_books)
    × (es : List Entry) × ((serve_all day new_books).entries ≡ [] ++ es)
serve_all-IsSound_example = serve_all-IsSound day new_books new_books-IsSound

abbrev all_time : Window
all_time = record { currency = 1; from = none; to = none }

day-IsSound : IsSound (serve_all day new_books)
day-IsSound = (serve_all-IsSound day new_books new_books-IsSound).0

trial_balance_balances_example :
    (trial_balance (serve_all day new_books) all_time).total_debit
    ≡ (trial_balance (serve_all day new_books) all_time).total_credit
trial_balance_balances_example =
    trial_balance_balances (serve_all day new_books) all_time day-IsSound
      (serve_all-IsCharted day new_books new_books-IsCharted)

abbrev header : Header
header = record {
  currency = 1;
  kind = EntryKind.sale;
  key = other_key 5;
  occurred_at = none;
  provenance = none;
  source = none;
}

abbrev two_lines : List Line
two_lines =
    record { account_id = 0; debit = pos 9; credit = pos 0 }
    ∷ record { account_id = 1; debit = pos 0; credit = pos 9 }
    ∷ []

abbrev first_entry : Entry
first_entry = new_entry header two_lines none new_books

first_insert :
    (insert_entry_among (λ b. b) header two_lines none new_books).0
    ≡ ok (record { entry = first_entry; created = true })
unfolding insert_entry_among found_or_create create_or_find debits credits ◌+ℤ◌
first_insert = refl

abbrev after_insert : Books
after_insert = (insert_entry_among (λ b. b) header two_lines none new_books).1

later_books : after_insert.entries ≡ after_insert.entries ++ []
unfolding insert_entry_among found_or_create create_or_find debits credits ◌+ℤ◌
later_books = refl

insert_entry_replayed_example :
    insert_entry_among (λ b. b) header two_lines none after_insert
    ≡ (ok (record { entry = first_entry; created = false }), after_insert)
insert_entry_replayed_example =
    insert_entry_replayed (λ b. b) header none (λ b. b) two_lines new_books after_insert
      (record { entry = first_entry; created = true }) [] first_insert later_books

after_insert-IsSound : IsSound after_insert
unfolding insert_entry_among found_or_create create_or_find debits credits ◌+ℤ◌
after_insert-IsSound = record {
  balanced = ((refl, omega arith, (inl (omega arith, refl), (inr (refl, omega arith), tt))), tt);
  keys = (tt, tt);
  ids = (omega arith, tt);
}

first_found : find (λ (x : Entry). x.id == 0) after_insert.entries ≡ some first_entry
unfolding insert_entry_among found_or_create create_or_find debits credits ◌+ℤ◌
first_found = refl

first_free :
    (any (has_key (of_reversal 0)) after_insert.entries ≡ false)
    × (reversal_taken (some 0) after_insert.entries ≡ false)
unfolding insert_entry_among found_or_create create_or_find debits credits ◌+ℤ◌
first_free = (refl, refl)

reverse_journal_entry_cancels_example :
    (r : Entry) × (reverse_journal_entry 0 none after_insert ≡ (
      ok (record { entry = r; created = true }),
      record after_insert {
        entries = after_insert.entries ++ r ∷ [];
        next_id = after_insert.next_id + 1;
      },
    ))
    × (r.reversal_of ≡ some 0)
    × ((i : ℕ) → net i two_lines +ℤ net i r.lines ≡ pos 0)
reverse_journal_entry_cancels_example =
    reverse_journal_entry_cancels after_insert 0 none first_entry after_insert-IsSound first_found
      refl first_free.0 first_free.1

ensure_chart_complete_example :
    (i : ℕ) × (account_id (ensure_chart_of_accounts new_books).1.accounts inventory ≡ some i)
ensure_chart_complete_example = ensure_chart_complete new_books inventory tt

post_sale_outcome_example :
    ((pos 0 <ℤ pos 100)
      × (any (λ (r : Receipt). leb_ℤ r.amount (pos 0)) (cash_receipt ∷ []) ≡ false)
      × (received (cash_receipt ∷ []) ≤ℤ pos 100)
      × IsPosted
          (post_sale sale_common (pos 100) (cash_receipt ∷ []) (some (pos 40)))
          (sale_lines (pos 100) (cash_receipt ∷ []) (some (pos 40)))
          (other_key 3)
          new_books)
    ⊎ (((pos 100 ≤ℤ pos 0)
          ⊎ (any (λ (r : Receipt). leb_ℤ r.amount (pos 0)) (cash_receipt ∷ []) ≡ true)
          ⊎ (pos 100 <ℤ received (cash_receipt ∷ [])))
        × (post_sale sale_common (pos 100) (cash_receipt ∷ []) (some (pos 40)) new_books
            ≡ (err invalid, new_books)))
post_sale_outcome_example =
    post_sale_outcome sale_common new_books (pos 100) (cash_receipt ∷ []) (some (pos 40)) tt refl

post_refund_outcome_example :
    ((pos 0 <ℤ pos 30)
      × IsPosted
          (post_refund sale_common (pos 30) PaymentMethod.cash (some (pos 12)))
          (refund_lines (pos 30) PaymentMethod.cash (some (pos 12)))
          (other_key 3)
          new_books)
    ⊎ ((pos 30 ≤ℤ pos 0)
        × (post_refund sale_common (pos 30) PaymentMethod.cash (some (pos 12)) new_books
            ≡ (err invalid, new_books)))
post_refund_outcome_example =
    post_refund_outcome sale_common new_books (pos 30) PaymentMethod.cash (some (pos 12)) tt refl

post_provider_settlement_outcome_example :
    ((pos 0 <ℤ pos 90)
      × (pos 0 ≤ℤ pos 4)
      × (pos 4 <ℤ pos 90)
      × IsPosted
          (post_provider_settlement sale_common (pos 90) (pos 4) Destination.bank)
          (settlement_lines (pos 90) (pos 4) Destination.bank)
          (other_key 3)
          new_books)
    ⊎ (((pos 90 ≤ℤ pos 0) ⊎ (pos 4 <ℤ pos 0) ⊎ (pos 90 ≤ℤ pos 4))
        × (post_provider_settlement sale_common (pos 90) (pos 4) Destination.bank new_books
            ≡ (err invalid, new_books)))
post_provider_settlement_outcome_example =
    post_provider_settlement_outcome sale_common new_books (pos 90) (pos 4) Destination.bank tt refl
