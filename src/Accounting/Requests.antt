-- ===== src/Accounting/Requests.antt =====
-- The calls that other parts of the server make on the books (src/domain/accounting.ts), in any
-- order: each is answered or throws, and the next one comes on the books that it leaves.
use trade_pal_africa.Base.{ℕ, Bool, Option, List, [], ◌∷◌}
use trade_pal_africa.Base.Int.{ℤ}
use trade_pal_africa.Accounting.Chart.{PaymentMethod}
use trade_pal_africa.Accounting.Books.{Header, Books}
use trade_pal_africa.Accounting.Posting.{LineInput, post_journal, reverse_journal_entry}
use trade_pal_africa.Accounting.Rules.{
  Common, Receipt, PaidWith, Destination, LossAccount, Opening, post_sale, post_debt_collection,
  post_expense, post_stock_purchase, post_fee, post_refund, post_owner_withdrawal,
  post_owner_contribution, post_customer_advance, post_provider_settlement, post_stock_write_down,
  post_stock_write_up, post_opening_balance, post_cash_adjustment,
}
use trade_pal_africa.Accounting.Legacy.{
  Transaction, journal_legacy_transaction_if_enabled, backfill_journals,
}

pub data Request : Type 0 where
  journal : Header → List LineInput → Request
  reverse : ℕ → Option ℕ → Request
  sale : Common → ℤ → List Receipt → Option ℤ → Request
  debt_collection : Common → ℤ → PaymentMethod → Request
  expense stock_purchase : Common → ℤ → PaidWith → Request
  fee owner_withdrawal owner_contribution customer_advance : Common → ℤ → PaymentMethod → Request
  refund : Common → ℤ → PaymentMethod → Option ℤ → Request
  settlement : Common → ℤ → ℤ → Destination → Request
  write_down : Common → ℤ → LossAccount → Request
  write_up cash_adjustment : Common → ℤ → Request
  opening : Common → List Opening → List Opening → Request
  legacy : Bool → Transaction → Request
  backfilling : List Transaction → ℕ → Request

unfoldable pub serve : Request → Books → Books
serve (journal h ls) b = (post_journal h ls b).1
serve (reverse i at) b = (reverse_journal_entry i at b).1
serve (sale c x rs cost) b = (post_sale c x rs cost b).1
serve (debt_collection c x m) b = (post_debt_collection c x m b).1
serve (expense c x p) b = (post_expense c x p b).1
serve (stock_purchase c x p) b = (post_stock_purchase c x p b).1
serve (fee c x m) b = (post_fee c x m b).1
serve (owner_withdrawal c x m) b = (post_owner_withdrawal c x m b).1
serve (owner_contribution c x m) b = (post_owner_contribution c x m b).1
serve (customer_advance c x m) b = (post_customer_advance c x m b).1
serve (refund c x m cost) b = (post_refund c x m cost b).1
serve (settlement c x f d) b = (post_provider_settlement c x f d b).1
serve (write_down c x l) b = (post_stock_write_down c x l b).1
serve (write_up c x) b = (post_stock_write_up c x b).1
serve (cash_adjustment c x) b = (post_cash_adjustment c x b).1
serve (opening c os ls) b = (post_opening_balance c os ls b).1
serve (legacy enabled t) b = journal_legacy_transaction_if_enabled enabled t b
serve (backfilling ts limit) b = (backfill_journals ts limit b).1

unfoldable pub serve_all : List Request → Books → Books
serve_all [] b = b
serve_all (r ∷ rs) b = serve_all rs (serve r b)
