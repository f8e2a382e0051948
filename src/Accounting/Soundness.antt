-- ===== src/Accounting/Soundness.antt =====
-- Every request on the books keeps them sound and appends to them.
use trade_pal_africa.Base.{
  ℕ, ◌≡◌, true, false, Option, none, some, List, [], ◌∷◌, ◌++◌, map, find-All, refl, find, is_some,
  ◌==◌, ◌>>=◌, or_throw, Call, Bool-cases, inl, inr,
}
use trade_pal_africa.Base.Int.{ℤ, pos, leb_ℤ}
use trade_pal_africa.Accounting.Chart.{SystemKey, PaymentMethod}
use trade_pal_africa.Accounting.Books.{
  JournalError, not_found, EntryKind, Line, Entry, Books, Posted,
}
use trade_pal_africa.Accounting.Posting.{
  post_journal, reverse_journal_entry, reverse_entry, reversal_header, swap_sides,
}
use trade_pal_africa.Accounting.Rules.{
  Common, Receipt, Destination, post_pair, post_sale, post_debt_collection, post_expense,
  post_stock_purchase, post_fee, post_refund, post_owner_withdrawal, post_owner_contribution,
  post_customer_advance, post_provider_settlement, post_stock_write_down, post_stock_write_up,
  post_opening_balance, post_cash_adjustment,
}
use trade_pal_africa.Accounting.Legacy.{
  Transaction, post_legacy_transaction_journal, journal_legacy_transaction_if_enabled, backfill,
  find_unjournaled, backfill_journals, reverse_if_found, post_by_type, post_unless_reversal,
  entry_of, posted,
}
use trade_pal_africa.Accounting.Invariant.{IsSound, Advances, IsCharted, AreKnown}
use trade_pal_africa.Accounting.Preservation.{
  Keeps, Keeps-bind, Keeps-guard, insert_entry_among-Advances, post_journal-Keeps, Advances-refl,
  Advances-trans,
}
use trade_pal_africa.Accounting.Requests.{
  Request, journal, reverse, sale, debt_collection, expense, stock_purchase, fee, owner_withdrawal,
  owner_contribution, customer_advance, refund, settlement, write_down, write_up, cash_adjustment,
  opening, legacy, backfilling, serve, serve_all,
}

reversal_known :
    (b : Books) (i : ℕ) (e : Entry)
    → find (λ (y : Entry). y.id == i) b.entries ≡ some e
    → IsCharted b
    → AreKnown b (map swap_sides e.lines)
reversal_known b i e found s =
    swapped e.lines (find-All (λ (y : Entry). AreKnown b y.lines) _ b.entries e s.known found)
  where
    swapped : (ls : List Line) → AreKnown b ls → AreKnown b (map swap_sides ls)
    swapped [] h = tt
    swapped (l ∷ ls) h = (h.0, swapped ls h.1)

reverse_entry-Advances :
    (at : Option ℕ) (e : Entry) (b : Books)
    → (IsCharted b → AreKnown b (map swap_sides e.lines))
    → Advances b (reverse_entry at e b).1
unfolding reverse_entry
reverse_entry-Advances at e b known = elim (Bool-cases (is_some e.reversal_of)) [
  | inl r ↦ rw r (Advances-refl b)
  | inr r ↦ rw r (
      insert_entry_among-Advances (λ c. c) Advances-refl (reversal_header e at b.clock) _
        (some e.id) b known)
]

reverse_found-Advances :
    (at : Option ℕ) (b : Books) (o : Option Entry)
    → ((e : Entry) → o ≡ some e → IsCharted b → AreKnown b (map swap_sides e.lines))
    → Advances b ((or_throw o not_found >>= reverse_entry at) b).1
reverse_found-Advances at b none known = Advances-refl b
reverse_found-Advances at b (some e) known = reverse_entry-Advances at e b (known e refl)

pub reverse_journal_entry-Keeps : (i : ℕ) (at : Option ℕ) → Keeps (reverse_journal_entry i at)
unfolding reverse_journal_entry
reverse_journal_entry-Keeps i at b = reverse_found-Advances at b _ (reversal_known b i)

ruleset keeping = (Keeps-guard, post_journal-Keeps)

pub post_pair-Keeps :
    (c : Common) (kind : EntryKind) (d k : SystemKey) (x : ℤ) → Keeps (post_pair c kind d k x)
unfolding post_pair
post_pair-Keeps c kind d k x = search keeping

post_sale-Keeps :
    (c : Common) (x : ℤ) (rs : List Receipt) (cost : Option ℤ) → Keeps (post_sale c x rs cost)
unfolding post_sale
post_sale-Keeps c x rs cost = search keeping

post_refund-Keeps :
    (c : Common) (x : ℤ) (m : PaymentMethod) (cost : Option ℤ) → Keeps (post_refund c x m cost)
unfolding post_refund
post_refund-Keeps c x m cost = search keeping

post_provider_settlement-Keeps :
    (c : Common) (x f : ℤ) (d : Destination) → Keeps (post_provider_settlement c x f d)
unfolding post_provider_settlement
post_provider_settlement-Keeps c x f d = search keeping

post_cash_adjustment-Keeps : (c : Common) (x : ℤ) → Keeps (post_cash_adjustment c x)
unfolding post_cash_adjustment
post_cash_adjustment-Keeps c x = search keeping

posted-Keeps : (m : Call Books JournalError Posted) → Keeps m → Keeps (m >>= posted)
posted-Keeps m h = Keeps-bind m posted h (λ p b. Advances-refl b)

reverse_if_found-Keeps : (t : Transaction) (o : Option Entry) → Keeps (reverse_if_found t o)
unfolding reverse_if_found
reverse_if_found-Keeps t none b = Advances-refl b
reverse_if_found-Keeps t (some e) b =
    posted-Keeps (reverse_journal_entry e.id (some t.created_at))
      (reverse_journal_entry-Keeps e.id (some t.created_at)) b

post_by_type-Keeps :
    (t : Transaction) (o : Option (EntryKind × SystemKey × SystemKey)) → Keeps (post_by_type t o)
unfolding post_by_type
post_by_type-Keeps t none b = Advances-refl b
post_by_type-Keeps t (some (kind, d, c)) b =
    posted-Keeps (post_journal _ _) (post_journal-Keeps _ _) b

post_unless_reversal-Keeps : (t : Transaction) (o : Option ℕ) → Keeps (post_unless_reversal t o)
unfolding post_unless_reversal
post_unless_reversal-Keeps t (some i) b = reverse_if_found-Keeps t _ b
post_unless_reversal-Keeps t none b = elim (Bool-cases (leb_ℤ t.amount (pos 0))) [
  | inl e ↦ rw e (Advances-refl b)
  | inr e ↦ rw e (post_by_type-Keeps t (entry_of t.kind t.payment_status) b)
]

legacy-Keeps : (t : Transaction) → Keeps (post_legacy_transaction_journal t)
unfolding post_legacy_transaction_journal
legacy-Keeps t = post_unless_reversal-Keeps t t.reversal_of

backfill-Keeps : (ts : List Transaction) (m n : ℕ) → Keeps (backfill ts m n)
unfolding backfill
backfill-Keeps [] m n b = Advances-refl b
backfill-Keeps (t ∷ ts) m n b =
    Keeps-bind (post_legacy_transaction_journal t) _ (legacy-Keeps t)
      (λ result. backfill-Keeps ts _ _) b

-- One request, answered or refused, keeps the books sound and only appends to them.
pub serve-Advances : (r : Request) (b : Books) → Advances b (serve r b)
unfolding serve post_debt_collection post_expense post_stock_purchase post_fee post_owner_withdrawal
    post_owner_contribution post_customer_advance post_stock_write_down post_stock_write_up
    post_opening_balance journal_legacy_transaction_if_enabled backfill_journals
serve-Advances (journal h ls) b = post_journal-Keeps h ls b
serve-Advances (reverse i at) b = reverse_journal_entry-Keeps i at b
serve-Advances (sale c x rs cost) b = post_sale-Keeps c x rs cost b
serve-Advances (debt_collection c x m) b = post_pair-Keeps c _ _ _ x b
serve-Advances (expense c x p) b = post_pair-Keeps c _ _ _ x b
serve-Advances (stock_purchase c x p) b = post_pair-Keeps c _ _ _ x b
serve-Advances (fee c x m) b = post_pair-Keeps c _ _ _ x b
serve-Advances (owner_withdrawal c x m) b = post_pair-Keeps c _ _ _ x b
serve-Advances (owner_contribution c x m) b = post_pair-Keeps c _ _ _ x b
serve-Advances (customer_advance c x m) b = post_pair-Keeps c _ _ _ x b
serve-Advances (refund c x m cost) b = post_refund-Keeps c x m cost b
serve-Advances (settlement c x f d) b = post_provider_settlement-Keeps c x f d b
serve-Advances (write_down c x l) b = post_pair-Keeps c _ _ _ x b
serve-Advances (write_up c x) b = post_pair-Keeps c _ _ _ x b
serve-Advances (cash_adjustment c x) b = post_cash_adjustment-Keeps c x b
serve-Advances (opening c os ls) b = post_journal-Keeps _ _ b
serve-Advances (legacy true t) b = legacy-Keeps t b
serve-Advances (legacy false t) b = Advances-refl b
serve-Advances (backfilling ts limit) b =
    backfill-Keeps (find_unjournaled limit b.entries ts []) 0 0 b

serve_all-Advances : (rs : List Request) (b : Books) → Advances b (serve_all rs b)
unfolding serve_all
serve_all-Advances [] b = Advances-refl b
serve_all-Advances (r ∷ rs) b =
    Advances-trans b (serve r b) _ (serve-Advances r b) (serve_all-Advances rs (serve r b))

-- After any requests on sound books, whatever their outcomes, every entry has at least two lines,
-- each a single positive debit or credit, with debits equal to credits; no two entries share an
-- idempotency key; and the entries that were there still stand unchanged, before the new ones.
pub serve_all-IsSound :
    (rs : List Request) (b : Books)
    → IsSound b
    → IsSound (serve_all rs b) × (es : List Entry) × ((serve_all rs b).entries ≡ b.entries ++ es)
serve_all-IsSound rs b s =
    let all = serve_all-Advances rs b in (all.sound s, all.new_entries, all.appended)

pub serve_all-IsCharted : (rs : List Request) (b : Books) → IsCharted b → IsCharted (serve_all rs b)
serve_all-IsCharted rs b = (serve_all-Advances rs b).charted
