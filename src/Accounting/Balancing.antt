-- ===== src/Accounting/Balancing.antt =====
-- Balanced inputs on a standard chart are posted: the way every posting rule ends well.
use trade_pal_africa.Base.{
  ℕ, suc, ◌+◌, ◌≤◌, ◌≡◌, refl, sym, ap, ◌∙◌, ◌⊎◌, inl, inr, true, false, Option, none, some, List,
  [], ◌∷◌, ◌++◌, arith, ltb, Bool-cases, length, any, All, or_else, ok, Call,
}
use trade_pal_africa.Base.Int.{ℤ, pos, ◌+ℤ◌, ◌<ℤ◌, int_laws}
use trade_pal_africa.Accounting.Chart.{SystemKey}
use trade_pal_africa.Accounting.Books.{
  Line, Header, Entry, Books, JournalKey, JournalError, Posted, create_account, create_accounts,
  account_id, missing_accounts, ensure_chart_of_accounts,
}
use trade_pal_africa.Accounting.Posting.{
  LineInput, debits, credits, has_key, new_entry, resolve, post_journal,
}
use trade_pal_africa.Accounting.Invariant.{IsSingle, IsBalanced}
use trade_pal_africa.Accounting.Outcomes.{insert_entry_new}
use trade_pal_africa.Accounting.Charting.{IsStandard, ensure_chart_complete}

abbrev pub debit_of : LineInput → ℤ
debit_of l = or_else l.debit (pos 0)

abbrev pub credit_of : LineInput → ℤ
credit_of l = or_else l.credit (pos 0)

unfoldable pub input_sum : (LineInput → ℤ) → List LineInput → ℤ
input_sum f [] = pos 0
input_sum f (l ∷ ls) = f l +ℤ input_sum f ls

pub input_sum-append :
    (f : LineInput → ℤ) (xs ys : List LineInput)
    → input_sum f (xs ++ ys) ≡ input_sum f xs +ℤ input_sum f ys
unfolding input_sum
input_sum-append f [] ys = omega int_laws
input_sum-append f (x ∷ xs) ys = rw (input_sum-append f xs ys) (omega int_laws)

abbrev pub IsSingleInput : LineInput → Type 0
IsSingleInput l =
    ((pos 0 <ℤ debit_of l) × (credit_of l ≡ pos 0))
    ⊎ ((debit_of l ≡ pos 0) × (pos 0 <ℤ credit_of l))

-- Inputs that make an entry once their accounts are known.
abbrev pub AreBalanced : List LineInput → Type 0
AreBalanced ls =
    (input_sum debit_of ls ≡ input_sum credit_of ls) × (2 ≤ length ls) × All IsSingleInput ls

-- The lines that inputs become carry the same amounts.
pub record Resolved (accounts : SystemKey → Option ℕ) (inputs : List LineInput) : Type 0 where
  pub lines : List Line
  pub resolved : resolve accounts inputs ≡ some lines
  pub same_debits : debits lines ≡ input_sum debit_of inputs
  pub same_credits : credits lines ≡ input_sum credit_of inputs
  pub same_length : length lines ≡ length inputs
  pub single : All IsSingleInput inputs → All IsSingle lines

resolve-total :
    (accounts : SystemKey → Option ℕ) (inputs : List LineInput)
    → ((k : SystemKey) → (i : ℕ) × (accounts k ≡ some i))
    → Resolved accounts inputs
unfolding resolve debits credits input_sum
resolve-total accounts [] f = record {
  lines = [];
  resolved = refl;
  same_debits = refl;
  same_credits = refl;
  same_length = refl;
  single = λ h. tt;
}
resolve-total accounts (l ∷ inputs) f =
    let (i, e) = f l.account in
    let rest = resolve-total accounts inputs f in
    record {
      lines = record { account_id = i; debit = debit_of l; credit = credit_of l } ∷ rest.lines;
      resolved = rw (e, rest.resolved);
      same_debits = rw (rest.same_debits);
      same_credits = rw (rest.same_credits);
      same_length = ap suc rest.same_length;
      single = λ h. (h.0, rest.single h.1);
    }

create_accounts_entries :
    (ks : List SystemKey) (b : Books) → (create_accounts ks b).entries ≡ b.entries
unfolding create_accounts
create_accounts_entries [] b = refl
create_accounts_entries (k ∷ ks) b = create_accounts_entries ks (create_account k b) ∙ ground arith

ensure_chart_entries : (b : Books) → (ensure_chart_of_accounts b).1.entries ≡ b.entries
unfolding ensure_chart_of_accounts
ensure_chart_entries b = elim (Bool-cases (ltb 0 (length (missing_accounts b.accounts)))) [
  | inl e ↦ rw e (create_accounts_entries (missing_accounts b.accounts) b)
  | inr e ↦ rw e
]

-- A call posted the inputs as a new entry at the end of the books, and no other entry.
pub record IsPosted (call : Call Books JournalError Posted) (inputs : List LineInput)
    (k : JournalKey) (b : Books) : Type 0 where
  pub entry : Entry
  pub after : Books
  pub returned : call b ≡ (ok (record { entry = entry; created = true }), after)
  pub appended : after.entries ≡ b.entries ++ entry ∷ []
  pub lines_of_inputs : resolve (account_id after.accounts) inputs ≡ some entry.lines
  pub with_key : entry.key ≡ k

pub IsPosted-same :
    (call call' : Call Books JournalError Posted) (inputs : List LineInput) (k : JournalKey)
    (b : Books)
    → call b ≡ call' b
    → IsPosted call' inputs k b
    → IsPosted call inputs k b
IsPosted-same call call' inputs k b same done = record {
  entry = done.entry;
  after = done.after;
  returned = same ∙ done.returned;
  appended = done.appended;
  lines_of_inputs = done.lines_of_inputs;
  with_key = done.with_key;
}

pub post_journal_new :
    (h : Header) (inputs : List LineInput) (b : Books)
    → IsStandard b.accounts
    → AreBalanced inputs
    → any (has_key h.key) b.entries ≡ false
    → IsPosted (post_journal h inputs) inputs h.key b
unfolding post_journal ensure_chart_of_accounts
post_journal_new h inputs b standard balanced fresh = record {
  entry = new_entry h lines none b';
  after = record b' {
    entries = b'.entries ++ new_entry h lines none b' ∷ [];
    next_id = b'.next_id + 1;
  };
  returned =
      rw (r.resolved)
        (insert_entry_new h lines none b' lines_balanced (rw (ensure_chart_entries b) fresh) refl);
  appended = rw (ensure_chart_entries b);
  lines_of_inputs = r.resolved;
  with_key = refl;
}
  where
    b' : Books
    b' = (ensure_chart_of_accounts b).1

    r : Resolved (account_id b'.accounts) inputs
    r = resolve-total (account_id b'.accounts) inputs (λ k. ensure_chart_complete b k standard)

    lines : List Line
    lines = r.lines

    lines_balanced : IsBalanced lines
    lines_balanced = (
      r.same_debits ∙ balanced.0 ∙ sym r.same_credits,
      omega (arith, r.same_length),
      r.single balanced.2,
    )
