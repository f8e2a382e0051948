-- ===== src/Accounting/TrialBalance.antt =====
-- The trial balance of sound books: both sides add up to the same.
use trade_pal_africa.Base.{
  ℕ, ◌≡◌, refl, sym, ◌∙◌, inl, inr, Bool, true, false, ◌&&◌, List, [], ◌∷◌, arith, Bool-cases, ◌==◌,
  ==_iff, leb, keep, any, All, All-keep, if◌then◌else◌,
}
use trade_pal_africa.Base.Int.{ℤ, pos, ◌+ℤ◌, ◌==ℤ◌, int_laws, zero-+ℤ}
use trade_pal_africa.Accounting.Books.{Account, Line, Entry, Books}
use trade_pal_africa.Accounting.Posting.{debits, credits}
use trade_pal_africa.Accounting.Reading.{
  Window, in_window, side_sum, window_sum, debit_side, credit_side, insert_by_code, sort_by_code,
  balance_rows, row_sum, trial_balance,
}
use trade_pal_africa.Accounting.Invariant.{
  IsSound, IsCharted, IsBalanced, DistinctIds, is_account, AreKnown,
}

-- A sum over accounts.
over_accounts : (Account → ℤ) → List Account → ℤ
over_accounts f [] = pos 0
over_accounts f (a ∷ as_) = f a +ℤ over_accounts f as_

over_accounts-add :
    (f g : Account → ℤ) (as_ : List Account)
    → over_accounts (λ a. f a +ℤ g a) as_ ≡ over_accounts f as_ +ℤ over_accounts g as_
unfolding over_accounts
over_accounts-add f g [] = omega int_laws
over_accounts-add f g (a ∷ as_) = rw (over_accounts-add f g as_) (omega int_laws)

over_accounts-zero : (as_ : List Account) → over_accounts (λ a. pos 0) as_ ≡ pos 0
unfolding over_accounts
over_accounts-zero [] = refl
over_accounts-zero (a ∷ as_) = rw (over_accounts-zero as_) (omega int_laws)

-- An amount that stands in one account counts once, and not at all where there is no such account.
over_accounts-absent :
    (i : ℕ) (x : ℤ) (as_ : List Account)
    → any (is_account i) as_ ≡ false
    → over_accounts (λ a. if i == a.id then x else pos 0) as_ ≡ pos 0
unfolding over_accounts
over_accounts-absent i x [] h = refl
over_accounts-absent i x (a ∷ as_) h = elim (Bool-cases (i == a.id)) [
  | inl e ↦ absurd (ground arith)
  | inr e ↦ rw (e, over_accounts-absent i x as_ (ground arith)) (omega int_laws)
]

over_accounts-one :
    (i : ℕ) (x : ℤ) (as_ : List Account)
    → DistinctIds as_
    → any (is_account i) as_ ≡ true
    → over_accounts (λ a. if i == a.id then x else pos 0) as_ ≡ x
unfolding over_accounts
over_accounts-one i x [] d h = cc
over_accounts-one i x (a ∷ as_) d h = elim (Bool-cases (i == a.id)) [
  | inl e ↦
      let same : i ≡ a.id = (==_iff i a.id).0 e in
      rw (e, over_accounts-absent i x as_ (rw same d.0)) (omega int_laws)
  | inr e ↦ rw (e, over_accounts-one i x as_ d.1 (ground arith)) (omega int_laws)
]

insert_by_code-over :
    (f : Account → ℤ) (a : Account) (as_ : List Account)
    → over_accounts f (insert_by_code a as_) ≡ f a +ℤ over_accounts f as_
unfolding over_accounts insert_by_code
insert_by_code-over f a [] = refl
insert_by_code-over f a (x ∷ as_) = elim (Bool-cases (leb a.code x.code)) [
  | inl e ↦ rw e
  | inr e ↦ rw (e, insert_by_code-over f a as_) (omega int_laws)
]

sort_by_code-over :
    (f : Account → ℤ) (as_ : List Account)
    → over_accounts f (sort_by_code as_) ≡ over_accounts f as_
unfolding over_accounts sort_by_code
sort_by_code-over f [] = refl
sort_by_code-over f (a ∷ as_) =
    rw (insert_by_code-over f a (sort_by_code as_), sort_by_code-over f as_)

both_zero : (x y : ℤ) → (x ==ℤ pos 0 && y ==ℤ pos 0) ≡ true → (x ≡ pos 0) × (y ≡ pos 0)
both_zero x y h = ground arith

-- A row that is left out has nothing on either side.
module _ (es : List Entry) where
  abbrev is_empty : Account → Bool
  is_empty a = window_sum debit_side a.id es ==ℤ pos 0 && window_sum credit_side a.id es ==ℤ pos 0

  row_sum-debit :
      (as_ : List Account)
      → row_sum (λ r. r.debit) (balance_rows es as_)
        ≡ over_accounts (λ a. window_sum debit_side a.id es) as_
  unfolding row_sum balance_rows over_accounts
  row_sum-debit [] = refl
  row_sum-debit (a ∷ as_) = elim (Bool-cases (is_empty a)) [
    | inl e ↦
        rw
          (
            e,
            row_sum-debit as_,
            (both_zero (window_sum debit_side a.id es) (window_sum credit_side a.id es) e).0,
          )
          (sym (zero-+ℤ _))
    | inr e ↦ rw (e, row_sum-debit as_)
  ]

  row_sum-credit :
      (as_ : List Account)
      → row_sum (λ r. r.credit) (balance_rows es as_)
        ≡ over_accounts (λ a. window_sum credit_side a.id es) as_
  unfolding row_sum balance_rows over_accounts
  row_sum-credit [] = refl
  row_sum-credit (a ∷ as_) = elim (Bool-cases (is_empty a)) [
    | inl e ↦
        rw
          (
            e,
            row_sum-credit as_,
            (both_zero (window_sum debit_side a.id es) (window_sum credit_side a.id es) e).1,
          )
          (sym (zero-+ℤ _))
    | inr e ↦ rw (e, row_sum-credit as_)
  ]

side_total : (Line → ℤ) → List Line → ℤ
side_total side [] = pos 0
side_total side (l ∷ ls) = side l +ℤ side_total side ls

entries_total : (Line → ℤ) → List Entry → ℤ
entries_total side [] = pos 0
entries_total side (e ∷ es) = side_total side e.lines +ℤ entries_total side es

module _ (b : Books) (charted : IsCharted b) (side : Line → ℤ) where
  lines-over :
      (ls : List Line)
      → AreKnown b ls
      → over_accounts (λ a. side_sum side a.id ls) b.accounts ≡ side_total side ls
  unfolding side_total side_sum
  lines-over [] h = over_accounts-zero b.accounts
  lines-over (l ∷ ls) h =
      over_accounts-add _ _ b.accounts
      ∙ rw (
        lines-over ls h.1,
        over_accounts-one l.account_id (side l) b.accounts charted.distinct h.0,
      )

  entries-over :
      (es : List Entry)
      → All (λ (e : Entry). AreKnown b e.lines) es
      → over_accounts (λ a. window_sum side a.id es) b.accounts ≡ entries_total side es
  unfolding entries_total window_sum
  entries-over [] h = over_accounts-zero b.accounts
  entries-over (e ∷ es) h =
      over_accounts-add _ _ b.accounts ∙ rw (lines-over e.lines h.0, entries-over es h.1)

debits-total : (ls : List Line) → side_total debit_side ls ≡ debits ls
unfolding side_total debits
debits-total [] = refl
debits-total (l ∷ ls) = rw (debits-total ls)

credits-total : (ls : List Line) → side_total credit_side ls ≡ credits ls
unfolding side_total credits
credits-total [] = refl
credits-total (l ∷ ls) = rw (credits-total ls)

balanced-total :
    (es : List Entry)
    → All (λ (e : Entry). IsBalanced e.lines) es
    → entries_total debit_side es ≡ entries_total credit_side es
unfolding entries_total
balanced-total [] h = refl
balanced-total (e ∷ es) h =
    rw (debits-total e.lines, credits-total e.lines, h.0.0, balanced-total es h.1)

-- In sound books, whose accounts have distinct ids and whose lines are all of known accounts, the
-- total debit and the total credit of the trial balance are equal, in any currency and over any
-- window.
pub trial_balance_balances :
    (b : Books) (w : Window)
    → IsSound b
    → IsCharted b
    → (trial_balance b w).total_debit ≡ (trial_balance b w).total_credit
unfolding trial_balance
trial_balance_balances b w s c =
    let es = keep (in_window w) b.entries in
    let known = All-keep _ (in_window w) b.entries c.known in
    row_sum-debit es (sort_by_code b.accounts)
    ∙ sort_by_code-over _ b.accounts
    ∙ entries-over b c debit_side es known
    ∙ balanced-total es (All-keep _ (in_window w) b.entries s.balanced)
    ∙ sym (
        row_sum-credit es (sort_by_code b.accounts)
        ∙ sort_by_code-over _ b.accounts
        ∙ entries-over b c credit_side es known)
