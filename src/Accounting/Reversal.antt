-- ===== src/Accounting/Reversal.antt =====
-- What `reverseJournalEntry` does to an entry that may be reversed.
use trade_pal_africa.Base.{
  ℕ, ◌+◌, ◌≡◌, refl, sym, ◌∙◌, true, false, inl, inr, arith, Option, none, some, List, [], ◌∷◌,
  ◌++◌, map, ◌==◌, if◌then◌else◌, Bool-cases, length, find, any, ok, All, find-All,
}
use trade_pal_africa.Base.Int.{ℤ, pos, ◌+ℤ◌, ◌-ℤ◌, pos_part, neg_part, +ℤ_parts, int_laws}
use trade_pal_africa.Accounting.Books.{of_reversal, Line, Entry, Books}
use trade_pal_africa.Accounting.Posting.{
  debits, credits, has_key, new_entry, reversal_taken, swap_sides, reversal_header, reverse_entry,
  reverse_journal_entry,
}
use trade_pal_africa.Accounting.Invariant.{IsSingle, IsBalanced, IsSound}
use trade_pal_africa.Accounting.Outcomes.{insert_entry_new}

-- The net debit of an account over lines.
abbrev pub net : ℕ → List Line → ℤ
net i [] = pos 0
net i (l ∷ ls) = (if l.account_id == i then l.debit -ℤ l.credit else pos 0) +ℤ net i ls

debits-swap_sides : (ls : List Line) → debits (map swap_sides ls) ≡ credits ls
unfolding debits credits
debits-swap_sides [] = refl
debits-swap_sides (l ∷ ls) = rw (debits-swap_sides ls) refl

credits-swap_sides : (ls : List Line) → credits (map swap_sides ls) ≡ debits ls
unfolding debits credits
credits-swap_sides [] = refl
credits-swap_sides (l ∷ ls) = rw (credits-swap_sides ls) refl

length-swap_sides : (ls : List Line) → length (map swap_sides ls) ≡ length ls
length-swap_sides [] = refl
length-swap_sides (l ∷ ls) = omega (arith, length-swap_sides ls)

swap_sides-IsSingle : (ls : List Line) → All IsSingle ls → All IsSingle (map swap_sides ls)
swap_sides-IsSingle [] h = tt
swap_sides-IsSingle (l ∷ ls) h =
    (elim h.0 [ inl d ↦ inr (d.1, d.0) | inr c ↦ inl (c.1, c.0) ], swap_sides-IsSingle ls h.1)

swap_sides-IsBalanced : (ls : List Line) → IsBalanced ls → IsBalanced (map swap_sides ls)
swap_sides-IsBalanced ls h = (
  debits-swap_sides ls ∙ sym h.0 ∙ sym (credits-swap_sides ls),
  omega (arith, length-swap_sides ls, h.1),
  swap_sides-IsSingle ls h.2,
)

zero_sum : (n m : ℤ) → n +ℤ m ≡ pos 0 → pos_part n + pos_part m ≡ neg_part n + neg_part m
zero_sum n m h = let parts = rw h at (+ℤ_parts n m) in omega (arith, parts)

cancel : (d c n m : ℤ) → n +ℤ m ≡ pos 0 → (d -ℤ c +ℤ n) +ℤ (c -ℤ d +ℤ m) ≡ pos 0
cancel d c n m h = omega (int_laws, zero_sum n m h)

skip : (n m : ℤ) → n +ℤ m ≡ pos 0 → (pos 0 +ℤ n) +ℤ (pos 0 +ℤ m) ≡ pos 0
skip n m h = omega (int_laws, zero_sum n m h)

net-swap_sides : (i : ℕ) (ls : List Line) → net i ls +ℤ net i (map swap_sides ls) ≡ pos 0
net-swap_sides i [] = omega int_laws
net-swap_sides i (l ∷ ls) = elim (Bool-cases (l.account_id == i)) [
  | inl e ↦ rw e (cancel l.debit l.credit _ _ (net-swap_sides i ls))
  | inr e ↦ rw e (skip _ _ (net-swap_sides i ls))
]

-- In sound books an entry that is no reversal, was not reversed, and whose reversal key is free, is
-- reversed: the call returns a new entry that names it, appends that entry alone, and in every
-- account the lines of the two entries come to zero.
pub reverse_journal_entry_cancels :
    (b : Books) (entry_id : ℕ) (occurred_at : Option ℕ) (e : Entry)
    → IsSound b
    → find (λ (x : Entry). x.id == entry_id) b.entries ≡ some e
    → e.reversal_of ≡ none
    → any (has_key (of_reversal e.id)) b.entries ≡ false
    → reversal_taken (some e.id) b.entries ≡ false
    → (r : Entry) × (reverse_journal_entry entry_id occurred_at b ≡ (
      ok (record { entry = r; created = true }),
      record b { entries = b.entries ++ r ∷ []; next_id = b.next_id + 1 },
    ))
      × (r.reversal_of ≡ some e.id)
      × ((i : ℕ) → net i e.lines +ℤ net i r.lines ≡ pos 0)
unfolding reverse_journal_entry reverse_entry
reverse_journal_entry_cancels b entry_id occurred_at e s found plain fresh free = (
  new_entry (reversal_header e occurred_at b.clock) (map swap_sides e.lines) (some e.id) b,
  rw (found, plain)
      (insert_entry_new (reversal_header e occurred_at b.clock) (map swap_sides e.lines) (some e.id)
        b
        (swap_sides-IsBalanced e.lines (
          find-All (λ (x : Entry). IsBalanced x.lines) (λ x. x.id == entry_id) b.entries e
            s.balanced found))
        fresh free),
  refl,
  λ i. net-swap_sides i e.lines,
)
