-- ===== src/Accounting/Outcomes.antt =====
-- What an insertion returns: a new entry, or the entry that already has its key.
use trade_pal_africa.Base.{
  ℕ, ◌+◌, ◌≡◌, refl, ap, ◌∙◌, ◌⊎◌, inl, inr, true, false, not, ◌&&◌, ◌||◌, Option, none, some, List,
  [], ◌∷◌, ◌++◌, arith, ltb, Bool-cases, length, find, any, keep, All, find-none, find-append_none,
  find-append_some, Result, ok, err,
}
use mathlib.Core.Option.{none-ne-some}
use trade_pal_africa.Base.Int.{ℤ, pos, ◌<ℤ◌, ltb_ℤ, ◌==ℤ◌}
use trade_pal_africa.Accounting.Books.{
  JournalError, JournalKey, of_movement, of_reversal, of_transaction, of_shortfall, other_key,
  same_journal_key, Line, Header, Entry, Books, Posted,
}
use trade_pal_africa.Accounting.Posting.{
  debits, credits, is_non_zero, is_malformed, has_key, new_entry, create_entry, reversal_taken,
  create_or_find, answer_race, settle_race, found_or_create, insert_entry_among, insert_entry,
}
use trade_pal_africa.Accounting.Invariant.{IsSingle, IsBalanced}

single_passes :
    (d c : ℤ)
    → ((pos 0 <ℤ d) × (c ≡ pos 0)) ⊎ ((d ≡ pos 0) × (pos 0 <ℤ c))
    → (ltb_ℤ (pos 0) d || ltb_ℤ (pos 0) c ≡ true)
      × (ltb_ℤ d (pos 0) || ltb_ℤ c (pos 0) || (ltb_ℤ (pos 0) d && ltb_ℤ (pos 0) c) ≡ false)
single_passes d c h = ground arith

-- Lines that are single survive the filter, and pass the check.
keep-single :
    (ls : List Line) → All IsSingle ls → (keep is_non_zero ls ≡ ls) × (any is_malformed ls ≡ false)
keep-single [] h = (refl, refl)
keep-single (l ∷ ls) h =
    let (n, m) = single_passes l.debit l.credit h.0 in
    let (ns, ms) = keep-single ls h.1 in (rw (n, ns) refl, rw (m, ms) refl)

module _ (others : Books → Books) (h : Header) (r : Option ℕ) where
  -- Balanced lines reach the look-up by the key.
  pub insert_balanced :
      (ls : List Line) (b : Books)
      → IsBalanced ls
      → insert_entry_among others h ls r b
        ≡ found_or_create others h ls r (find (has_key h.key) b.entries) b
  unfolding insert_entry_among
  insert_balanced ls b bal =
      let (kept, fine) = keep-single ls bal.2 in
      let long : ltb (length ls) 2 ≡ false = ground arith in
      let even : not (debits ls ==ℤ credits ls) ≡ false = ground arith in
      rw (kept, fine, long, even)

-- A key that nobody has used makes a new entry, at the end of the books.
pub insert_entry_new :
    (h : Header) (ls : List Line) (r : Option ℕ) (b : Books)
    → IsBalanced ls
    → any (has_key h.key) b.entries ≡ false
    → reversal_taken r b.entries ≡ false
    → insert_entry h ls r b ≡ (
      ok (record { entry = new_entry h ls r b; created = true }),
      record b { entries = b.entries ++ new_entry h ls r b ∷ []; next_id = b.next_id + 1 },
    )
unfolding found_or_create create_or_find
insert_entry_new h ls r b bal fresh free =
    insert_balanced (λ c. c) h r ls b bal
    ∙ rw (find-none (has_key h.key) b.entries fresh, fresh, free)

same_journal_key_refl : (k : JournalKey) → same_journal_key k k ≡ true
same_journal_key_refl (of_movement a) = ground arith
same_journal_key_refl (of_reversal a) = ground arith
same_journal_key_refl (of_transaction a) = ground arith
same_journal_key_refl (of_shortfall a b) = ground arith
same_journal_key_refl (other_key a) = ground arith

-- The value in an outcome, or another one where the call threw.
abbrev entry_in : Entry → Result JournalError Posted → Entry
entry_in d (ok p) = p.entry
entry_in d (err _) = d

find-new :
    (h : Header) (ls : List Line) (r : Option ℕ) (b : Books)
    → any (has_key h.key) b.entries ≡ false
    → find (has_key h.key) (b.entries ++ new_entry h ls r b ∷ []) ≡ some (new_entry h ls r b)
find-new h ls r b fresh =
    find-append_none (has_key h.key) b.entries (new_entry h ls r b ∷ [])
      (find-none (has_key h.key) b.entries fresh)
    ∙ rw (same_journal_key_refl h.key)

create_entry-finds :
    (h : Header) (ls : List Line) (r : Option ℕ) (b : Books) (e : Entry)
    → (create_entry h ls r b).0 ≡ some e
    → find (has_key h.key) (create_entry h ls r b).1.entries ≡ some e
create_entry-finds h ls r b e made = elim (Bool-cases (any (has_key h.key) b.entries)) [
  | inl taken ↦ absurd (none-ne-some e (rw taken at made))
  | inr fresh ↦ elim (Bool-cases (reversal_taken r b.entries)) [
    | inl taken ↦ absurd (none-ne-some e (rw (fresh, taken) at made))
    | inr free ↦ rw (fresh, free) (find-new h ls r b fresh ∙ (rw (fresh, free) at made))
  ]
]

settle_race-finds :
    (k : JournalKey) (x : Option Entry × Books) (p : Posted)
    → ((e : Entry) → x.0 ≡ some e → find (has_key k) x.1.entries ≡ some e)
    → (settle_race k x).0 ≡ ok p
    → find (has_key k) (settle_race k x).1.entries ≡ some p.entry
settle_race-finds k (some e, b) p f h = f e refl ∙ ap (λ r. some (entry_in e r)) h
settle_race-finds k (none, b) p f h = answered (find (has_key k) b.entries) refl h
  where
    answered :
        (o : Option Entry)
        → find (has_key k) b.entries ≡ o
        → answer_race o ≡ ok p
        → find (has_key k) b.entries ≡ some p.entry
    answered none e q = cc
    answered (some raced) e q = e ∙ ap (λ r. some (entry_in raced r)) q

-- Whatever other clients write between the look-up and the insert, if an insertion returns then
-- the entry that it returns is the one that its key finds in the books.
module _ (others : Books → Books) (h : Header) (r : Option ℕ) where
  found_or_create-finds :
      (ls : List Line) (b : Books) (p : Posted) (o : Option Entry)
      → find (has_key h.key) b.entries ≡ o
      → (found_or_create others h ls r o b).0 ≡ ok p
      → find (has_key h.key) (found_or_create others h ls r o b).1.entries ≡ some p.entry
  unfolding found_or_create create_or_find
  found_or_create-finds ls b p (some e) f k = f ∙ ap (λ x. some (entry_in e x)) k
  found_or_create-finds ls b p none f k =
      settle_race-finds h.key (create_entry h ls r (others b)) p
        (create_entry-finds h ls r (others b)) k

  pub insert_entry_among-finds :
      (ls : List Line) (b : Books) (p : Posted)
      → (insert_entry_among others h ls r b).0 ≡ ok p
      → find (has_key h.key) (insert_entry_among others h ls r b).1.entries ≡ some p.entry
  unfolding insert_entry_among
  insert_entry_among-finds ls b p k = elim (Bool-cases (any is_malformed (keep is_non_zero ls))) [
    | inl m ↦ cc (rw m at k)
    | inr m ↦ elim (Bool-cases (ltb (length (keep is_non_zero ls)) 2)) [
      | inl n ↦ cc (rw (m, n) at k)
      | inr n ↦
          elim (Bool-cases (not (debits (keep is_non_zero ls) ==ℤ credits (keep is_non_zero ls)))) [
            | inl e ↦ cc (rw (m, n, e) at k)
            | inr e ↦
                rw (m, n, e)
                  (found_or_create-finds (keep is_non_zero ls) b p _ refl (rw (m, n, e) at k))
          ]
    ]
  ]

  -- Lines that were once posted reach the look-up by the key in any books.
  insert_found :
      (others' : Books → Books) (ls : List Line) (b c : Books) (p : Posted) (e : Entry)
      → (insert_entry_among others h ls r b).0 ≡ ok p
      → find (has_key h.key) c.entries ≡ some e
      → insert_entry_among others' h ls r c ≡ (ok (record { entry = e; created = false }), c)
  unfolding insert_entry_among found_or_create
  insert_found others' ls b c p e k f = elim (Bool-cases (any is_malformed (keep is_non_zero ls))) [
    | inl m ↦ cc (rw m at k)
    | inr m ↦ elim (Bool-cases (ltb (length (keep is_non_zero ls)) 2)) [
      | inl n ↦ cc (rw (m, n) at k)
      | inr n ↦
          elim (Bool-cases (not (debits (keep is_non_zero ls) ==ℤ credits (keep is_non_zero ls)))) [
            | inl u ↦ cc (rw (m, n, u) at k)
            | inr u ↦ rw (m, n, u, f)
          ]
    ]
  ]

  -- Posting is idempotent: once an insertion has returned an entry, the same insertion on any later
  -- books returns that entry again, as not created, and writes nothing; whatever other clients
  -- wrote during the first one, in between, or during the second one.
  pub insert_entry_replayed :
      (others' : Books → Books) (ls : List Line) (b c : Books) (p : Posted) (es : List Entry)
      → (insert_entry_among others h ls r b).0 ≡ ok p
      → c.entries ≡ (insert_entry_among others h ls r b).1.entries ++ es
      → insert_entry_among others' h ls r c ≡ (ok (record { entry = p.entry; created = false }), c)
  insert_entry_replayed others' ls b c p es k later =
      insert_found others' ls b c p p.entry k (
        rw later
          (find-append_some (has_key h.key) _ es p.entry (insert_entry_among-finds ls b p k)))
