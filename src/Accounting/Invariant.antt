-- ===== src/Accounting/Invariant.antt =====
-- What holds of the books between two calls, and that every call keeps it and only appends.
use trade_pal_africa.Base.{
  ℕ, ◌+◌, Bool, ◌==◌, ◌≤◌, ◌<◌, ◌≡◌, ◌⊎◌, refl, true, false, ◌||◌, ◌&&◌, Option, List, [], ◌∷◌,
  ◌++◌, arith, length, any, All, All-append, any-All, any-append_left, All-map,
}
use trade_pal_africa.Base.Int.{ℤ, pos, ◌<ℤ◌, ltb_ℤ}
use trade_pal_africa.Accounting.Books.{same_journal_key, Account, Line, Header, Entry, Books}
use trade_pal_africa.Accounting.Posting.{
  debits, credits, is_non_zero, is_malformed, has_key, new_entry,
}

-- A line is a single positive debit or a single positive credit.
abbrev pub IsSingle : Line → Type 0
IsSingle l = ((pos 0 <ℤ l.debit) × (l.credit ≡ pos 0)) ⊎ ((l.debit ≡ pos 0) × (pos 0 <ℤ l.credit))

-- What makes lines an entry: debits meet credits, over two lines at least.
abbrev pub IsBalanced : List Line → Type 0
IsBalanced ls = (debits ls ≡ credits ls) × (2 ≤ length ls) × All IsSingle ls

abbrev pub DistinctKeys : List Entry → Type 0
DistinctKeys [] = Unit
DistinctKeys (e ∷ es) = All (λ f. same_journal_key e.key f.key ≡ false) es × DistinctKeys es

pub record IsSound (b : Books) : Type 0 where
  pub balanced : All (λ e. IsBalanced e.lines) b.entries
  pub keys : DistinctKeys b.entries
  pub ids : All (λ (e : Entry). e.id < b.next_id) b.entries

abbrev pub is_account : ℕ → Account → Bool
is_account i a = a.id == i

-- The business has an account with this id.
abbrev pub knows : Books → ℕ → Bool
knows b i = any (is_account i) b.accounts

abbrev pub DistinctIds : List Account → Type 0
DistinctIds [] = Unit
DistinctIds (a ∷ as_) = (any (is_account a.id) as_ ≡ false) × DistinctIds as_

abbrev pub AreKnown : Books → List Line → Type 0
AreKnown b = All (λ (l : Line). knows b l.account_id ≡ true)

-- The ids of the accounts are distinct, and every line stands in one of the accounts.
pub record IsCharted (b : Books) : Type 0 where
  pub distinct : DistinctIds b.accounts
  pub account_ids : All (λ (a : Account). a.id < b.next_id) b.accounts
  pub known : All (λ (e : Entry). AreKnown b e.lines) b.entries

-- The books grew: what was sound is sound, and no account and no entry was changed or removed.
pub record Advances (b b' : Books) : Type 0 where
  pub sound : IsSound b → IsSound b'
  pub charted : IsCharted b → IsCharted b'
  pub knowing : (i : ℕ) → knows b i ≡ true → knows b' i ≡ true
  pub new_entries : List Entry
  pub appended : b'.entries ≡ b.entries ++ new_entries

DistinctKeys-snoc :
    (es : List Entry) (f : Entry)
    → DistinctKeys es
    → All (λ (e : Entry). same_journal_key e.key f.key ≡ false) es
    → DistinctKeys (es ++ f ∷ [])
DistinctKeys-snoc [] f d h = (tt, tt)
DistinctKeys-snoc (e ∷ es) f d h =
    (All-append _ es (f ∷ []) d.0 (h.0, tt), DistinctKeys-snoc es f d.1 h.1)

single_line :
    (d c : ℤ)
    → ltb_ℤ (pos 0) d || ltb_ℤ (pos 0) c ≡ true
    → ltb_ℤ d (pos 0) || ltb_ℤ c (pos 0) || (ltb_ℤ (pos 0) d && ltb_ℤ (pos 0) c) ≡ false
    → ((pos 0 <ℤ d) × (c ≡ pos 0)) ⊎ ((d ≡ pos 0) × (pos 0 <ℤ c))
single_line d c h k = ground arith

pub IsSingle-lines :
    (ls : List Line)
    → All (λ l. is_non_zero l ≡ true) ls
    → All (λ l. is_malformed l ≡ false) ls
    → All IsSingle ls
IsSingle-lines [] h k = tt
IsSingle-lines (l ∷ ls) h k = (single_line l.debit l.credit h.0 k.0, IsSingle-lines ls h.1 k.1)

-- An entry with a new key that balances is a sound addition.
pub append-IsSound :
    (b : Books) (h : Header) (ls : List Line) (r : Option ℕ)
    → IsBalanced ls
    → any (has_key h.key) b.entries ≡ false
    → IsSound b
    → IsSound (record b { entries = b.entries ++ new_entry h ls r b ∷ []; next_id = b.next_id + 1 })
append-IsSound b h ls r balanced fresh s = record {
  balanced = All-append _ b.entries _ s.balanced (balanced, tt);
  keys = DistinctKeys-snoc b.entries _ s.keys (any-All (has_key h.key) b.entries fresh);
  ids =
      All-append _ b.entries _
        (All-map _ _ b.entries (λ (e : Entry) (k : e.id < b.next_id). omega arith) s.ids)
        (omega arith, tt);
}

pub AreKnown-mono :
    (b c : Books) (ls : List Line)
    → ((i : ℕ) → knows b i ≡ true → knows c i ≡ true)
    → AreKnown b ls
    → AreKnown c ls
AreKnown-mono b c ls f = All-map _ _ ls (λ l. f l.account_id)

pub append-IsCharted :
    (b : Books) (h : Header) (ls : List Line) (r : Option ℕ)
    → AreKnown b ls
    → IsCharted b
    → IsCharted
        (record b { entries = b.entries ++ new_entry h ls r b ∷ []; next_id = b.next_id + 1 })
append-IsCharted b h ls r k s = record {
  distinct = s.distinct;
  account_ids =
      All-map _ _ b.accounts (λ (a : Account) (q : a.id < b.next_id). omega arith) s.account_ids;
  known = All-append _ b.entries _ s.known (k, tt);
}

DistinctIds-snoc :
    (as_ : List Account) (x : Account)
    → DistinctIds as_
    → All (λ (a : Account). a.id < x.id) as_
    → DistinctIds (as_ ++ x ∷ [])
DistinctIds-snoc [] x d h = (refl, tt)
DistinctIds-snoc (a ∷ as_) x d h =
    (any-snoc a.id as_ x d.0 (omega arith), DistinctIds-snoc as_ x d.1 h.1)
  where
    any-snoc :
        (i : ℕ) (as_ : List Account) (x : Account)
        → any (is_account i) as_ ≡ false
        → i < x.id
        → any (is_account i) (as_ ++ x ∷ []) ≡ false
    any-snoc i [] x h k = ground arith
    any-snoc i (a ∷ as_) x h k = ground (arith, any-snoc i as_ x)

-- A new account has an id that no other has.
pub open-IsCharted :
    (b : Books) (x : Account)
    → x.id ≡ b.next_id
    → IsCharted b
    → IsCharted (record b { accounts = b.accounts ++ x ∷ []; next_id = b.next_id + 1 })
open-IsCharted b x e s = record {
  distinct =
      DistinctIds-snoc b.accounts x s.distinct (
        All-map _ _ b.accounts (λ (a : Account) (q : a.id < b.next_id). omega arith) s.account_ids);
  account_ids =
      All-append _ b.accounts _
        (All-map _ _ b.accounts (λ (a : Account) (q : a.id < b.next_id). omega arith) s.account_ids)
        (omega arith, tt);
  known =
      All-map _ _ b.entries
        (λ (y : Entry) (k : AreKnown b y.lines).
          All-map _ _ y.lines (λ (l : Line). any-append_left (is_account l.account_id) b.accounts _)
            k)
        s.known;
}
