-- ===== src/Accounting/Preservation.antt =====
-- Every call on the books keeps them sound and only appends to them.
use trade_pal_africa.Base.{
  ℕ, ◌+◌, ◌<◌, ◌≡◌, refl, sym, subst, ◌∙◌, inl, inr, Bool, true, false, not, Option, none, some,
  List, [], ◌∷◌, ◌++◌, arith, ltb, Bool-cases, length, find, any, keep, any-All, any-append_left,
  All-keep, keep-All, All-map, if◌then◌else◌, Call, Result, ok, err, or_throw, throw_if, ◌>>=◌,
  ◌>>◌, resume,
}
use trade_pal_africa.Base.Int.{◌==ℤ◌}
use trade_pal_africa.Accounting.Chart.{SystemKey}
use trade_pal_africa.Accounting.Books.{
  JournalError, invalid, JournalKey, Account, Line, Header, Entry, Books, create_account,
  system_account, account_id, create_accounts, ensure_chart_of_accounts,
}
use trade_pal_africa.Accounting.Posting.{
  debits, credits, is_non_zero, is_malformed, has_key, new_entry, create_entry, reversal_taken,
  create_or_find, insert_entry_among, settle_race, found_or_create, resolve, resolve_line,
  LineInput, insert_entry, post_journal,
}
use trade_pal_africa.Accounting.Invariant.{
  IsBalanced, Advances, append-IsSound, IsSingle-lines, IsCharted, AreKnown, append-IsCharted,
  open-IsCharted, is_account,
}
use mathlib.Core.Option.{some-injective, none-ne-some}
use mathlib.Core.List.{append-nil, append_assoc}

pub Advances-refl : (b : Books) → Advances b b
Advances-refl b = record {
  sound = λ s. s;
  charted = λ s. s;
  knowing = λ i k. k;
  new_entries = [];
  appended = sym (append-nil b.entries);
}

pub Advances-trans : (a b c : Books) → Advances a b → Advances b c → Advances a c
Advances-trans a b c p q = record {
  sound = λ s. q.sound (p.sound s);
  charted = λ s. q.charted (p.charted s);
  knowing = λ i k. q.knowing i (p.knowing i k);
  new_entries = p.new_entries ++ q.new_entries;
  appended = q.appended ∙ rw (p.appended) (append_assoc a.entries p.new_entries q.new_entries);
}

-- A call that keeps the books sound and only appends, whether it returns or throws.
abbrev pub Keeps : {A : Type 0} → Call Books JournalError A → Type 0
Keeps m = (b : Books) → Advances b (m b).1

module _ {A B : Type 0} where
  Keeps-resume :
      (f : A → Call Books JournalError B) (b : Books) (r : Result JournalError A × Books)
      → Advances b r.1
      → ((a : A) → Keeps (f a))
      → Advances b (resume f r).1
  Keeps-resume f b (ok a, b') p k = Advances-trans b b' _ p (k a b')
  Keeps-resume f b (err e, b') p k = p

  pub Keeps-bind :
      (m : Call Books JournalError A) (f : A → Call Books JournalError B)
      → Keeps m
      → ((a : A) → Keeps (f a))
      → Keeps (m >>= f)
  Keeps-bind m f h k b = Keeps-resume f b (m b) (h b) k

module _ {A : Type 0} where
  pub Keeps-guard :
      (c : Bool) (e : JournalError) (m : Call Books JournalError A)
      → Keeps m
      → Keeps (throw_if c e >> m)
  Keeps-guard true e m h b = Advances-refl b
  Keeps-guard false e m h b = h b

  pub Keeps-or_throw : (o : Option A) (e : JournalError) → Keeps (or_throw o e)
  Keeps-or_throw none e b = Advances-refl b
  Keeps-or_throw (some a) e b = Advances-refl b

Advances-if :
    (c : Bool) (b x y : Books) → Advances b x → Advances b y → Advances b (if c then x else y)
Advances-if true b x y h k = h
Advances-if false b x y h k = k

open_account-Advances :
    (b : Books) (x : Account)
    → x.id ≡ b.next_id
    → Advances b (record b { accounts = b.accounts ++ x ∷ []; next_id = b.next_id + 1 })
open_account-Advances b x e = record {
  sound = λ s. record {
    balanced = s.balanced;
    keys = s.keys;
    ids = All-map _ _ b.entries (λ (y : Entry) (k : y.id < b.next_id). omega arith) s.ids;
  };
  charted = open-IsCharted b x e;
  knowing = λ i. any-append_left (is_account i) b.accounts (x ∷ []);
  new_entries = [];
  appended = sym (append-nil b.entries);
}

create_account-Advances : (k : SystemKey) (b : Books) → Advances b (create_account k b)
create_account-Advances k b =
    Advances-if _ b b _ (Advances-refl b) (open_account-Advances b (system_account k b) refl)

create_accounts-Advances : (ks : List SystemKey) (b : Books) → Advances b (create_accounts ks b)
unfolding create_accounts
create_accounts-Advances [] b = Advances-refl b
create_accounts-Advances (k ∷ ks) b =
    Advances-trans b (create_account k b) _ (create_account-Advances k b)
      (create_accounts-Advances ks (create_account k b))

pub ensure_chart-Keeps : Keeps ensure_chart_of_accounts
unfolding ensure_chart_of_accounts
ensure_chart-Keeps b = Advances-if _ b _ b (create_accounts-Advances _ b) (Advances-refl b)

create_entry-Advances :
    (h : Header) (ls : List Line) (r : Option ℕ) (b : Books)
    → IsBalanced ls
    → (IsCharted b → AreKnown b ls)
    → Advances b (create_entry h ls r b).1
create_entry-Advances h ls r b balanced known = elim (Bool-cases (any (has_key h.key) b.entries)) [
  | inl taken ↦ rw taken (Advances-refl b)
  | inr fresh ↦ elim (Bool-cases (reversal_taken r b.entries)) [
    | inl taken ↦ rw (fresh, taken) (Advances-refl b)
    | inr free ↦
        rw (fresh, free)
          (record {
            sound = append-IsSound b h ls r balanced fresh;
            charted = λ s. append-IsCharted b h ls r (known s) s;
            knowing = λ i k. k;
            new_entries = new_entry h ls r b ∷ [];
            appended = refl;
          })
  ]
]

settle_race_state : (k : JournalKey) (r : Option Entry × Books) → (settle_race k r).1 ≡ r.1
settle_race_state k (some e, b) = refl
settle_race_state k (none, b) = refl

-- Lines that pass the three guards make an entry.
guarded_lines :
    (ls : List Line)
    → any is_malformed (keep is_non_zero ls) ≡ false
    → ltb (length (keep is_non_zero ls)) 2 ≡ false
    → not (debits (keep is_non_zero ls) ==ℤ credits (keep is_non_zero ls)) ≡ false
    → IsBalanced (keep is_non_zero ls)
guarded_lines ls m n e = (
  ground arith,
  ground arith,
  IsSingle-lines (keep is_non_zero ls) (keep-All is_non_zero ls) (any-All is_malformed _ m),
)

module _ (others : Books → Books) (interferes : (b : Books) → Advances b (others b)) where
  create_or_find-Advances :
      (h : Header) (ls : List Line) (r : Option ℕ) (b : Books)
      → IsBalanced ls
      → (IsCharted (others b) → AreKnown (others b) ls)
      → Advances b (create_or_find others h ls r b).1
  unfolding create_or_find
  create_or_find-Advances h ls r b balanced known =
      rw (settle_race_state h.key (create_entry h ls r (others b))) (
        Advances-trans b (others b) _ (interferes b)
          (create_entry-Advances h ls r (others b) balanced known))

  found_or_create-Advances :
      (h : Header) (ls : List Line) (r : Option ℕ) (o : Option Entry) (b : Books)
      → IsBalanced ls
      → (IsCharted (others b) → AreKnown (others b) ls)
      → Advances b (found_or_create others h ls r o b).1
  unfolding found_or_create
  found_or_create-Advances h ls r (some e) b balanced known = Advances-refl b
  found_or_create-Advances h ls r none b balanced known =
      create_or_find-Advances h ls r b balanced known

  -- Whatever other clients append in between, an insertion of lines in known accounts keeps the
  -- books sound.
  pub insert_entry_among-Advances :
      (h : Header) (ls : List Line) (r : Option ℕ) (b : Books)
      → (IsCharted (others b) → AreKnown (others b) ls)
      → Advances b (insert_entry_among others h ls r b).1
  unfolding insert_entry_among
  insert_entry_among-Advances h ls r b known =
      elim (Bool-cases (any is_malformed (keep is_non_zero ls))) [
        | inl m ↦ rw m (Advances-refl b)
        | inr m ↦ elim (Bool-cases (ltb (length (keep is_non_zero ls)) 2)) [
          | inl n ↦ rw (m, n) (Advances-refl b)
          | inr n ↦
              elim (Bool-cases
                (not (debits (keep is_non_zero ls) ==ℤ credits (keep is_non_zero ls)))) [
                  | inl e ↦ rw (m, n, e) (Advances-refl b)
                  | inr e ↦
                      rw (m, n, e)
                        (found_or_create-Advances h _ r (find (has_key h.key) b.entries) b
                          (guarded_lines ls m n e) (λ s. All-keep _ is_non_zero ls (known s)))
                ]
        ]
      ]

account_id-knows :
    (as_ : List Account) (k : SystemKey) (i : ℕ)
    → account_id as_ k ≡ some i
    → any (is_account i) as_ ≡ true
unfolding account_id
account_id-knows [] k i h = cc
account_id-knows (a ∷ as_) k i h = ground (arith, account_id-knows as_ k i)

resolve_line-AreKnown :
    (b : Books) (l : LineInput) (o : Option ℕ) (r : Option (List Line)) (ls : List Line)
    → ((i : ℕ) → o ≡ some i → any (is_account i) b.accounts ≡ true)
    → ((rest : List Line) → r ≡ some rest → AreKnown b rest)
    → resolve_line l o r ≡ some ls
    → AreKnown b ls
unfolding resolve_line
resolve_line-AreKnown b l none r ls f g h = absurd (none-ne-some ls h)
resolve_line-AreKnown b l (some i) none ls f g h = absurd (none-ne-some ls h)
resolve_line-AreKnown b l (some i) (some rest) ls f g h =
    subst (AreKnown b) (some-injective _ ls h) (f i refl, g rest refl)

resolve-AreKnown :
    (b : Books) (inputs : List LineInput) (ls : List Line)
    → resolve (account_id b.accounts) inputs ≡ some ls
    → AreKnown b ls
unfolding resolve
resolve-AreKnown b [] ls h = subst (AreKnown b) (some-injective [] ls h) tt
resolve-AreKnown b (l ∷ inputs) ls h =
    resolve_line-AreKnown b l (account_id b.accounts l.account) _ ls
      (account_id-knows b.accounts l.account) (resolve-AreKnown b inputs) h

pub post_lines-Advances :
    (h : Header) (inputs : List LineInput) (b : Books) (o : Option (List Line))
    → ((ls : List Line) → o ≡ some ls → AreKnown b ls)
    → Advances b ((or_throw o invalid >>= λ lines. insert_entry h lines none) b).1
post_lines-Advances h inputs b none known = Advances-refl b
post_lines-Advances h inputs b (some ls) known =
    insert_entry_among-Advances (λ c. c) Advances-refl h ls none b (λ s. known ls refl)

pub post_journal-Keeps : (h : Header) (inputs : List LineInput) → Keeps (post_journal h inputs)
unfolding post_journal ensure_chart_of_accounts
post_journal-Keeps h inputs b =
    let b' = (ensure_chart_of_accounts b).1 in
    Advances-trans b b' _ (ensure_chart-Keeps b) (
      post_lines-Advances h inputs b' (resolve (account_id b'.accounts) inputs)
        (resolve-AreKnown b' inputs))
