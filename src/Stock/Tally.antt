-- ===== src/Stock/Tally.antt =====
-- The three buckets that movements change, and what it is for the balances to agree with the
-- movements. A pair of shop and variant without a row has no stock.
use trade_pal_africa.Base.{
  ℕ, Bool, true, false, none, some, List, [], ◌∷◌, ◌++◌, ◌≡◌, refl, sym, ◌∙◌, inl, inr, arith,
  if◌then◌else◌, Bool-cases, Option-cases, find, update_where, All, All-append, All-update_where,
  find-of-append_none, find-append_none,
}
use trade_pal_africa.Base.Int.{ℤ, pos, ◌+ℤ◌, zero-+ℤ, +ℤ_assoc, int_laws}
use trade_pal_africa.Stock.Rows.{Balance, Movement, is_row, new_row}
use trade_pal_africa.Stock.Movements.{ensure_row}
use trade_pal_africa.Stock.Reconciling.{sum_where, moves_row}

pub data Bucket : Type 0 where
  on_hand_bucket damaged_bucket in_transit_bucket : Bucket

abbrev pub bucket : Bucket → Balance → ℤ
bucket on_hand_bucket b = b.on_hand
bucket damaged_bucket b = b.damaged
bucket in_transit_bucket b = b.in_transit

abbrev pub delta : Bucket → Movement → ℤ
delta on_hand_bucket m = m.on_hand_delta
delta damaged_bucket m = m.damaged_delta
delta in_transit_bucket m = m.in_transit_delta

unfoldable pub moved : Bucket → ℕ → ℕ → List Movement → ℤ
moved k shop variant ms = sum_where (moves_row shop variant) (delta k) ms

abbrev pub RowTallied : Bucket → List Movement → Balance → Type 0
RowTallied k ms b = bucket k b ≡ moved k b.shop b.variant ms

pub record IsTallied (bs : List Balance) (ms : List Movement) : Type 0 where
  pub rows : (k : Bucket) → All (RowTallied k ms) bs
  pub missing :
      (k : Bucket) (shop variant : ℕ)
      → find (is_row shop variant) bs ≡ none
      → moved k shop variant ms ≡ pos 0

pub sum_where-append :
    {A : Type 0} (p : A → Bool) (f : A → ℤ) (xs : List A) (x : A)
    → sum_where p f (xs ++ x ∷ []) ≡ sum_where p f xs +ℤ (if p x then f x else pos 0)
sum_where-append p f [] x = omega int_laws
sum_where-append p f (y ∷ xs) x = rw (sum_where-append p f xs x) (sym (+ℤ_assoc _ _ _))

pub moved-append :
    (k : Bucket) (shop variant : ℕ) (ms : List Movement) (m : Movement)
    → moved k shop variant (ms ++ m ∷ [])
      ≡ moved k shop variant ms +ℤ (if moves_row shop variant m then delta k m else pos 0)
unfolding moved
moved-append k shop variant ms m = sum_where-append (moves_row shop variant) (delta k) ms m

pub same_row :
    (shop variant : ℕ) (b : Balance)
    → is_row shop variant b ≡ true
    → (b.shop ≡ shop) × (b.variant ≡ variant)
same_row shop variant b h = (ground arith, ground arith)

-- What an update leaves to be found, where it leaves the pairs of shop and variant as they are.
module _ (p : Balance → Bool) (f : Balance → Balance)
    (keeps : (x : Balance) (shop variant : ℕ)
      → is_row shop variant (f x) ≡ is_row shop variant x) where
  find-update_none :
      (shop variant : ℕ) (bs : List Balance)
      → find (is_row shop variant) (update_where p f bs) ≡ none
      → find (is_row shop variant) bs ≡ none
  find-update_none shop variant [] h = refl
  find-update_none shop variant (b ∷ bs) h = elim (Bool-cases (p b)) [
    | inl e ↦ elim (Bool-cases (is_row shop variant b)) [
      | inl e' ↦ cc (rw (e, keeps b shop variant, e') at h)
      | inr e' ↦ rw e' (find-update_none shop variant bs (rw (e, keeps b shop variant, e') at h))
    ]
    | inr e ↦ elim (Bool-cases (is_row shop variant b)) [
      | inl e' ↦ cc (rw (e, e') at h)
      | inr e' ↦ rw e' (find-update_none shop variant bs (rw (e, e') at h))
    ]
  ]

pub new_bucket : (k : Bucket) (shop variant : ℕ) → bucket k (new_row shop variant) ≡ pos 0
new_bucket on_hand_bucket shop variant = refl
new_bucket damaged_bucket shop variant = refl
new_bucket in_transit_bucket shop variant = refl

-- A new row has nothing, and had no movements.
pub ensure_row-IsTallied :
    (shop variant : ℕ) (bs : List Balance) (ms : List Movement)
    → IsTallied bs ms
    → IsTallied (ensure_row shop variant bs) ms
ensure_row-IsTallied shop variant bs ms t = elim (Option-cases (find (is_row shop variant) bs)) [
  | inl e ↦ rw e (record {
    rows = λ k.
        All-append (RowTallied k ms) bs (new_row shop variant ∷ []) (t.rows k)
          (new_bucket k shop variant ∙ sym (t.missing k shop variant e), tt);
    missing = λ k sh v h. t.missing k sh v (find-of-append_none _ bs _ h);
  })
  | inr (b, e) ↦ rw e t
]

new_row-IsRow : (shop variant : ℕ) → is_row shop variant (new_row shop variant) ≡ true
new_row-IsRow shop variant = ground arith

pub find-ensure_row :
    (shop variant : ℕ) (bs : List Balance)
    → (b : Balance) × (find (is_row shop variant) (ensure_row shop variant bs) ≡ some b)
find-ensure_row shop variant bs = elim (Option-cases (find (is_row shop variant) bs)) [
  | inl e ↦ rw e (
    new_row shop variant,
    find-append_none (is_row shop variant) bs _ e ∙ rw (new_row-IsRow shop variant) refl,
  )
  | inr (b, e) ↦ rw e (b, e)
]

-- An update that leaves the buckets and the pairs of shop and variant as they are.
pub update-IsTallied :
    (p : Balance → Bool) (f : Balance → Balance) (bs : List Balance) (ms : List Movement)
    → ((x : Balance) (shop variant : ℕ) → is_row shop variant (f x) ≡ is_row shop variant x)
    → ((k : Bucket) (x : Balance) → RowTallied k ms x → RowTallied k ms (f x))
    → IsTallied bs ms
    → IsTallied (update_where p f bs) ms
update-IsTallied p f bs ms keeps same t = record {
  rows = λ k.
      All-update_where (RowTallied k ms) (RowTallied k ms) p f bs
        (λ x h. elim (Bool-cases (p x)) [ inl e ↦ rw e (same k x h) | inr e ↦ rw e h ]) (t.rows k);
  missing =
      λ k shop variant h. t.missing k shop variant (find-update_none p f keeps shop variant bs h);
}

plus_zero : (a : ℤ) → a +ℤ pos 0 ≡ a
plus_zero a = omega int_laws

-- A movement of the pair that `m` names, and the row it changes.
module _ (m : Movement) (f : Balance → Balance)
    (names : (x : Balance) → ((f x).shop ≡ x.shop) × ((f x).variant ≡ x.variant))
    (adds : (k : Bucket) (x : Balance) → bucket k (f x) ≡ bucket k x +ℤ delta k m) where
  keeps : (x : Balance) (shop variant : ℕ) → is_row shop variant (f x) ≡ is_row shop variant x
  keeps x shop variant = rw ((names x).0, (names x).1) refl

  moves_same : (x : Balance) → is_row m.shop m.variant x ≡ moves_row x.shop x.variant m
  moves_same x = ground arith

  pair_of :
      (shop variant : ℕ) → moves_row shop variant m ≡ true → (shop ≡ m.shop) × (variant ≡ m.variant)
  pair_of shop variant e = (ground arith, ground arith)

  moved_row :
      (k : Bucket) (ms : List Movement) (x : Balance)
      → RowTallied k ms x
      → RowTallied k (ms ++ m ∷ []) (if is_row m.shop m.variant x then f x else x)
  moved_row k ms x h = elim (Bool-cases (is_row m.shop m.variant x)) [
    | inl e ↦
        rw
          (
            e,
            adds k x,
            h,
            (names x).0,
            (names x).1,
            moved-append k x.shop x.variant ms m,
            sym (moves_same x),
            e,
          )
          refl
    | inr e ↦
        rw (e, moved-append k x.shop x.variant ms m, sym (moves_same x), e, h) (sym (plus_zero _))
  ]

  -- A pair without a row is not the pair of a movement that has one.
  other_row :
      (shop variant : ℕ) (bs : List Balance) (b : Balance)
      → find (is_row shop variant) bs ≡ none
      → find (is_row m.shop m.variant) bs ≡ some b
      → moves_row shop variant m ≡ false
  other_row shop variant bs b missing found = elim (Bool-cases (moves_row shop variant m)) [
    | inl e ↦
        let missing' = rw ((pair_of shop variant e).0, (pair_of shop variant e).1) at missing in cc
    | inr e ↦ e
  ]

  pub write-IsTallied :
      (bs : List Balance) (ms : List Movement) (b : Balance)
      → find (is_row m.shop m.variant) bs ≡ some b
      → IsTallied bs ms
      → IsTallied (update_where (is_row m.shop m.variant) f bs) (ms ++ m ∷ [])
  write-IsTallied bs ms b found t = record {
    rows = λ k.
        All-update_where (RowTallied k ms) (RowTallied k (ms ++ m ∷ [])) _ f bs (moved_row k ms)
          (t.rows k);
    missing = λ k shop variant h.
        rw
          (
            moved-append k shop variant ms m,
            t.missing k shop variant (find-update_none _ f keeps shop variant bs h),
            other_row shop variant bs b (find-update_none _ f keeps shop variant bs h) found,
          )
          (zero-+ℤ _);
  }
