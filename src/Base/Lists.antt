-- ===== src/Base/Lists.antt =====
-- Searches and measures of lists, by Boolean tests and over the native numbers.
use Prim.Native.Nat.{ℕ, zero, suc, ◌+◌}
use mathlib.Core.Path.{◌≡◌, refl, subst, sym, ap}
use mathlib.Core.Bool.{Bool, true, false, ◌||◌}
use mathlib.Core.Option.{Option, none, some, some-injective}
use mathlib.Core.List.{List, [], ◌∷◌, ◌++◌}
use mathlib.Core.Logic.{inl, inr}
use native.Mathlib.Omega.{arith}
use trade_pal_africa.Base.Tests.{Bool-cases, if◌then◌else◌}

module _ {ℓ} {A : Type ℓ} where
  abbrev pub length : List A → ℕ
  length [] = 0
  length (_ ∷ xs) = suc (length xs)

  -- `xs.find(p)`
  abbrev pub find : (A → Bool) → List A → Option A
  find p [] = none
  find p (x ∷ xs) = if p x then some x else find p xs

  -- `xs.some(p)`
  abbrev pub any : (A → Bool) → List A → Bool
  any p [] = false
  any p (x ∷ xs) = p x || any p xs

  -- `xs.filter(p)`
  abbrev pub keep : (A → Bool) → List A → List A
  keep p [] = []
  keep p (x ∷ xs) = let rest = keep p xs in if p x then x ∷ rest else rest

  -- An update of the rows that a `where` clause selects.
  abbrev pub update_where : (A → Bool) → (A → A) → List A → List A
  update_where p f [] = []
  update_where p f (x ∷ xs) = (if p x then f x else x) ∷ update_where p f xs

  abbrev pub All {κ} : (A → Type κ) → List A → Type κ
  All P [] = Unit
  All P (x ∷ xs) = P x × All P xs

  abbrev pub get_or : List A → ℕ → A → A
  get_or [] _ d = d
  get_or (x ∷ _) zero _ = x
  get_or (_ ∷ xs) (suc i) d = get_or xs i d

  pub length-append : (xs ys : List A) → length (xs ++ ys) ≡ length xs + length ys
  length-append [] ys = omega arith
  length-append (x ∷ xs) ys = omega (arith, length-append xs ys)

  pub All-append {κ} : (P : A → Type κ) (xs ys : List A) → All P xs → All P ys → All P (xs ++ ys)
  All-append P [] ys hx hy = hy
  All-append P (x ∷ xs) ys hx hy = (hx.0, All-append P xs ys hx.1 hy)

  pub any-All : (p : A → Bool) (xs : List A) → any p xs ≡ false → All (λ x. p x ≡ false) xs
  any-All p [] h = tt
  any-All p (x ∷ xs) h = ground (arith, any-All p xs)

  pub find-none : (p : A → Bool) (xs : List A) → any p xs ≡ false → find p xs ≡ none
  find-none p [] h = refl
  find-none p (x ∷ xs) h = ground (arith, find-none p xs)

  pub find-append_none :
      (p : A → Bool) (xs ys : List A) → find p xs ≡ none → find p (xs ++ ys) ≡ find p ys
  find-append_none p [] ys h = refl
  find-append_none p (x ∷ xs) ys h = ground (arith, find-append_none p xs ys)

  pub find-of-append_none :
      (p : A → Bool) (xs ys : List A) → find p (xs ++ ys) ≡ none → find p xs ≡ none
  find-of-append_none p [] ys h = refl
  find-of-append_none p (x ∷ xs) ys h = ground (arith, find-of-append_none p xs ys)

  pub find-append_some :
      (p : A → Bool) (xs ys : List A) (a : A) → find p xs ≡ some a → find p (xs ++ ys) ≡ some a
  find-append_some p [] ys a h = cc
  find-append_some p (x ∷ xs) ys a h = ground (arith, find-append_some p xs ys a)

  pub keep-All : (p : A → Bool) (xs : List A) → All (λ x. p x ≡ true) (keep p xs)
  keep-All p [] = tt
  keep-All p (x ∷ xs) = ground (arith, keep-All p xs)

  pub All-keep {κ} : (P : A → Type κ) (p : A → Bool) (xs : List A) → All P xs → All P (keep p xs)
  All-keep P p [] h = tt
  All-keep P p (x ∷ xs) h = elim (Bool-cases (p x)) [
    | inl e ↦ rw e (h.0, All-keep P p xs h.1)
    | inr e ↦ rw e (All-keep P p xs h.1)
  ]

  pub any-append_left : (p : A → Bool) (xs ys : List A) → any p xs ≡ true → any p (xs ++ ys) ≡ true
  any-append_left p [] ys h = cc
  any-append_left p (x ∷ xs) ys h = ground (arith, any-append_left p xs ys)

  pub any-append_right : (p : A → Bool) (xs ys : List A) → any p ys ≡ true → any p (xs ++ ys) ≡ true
  any-append_right p [] ys h = h
  any-append_right p (x ∷ xs) ys h = ground (arith, any-append_right p xs ys)

  -- What is found passes the test, and satisfies what all do.
  pub find-some : (p : A → Bool) (xs : List A) (a : A) → find p xs ≡ some a → p a ≡ true
  find-some p [] a h = cc
  find-some p (x ∷ xs) a h = ground (arith, find-some p xs a)

  pub find-All {κ} :
      (P : A → Type κ) (p : A → Bool) (xs : List A) (a : A) → All P xs → find p xs ≡ some a → P a
  find-All P p [] a h e = cc
  find-All P p (x ∷ xs) a h e = elim (Bool-cases (p x)) [
    | inl hit ↦ subst P (some-injective x a (rw hit at e)) h.0
    | inr miss ↦ find-All P p xs a h.1 (rw miss at e)
  ]

  pub All-map {κ ρ} :
      (P : A → Type κ) (Q : A → Type ρ) (xs : List A) → ((x : A) → P x → Q x) → All P xs → All Q xs
  All-map P Q [] f h = tt
  All-map P Q (x ∷ xs) f h = (f x h.0, All-map P Q xs f h.1)

  pub All-update_where {κ ρ} :
      (P : A → Type κ) (Q : A → Type ρ) (p : A → Bool) (f : A → A) (xs : List A)
      → ((x : A) → P x → Q (if p x then f x else x))
      → All P xs
      → All Q (update_where p f xs)
  All-update_where P Q p f [] h k = tt
  All-update_where P Q p f (x ∷ xs) h k = (h x k.0, All-update_where P Q p f xs h k.1)

  -- What an update makes of the row that is found, where it selects rows of those looked for only,
  -- and that it leaves the rows it does not select.
  pub find-update_within :
      (q p : A → Bool) (f : A → A) (xs : List A) (a : A)
      → ((x : A) → q x ≡ false → p x ≡ false)
      → p a ≡ true
      → q (f a) ≡ true
      → find q xs ≡ some a
      → find q (update_where p f xs) ≡ some (f a)
  find-update_within q p f [] a within chosen hit h = cc
  find-update_within q p f (x ∷ xs) a within chosen hit h = elim (Bool-cases (q x)) [
    | inl e ↦
        let same = some-injective x a (rw e at h) in
        let selected : p x ≡ true = subst (λ y. p y ≡ true) (sym same) chosen in
        let again : q (f x) ≡ true = subst (λ y. q (f y) ≡ true) (sym same) hit in
        rw (selected, again) (ap (λ y. some (f y)) same)
    | inr e ↦ rw (within x e, e) (find-update_within q p f xs a within chosen hit (rw e at h))
  ]

  pub find-update_where :
      (p : A → Bool) (f : A → A) (xs : List A) (a : A)
      → p (f a) ≡ true
      → find p xs ≡ some a
      → find p (update_where p f xs) ≡ some (f a)
  find-update_where p f xs a hit h =
      find-update_within p p f xs a (λ x e. e) (find-some p xs a h) hit h

  pub keep-update_where :
      (k p : A → Bool) (f : A → A) (xs : List A)
      → ((x : A) → p x ≡ true → k x ≡ false)
      → ((x : A) → k (f x) ≡ k x)
      → keep k (update_where p f xs) ≡ keep k xs
  keep-update_where k p f [] out same = refl
  keep-update_where k p f (x ∷ xs) out same =
      let rest = keep-update_where k p f xs out same in
      elim (Bool-cases (p x)) [ inl e ↦ rw (e, same x, out x e) rest | inr e ↦ rw (e, rest) refl ]

abbrev pub sum : List ℕ → ℕ
sum [] = 0
sum (x ∷ xs) = x + sum xs
