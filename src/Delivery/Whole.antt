-- ===== src/Delivery/Whole.antt =====
-- src/domain/outbox.ts, `claimDueOutboxEvents`: a claim whose limit is no obstacle takes every row
-- that is due.
use trade_pal_africa.Base.{
  zero, suc, ◌+◌, ◌≤◌, ℕ, Bool, true, false, ◌&&◌, ◌||◌, not, List, [], ◌∷◌, ◌==◌, any, keep, All,
  All-map, ◌≡◌, refl, sym, ap, ◌∙◌, arith, Bool-cases, inl, inr, length, ==_iff, subst,
}
use trade_pal_africa.Delivery.Queue.{
  Item, Claim, among, has_item, take, insert_item, order_items, due_items, is_due,
}
use trade_pal_africa.Delivery.SinglePass.{IsKeyed}

take_all : (n : ℕ) (xs : List Item) → length xs ≤ n → take n xs ≡ xs
take_all zero [] h = refl
take_all zero (x ∷ xs) h = ground arith
take_all (suc n) [] h = refl
take_all (suc n) (x ∷ xs) h = ap (λ t. x ∷ t) (take_all n xs (omega arith))

length-insert_item :
    (before : Item → Item → Bool) (x : Item) (ys : List Item)
    → length (insert_item before x ys) ≡ length ys + 1
unfolding insert_item
length-insert_item before x [] = refl
length-insert_item before x (y ∷ ys) = ground (arith, length-insert_item before x ys)

length-order_items :
    (before : Item → Item → Bool) (xs : List Item) → length (order_items before xs) ≡ length xs
unfolding order_items
length-order_items before [] = refl
length-order_items before (x ∷ xs) =
    omega (arith, length-order_items before xs, length-insert_item before x (order_items before xs))

length-keep : (q : Item → Bool) (xs : List Item) → length (keep q xs) ≤ length xs
length-keep q [] = omega arith
length-keep q (x ∷ xs) = ground (arith, length-keep q xs)

any-insert_item :
    (p : Item → Bool) (before : Item → Item → Bool) (x : Item) (ys : List Item)
    → any p (insert_item before x ys) ≡ p x || any p ys
unfolding insert_item
any-insert_item p before x [] = refl
any-insert_item p before x (y ∷ ys) = ground (arith, any-insert_item p before x ys)

any-order_items :
    (p : Item → Bool) (before : Item → Item → Bool) (xs : List Item)
    → any p (order_items before xs) ≡ any p xs
unfolding order_items
any-order_items p before [] = refl
any-order_items p before (x ∷ xs) =
    any-insert_item p before x (order_items before xs)
    ∙ ap (λ b. p x || b) (any-order_items p before xs)

-- A row is among those kept where it is kept, if its id names one row and it is there.
any-keep :
    (q : Item → Bool) (x : Item) (xs : List Item)
    → All (λ y. y.id ≡ x.id → y ≡ x) xs
    → any (has_item x.id) (keep q xs) ≡ q x && any (has_item x.id) xs
any-keep q x [] h = ground arith
any-keep q x (y ∷ ys) h = elim (Bool-cases (y.id == x.id)) [
  | inl e ↦
      subst (λ z. any (has_item x.id) (keep q (z ∷ ys)) ≡ q x && any (has_item x.id) (z ∷ ys))
        (sym (h.0 ((==_iff y.id x.id).0 e))) (ground (arith, any-keep q x ys, ==_iff x.id x.id))
  | inr e ↦ ground (arith, any-keep q x ys)
]

and_true : (b : Bool) → b && true ≡ b
and_true b = ground arith

pub All-zip :
    (P Q R : Item → Type 0) (xs : List Item)
    → ((x : Item) → P x → Q x → R x)
    → All P xs
    → All Q xs
    → All R xs
All-zip P Q R [] f h k = tt
All-zip P Q R (x ∷ xs) f h k = (f x h.0 k.0, All-zip P Q R xs f h.1 k.1)

among_self : (xs : List Item) → All (λ x. among xs x ≡ true) xs
among_self [] = tt
among_self (x ∷ xs) = (
  ground arith,
  All-map (λ y. among xs y ≡ true) (λ y. among (x ∷ xs) y ≡ true) xs (λ y h. ground arith)
      (among_self xs),
)

among-due_items :
    (before : Item → Item → Bool) (c : Claim) (xs : List Item) (x : Item)
    → length xs ≤ c.limit
    → All (λ y. y.id ≡ x.id → y ≡ x) xs
    → among xs x ≡ true
    → among (due_items before (λ _. false) c xs) x ≡ is_due c x
unfolding due_items
among-due_items before c xs x n h m =
    let q = λ (y : Item). is_due c y && not false in
    let ys = order_items before (keep q xs) in
    let short : length ys ≤ c.limit =
      omega (arith, n, length-order_items before (keep q xs), length-keep q xs) in
    ap (any (has_item x.id)) (take_all c.limit ys short)
    ∙ any-order_items (has_item x.id) before (keep q xs)
    ∙ any-keep q x xs h
    ∙ ap (λ b. q x && b) m
    ∙ ap (λ b. b && true) (and_true (is_due c x))
    ∙ and_true (is_due c x)

pub due_items_whole :
    (before : Item → Item → Bool) (c : Claim) (xs : List Item)
    → length xs ≤ c.limit
    → IsKeyed xs
    → All (λ x. among (due_items before (λ _. false) c xs) x ≡ is_due c x) xs
due_items_whole before c xs n h =
    All-zip (λ x. All (λ y. y.id ≡ x.id → y ≡ x) xs) (λ x. among xs x ≡ true)
      (λ x. among (due_items before (λ _. false) c xs) x ≡ is_due c x) xs
      (λ x k m. among-due_items before c xs x n k m) h (among_self xs)
