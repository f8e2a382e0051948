-- ===== src/Delivery/SinglePass.antt =====
-- src/domain/outbox.ts, `processOutbox`: a sweep as a single pass over the table.
use trade_pal_africa.Base.{
  Bool, ◌&&◌, not, List, [], ◌∷◌, if◌then◌else◌, keep, All, All-map, ℕ, zero, suc, All-keep, ◌≡◌,
  refl, Bool-cases, inl, inr,
}
use trade_pal_africa.Delivery.Retry.{RetryPolicy}
use trade_pal_africa.Delivery.Queue.{
  Item, Claim, Handlers, map_items, among, take, insert_item, order_items, due_items, is_due,
}
use trade_pal_africa.Delivery.Rows.{swept_row}
use trade_pal_africa.Delivery.Ends.{delivered, swept_row-delivered}

-- What is claimed is of the table.
All-insert_item :
    (P : Item → Type 0) (before : Item → Item → Bool) (x : Item) (ys : List Item)
    → P x
    → All P ys
    → All P (insert_item before x ys)
unfolding insert_item
All-insert_item P before x [] p h = (p, tt)
All-insert_item P before x (y ∷ ys) p h = elim (Bool-cases (before x y)) [
  | inl e ↦ rw e (p, h)
  | inr e ↦ rw e (h.0, All-insert_item P before x ys p h.1)
]

All-order_items :
    (P : Item → Type 0) (before : Item → Item → Bool) (xs : List Item)
    → All P xs
    → All P (order_items before xs)
unfolding order_items
All-order_items P before [] h = tt
All-order_items P before (x ∷ xs) h =
    All-insert_item P before x (order_items before xs) h.0 (All-order_items P before xs h.1)

All-take : (P : Item → Type 0) (n : ℕ) (xs : List Item) → All P xs → All P (take n xs)
All-take P zero xs h = tt
All-take P (suc n) [] h = tt
All-take P (suc n) (x ∷ xs) h = (h.0, All-take P n xs h.1)

pub All-due_items :
    (P : Item → Type 0) (before : Item → Item → Bool) (locked : Item → Bool) (c : Claim)
    (xs : List Item)
    → All P xs
    → All P (due_items before locked c xs)
unfolding due_items
All-due_items P before locked c xs h =
    let q = λ (x : Item). is_due c x && not (locked x) in
    All-take P c.limit (order_items before (keep q xs))
      (All-order_items P before (keep q xs) (All-keep P q xs h))

-- The id of a row names one row only.
abbrev pub IsKeyed : List Item → Type 0
IsKeyed xs = All (λ x. All (λ y. y.id ≡ x.id → y ≡ x) xs) xs

pub map_items-same :
    (f g : Item → Item) (xs : List Item) → All (λ x. f x ≡ g x) xs → map_items f xs ≡ map_items g xs
map_items-same f g [] h = refl
map_items-same f g (x ∷ xs) h = rw (h.0, map_items-same f g xs h.1) refl

pub swept-rows :
    (before : Item → Item → Bool) (locked : Item → Bool) (c : Claim) (retry : RetryPolicy)
    (hs : Handlers) (xs : List Item)
    → IsKeyed xs
    → map_items (swept_row c retry hs (due_items before locked c xs)) xs
      ≡ map_items
          (λ x. if among (due_items before locked c xs) x then delivered c retry hs x else x)
          xs
swept-rows before locked c retry hs xs h =
    let due = due_items before locked c xs in
    map_items-same (swept_row c retry hs due)
      (λ x. if among due x then delivered c retry hs x else x) xs
      (All-map (λ x. All (λ y. y.id ≡ x.id → y ≡ x) xs)
        (λ x. swept_row c retry hs due x ≡ (if among due x then delivered c retry hs x else x)) xs
        (λ x k.
          swept_row-delivered c retry hs due x
            (All-due_items (λ y. y.id ≡ x.id → y ≡ x) before locked c xs k))
        h)
