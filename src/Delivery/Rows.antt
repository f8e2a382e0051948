-- ===== src/Delivery/Rows.antt =====
-- src/domain/outbox.ts, `processOutbox`: the table after a sweep, row by row. The updates that the
-- loop makes one after the other come to one function on every row.
use trade_pal_africa.Base.{
  Bool, Option, none, some, List, [], ◌∷◌, if◌then◌else◌, update_where, ℕ, ◌≡◌, refl, ap, ◌∙◌,
  Bool-cases, inl, inr,
}
use trade_pal_africa.Delivery.Retry.{RetryPolicy, is_retry_exhausted}
use trade_pal_africa.Delivery.Queue.{
  Item, Claim, Swept, Handlers, handler_for, outcome, finished, buried, put_back, set_item, settle,
  settle_each, claimed, map_items, among, has_item,
}

-- What the end of an item makes of its row.
unfoldable pub ended : ℕ → RetryPolicy → Item → Option ℕ → Item → Item
ended now retry x none = finished now
ended now retry x (some message) =
    if is_retry_exhausted x.attempts retry
    then buried message
    else put_back now retry x.attempts message

-- Handlers answer the claimed row.
abbrev pub answer : Handlers → Item → Option ℕ
answer hs x = outcome (handler_for x.topic hs.table) hs.no_handler x

abbrev pub on_row : ℕ → RetryPolicy → Handlers → Item → Item → Item
on_row now retry hs y r = if has_item y.id r then ended now retry y (answer hs y) r else r

-- What the ends of the claimed rows make of a row.
unfoldable pub on_rows : ℕ → RetryPolicy → Handlers → List Item → Item → Item
on_rows now retry hs [] r = r
on_rows now retry hs (y ∷ ys) r = on_rows now retry hs ys (on_row now retry hs y r)

set_item-map :
    (i : ℕ) (f g : Item → Item) (xs : List Item)
    → set_item i f (map_items g xs) ≡ map_items (λ x. if has_item i (g x) then f (g x) else g x) xs
set_item-map i f g [] = refl
set_item-map i f g (x ∷ xs) = rw (set_item-map i f g xs) refl

settle-map :
    (now : ℕ) (retry : RetryPolicy) (hs : Handlers) (y : Item) (o : Option ℕ) (n : Swept)
    (g : Item → Item) (xs : List Item)
    → (settle now retry y o (n, map_items g xs)).1
      ≡ map_items (λ x. if has_item y.id (g x) then ended now retry y o (g x) else g x) xs
unfolding settle ended
settle-map now retry hs y none n g xs = set_item-map y.id (finished now) g xs
settle-map now retry hs y (some m) n g xs =
    elim (Bool-cases (is_retry_exhausted y.attempts retry)) [
      | inl e ↦ rw e (set_item-map y.id (buried m) g xs)
      | inr e ↦ rw e (set_item-map y.id (put_back now retry y.attempts m) g xs)
    ]

-- The loop from a table that is a function of rows.
settle_each-map :
    (now : ℕ) (retry : RetryPolicy) (hs : Handlers) (ys : List Item) (n : Swept) (g : Item → Item)
    (xs : List Item)
    → (settle_each now retry hs ys (n, map_items g xs)).1
      ≡ map_items (λ x. on_rows now retry hs ys (g x)) xs
unfolding settle_each on_rows
settle_each-map now retry hs [] n g xs = refl
settle_each-map now retry hs (y ∷ ys) n g xs =
    let o = answer hs y in
    let r = settle now retry y o (n, map_items g xs) in
    ap (λ t. (settle_each now retry hs ys (r.0, t)).1) (settle-map now retry hs y o n g xs)
    ∙ settle_each-map now retry hs ys r.0 (λ x. on_row now retry hs y (g x)) xs

update_where-map :
    (p : Item → Bool) (f : Item → Item) (xs : List Item)
    → update_where p f xs ≡ map_items (λ x. if p x then f x else x) xs
update_where-map p f [] = refl
update_where-map p f (x ∷ xs) = rw (update_where-map p f xs) refl

-- A row after a sweep that claims `due`.
unfoldable pub swept_row : Claim → RetryPolicy → Handlers → List Item → Item → Item
unfolding on_rows
swept_row c retry hs due x =
    on_rows c.now retry hs (map_items (claimed c) due) (if among due x then claimed c x else x)

pub settle_each-claimed :
    (c : Claim) (retry : RetryPolicy) (hs : Handlers) (due : List Item) (n : Swept) (xs : List Item)
    → (settle_each c.now retry hs
        (map_items (claimed c) due)
        (n, update_where (among due) (claimed c) xs)).1
      ≡ map_items (swept_row c retry hs due) xs
unfolding swept_row
settle_each-claimed c retry hs due n xs =
    ap (λ t. (settle_each c.now retry hs (map_items (claimed c) due) (n, t)).1)
      (update_where-map (among due) (claimed c) xs)
    ∙ settle_each-map c.now retry hs (map_items (claimed c) due) n
        (λ x. if among due x then claimed c x else x) xs

-- A sweep changes neither the id of a row nor its key or topic.
abbrev pub Named : Item → Item → Type 0
Named x y = (y.id ≡ x.id) × (y.key ≡ x.key) × (y.topic ≡ x.topic)

pub ended-Named :
    (now : ℕ) (retry : RetryPolicy) (y : Item) (o : Option ℕ) (x r : Item)
    → Named x r
    → Named x (ended now retry y o r)
unfolding ended
ended-Named now retry y none x r h = h
ended-Named now retry y (some m) x r h = elim (Bool-cases (is_retry_exhausted y.attempts retry)) [
  | inl e ↦ rw e h
  | inr e ↦ rw e h
]

on_row-Named :
    (now : ℕ) (retry : RetryPolicy) (hs : Handlers) (y x r : Item)
    → Named x r
    → Named x (on_row now retry hs y r)
on_row-Named now retry hs y x r h = elim (Bool-cases (has_item y.id r)) [
  | inl e ↦ rw e (ended-Named now retry y (answer hs y) x r h)
  | inr e ↦ rw e h
]

on_rows-Named :
    (now : ℕ) (retry : RetryPolicy) (hs : Handlers) (ys : List Item) (x r : Item)
    → Named x r
    → Named x (on_rows now retry hs ys r)
unfolding on_rows
on_rows-Named now retry hs [] x r h = h
on_rows-Named now retry hs (y ∷ ys) x r h =
    on_rows-Named now retry hs ys x (on_row now retry hs y r) (on_row-Named now retry hs y x r h)

pub swept_row-Named :
    (c : Claim) (retry : RetryPolicy) (hs : Handlers) (due : List Item) (x : Item)
    → Named x (swept_row c retry hs due x)
unfolding swept_row
swept_row-Named c retry hs due x =
    on_rows-Named c.now retry hs (map_items (claimed c) due) x
      (if among due x then claimed c x else x)
      (elim (Bool-cases (among due x)) [
        | inl e ↦ rw e (refl, refl, refl)
        | inr e ↦ rw e (refl, refl, refl)
      ])
