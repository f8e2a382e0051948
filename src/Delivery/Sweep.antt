-- ===== src/Delivery/Sweep.antt =====
-- src/domain/outbox.ts, `processOutbox`: what one sweep does to the table, and its counts.
use trade_pal_africa.Base.{
  zero, suc, ◌+◌, ◌≤◌, ℕ, Bool, ◌&&◌, not, Option, none, some, List, [], ◌∷◌, if◌then◌else◌, keep,
  update_where, ◌≡◌, refl, ap, ◌∙◌, arith, Bool-cases, inl, inr, length, or_else,
}
use trade_pal_africa.Delivery.Retry.{RetryPolicy, is_retry_exhausted, default_retry_policy}
use trade_pal_africa.Delivery.Queue.{
  Item, Swept, Handlers, settle, settle_each, claimed, map_items, outcome, handler_for, among, take,
  order_items, due_items, claim_due, is_due, Options, claim_of,
}
use trade_pal_africa.Delivery.Outbox.{process_outbox, by_available, no_sweep}
use trade_pal_africa.Delivery.Rows.{settle_each-claimed, swept_row}
use trade_pal_africa.Delivery.Ends.{delivered}
use trade_pal_africa.Delivery.SinglePass.{IsKeyed, swept-rows}

abbrev pub retry_of : Options → RetryPolicy
retry_of o = or_else o.retry default_retry_policy

-- The rows that a sweep of the outbox claims.
abbrev pub due_of : (Item → Bool) → Handlers → Options → ℕ → List Item → List Item
due_of locked hs o now xs = due_items by_available locked (claim_of o hs now) xs

pub process_outbox-map :
    (locked : Item → Bool) (hs : Handlers) (o : Options) (now : ℕ) (xs : List Item)
    → (process_outbox locked hs o now xs).1
      ≡ map_items (swept_row (claim_of o hs now) (retry_of o) hs (due_of locked hs o now xs)) xs
unfolding process_outbox claim_due
process_outbox-map locked hs o now xs =
    let due = due_of locked hs o now xs in
    let c = claim_of o hs now in
    settle_each-claimed c (retry_of o) hs due (no_sweep (length (map_items (claimed c) due))) xs

-- Where every id names one row, a sweep is a single pass over the table: a row that was due, among
-- the first up to the limit and not locked becomes the row at the end of its delivery, from the row as the claim
-- left it, and every other row stays as it was.
pub process_outbox_rows :
    (locked : Item → Bool) (hs : Handlers) (o : Options) (now : ℕ) (xs : List Item)
    → IsKeyed xs
    → (process_outbox locked hs o now xs).1
      ≡ map_items
          (λ x.
            if among (due_of locked hs o now xs) x
            then delivered (claim_of o hs now) (retry_of o) hs x
            else x)
          xs
process_outbox_rows locked hs o now xs h =
    process_outbox-map locked hs o now xs
    ∙ swept-rows by_available locked (claim_of o hs now) (retry_of o) hs xs h

settle-counts :
    (now : ℕ) (retry : RetryPolicy) (x : Item) (a : Option ℕ) (n : Swept) (xs : List Item)
    → let m = (settle now retry x a (n, xs)).0 in
      (m.claimed ≡ n.claimed) × (m.done + m.retried + m.dead ≡ n.done + n.retried + n.dead + 1)
unfolding settle
settle-counts now retry x none n xs = (refl, omega arith)
settle-counts now retry x (some m) n xs = elim (Bool-cases (is_retry_exhausted x.attempts retry)) [
  | inl e ↦ rw e (refl, omega arith)
  | inr e ↦ rw e (refl, omega arith)
]

settle_each-counts :
    (now : ℕ) (retry : RetryPolicy) (hs : Handlers) (ys : List Item) (n : Swept) (xs : List Item)
    → let m = (settle_each now retry hs ys (n, xs)).0 in
      (m.claimed ≡ n.claimed)
      × (m.done + m.retried + m.dead ≡ n.done + n.retried + n.dead + length ys)
unfolding settle_each
settle_each-counts now retry hs [] n xs = (refl, omega arith)
settle_each-counts now retry hs (y ∷ ys) n xs =
    let a = outcome (handler_for y.topic hs.table) hs.no_handler y in
    let r = settle now retry y a (n, xs) in
    let one = settle-counts now retry y a n xs in
    let rest = settle_each-counts now retry hs ys r.0 r.1 in
    (rest.0 ∙ one.0, omega (arith, one, rest))

pub length-map_items : (f : Item → Item) (xs : List Item) → length (map_items f xs) ≡ length xs
length-map_items f [] = refl
length-map_items f (x ∷ xs) = ap suc (length-map_items f xs)

length-take : (n : ℕ) (xs : List Item) → length (take n xs) ≤ n
length-take zero xs = omega arith
length-take (suc n) [] = omega arith
length-take (suc n) (x ∷ xs) = omega (arith, length-take n xs)

-- A sweep claims at most as many rows as its limit, and each of them counts exactly once, as
-- published, retried or dead.
pub process_outbox_counts :
    (locked : Item → Bool) (hs : Handlers) (o : Options) (now : ℕ) (xs : List Item)
    → let n = (process_outbox locked hs o now xs).0 in
      (n.done + n.retried + n.dead ≡ n.claimed)
      × (n.claimed ≡ length (due_of locked hs o now xs))
      × (n.claimed ≤ (claim_of o hs now).limit)
unfolding process_outbox claim_due due_items
process_outbox_counts locked hs o now xs =
    let c = claim_of o hs now in
    let due = due_of locked hs o now xs in
    let ys = map_items (claimed c) due in
    let k =
      settle_each-counts now (retry_of o) hs ys (no_sweep (length ys))
        (update_where (among due) (claimed c) xs) in
    let len = length-map_items (claimed c) due in
    let bound =
      length-take c.limit
        (order_items by_available (keep (λ x. is_due c x && not (locked x)) xs)) in
    (omega (arith, k), k.0 ∙ len, omega (arith, k, len, bound))
