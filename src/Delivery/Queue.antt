-- ===== src/Delivery/Queue.antt =====
-- src/domain/outbox.ts: the rows of the outbox, the claim of the rows that are due, and one sweep.
-- The callback inbox has rows of the same shape and the same sweep. A payload, which only handlers
-- read, is left out; a message is a number. Handlers are the caller's: each answers an item or
-- throws a message.
use trade_pal_africa.Base.{
  ℕ, zero, suc, ◌+◌, ◌-◌, Bool, true, false, ◌&&◌, ◌||◌, not, Option, none, some, List, [], ◌∷◌,
  ◌==◌, leb, if◌then◌else◌, any, keep, update_where,
}
use trade_pal_africa.Delivery.Retry.{RetryPolicy, backoff_delay, is_retry_exhausted}

-- PENDING or RECEIVED, PROCESSING, PUBLISHED or PROCESSED, DEAD.
pub data Status : Type 0 where
  waiting processing done dead : Status

pub record Item : Type 0 where
  pub id : ℕ
  -- the event type, or the provider
  pub topic : ℕ
  -- the dedupe key, or the external id
  pub key : ℕ
  pub status : Status
  pub attempts : ℕ
  pub available_at : ℕ
  pub claimed_at : Option ℕ
  pub created_at : ℕ
  pub done_at : Option ℕ
  pub last_error : Option ℕ

abbrev pub is_waiting : Status → Bool
is_waiting waiting = true
is_waiting _ = false

abbrev pub is_processing : Status → Bool
is_processing processing = true
is_processing _ = false

abbrev pub claimed_by : ℕ → Item → Bool
claimed_by stale_before x = elim x.claimed_at [ none ↦ false | some t ↦ leb t stale_before ]

pub record Claim : Type 0 where
  pub topics : List ℕ
  pub limit : ℕ
  pub now : ℕ
  pub visibility_timeout : ℕ

-- `now - visibilityTimeout`; times are far above the timeout, and the difference stops at 0.
abbrev pub stale_before : Claim → ℕ
stale_before c = c.now - c.visibility_timeout

-- The `WHERE` of the claim.
unfoldable pub is_due : Claim → Item → Bool
is_due c x =
    any (λ t. t == x.topic) c.topics
    && ((is_waiting x.status && leb x.available_at c.now)
        || (is_processing x.status && claimed_by (stale_before c) x))

abbrev pub take : {A : Type 0} → ℕ → List A → List A
take zero xs = []
take (suc n) [] = []
take (suc n) (x ∷ xs) = x ∷ take n xs

-- `ORDER BY`, by a comparator.
unfoldable pub insert_item : (Item → Item → Bool) → Item → List Item → List Item
insert_item before x [] = x ∷ []
insert_item before x (y ∷ ys) = if before x y then x ∷ y ∷ ys else y ∷ insert_item before x ys

unfoldable pub order_items : (Item → Item → Bool) → List Item → List Item
unfolding insert_item
order_items before [] = []
order_items before (x ∷ xs) = insert_item before x (order_items before xs)

-- What the update of a claim makes of a row.
abbrev pub claimed : Claim → Item → Item
claimed c x = record x { status = processing; claimed_at = some c.now; attempts = x.attempts + 1 }

-- The rows that are claimed, before the update. `locked` are those that another sweeper holds, which
-- `SKIP LOCKED` passes over.
unfoldable pub due_items : (Item → Item → Bool) → (Item → Bool) → Claim → List Item → List Item
unfolding is_due order_items
due_items before locked c xs =
    take c.limit (order_items before (keep (λ x. is_due c x && not (locked x)) xs))

abbrev pub has_item : ℕ → Item → Bool
has_item i x = x.id == i

abbrev pub among : List Item → Item → Bool
among ys x = any (has_item x.id) ys

abbrev pub map_items : (Item → Item) → List Item → List Item
map_items f [] = []
map_items f (x ∷ xs) = f x ∷ map_items f xs

-- The claimed rows as the update returns them, and the table after it.
unfoldable pub claim_due :
    (Item → Item → Bool) → (Item → Bool) → Claim → List Item → List Item × List Item
unfolding due_items
claim_due before locked c xs =
    let due = due_items before locked c xs in
    (map_items (claimed c) due, update_where (among due) (claimed c) xs)

pub record Swept : Type 0 where
  pub claimed : ℕ
  pub done : ℕ
  pub retried : ℕ
  pub dead : ℕ

-- What a handler makes of an item: none, or the message that it throws.
abbrev pub Handler : Type 0
Handler = Item → Option ℕ

-- The handlers by their topics, and the message where a topic has none.
pub record Handlers : Type 0 where
  pub table : List (ℕ × Handler)
  pub no_handler : ℕ

unfoldable pub handler_for : ℕ → List (ℕ × Handler) → Option Handler
handler_for topic [] = none
handler_for topic ((t, h) ∷ rest) = if t == topic then some h else handler_for topic rest

unfoldable pub outcome : Option Handler → ℕ → Item → Option ℕ
outcome none no_handler x = some no_handler
outcome (some h) no_handler x = h x

abbrev pub finished : ℕ → Item → Item
finished now x = record x { status = done; done_at = some now; last_error = none }

abbrev pub buried : ℕ → Item → Item
buried message x = record x { status = dead; last_error = some message }

abbrev pub put_back : ℕ → RetryPolicy → ℕ → ℕ → Item → Item
put_back now retry attempts message x = record x {
  status = waiting;
  available_at = now + backoff_delay attempts retry;
  last_error = some message;
  claimed_at = none;
}

abbrev pub set_item : ℕ → (Item → Item) → List Item → List Item
set_item i f xs = update_where (has_item i) f xs

-- The end of one item, on the row and on the counts.
unfoldable pub settle : ℕ → RetryPolicy → Item → Option ℕ → Swept × List Item → Swept × List Item
settle now retry x none (n, xs) = (record n { done = n.done + 1 }, set_item x.id (finished now) xs)
settle now retry x (some message) (n, xs) =
    if is_retry_exhausted x.attempts retry
    then (record n { dead = n.dead + 1 }, set_item x.id (buried message) xs)
    else (
      record n { retried = n.retried + 1 },
      set_item x.id (put_back now retry x.attempts message) xs,
    )

-- The loop over the claimed items; one that fails does not stop the others.
unfoldable pub settle_each :
    ℕ → RetryPolicy → Handlers → List Item → Swept × List Item → Swept × List Item
unfolding settle handler_for outcome
settle_each now retry hs [] r = r
settle_each now retry hs (x ∷ xs) r =
    settle_each now retry hs xs
      (settle now retry x (outcome (handler_for x.topic hs.table) hs.no_handler x) r)

abbrev pub topics_of : List (ℕ × Handler) → List ℕ
topics_of [] = []
topics_of ((t, _) ∷ rest) = t ∷ topics_of rest

-- Options of a sweep; what is left out has a default.
pub record Options : Type 0 where
  pub limit : Option ℕ
  pub visibility_timeout : Option ℕ
  pub retry : Option RetryPolicy

-- `x ? { … } : {}` on a number: 0 counts as left out.
abbrev pub nonzero_or : Option ℕ → ℕ → ℕ
nonzero_or none d = d
nonzero_or (some n) d = if n == 0 then d else n

abbrev pub claim_of : Options → Handlers → ℕ → Claim
claim_of o hs now = record {
  topics = topics_of hs.table;
  limit = nonzero_or o.limit 25;
  now = now;
  visibility_timeout = nonzero_or o.visibility_timeout 300_000;
}
