-- ===== src/Delivery/Outbox.antt =====
-- src/domain/outbox.ts: the outbox of events.
use trade_pal_africa.Base.{
  ℕ, ◌+◌, ◌-◌, ◌/◌, leb, Bool, true, false, ◌&&◌, ◌||◌, Option, none, some, List, [], ◌∷◌, ◌++◌,
  ◌==◌, ltb, if◌then◌else◌, or_else, find, length, keep, Call, ◌>>=◌, ◌>>◌, pure, throw_if,
  or_throw, gets, modify, not,
}
use mathlib.Core.Option
use trade_pal_africa.Delivery.Retry.{default_retry_policy}
use trade_pal_africa.Delivery.Queue.{
  Status, waiting, done, dead, is_waiting, is_processing, Item, Swept, Handlers, Options, claim_of,
  claim_due, settle_each, has_item, set_item,
}

pub record NewEvent : Type 0 where
  pub topic : ℕ
  pub dedupe_key : ℕ
  pub available_at : Option ℕ

pub record Outbox : Type 0 where
  pub events : List Item
  pub next_id : ℕ
  pub clock : ℕ

abbrev pub has_key : ℕ → Item → Bool
has_key k x = x.key == k

abbrev pub new_event : NewEvent → Outbox → Item
new_event i o = record {
  id = o.next_id;
  topic = i.topic;
  key = i.dedupe_key;
  status = waiting;
  attempts = 0;
  available_at = or_else i.available_at o.clock;
  claimed_at = none;
  created_at = o.clock;
  done_at = none;
  last_error = none;
}

-- `upsert` with an empty update.
unfoldable pub upsert : NewEvent → Option Item → Outbox → Item × Outbox
upsert i (some x) o = (x, o)
upsert i none o =
    (new_event i o, record o { events = o.events ++ new_event i o ∷ []; next_id = o.next_id + 1 })

unfoldable pub enqueue_outbox_event : NewEvent → Outbox → Item × Outbox
unfolding upsert
enqueue_outbox_event i o = upsert i (find (has_key i.dedupe_key) o.events) o

-- `ORDER BY "availableAt", "createdAt"`
abbrev pub by_available : Item → Item → Bool
by_available x y =
    ltb x.available_at y.available_at
    || (x.available_at == y.available_at && not (ltb y.created_at x.created_at))

abbrev pub no_sweep : ℕ → Swept
no_sweep n = record { claimed = n; done = 0; retried = 0; dead = 0 }

-- `processOutbox` on the table, where `locked` are the rows that another sweeper holds.
unfoldable pub process_outbox :
    (Item → Bool) → Handlers → Options → ℕ → List Item → Swept × List Item
unfolding claim_due settle_each
process_outbox locked hs o now xs =
    let (events, table) = claim_due by_available locked (claim_of o hs now) xs in
    settle_each now (or_else o.retry default_retry_policy) hs events
      (no_sweep (length events), table)

pub data ReplayError : Type 0 where
  missing not_dead : ReplayError

abbrev pub is_dead : Status → Bool
is_dead dead = true
is_dead _ = false

abbrev pub is_done : Status → Bool
is_done done = true
is_done _ = false

abbrev pub revived : ℕ → Item → Item
revived now x = record x { status = waiting; attempts = 0; available_at = now; claimed_at = none }

unfoldable pub replay_dead : ℕ → ℕ → Call (List Item) ReplayError Item
replay_dead i now = do
  found ← gets (λ xs. find (has_item i) xs)
  x ← or_throw found missing
  throw_if (not (is_dead x.status)) not_dead
  modify (set_item i (revived now))
  pure (revived now x)

pub record OutboxStats : Type 0 where
  pub pending : ℕ
  pub processing : ℕ
  pub published : ℕ
  pub dead : ℕ
  -- in seconds
  pub oldest_pending_age : Option ℕ

abbrev pub count_of : (Status → Bool) → List Item → ℕ
count_of p xs = length (keep (λ x. p x.status) xs)

-- The first by `createdAt`.
abbrev pub oldest_waiting : List Item → Option Item
oldest_waiting [] = none
oldest_waiting (x ∷ xs) =
    let rest = oldest_waiting xs in if is_waiting x.status then some (older x rest) else rest
  where
    older : Item → Option Item → Item
    older x none = x
    older x (some y) = if leb x.created_at y.created_at then x else y

-- `Math.round` of milliseconds over 1000, of times that are whole.
abbrev pub age_seconds : ℕ → Item → ℕ
age_seconds now x = (now - x.created_at + 500) / 1000

abbrev pub get_outbox_stats : ℕ → List Item → OutboxStats
get_outbox_stats now xs = record {
  pending = count_of is_waiting xs;
  processing = count_of is_processing xs;
  published = count_of is_done xs;
  dead = count_of is_dead xs;
  oldest_pending_age = Option.map (age_seconds now) (oldest_waiting xs);
}
