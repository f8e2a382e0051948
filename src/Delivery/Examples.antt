-- ===== src/Delivery/Examples.antt =====
-- src/domain/outbox.ts, callbackInbox.ts and retryPolicy.ts: concrete queues, and the theorems at them.
use trade_pal_africa.Base.{
  ℕ, ◌+◌, ◌≤◌, Bool, true, false, none, some, List, [], ◌∷◌, if◌then◌else◌, min, ◌≡◌, refl, arith,
  ok, err, length, All, find, keep, not, ◌⊎◌, ◌≢◌,
}
use trade_pal_africa.Delivery.Retry.{default_retry_policy, backoff_delay}
use trade_pal_africa.Delivery.Queue.{
  Status, waiting, done, dead, Item, Handlers, Options, claim_of, map_items, among, has_item,
  is_due,
}
use trade_pal_africa.Delivery.Outbox.{
  NewEvent, Outbox, enqueue_outbox_event, process_outbox, replay_dead, not_dead,
}
use trade_pal_africa.Delivery.Inbox.{NewCallback, Inbox, record_callback}
use trade_pal_africa.Delivery.Ends.{delivered}
use trade_pal_africa.Delivery.Backoff.{backoff_delay_bounds}
use trade_pal_africa.Delivery.SinglePass.{IsKeyed}
use trade_pal_africa.Delivery.Sweep.{retry_of, due_of, process_outbox_rows, process_outbox_counts}
use trade_pal_africa.Delivery.Progress.{is_over, advances}
use trade_pal_africa.Delivery.Liveness.{sweep_each, sweep_each_ends}
use trade_pal_africa.Delivery.Once.{
  swept_outbox, enqueue_outbox_event_once, record_callback_once, replay_dead_outcome,
}

abbrev an_item : ℕ → ℕ → Status → ℕ → Item
an_item i topic status attempts = record {
  id = i;
  topic = topic;
  key = 100 + i;
  status = status;
  attempts = attempts;
  available_at = 1_000 + i;
  claimed_at = none;
  created_at = 900;
  done_at = none;
  last_error = none;
}

-- An event of a type whose handler succeeds, one whose handler throws, a dead one, and one of a type that
-- has no handler.
abbrev four_items : List Item
four_items =
    an_item 1 7 waiting 0 ∷ an_item 2 8 waiting 2 ∷ an_item 3 8 dead 3 ∷ an_item 4 9 waiting 0 ∷ []

abbrev two_handlers : Handlers
two_handlers = record { table = (7, (λ _. none)) ∷ (8, (λ _. some 55)) ∷ []; no_handler = 44 }

abbrev three_attempts : Options
three_attempts = record {
  limit = none;
  visibility_timeout = none;
  retry = some (record { base_delay = 10; max_delay = 100; max_attempts = 3 });
}

abbrev nobody : Item → Bool
nobody _ = false

abbrev statuses : List Item → List Status
statuses [] = []
statuses (x ∷ xs) = x.status ∷ statuses xs

four_items-swept :
    statuses (process_outbox nobody two_handlers three_attempts 2_000 four_items).1
    ≡ done ∷ dead ∷ dead ∷ waiting ∷ []
unfolding process_outbox
four_items-swept = refl

four_items-retried :
    statuses
      (process_outbox nobody two_handlers
        (record three_attempts { retry = none })
        2_000
        four_items).1
    ≡ done ∷ waiting ∷ dead ∷ waiting ∷ []
unfolding process_outbox
four_items-retried = refl

abbrev two_items : List Item
two_items = an_item 1 7 waiting 0 ∷ an_item 2 8 waiting 0 ∷ []

two_items-IsKeyed : IsKeyed two_items
two_items-IsKeyed =
    (((λ _. refl), ((λ e. ground arith), tt)), (((λ e. ground arith), ((λ _. refl), tt)), tt))

process_outbox_rows_example :
    (process_outbox nobody two_handlers three_attempts 2_000 two_items).1
    ≡ map_items
        (λ x.
          if among (due_of nobody two_handlers three_attempts 2_000 two_items) x
          then delivered
              (claim_of three_attempts two_handlers 2_000)
              (retry_of three_attempts)
              two_handlers
              x
          else x)
        two_items
process_outbox_rows_example =
    process_outbox_rows nobody two_handlers three_attempts 2_000 two_items two_items-IsKeyed

process_outbox_counts_example :
    let n = (process_outbox nobody two_handlers three_attempts 2_000 four_items).0 in
    (n.done + n.retried + n.dead ≡ n.claimed)
    × (n.claimed ≡ length (due_of nobody two_handlers three_attempts 2_000 four_items))
    × (n.claimed ≤ (claim_of three_attempts two_handlers 2_000).limit)
process_outbox_counts_example =
    process_outbox_counts nobody two_handlers three_attempts 2_000 four_items

abbrev three_times : List ℕ
three_times = 2_000 ∷ 2_100 ∷ 2_250 ∷ []

sweep_each_ends_example :
    All
      (λ x. is_over two_handlers x ≡ true)
      (sweep_each two_handlers three_attempts three_times two_items)
sweep_each_ends_example =
    sweep_each_ends two_handlers three_attempts 2_000 (2_100 ∷ 2_250 ∷ []) two_items
      two_items-IsKeyed (omega arith) (omega arith, (omega arith, tt)) (omega arith)
      two_items-advance
  where
    two_items-advance :
        All
          (λ x. advances two_handlers (claim_of three_attempts two_handlers 2_000) 0 x ≡ true)
          two_items
    two_items-advance = unfold is_due in (refl, (refl, tt))

backoff_delay_bounds_example :
    (backoff_delay 2 default_retry_policy ≤ 3_600_000)
    × (min 30_000 3_600_000 ≤ backoff_delay 2 default_retry_policy)
    × (backoff_delay 2 default_retry_policy ≤ backoff_delay 5 default_retry_policy)
backoff_delay_bounds_example = backoff_delay_bounds 2 5 default_retry_policy (omega arith)

abbrev an_event : ℕ → NewEvent
an_event k = record { topic = 7; dedupe_key = k; available_at = none }

abbrev an_outbox : Outbox
an_outbox = record { events = two_items; next_id = 3; clock = 1_500 }

enqueue_outbox_event_once_example :
    let first = enqueue_outbox_event (an_event 500) an_outbox in
    let later = swept_outbox nobody two_handlers three_attempts 2_000 first.1 in
    let second = enqueue_outbox_event (an_event 500) later in
    (second.0.id ≡ first.0.id) × (second.1 ≡ later)
enqueue_outbox_event_once_example =
    enqueue_outbox_event_once (an_event 500) (an_event 500) nobody two_handlers three_attempts 2_000
      an_outbox refl

abbrev a_callback : NewCallback
a_callback = record { provider = 1; external_id = 9; signature_verified = true }

abbrev an_inbox : Inbox
an_inbox = record { callbacks = []; verified = []; next_id = 1; clock = 1_500 }

record_callback_once_example :
    let first = record_callback a_callback an_inbox in
    record_callback a_callback first.1 ≡ (record { id = first.0.id; inserted = false }, first.1)
record_callback_once_example = record_callback_once a_callback a_callback an_inbox refl refl

replay_dead_outcome_example :
    ((dead ≡ dead)
      × ((ys : List Item) × (replay_dead 3 5_000 four_items
            ≡ (ok (record (an_item 3 8 waiting 0) { available_at = 5_000 }), ys))
          × (find (has_item 3) ys ≡ some (record (an_item 3 8 waiting 0) { available_at = 5_000 }))
          × (keep (λ y. not (has_item 3 y)) ys ≡ keep (λ y. not (has_item 3 y)) four_items)
          × (replay_dead 3 6_000 ys ≡ (err not_dead, ys))))
    ⊎ ((dead ≢ dead)
        × (replay_dead 3 5_000 four_items ≡ (err not_dead, four_items))
        × (replay_dead 3 6_000 four_items ≡ (err not_dead, four_items)))
replay_dead_outcome_example = replay_dead_outcome 3 5_000 6_000 four_items (an_item 3 8 dead 3) refl
