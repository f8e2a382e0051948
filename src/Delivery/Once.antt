-- ===== src/Delivery/Once.antt =====
-- src/domain/outbox.ts and callbackInbox.ts: an effect is recorded once, and a dead event is revived
-- by hand only.
use trade_pal_africa.Base.{
  ℕ, Bool, true, false, some, List, [], ◌∷◌, ◌==◌, find, find-append_none, find-some,
  find-update_where, keep, keep-update_where, not, none, ◌⊎◌, ◌≢◌, ◌≡◌, refl, ap, ◌∙◌, Option-cases,
  Bool-cases, inl, inr, ok, err, ==_iff,
}
use mathlib.Core.Option.{some-injective}
use trade_pal_africa.Delivery.Queue.{
  Status, waiting, processing, done, dead, Item, Handlers, Options, map_items, has_item, set_item,
  claim_of,
}
use trade_pal_africa.Delivery.Outbox.{
  NewEvent, Outbox, enqueue_outbox_event, upsert, process_outbox, has_key, new_event, replay_dead,
  not_dead, revived, is_dead,
}
use trade_pal_africa.Delivery.Inbox.{
  NewCallback, new_callback, Inbox, Recorded, record_callback, insert_or_find, is_callback,
}
use trade_pal_africa.Delivery.Rows.{Named, swept_row, swept_row-Named}
use trade_pal_africa.Delivery.Sweep.{process_outbox-map, retry_of, due_of}

-- A table found by key, after a function on rows that keeps ids and keys.
find-map_items :
    (k : ℕ) (f : Item → Item) (xs : List Item) (x : Item)
    → ((y : Item) → Named y (f y))
    → find (has_key k) xs ≡ some x
    → find (has_key k) (map_items f xs) ≡ some (f x)
find-map_items k f [] x same h = cc
find-map_items k f (y ∷ ys) x same h = elim (Bool-cases (y.key == k)) [
  | inl e ↦
      let again : ((f y).key == k) ≡ true = rw ((same y).1) e in
      rw again (ap (λ z. some (f z)) (some-injective y x (rw e at h)))
  | inr e ↦ rw ((same y).1, e) (find-map_items k f ys x same (rw e at h))
]

-- The outbox after a sweep.
abbrev pub swept_outbox : (Item → Bool) → Handlers → Options → ℕ → Outbox → Outbox
swept_outbox locked hs o now b = record b { events = (process_outbox locked hs o now b.events).1 }

enqueue-find :
    (i : NewEvent) (b : Outbox)
    → let r = enqueue_outbox_event i b in find (has_key i.dedupe_key) r.1.events ≡ some r.0
unfolding enqueue_outbox_event upsert
enqueue-find i b = elim (Option-cases (find (has_key i.dedupe_key) b.events)) [
  | inl e ↦ rw e (
      find-append_none (has_key i.dedupe_key) b.events (new_event i b ∷ []) e
      ∙ rw ((==_iff i.dedupe_key i.dedupe_key).1 refl) refl)
  | inr (x, e) ↦ rw (e, e) refl
]

enqueue-found :
    (i : NewEvent) (b : Outbox) (x : Item)
    → find (has_key i.dedupe_key) b.events ≡ some x
    → enqueue_outbox_event i b ≡ (x, b)
unfolding enqueue_outbox_event upsert
enqueue-found i b x h = rw h refl

-- An event is enqueued once: whatever a sweep has made of it since, a second call with its key
-- answers the same row, by its id, and writes nothing.
pub enqueue_outbox_event_once :
    (i j : NewEvent) (locked : Item → Bool) (hs : Handlers) (o : Options) (now : ℕ) (b : Outbox)
    → j.dedupe_key ≡ i.dedupe_key
    → let first = enqueue_outbox_event i b in
      let later = swept_outbox locked hs o now first.1 in
      let second = enqueue_outbox_event j later in (second.0.id ≡ first.0.id) × (second.1 ≡ later)
enqueue_outbox_event_once i j locked hs o now b e =
    let first = enqueue_outbox_event i b in
    let xs = first.1.events in
    let g = swept_row (claim_of o hs now) (retry_of o) hs (due_of locked hs o now xs) in
    let named = swept_row-Named (claim_of o hs now) (retry_of o) hs (due_of locked hs o now xs) in
    let found = find-map_items i.dedupe_key g xs first.0 named (enqueue-find i b) in
    let same =
      enqueue-found j (swept_outbox locked hs o now first.1) (g first.0)
        (rw (e, process_outbox-map locked hs o now xs) found) in
    (ap (λ r. r.0.id) same ∙ (named first.0).0, ap (λ r. r.1) same)

abbrev not_inserted : ℕ → Recorded
not_inserted n = record { id = n; inserted = false }

record-found :
    (i : NewCallback) (b : Inbox) (x : Item)
    → find (is_callback i.provider i.external_id) b.callbacks ≡ some x
    → record_callback i b ≡ (record { id = x.id; inserted = false }, b)
unfolding record_callback insert_or_find
record-found i b x h = rw h refl

record-find :
    (i : NewCallback) (b : Inbox)
    → let r = record_callback i b in
      (x : Item) × (find (is_callback i.provider i.external_id) r.1.callbacks ≡ some x)
      × (x.id ≡ r.0.id)
unfolding record_callback insert_or_find
record-find i b =
    let p = is_callback i.provider i.external_id in
    elim (Option-cases (find p b.callbacks)) [
      | inl e ↦ rw e (
        new_callback i b,
        find-append_none p b.callbacks (new_callback i b ∷ []) e
            ∙ rw
                ((==_iff i.provider i.provider).1 refl, (==_iff i.external_id i.external_id).1 refl)
                refl,
        refl,
      )
      | inr (x, e) ↦ rw e (x, e, refl)
    ]

-- A callback is recorded once: the second record of the same provider and external id answers the
-- id of the first, is not inserted, and writes nothing.
pub record_callback_once :
    (i j : NewCallback) (b : Inbox)
    → j.provider ≡ i.provider
    → j.external_id ≡ i.external_id
    → let first = record_callback i b in
      record_callback j first.1 ≡ (record { id = first.0.id; inserted = false }, first.1)
record_callback_once i j b p e =
    let found = record-find i b in
    let r = (record_callback i b).1 in
    record-found j r found.0 (rw (p, e) found.1) ∙ ap (λ (n : ℕ). (not_inserted n, r)) found.2

not_dead_refused :
    (i now : ℕ) (xs : List Item) (x : Item)
    → find (has_item i) xs ≡ some x
    → is_dead x.status ≡ false
    → replay_dead i now xs ≡ (err not_dead, xs)
unfolding replay_dead
not_dead_refused i now xs x h d = rw (h, d) refl

dead_revived :
    (i now : ℕ) (xs : List Item) (x : Item)
    → find (has_item i) xs ≡ some x
    → is_dead x.status ≡ true
    → replay_dead i now xs ≡ (ok (revived now x), set_item i (revived now) xs)
unfolding replay_dead
dead_revived i now xs x h d = rw (h, d) refl

status-dead : (st : Status) → is_dead st ≡ true → st ≡ dead
status-dead waiting h = cc
status-dead processing h = cc
status-dead done h = cc
status-dead dead h = refl

status-alive : (st : Status) → is_dead st ≡ false → st ≢ dead
status-alive st h e = let alive = rw e at h in cc

-- An item that waits as if it had never been tried, from a given time on.
abbrev waiting_from : ℕ → Item → Item
waiting_from now x = record {
  id = x.id;
  topic = x.topic;
  key = x.key;
  status = waiting;
  attempts = 0;
  available_at = now;
  claimed_at = none;
  created_at = x.created_at;
  done_at = x.done_at;
  last_error = x.last_error;
}

-- The replay of an item that is there. Where it is dead, the call answers it waiting, without
-- attempts and a claim, due at the time of the call and otherwise as it was; the table then has
-- that row under its id, and the rows of other ids stay; a further replay is refused without a
-- write. Where it is not dead, the replay, and any further one, is refused without a write.
pub replay_dead_outcome :
    (i now later : ℕ) (xs : List Item) (x : Item)
    → find (has_item i) xs ≡ some x
    → ((x.status ≡ dead)
        × ((ys : List Item) × (replay_dead i now xs ≡ (ok (waiting_from now x), ys))
            × (find (has_item i) ys ≡ some (waiting_from now x))
            × (keep (λ y. not (has_item i y)) ys ≡ keep (λ y. not (has_item i y)) xs)
            × (replay_dead i later ys ≡ (err not_dead, ys))))
      ⊎ ((x.status ≢ dead)
          × (replay_dead i now xs ≡ (err not_dead, xs))
          × (replay_dead i later xs ≡ (err not_dead, xs)))
replay_dead_outcome i now later xs x h = elim (Bool-cases (is_dead x.status)) [
  | inl d ↦
      let found =
        find-update_where (has_item i) (revived now) xs x (find-some (has_item i) xs x h) h in
      inl (
        status-dead x.status d,
        (
          set_item i (revived now) xs,
          dead_revived i now xs x h d,
          found,
          keep-update_where (λ y. not (has_item i y)) (has_item i) (revived now) xs
              (λ y e. rw e refl) (λ y. refl),
          not_dead_refused i later (set_item i (revived now) xs) (revived now x) found refl,
        ),
      )
  | inr d ↦
      inr (
        status-alive x.status d,
        not_dead_refused i now xs x h d,
        not_dead_refused i later xs x h d,
      )
]
