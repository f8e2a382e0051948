-- ===== src/Delivery/Inbox.antt =====
-- src/domain/callbackInbox.ts: the inbox of provider callbacks.
use trade_pal_africa.Base.{
  ℕ, ◌+◌, Bool, true, false, ◌&&◌, Option, none, some, List, [], ◌∷◌, ◌++◌, ◌==◌, ltb, Call,
  if◌then◌else◌, or_else, find, length, not,
}
use trade_pal_africa.Delivery.Retry.{default_retry_policy}
use trade_pal_africa.Delivery.Queue.{
  waiting, Item, Swept, Handlers, Options, claim_of, claim_due, settle_each,
}
use trade_pal_africa.Delivery.Outbox.{
  no_sweep, ReplayError, OutboxStats, get_outbox_stats, replay_dead,
}

-- The row of a callback, and whether its signature was verified, which handlers check.
pub record Inbox : Type 0 where
  pub callbacks : List Item
  pub verified : List ℕ
  pub next_id : ℕ
  pub clock : ℕ

pub record NewCallback : Type 0 where
  pub provider : ℕ
  pub external_id : ℕ
  pub signature_verified : Bool

pub record Recorded : Type 0 where
  pub id : ℕ
  pub inserted : Bool

abbrev pub is_callback : ℕ → ℕ → Item → Bool
is_callback provider external_id x = x.topic == provider && x.key == external_id

abbrev pub new_callback : NewCallback → Inbox → Item
new_callback i b = record {
  id = b.next_id;
  topic = i.provider;
  key = i.external_id;
  status = waiting;
  attempts = 0;
  available_at = b.clock;
  claimed_at = none;
  created_at = b.clock;
  done_at = none;
  last_error = none;
}

abbrev pub insert_callback : NewCallback → Inbox → Inbox
insert_callback i b = record b {
  callbacks = b.callbacks ++ new_callback i b ∷ [];
  verified = if i.signature_verified then b.next_id ∷ b.verified else b.verified;
  next_id = b.next_id + 1;
}

-- `INSERT … ON CONFLICT DO NOTHING`, with the row that is there or the new one.
unfoldable pub insert_or_find : NewCallback → Option Item → Inbox → Recorded × Inbox
insert_or_find i (some x) b = (record { id = x.id; inserted = false }, b)
insert_or_find i none b = (record { id = b.next_id; inserted = true }, insert_callback i b)

unfoldable pub record_callback : NewCallback → Inbox → Recorded × Inbox
unfolding insert_or_find
record_callback i b = insert_or_find i (find (is_callback i.provider i.external_id) b.callbacks) b

-- `ORDER BY "receivedAt"`
abbrev pub by_received : Item → Item → Bool
by_received x y = not (ltb y.created_at x.created_at)

unfoldable pub process_inbox :
    (Item → Bool) → Handlers → Options → ℕ → List Item → Swept × List Item
unfolding claim_due settle_each
process_inbox locked hs o now xs =
    let (callbacks, table) = claim_due by_received locked (claim_of o hs now) xs in
    settle_each now (or_else o.retry default_retry_policy) hs callbacks
      (no_sweep (length callbacks), table)

-- The same code as for the outbox, on the rows of callbacks.
abbrev pub replay_dead_callback : ℕ → ℕ → Call (List Item) ReplayError Item
replay_dead_callback i now = replay_dead i now

abbrev pub get_inbox_stats : ℕ → List Item → OutboxStats
get_inbox_stats now xs = get_outbox_stats now xs
