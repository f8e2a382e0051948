-- ===== src/Refunds/Calls.antt =====
-- src/domain/merchantPayments/refunds.ts: a refund from its request to the provider's answer. The
-- adapters are the providers', and what the store's modules check and book is the caller's.
use trade_pal_africa.Base.{
  ℕ, ◌+◌, Bool, true, false, ◌&&◌, not, Option, none, some, [], ◌∷◌, ◌++◌, if◌then◌else◌, find,
  update_where, Call, ◌>>=◌, ◌>>◌, pure, throw, throw_if, or_throw, gets, modify,
}
use trade_pal_africa.Base.Int.{ℤ, pos, pos_part, leb_ℤ}
use trade_pal_africa.Refunds.Rows.{
  Subject, trade_invoice, Attempt, RefundStatus, requested, pending, sent, failed, Refund,
  refund_failed, refund_booking, Payments, has_succeeded, is_open, has_id, has_key, refundable,
  reserve, release, raise, mark, mark_open,
}

pub data PaymentsError : Type 0 where
  invalid not_refundable no_connection no_capability not_supported refund_limit wrong_state :
      PaymentsError
  -- Prisma's, for a row that is missing, and what an adapter throws besides
  no_row broken : PaymentsError

pub data Answer : Type 0 where
  succeeds waits fails : Answer

-- What asking a provider comes to: an answer with its reference, or an error.
pub data Reply : Type 0 where
  answered : Answer → Option ℕ → Reply
  rejected unavailable incapable other : Reply

pub record Adapter : Type 0 where
  pub can_refund : Bool
  pub refund : Refund → Reply

pub record RefundInput : Type 0 where
  pub attempt_id : ℕ
  pub amount_minor : ℤ
  -- shorter than five characters when trimmed
  pub short_reason : Bool
  pub key : ℕ
  -- whether a request, an order or a held payment is named
  pub has_target : Bool

pub record Refunded : Type 0 where
  pub refund : Refund
  pub replayed : Bool

abbrev pub is_trade : Subject → Bool
is_trade trade_invoice = true
is_trade _ = false

unfoldable pub fail_found : Option Refund → Payments → Payments
fail_found none s = s
fail_found (some r) s =
    if is_open r.status
    then raise (refund_failed r.id)
        (release r.attempt_id r.intent_id r.amount (mark_open r.id failed none s))
    else s

-- The columns of a refund that are read never change, so the row is read again.
unfoldable pub fail_refund : ℕ → Payments → Payments
unfolding fail_found
fail_refund i s = fail_found (find (has_id i) s.refunds) s

module _ (registry : ℕ → Option Adapter) (booked : Refund → Bool) where
  unfoldable pub succeed_found : Option ℕ → Option Refund → Payments → Payments
  succeed_found ref none s = s
  succeed_found ref (some r) s =
      let moved = mark_open r.id sent ref s in
      if is_open r.status then if booked r then moved else raise (refund_booking r.id) moved else s

  unfoldable pub apply_refund_result : ℕ → Answer → Option ℕ → Payments → Payments
  unfolding succeed_found
  apply_refund_result i waits ref s = mark_open i pending ref s
  apply_refund_result i fails ref s = fail_refund i s
  apply_refund_result i succeeds ref s = succeed_found ref (find (has_id i) s.refunds) s

  abbrev pub asked_row : ℕ → Refund → Bool
  asked_row i r = has_id i r && is_requested r.status
    where
      is_requested : RefundStatus → Bool
      is_requested requested = true
      is_requested _ = false

  -- A provider that is not available may have sent it: the reservation stays.
  unfoldable pub keep_asking : ℕ → Payments → Payments
  keep_asking i s = record s { refunds = update_where (asked_row i) (mark pending none) s.refunds }

  unfoldable pub send_refund : ℕ → Reply → Call Payments PaymentsError (Unit {0})
  unfolding apply_refund_result keep_asking
  send_refund i (answered a ref) = modify (apply_refund_result i a ref)
  send_refund i rejected = modify (fail_refund i)
  send_refund i unavailable = modify (keep_asking i)
  send_refund i incapable = modify (fail_refund i)
  send_refund i other = throw broken

  module _ (validate : RefundInput → Attempt → Option PaymentsError)
      (others : Payments → Payments) where
    abbrev pub throw_some : Option PaymentsError → Call Payments PaymentsError (Unit {0})
    throw_some none = pure tt
    throw_some (some e) = throw e

    abbrev pub new_refund : RefundInput → ℕ → ℕ → Payments → Refund
    new_refund i intent x s = record {
      id = s.next_id;
      attempt_id = i.attempt_id;
      intent_id = intent;
      amount = x;
      status = requested;
      external_ref = none;
      key = i.key;
    }

    abbrev pub write_refund : Refund → Payments → Payments
    write_refund r s = record s { refunds = s.refunds ++ r ∷ []; next_id = s.next_id + 1 }

    abbrev pub replay : Refund → Refunded
    replay r = record { refund = r; replayed = true }

    abbrev pub fresh : Refund → Refunded
    fresh r = record { refund = r; replayed = false }

    -- The row as the answer left it.
    unfoldable pub read_back : ℕ → Call Payments PaymentsError Refunded
    read_back i = do
      found ← gets (λ s. find (has_id i) s.refunds)
      row ← or_throw found no_row
      pure (fresh row)

    -- The insertion, which another request with the key may have come before.
    unfoldable pub create_refund :
        RefundInput → Adapter → ℕ → ℕ → Option Refund → Call Payments PaymentsError Refunded
    unfolding send_refund read_back
    create_refund i ad intent x (some r) = do
      modify (release i.attempt_id intent x)
      pure (replay r)
    create_refund i ad intent x none = do
      r ← gets (new_refund i intent x)
      modify (write_refund r)
      send_refund r.id (ad.refund r)
      read_back r.id

    -- The checks before anything is reserved: the attempt and its adapter.
    unfoldable pub check_refund : RefundInput → Call Payments PaymentsError (Attempt × Adapter)
    check_refund i = do
      throw_if (leb_ℤ i.amount_minor (pos 0)) invalid
      throw_if i.short_reason invalid
      s ← gets (λ s. s)
      a ← or_throw (s.attempts i.attempt_id) not_refundable
      throw_if (not (has_succeeded a.status)) not_refundable
      ad ← or_throw (registry a.provider) no_connection
      throw_if (not ad.can_refund) no_capability
      t ← or_throw (s.intents a.intent_id) no_row
      throw_if (is_trade t.subject) not_supported
      throw_if (not i.has_target) invalid
      throw_some (validate i a)
      throw_if (not (refundable (pos_part i.amount_minor) a)) refund_limit
      pure (a, ad)

    -- The reservation, the insertion and the request.
    unfoldable pub reserve_and_send :
        RefundInput → Attempt → Adapter → Call Payments PaymentsError Refunded
    unfolding create_refund
    reserve_and_send i a ad = do
      modify (reserve i.attempt_id a.intent_id (pos_part i.amount_minor))
      modify others
      prior ← gets (λ s. find (has_key i.key) s.refunds)
      create_refund i ad a.intent_id (pos_part i.amount_minor) prior

    unfoldable pub refund_new : RefundInput → Call Payments PaymentsError Refunded
    unfolding check_refund reserve_and_send
    refund_new i = do checked ← check_refund i; reserve_and_send i checked.0 checked.1

    abbrev pub replay_or_new : RefundInput → Option Refund → Call Payments PaymentsError Refunded
    replay_or_new i (some r) = pure (replay r)
    replay_or_new i none = refund_new i

    unfoldable pub refund_through_provider : RefundInput → Call Payments PaymentsError Refunded
    unfolding refund_new
    refund_through_provider i = do
      prior ← gets (λ s. find (has_key i.key) s.refunds)
      replay_or_new i prior
