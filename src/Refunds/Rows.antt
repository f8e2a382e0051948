-- ===== src/Refunds/Rows.antt =====
-- src/domain/merchantPayments/refunds.ts: attempts, intents and refunds, and the updates that the calls
-- make. The guarded updates keep what is captured and refunded at zero or more. Attempts and intents
-- are tables by their ids. Texts and references that nothing reads back are left out.
use trade_pal_africa.Base.{
  ℕ, ◌+◌, ◌-◌, Bool, true, false, ◌&&◌, Option, none, some, List, ◌∷◌, leb, ◌==◌, if◌then◌else◌,
  any, update_where,
}

pub data Subject : Type 0 where
  trade_invoice store_order : Subject

pub data AttemptStatus : Type 0 where
  succeeded not_succeeded : AttemptStatus

pub record Attempt : Type 0 where
  pub intent_id : ℕ
  pub provider : ℕ
  pub status : AttemptStatus
  pub captured : ℕ
  pub refunded : ℕ

pub record Intent : Type 0 where
  pub subject : Subject
  pub paid : ℕ
  pub refunded : ℕ

pub data RefundStatus : Type 0 where
  requested pending sent failed : RefundStatus

pub record Refund : Type 0 where
  pub id : ℕ
  pub attempt_id : ℕ
  pub intent_id : ℕ
  pub amount : ℕ
  pub status : RefundStatus
  pub external_ref : Option ℕ
  pub key : ℕ

-- The fingerprints of the exceptions for a person.
pub data Fingerprint : Type 0 where
  refund_failed refund_booking : ℕ → Fingerprint
  refund_unknown refund_amount : ℕ → ℕ → Fingerprint

pub record Payments : Type 0 where
  pub attempts : ℕ → Option Attempt
  pub intents : ℕ → Option Intent
  pub refunds : List Refund
  pub exceptions : List Fingerprint
  pub next_id : ℕ
  -- the attempt that a reference of a provider names
  pub attempt_of : ℕ → ℕ → Option ℕ

abbrev pub has_succeeded : AttemptStatus → Bool
has_succeeded succeeded = true
has_succeeded not_succeeded = false

-- REQUESTED or PENDING
abbrev pub is_open : RefundStatus → Bool
is_open requested = true
is_open pending = true
is_open _ = false

abbrev pub is_live : RefundStatus → Bool
is_live failed = false
is_live _ = true

abbrev pub has_id : ℕ → Refund → Bool
has_id i r = r.id == i

abbrev pub has_key : ℕ → Refund → Bool
has_key k r = r.key == k

-- `UPDATE … WHERE "id" = i AND …` of a table by ids.
module _ {A : Type 0} where
  abbrev pub change : (A → Bool) → (A → A) → Option A → Option A
  change p f none = none
  change p f (some a) = if p a then some (f a) else some a

  abbrev pub put : ℕ → (A → Bool) → (A → A) → (ℕ → Option A) → ℕ → Option A
  put i p f m j = if j == i then change p f (m j) else m j

  abbrev pub selects : (A → Bool) → Option A → Bool
  selects p none = false
  selects p (some a) = p a

abbrev pub refundable : ℕ → Attempt → Bool
refundable x a = has_succeeded a.status && leb (a.refunded + x) a.captured

abbrev pub take_attempt : ℕ → Attempt → Attempt
take_attempt x a = record a { refunded = a.refunded + x }

abbrev pub intent_covers : ℕ → Intent → Bool
intent_covers x t = leb (t.refunded + x) t.paid

abbrev pub take_intent : ℕ → Intent → Intent
take_intent x t = record t { refunded = t.refunded + x }

abbrev pub attempt_holds : ℕ → Attempt → Bool
attempt_holds x a = leb x a.refunded

abbrev pub give_attempt : ℕ → Attempt → Attempt
give_attempt x a = record a { refunded = a.refunded - x }

abbrev pub intent_holds : ℕ → Intent → Bool
intent_holds x t = leb x t.refunded

abbrev pub give_intent : ℕ → Intent → Intent
give_intent x t = record t { refunded = t.refunded - x }

-- The two updates of a reservation, after its guard.
unfoldable pub reserve : ℕ → ℕ → ℕ → Payments → Payments
reserve attempt intent x s = record s {
  attempts = put attempt (refundable x) (take_attempt x) s.attempts;
  intents = put intent (intent_covers x) (take_intent x) s.intents;
}

unfoldable pub release : ℕ → ℕ → ℕ → Payments → Payments
release attempt intent x s = record s {
  attempts = put attempt (attempt_holds x) (give_attempt x) s.attempts;
  intents = put intent (intent_holds x) (give_intent x) s.intents;
}

abbrev pub same_fingerprint : Fingerprint → Fingerprint → Bool
same_fingerprint (refund_failed i) (refund_failed j) = i == j
same_fingerprint (refund_booking i) (refund_booking j) = i == j
same_fingerprint (refund_unknown p i) (refund_unknown q j) = p == q && i == j
same_fingerprint (refund_amount i b) (refund_amount j c) = i == j && b == c
same_fingerprint _ _ = false

-- An exception is raised once for each fingerprint.
unfoldable pub raise : Fingerprint → Payments → Payments
raise f s =
    if any (same_fingerprint f) s.exceptions then s else record s { exceptions = f ∷ s.exceptions }

abbrev pub open_row : ℕ → Refund → Bool
open_row i r = has_id i r && is_open r.status

abbrev pub or_kept : Option ℕ → Option ℕ → Option ℕ
or_kept none kept = kept
or_kept (some n) _ = some n

abbrev pub mark : RefundStatus → Option ℕ → Refund → Refund
mark status ref r = record r { status = status; external_ref = or_kept ref r.external_ref }

-- `updateMany` of a refund that is still open.
unfoldable pub mark_open : ℕ → RefundStatus → Option ℕ → Payments → Payments
mark_open i status ref s = record s {
  refunds = update_where (open_row i) (mark status ref) s.refunds;
}
