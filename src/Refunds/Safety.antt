-- ===== src/Refunds/Safety.antt =====
-- src/domain/merchantPayments/refunds.ts: every call keeps what is refunded within what was captured.
use trade_pal_africa.Base.{
  ℕ, ◌≤◌, Bool, true, Option, none, some, List, find, any, update_where, ◌≡◌, refl, sym, subst,
  arith, Bool-cases, ==_iff, find-some, inl, inr, Preserves,
}
use trade_pal_africa.Refunds.Rows.{
  RefundStatus, pending, sent, failed, Refund, Fingerprint, refund_failed, refund_booking, Payments,
  is_open, is_live, has_id, release, raise, mark, mark_open, open_row, same_fingerprint,
}
use trade_pal_africa.Refunds.Calls.{
  Answer, succeeds, waits, fails, Reply, answered, rejected, unavailable, incapable, other, Adapter,
  fail_found, fail_refund, succeed_found, apply_refund_result, asked_row, keep_asking, send_refund,
}
use trade_pal_africa.Refunds.Covered.{
  live, CoveredWith, live-mark, open_row-live, live-failed, release-CoveredWith,
}

-- Of every attempt, the refunds that have not failed are within what is reserved, and that is within
-- what was captured.
abbrev pub Covered : Payments → Type 0
Covered = CoveredWith 0 0

pub zero-CoveredWith : (i k : ℕ) (s : Payments) → CoveredWith i 0 s → CoveredWith k 0 s
zero-CoveredWith i k s h j a e = let was = h j a e in ground (arith, was)

-- Of the same attempts, with as much live or less.
lower :
    (i x : ℕ) (s : Payments) (rs : List Refund)
    → ((j : ℕ) → live j rs ≤ live j s.refunds)
    → CoveredWith i x s
    → CoveredWith i x (record s { refunds = rs })
lower i x s rs less h j a e = let was = h j a e in (omega (arith, was.0, less j), was.1)

mark_open-CoveredWith :
    (i x k : ℕ) (status : RefundStatus) (ref : Option ℕ) (s : Payments)
    → CoveredWith i x s
    → CoveredWith i x (mark_open k status ref s)
unfolding mark_open
mark_open-CoveredWith i x k status ref s =
    lower i x s (update_where (open_row k) (mark status ref) s.refunds)
      (λ j. live-mark j (open_row k) status ref s.refunds (open_row-live k))

pub raise-CoveredWith :
    (i x : ℕ) (f : Fingerprint) (s : Payments) → CoveredWith i x s → CoveredWith i x (raise f s)
unfolding raise
raise-CoveredWith i x f s h = elim (Bool-cases (any (same_fingerprint f) s.exceptions)) [
  | inl e ↦ rw e h
  | inr e ↦ rw e h
]

-- The id of a row that was found by it.
named : (k : ℕ) (s : Payments) (r : Refund) → find (has_id k) s.refunds ≡ some r → r.id ≡ k
named k s r e = (==_iff r.id k).0 (find-some (has_id k) s.refunds r e)

-- The failure of an open row leaves its amount to be given back.
failed-CoveredWith :
    (s : Payments) (r : Refund)
    → find (has_id r.id) s.refunds ≡ some r
    → is_open r.status ≡ true
    → Covered s
    → CoveredWith r.attempt_id r.amount (mark_open r.id failed none s)
unfolding mark_open
failed-CoveredWith s r e o h j a q =
    let was = h j a q in (omega (arith, was.0, live-failed j r.id s.refunds r e o), was.1)

fail_found-Covered :
    (k : ℕ) (s : Payments) (o : Option Refund)
    → find (has_id k) s.refunds ≡ o
    → Covered s
    → Covered (fail_found o s)
unfolding fail_found mark_open
fail_found-Covered k s none e h = h
fail_found-Covered k s (some r) e h = elim (Bool-cases (is_open r.status)) [
  | inl o ↦
      let marked = mark_open r.id failed none s in
      let back = release r.attempt_id r.intent_id r.amount marked in
      rw o (
        raise-CoveredWith 0 0 (refund_failed r.id) back (
          zero-CoveredWith r.attempt_id 0 back (
            release-CoveredWith r.attempt_id r.amount marked r.intent_id (
              failed-CoveredWith s r
                (subst (λ n. find (has_id n) s.refunds ≡ some r) (sym (named k s r e)) e) o h))))
  | inr o ↦ rw o h
]

pub fail_refund-Covered : (k : ℕ) (s : Payments) → Covered s → Covered (fail_refund k s)
unfolding fail_refund
fail_refund-Covered k s h = fail_found-Covered k s (find (has_id k) s.refunds) refl h

module _ (registry : ℕ → Option Adapter) (booked : Refund → Bool) where
  succeed_found-Covered :
      (ref : Option ℕ) (s : Payments) (o : Option Refund)
      → Covered s
      → Covered (succeed_found registry booked ref o s)
  unfolding succeed_found
  succeed_found-Covered ref s none h = h
  succeed_found-Covered ref s (some r) h =
      let moved = mark_open r.id sent ref s in
      let there = mark_open-CoveredWith 0 0 r.id sent ref s h in
      elim (Bool-cases (is_open r.status)) [
        | inl o ↦ elim (Bool-cases (booked r)) [
          | inl b ↦ rw (o, b) there
          | inr b ↦ rw (o, b) (raise-CoveredWith 0 0 (refund_booking r.id) moved there)
        ]
        | inr o ↦ rw o h
      ]

  pub apply_refund_result-Covered :
      (k : ℕ) (a : Answer) (ref : Option ℕ) (s : Payments)
      → Covered s
      → Covered (apply_refund_result registry booked k a ref s)
  unfolding apply_refund_result
  apply_refund_result-Covered k succeeds ref s h =
      succeed_found-Covered ref s (find (has_id k) s.refunds) h
  apply_refund_result-Covered k waits ref s h = mark_open-CoveredWith 0 0 k pending ref s h
  apply_refund_result-Covered k fails ref s h = fail_refund-Covered k s h

  keep_asking-Covered :
      (k : ℕ) (s : Payments) → Covered s → Covered (keep_asking registry booked k s)
  unfolding keep_asking
  keep_asking-Covered k s =
      lower 0 0 s (update_where (asked_row registry booked k) (mark pending none) s.refunds)
        (λ j. live-mark j (asked_row registry booked k) pending none s.refunds (asked_row-live k))
    where
      asked_row-live :
          (k : ℕ) (r : Refund) → asked_row registry booked k r ≡ true → is_live r.status ≡ true
      asked_row-live k r h = ground arith

  pub send_refund-Covered :
      (k : ℕ) (answer : Reply) → Preserves Covered (send_refund registry booked k answer)
  unfolding send_refund
  send_refund-Covered k (answered a ref) s h = apply_refund_result-Covered k a ref s h
  send_refund-Covered k rejected s h = fail_refund-Covered k s h
  send_refund-Covered k unavailable s h = keep_asking-Covered k s h
  send_refund-Covered k incapable s h = fail_refund-Covered k s h
  send_refund-Covered k other s h = h
