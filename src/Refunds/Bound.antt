-- ===== src/Refunds/Bound.antt =====
-- src/domain/merchantPayments/refunds.ts, `refundThroughProvider`: what is sent stays within what was
-- captured.
use trade_pal_africa.Base.{
  ℕ, Bool, true, Option, none, some, find, ◌≡◌, refl, sym, ◌∙◌, subst, arith, Bool-cases,
  Option-cases, inl, inr, Result, ok, err, Preserves, Leads, Preserves-bind, resume,
}
use mathlib.Core.Option.{some-injective}
use trade_pal_africa.Base.Int.{pos, pos_part, leb_ℤ}
use trade_pal_africa.Refunds.Rows.{
  Attempt, Refund, Payments, has_id, has_key, refundable, reserve, release,
}
use trade_pal_africa.Refunds.Calls.{
  PaymentsError, Adapter, RefundInput, send_refund, create_refund, check_refund, reserve_and_send,
  read_back, refund_new, refund_through_provider, new_refund, write_refund, replay_or_new,
}
use trade_pal_africa.Refunds.Covered.{
  live, CoveredWith, live-append, reserve-CoveredWith, release-CoveredWith,
}
use trade_pal_africa.Refunds.Safety.{Covered, zero-CoveredWith, send_refund-Covered}

module _ (registry : ℕ → Option Adapter) (booked : Refund → Bool)
    (validate : RefundInput → Attempt → Option PaymentsError) (others : Payments → Payments) where
  -- What the checks answer: nothing is written, and the attempt that is answered has room.
  abbrev Checked :
      RefundInput → Payments → Result PaymentsError (Attempt × Adapter) × Payments → Type 0
  Checked i s (err e, t) = t ≡ s
  Checked i s (ok c, t) =
      (t ≡ s)
      × (s.attempts i.attempt_id ≡ some c.0)
      × (refundable (pos_part i.amount_minor) c.0 ≡ true)

  check_refund-Checked :
      (i : RefundInput) (s : Payments)
      → Checked i s (check_refund registry booked validate others i s)
  unfolding check_refund
  check_refund-Checked i s = elim (Bool-cases (leb_ℤ i.amount_minor (pos 0))) [
    | inl z ↦ rw z refl
    | inr z ↦ elim (Bool-cases i.short_reason) [
      | inl w ↦ rw (z, w) refl
      | inr w ↦ elim (Option-cases (s.attempts i.attempt_id)) [
        | inl e ↦ rw (z, w, e) refl
        | inr (a, e) ↦ rw (z, w, e) (ground (arith, e))
      ]
    ]
  ]

  write_refund-Covered :
      (i : RefundInput) (t x : ℕ) (s : Payments)
      → CoveredWith i.attempt_id x s
      → Covered (
          write_refund registry booked validate others
            (new_refund registry booked validate others i t x s)
            s)
  unfolding live
  write_refund-Covered i t x s h j a e =
      let was = h j a e in
      let r = new_refund registry booked validate others i t x s in
      (ground (arith, was.0, live-append j s.refunds r), was.1)

  read_back-Covered : (k : ℕ) → Preserves Covered (read_back registry booked validate others k)
  unfolding read_back
  read_back-Covered k s h = elim (Option-cases (find (has_id k) s.refunds)) [
    | inl e ↦ rw e h
    | inr (r, e) ↦ rw e h
  ]

  create_refund-Covered :
      (i : RefundInput) (ad : Adapter) (t x : ℕ) (o : Option Refund)
      → Leads
          (CoveredWith i.attempt_id x)
          Covered
          (create_refund registry booked validate others i ad t x o)
  unfolding create_refund
  create_refund-Covered i ad t x (some r) s h =
      zero-CoveredWith i.attempt_id 0 (release i.attempt_id t x s)
        (release-CoveredWith i.attempt_id x s t h)
  create_refund-Covered i ad t x none s h =
      let r = new_refund registry booked validate others i t x s in
      Preserves-bind Covered (send_refund registry booked r.id (ad.refund r))
        (λ _. read_back registry booked validate others r.id)
        (send_refund-Covered registry booked r.id (ad.refund r)) (λ _. read_back-Covered r.id)
        (write_refund registry booked validate others r s) (write_refund-Covered i t x s h)

  module _ (calm : (i x : ℕ) (s : Payments) → CoveredWith i x s → CoveredWith i x (others s)) where
    reserve_and_send-Covered :
        (i : RefundInput) (a : Attempt) (ad : Adapter) (s : Payments)
        → s.attempts i.attempt_id ≡ some a
        → refundable (pos_part i.amount_minor) a ≡ true
        → Covered s
        → Covered (reserve_and_send registry booked validate others i a ad s).1
    unfolding reserve_and_send
    reserve_and_send-Covered i a ad s e fits h =
        let x = pos_part i.amount_minor in
        let held = reserve i.attempt_id a.intent_id x s in
        create_refund-Covered i ad a.intent_id x (find (has_key i.key) (others held).refunds)
          (others held)
          (calm i.attempt_id x held (
            reserve-CoveredWith i.attempt_id x s a.intent_id
              (λ b q. subst (λ c. refundable x c ≡ true) (some-injective a b (sym e ∙ q)) fits)
              (zero-CoveredWith 0 i.attempt_id s h)))

    Checked-Covered :
        (i : RefundInput) (s : Payments) (r : Result PaymentsError (Attempt × Adapter) × Payments)
        → Checked i s r
        → Covered s
        → Covered (resume (λ c. reserve_and_send registry booked validate others i c.0 c.1) r).1
    Checked-Covered i s (err e, t) c h = subst Covered (sym c) h
    Checked-Covered i s (ok (a, ad), t) c h =
        subst (λ u. Covered (reserve_and_send registry booked validate others i a ad u).1) (sym c.0)
          (reserve_and_send-Covered i a ad s c.1 c.2 h)

    refund_new-Covered :
        (i : RefundInput) → Preserves Covered (refund_new registry booked validate others i)
    unfolding refund_new
    refund_new-Covered i s h =
        Checked-Covered i s (check_refund registry booked validate others i s)
          (check_refund-Checked i s) h

    replay_or_new-Covered :
        (i : RefundInput) (o : Option Refund)
        → Preserves Covered (replay_or_new registry booked validate others i o)
    replay_or_new-Covered i (some r) s h = h
    replay_or_new-Covered i none s h = refund_new-Covered i s h

    -- Whatever the checks of the store, the adapters and the bookkeeping answer, and whatever other
    -- clients write between the reservation and the insertion, as long as they leave what is reserved
    -- covered: if of every attempt the refunds that have not failed are within what is reserved, and that within what
    -- was captured, then so they are after a request, whether it returns or throws.
    pub refund_through_provider-Covered :
        (i : RefundInput) (s : Payments)
        → Covered s
        → Covered (refund_through_provider registry booked validate others i s).1
    unfolding refund_through_provider
    refund_through_provider-Covered i s h =
        replay_or_new-Covered i (find (has_key i.key) s.refunds) s h
