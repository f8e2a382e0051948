-- ===== src/Delivery/Progress.antt =====
-- src/domain/outbox.ts: sweeps one after the other, until every event has ended.
use trade_pal_africa.Base.{
  ◌+◌, ◌≤◌, ℕ, Bool, true, false, ◌&&◌, ◌||◌, not, ◌==◌, leb, if◌then◌else◌, any, ◌≡◌, refl, arith,
  Bool-cases, Option-cases, inl, inr,
}
use trade_pal_africa.Delivery.Queue.{
  Status, done, dead, Item, Claim, Handlers, claimed, is_due, Options, claim_of, topics_of,
}
use trade_pal_africa.Delivery.Rows.{ended, answer}
use trade_pal_africa.Delivery.Ends.{delivered, ended_row}
use trade_pal_africa.Delivery.Sweep.{retry_of}
use trade_pal_africa.Delivery.Backoff.{backoff_delay-le_max}

abbrev pub is_settled : Status → Bool
is_settled done = true
is_settled dead = true
is_settled _ = false

abbrev pub is_handled : Handlers → Item → Bool
is_handled hs x = any (λ t. t == x.topic) (topics_of hs.table)

-- Of a type that nobody handles, or at the end of its delivery.
abbrev pub is_over : Handlers → Item → Bool
is_over hs x = not (is_handled hs x) || is_settled x.status

-- Over, or due after at least `k` attempts.
abbrev pub advances : Handlers → Claim → ℕ → Item → Bool
advances hs c k x = is_over hs x || (is_due c x && leb k x.attempts)

-- A row after a sweep that no limit and no other sweeper hinders.
abbrev pub after_sweep : Handlers → Options → ℕ → Item → Item
after_sweep hs o t x =
    if is_due (claim_of o hs t) x then delivered (claim_of o hs t) (retry_of o) hs x else x

delivered-advances :
    (hs : Handlers) (o : Options) (t u k : ℕ) (x : Item)
    → t + (retry_of o).max_delay ≤ u
    → is_due (claim_of o hs t) x ≡ true
    → k ≤ x.attempts
    → advances hs (claim_of o hs u) (k + 1) (delivered (claim_of o hs t) (retry_of o) hs x) ≡ true
unfolding delivered ended_row ended is_due
delivered-advances hs o t u k x gap due h =
    let c = claim_of o hs t in
    let y = claimed c x in
    let bound = backoff_delay-le_max y.attempts (retry_of o) in
    elim (Option-cases (answer hs y)) [
      | inl e ↦ rw e (ground arith)
      | inr (m, e) ↦ rw e (ground (arith, bound))
    ]

delivered-ends :
    (hs : Handlers) (o : Options) (t k : ℕ) (x : Item)
    → k ≤ x.attempts
    → (retry_of o).max_attempts ≤ k + 1
    → is_settled (delivered (claim_of o hs t) (retry_of o) hs x).status ≡ true
unfolding delivered ended_row ended
delivered-ends hs o t k x h last =
    let y = claimed (claim_of o hs t) x in
    elim (Option-cases (answer hs y)) [ inl e ↦ rw e refl | inr (m, e) ↦ rw e (ground arith) ]

settled-not-due : (c : Claim) (x : Item) → is_settled x.status ≡ true → is_due c x ≡ false
unfolding is_due
settled-not-due c x h = ground arith

unhandled-not-due :
    (hs : Handlers) (o : Options) (t : ℕ) (x : Item)
    → is_handled hs x ≡ false
    → is_due (claim_of o hs t) x ≡ false
unfolding is_due
unhandled-not-due hs o t x h = rw h refl

over-not-due :
    (hs : Handlers) (o : Options) (t : ℕ) (x : Item)
    → is_over hs x ≡ true
    → is_due (claim_of o hs t) x ≡ false
over-not-due hs o t x h =
    ground (arith, settled-not-due (claim_of o hs t) x, unhandled-not-due hs o t x)

-- One sweep carries every row on.
pub after_sweep-advances :
    (hs : Handlers) (o : Options) (t u k : ℕ) (x : Item)
    → t + (retry_of o).max_delay ≤ u
    → advances hs (claim_of o hs t) k x ≡ true
    → advances hs (claim_of o hs u) (k + 1) (after_sweep hs o t x) ≡ true
after_sweep-advances hs o t u k x gap h = elim (Bool-cases (is_over hs x)) [
  | inl e ↦ rw (over-not-due hs o t x e) (ground arith)
  | inr e ↦ elim (Bool-cases (is_due (claim_of o hs t) x)) [
    | inl d ↦ rw d (delivered-advances hs o t u k x gap d (ground arith))
    | inr d ↦ ground arith
  ]
]

pub after_sweep-ends :
    (hs : Handlers) (o : Options) (t k : ℕ) (x : Item)
    → (retry_of o).max_attempts ≤ k + 1
    → advances hs (claim_of o hs t) k x ≡ true
    → is_over hs (after_sweep hs o t x) ≡ true
after_sweep-ends hs o t k x last h = elim (Bool-cases (is_over hs x)) [
  | inl e ↦ rw (over-not-due hs o t x e) e
  | inr e ↦ elim (Bool-cases (is_due (claim_of o hs t) x)) [
    | inl d ↦ rw d (ground (arith, delivered-ends hs o t k x (ground arith) last))
    | inr d ↦ ground arith
  ]
]
