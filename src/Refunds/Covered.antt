-- ===== src/Refunds/Covered.antt =====
-- src/domain/merchantPayments/refunds.ts: no attempt is refunded above what it captured.
use trade_pal_africa.Base.{
  ℕ, ◌+◌, ◌≤◌, Bool, true, ◌&&◌, Option, none, some, List, [], ◌∷◌, ◌++◌, ◌==◌, if◌then◌else◌, find,
  update_where, ◌≡◌, ap, ◌∙◌, subst, arith, Bool-cases, Option-cases, inl, inr, ==_iff,
}
use mathlib.Core.Option.{some-injective}
use trade_pal_africa.Refunds.Rows.{
  Attempt, RefundStatus, failed, Refund, Payments, is_open, is_live, has_id, put, refundable,
  take_attempt, attempt_holds, give_attempt, reserve, release, mark, open_row,
}

-- What the refunds of an attempt that have not failed come to.
unfoldable pub live : ℕ → List Refund → ℕ
live i [] = 0
live i (r ∷ rs) = (if r.attempt_id == i && is_live r.status then r.amount else 0) + live i rs

abbrev pub share : ℕ → ℕ → ℕ → ℕ
share i x j = if j == i then x else 0

-- Of every attempt: the refunds that have not failed, with `x` more of attempt `i`, are within what
-- is reserved, and that is within what was captured.
abbrev pub CoveredWith : ℕ → ℕ → Payments → Type 0
CoveredWith i x s =
    (j : ℕ) (a : Attempt)
    → s.attempts j ≡ some a
    → (live j s.refunds + share i x j ≤ a.refunded) × (a.refunded ≤ a.captured)

-- The rows of a list that are marked keep what is live, or lose it.
pub live-mark :
    (j : ℕ) (p : Refund → Bool) (status : RefundStatus) (ref : Option ℕ) (rs : List Refund)
    → ((r : Refund) → p r ≡ true → is_live r.status ≡ true)
    → live j (update_where p (mark status ref) rs) ≤ live j rs
unfolding live
live-mark j p status ref [] h = omega arith
live-mark j p status ref (r ∷ rs) h = ground (arith, live-mark j p status ref rs h, h r)

pub open_row-live : (i : ℕ) (r : Refund) → open_row i r ≡ true → is_live r.status ≡ true
open_row-live i r h = ground arith

-- A row that fails takes its amount out of what is live.
pub live-failed :
    (j i : ℕ) (rs : List Refund) (r : Refund)
    → find (has_id i) rs ≡ some r
    → is_open r.status ≡ true
    → live j (update_where (open_row i) (mark failed none) rs) + share r.attempt_id r.amount j
      ≤ live j rs
unfolding live
live-failed j i [] r h o = cc
live-failed j i (x ∷ xs) r h o = elim (Bool-cases (x.id == i)) [
  | inl e ↦
      let same = some-injective x r (rw e at h) in
      subst
        (λ y.
          live j (update_where (open_row i) (mark failed none) (x ∷ xs))
            + share y.attempt_id y.amount j
          ≤ live j (x ∷ xs))
        same
        (ground (
          arith,
          live-mark j (open_row i) failed none xs (open_row-live i),
          ap (λ y. is_open y.status) same ∙ o,
        ))
  | inr e ↦ ground (arith, live-failed j i xs r (rw e at h) o)
]

pub live-append :
    (j : ℕ) (rs : List Refund) (r : Refund) → live j (rs ++ r ∷ []) ≡ live j rs + live j (r ∷ [])
unfolding live
live-append j [] r = omega arith
live-append j (x ∷ xs) r = omega (arith, live-append j xs r)

same_row :
    (b c : Bool) (x y : Attempt)
    → some (if b && c then x else y) ≡ (if b then (if c then some x else some y) else some y)
same_row b c x y = ground arith

-- A row of a table after an update.
put-some :
    (i : ℕ) (p : Attempt → Bool) (f : Attempt → Attempt) (m : ℕ → Option Attempt) (j : ℕ)
    (b : Attempt)
    → put i p f m j ≡ some b
    → (a : Attempt) × (m j ≡ some a) × ((if j == i && p a then f a else a) ≡ b)
put-some i p f m j b h = elim (Option-cases (m j)) [
  | inl e ↦ let k = rw e at h in ground (arith, k)
  | inr (a, e) ↦ (
    a,
    e,
    some-injective (if j == i && p a then f a else a) b
        (same_row (j == i) (p a) (f a) a ∙ rw e at h),
  )
]

Within : ℕ → Attempt → Type 0
Within n a = (n ≤ a.refunded) × (a.refunded ≤ a.captured)

module _ (i x : ℕ) (s : Payments) where
  pub reserve-CoveredWith :
      (t : ℕ)
      → ((a : Attempt) → s.attempts i ≡ some a → refundable x a ≡ true)
      → CoveredWith i 0 s
      → CoveredWith i x (reserve i t x s)
  unfolding reserve Within
  reserve-CoveredWith t guard h j b e =
      let it = put-some i (refundable x) (take_attempt x) s.attempts j b e in
      let was = h j it.0 it.1 in
      subst (Within (live j s.refunds + share i x j)) it.2 (elim (Bool-cases (j == i)) [
        | inl q ↦
            let fits = guard it.0 (subst (λ k. s.attempts k ≡ some it.0) ((==_iff j i).0 q) it.1) in
            rw (q, fits) (ground (arith, was, q, fits))
        | inr q ↦ rw q (ground (arith, was, q))
      ])

  pub release-CoveredWith : (t : ℕ) → CoveredWith i x s → CoveredWith i 0 (release i t x s)
  unfolding release Within
  release-CoveredWith t h j b e =
      let it = put-some i (attempt_holds x) (give_attempt x) s.attempts j b e in
      let was = h j it.0 it.1 in
      subst (Within (live j s.refunds + share i 0 j)) it.2 (ground (arith, was))
