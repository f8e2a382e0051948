-- ===== src/Delivery/Ends.antt =====
-- src/domain/outbox.ts, `processOutbox`: the end of one claimed item, on a table whose ids each name
-- one row.
use trade_pal_africa.Base.{
  Bool, true, false, Option, none, some, List, [], ◌∷◌, ◌==◌, if◌then◌else◌, All, ℕ, ◌≡◌, refl, sym,
  ap, ◌∙◌, arith, Bool-cases, inl, inr, ==_iff, subst,
}
use trade_pal_africa.Delivery.Retry.{RetryPolicy, is_retry_exhausted}
use trade_pal_africa.Delivery.Queue.{Item, Claim, Handlers, claimed, map_items, among}
use trade_pal_africa.Delivery.Rows.{ended, answer, on_row, on_rows, ended-Named, swept_row}

-- Ending an item twice is ending it once.
ended-again :
    (now : ℕ) (retry : RetryPolicy) (y : Item) (o : Option ℕ) (r : Item)
    → ended now retry y o (ended now retry y o r) ≡ ended now retry y o r
unfolding ended
ended-again now retry y none r = refl
ended-again now retry y (some m) r = elim (Bool-cases (is_retry_exhausted y.attempts retry)) [
  | inl e ↦ rw e refl
  | inr e ↦ rw e refl
]

-- The row of an item that is claimed, at the end of the item.
unfoldable pub ended_row : Claim → RetryPolicy → Handlers → Item → Item → Item
ended_row c retry hs x r = ended c.now retry (claimed c x) (answer hs (claimed c x)) r

on_row-hit :
    (c : Claim) (retry : RetryPolicy) (hs : Handlers) (y x r : Item)
    → r.id ≡ x.id
    → y ≡ x
    → on_row c.now retry hs (claimed c y) r ≡ ended_row c retry hs x r
unfolding ended_row
on_row-hit c retry hs y x r e q =
    subst (λ z. on_row c.now retry hs (claimed c z) r ≡ ended_row c retry hs x r) (sym q)
      (rw ((==_iff r.id x.id).1 e) refl)

on_row-miss :
    (c : Claim) (retry : RetryPolicy) (hs : Handlers) (y x r : Item)
    → r.id ≡ x.id
    → (y.id == x.id) ≡ false
    → on_row c.now retry hs (claimed c y) r ≡ r
on_row-miss c retry hs y x r e q = ground arith

ended_row-id :
    (c : Claim) (retry : RetryPolicy) (hs : Handlers) (x r : Item)
    → r.id ≡ x.id
    → (ended_row c retry hs x r).id ≡ x.id
unfolding ended_row
ended_row-id c retry hs x r e =
    let y = claimed c x in (ended-Named c.now retry y (answer hs y) r r (refl, refl, refl)).0 ∙ e

ended_row-again :
    (c : Claim) (retry : RetryPolicy) (hs : Handlers) (x r : Item)
    → ended_row c retry hs x (ended_row c retry hs x r) ≡ ended_row c retry hs x r
unfolding ended_row
ended_row-again c retry hs x r = ended-again c.now retry (claimed c x) (answer hs (claimed c x)) r

ended_row-if :
    (b : Bool) (c : Claim) (retry : RetryPolicy) (hs : Handlers) (x r : Item)
    → (if b then ended_row c retry hs x (ended_row c retry hs x r) else ended_row c retry hs x r)
      ≡ ended_row c retry hs x r
ended_row-if true c retry hs x r = ended_row-again c retry hs x r
ended_row-if false c retry hs x r = refl

-- Where the id of a row names one row only, the claimed rows end that one.
on_rows-ended :
    (c : Claim) (retry : RetryPolicy) (hs : Handlers) (due : List Item) (x r : Item)
    → All (λ y. y.id ≡ x.id → y ≡ x) due
    → r.id ≡ x.id
    → on_rows c.now retry hs (map_items (claimed c) due) r
      ≡ (if among due x then ended_row c retry hs x r else r)
unfolding on_rows
on_rows-ended c retry hs [] x r h e = refl
on_rows-ended c retry hs (y ∷ ys) x r h e = elim (Bool-cases (y.id == x.id)) [
  | inl q ↦
      let r' = ended_row c retry hs x r in
      rw q (
        ap (on_rows c.now retry hs (map_items (claimed c) ys))
          (on_row-hit c retry hs y x r e (h.0 ((==_iff y.id x.id).0 q)))
        ∙ on_rows-ended c retry hs ys x r' h.1 (ended_row-id c retry hs x r e)
        ∙ ended_row-if (among ys x) c retry hs x r)
  | inr q ↦ rw q (
      ap (on_rows c.now retry hs (map_items (claimed c) ys)) (on_row-miss c retry hs y x r e q)
      ∙ on_rows-ended c retry hs ys x r h.1 e)
]

-- The row of an item after a sweep that claims it.
unfoldable pub delivered : Claim → RetryPolicy → Handlers → Item → Item
unfolding ended_row
delivered c retry hs x = ended_row c retry hs x (claimed c x)

pub delivered-id :
    (c : Claim) (retry : RetryPolicy) (hs : Handlers) (x : Item)
    → (delivered c retry hs x).id ≡ x.id
unfolding delivered
delivered-id c retry hs x = ended_row-id c retry hs x (claimed c x) refl

pub swept_row-delivered :
    (c : Claim) (retry : RetryPolicy) (hs : Handlers) (due : List Item) (x : Item)
    → All (λ y. y.id ≡ x.id → y ≡ x) due
    → swept_row c retry hs due x ≡ (if among due x then delivered c retry hs x else x)
unfolding swept_row delivered
swept_row-delivered c retry hs due x h = elim (Bool-cases (among due x)) [
  | inl e ↦ rw e (on_rows-ended c retry hs due x (claimed c x) h refl ∙ rw e refl)
  | inr e ↦ rw e (on_rows-ended c retry hs due x x h refl ∙ rw e refl)
]
