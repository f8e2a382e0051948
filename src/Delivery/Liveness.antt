-- ===== src/Delivery/Liveness.antt =====
-- src/domain/outbox.ts: regular sweeps bring every event to an end.
use trade_pal_africa.Base.{
  ◌+◌, ◌≤◌, ℕ, true, false, List, [], ◌∷◌, if◌then◌else◌, All, All-map, ◌≡◌, sym, ap, ◌∙◌, arith,
  length, subst,
}
use trade_pal_africa.Delivery.Queue.{
  Item, Handlers, map_items, among, is_due, Options, claim_of, due_items,
}
use trade_pal_africa.Delivery.Outbox.{process_outbox, by_available}
use trade_pal_africa.Delivery.Ends.{delivered, delivered-id}
use trade_pal_africa.Delivery.SinglePass.{IsKeyed, map_items-same}
use trade_pal_africa.Delivery.Sweep.{retry_of, process_outbox_rows, length-map_items}
use trade_pal_africa.Delivery.Whole.{due_items_whole}
use trade_pal_africa.Delivery.Progress.{
  is_over, advances, after_sweep, after_sweep-ends, after_sweep-advances,
}

-- Sweeps at given times, with no other sweeper.
abbrev pub sweep_each : Handlers → Options → List ℕ → List Item → List Item
sweep_each hs o [] xs = xs
sweep_each hs o (t ∷ ts) xs = sweep_each hs o ts (process_outbox (λ _. false) hs o t xs).1

-- Each time is at least `d` after the one before.
abbrev pub Spaced : ℕ → List ℕ → Type 0
Spaced d [] = Unit
Spaced d (t ∷ []) = Unit
Spaced d (t ∷ u ∷ us) = (t + d ≤ u) × Spaced d (u ∷ us)

All-map_items :
    (P : Item → Type 0) (f : Item → Item) (xs : List Item)
    → All (λ x. P (f x)) xs
    → All P (map_items f xs)
All-map_items P f [] h = tt
All-map_items P f (x ∷ xs) h = (h.0, All-map_items P f xs h.1)

after_sweep-id : (hs : Handlers) (o : Options) (t : ℕ) (x : Item) → (after_sweep hs o t x).id ≡ x.id
after_sweep-id hs o t x = ground (arith, delivered-id (claim_of o hs t) (retry_of o) hs x)

sweep-each-row :
    (hs : Handlers) (o : Options) (t : ℕ) (xs : List Item)
    → IsKeyed xs
    → length xs ≤ (claim_of o hs t).limit
    → (process_outbox (λ _. false) hs o t xs).1 ≡ map_items (after_sweep hs o t) xs
sweep-each-row hs o t xs k n =
    let c = claim_of o hs t in
    let due = due_items by_available (λ _. false) c xs in
    process_outbox_rows (λ _. false) hs o t xs k
    ∙ map_items-same (λ x. if among due x then delivered c (retry_of o) hs x else x)
        (after_sweep hs o t) xs
        (All-map (λ x. among due x ≡ is_due c x)
          (λ x. (if among due x then delivered c (retry_of o) hs x else x) ≡ after_sweep hs o t x)
          xs (λ x e. ap (λ b. if b then delivered c (retry_of o) hs x else x) e)
          (due_items_whole by_available c xs n k))

map_items-IsKeyed :
    (f : Item → Item) (xs : List Item)
    → ((x : Item) → (f x).id ≡ x.id)
    → IsKeyed xs
    → IsKeyed (map_items f xs)
map_items-IsKeyed f xs same h =
    All-map_items (λ x. All (λ y. y.id ≡ x.id → y ≡ x) (map_items f xs)) f xs
      (All-map (λ x. All (λ y. y.id ≡ x.id → y ≡ x) xs)
        (λ x. All (λ y. y.id ≡ (f x).id → y ≡ f x) (map_items f xs)) xs
        (λ x k.
          All-map_items (λ y. y.id ≡ (f x).id → y ≡ f x) f xs
            (All-map (λ y. y.id ≡ x.id → y ≡ x) (λ y. (f y).id ≡ (f x).id → f y ≡ f x) xs
              (λ y q e. ap f (q (sym (same y) ∙ e ∙ same x))) k))
        h)

sweep-carries :
    (P Q : Item → Type 0) (hs : Handlers) (o : Options) (t : ℕ) (xs : List Item)
    → IsKeyed xs
    → length xs ≤ (claim_of o hs t).limit
    → ((x : Item) → P x → Q (after_sweep hs o t x))
    → All P xs
    → All Q (process_outbox (λ _. false) hs o t xs).1
sweep-carries P Q hs o t xs k n f h =
    subst (All Q) (sym (sweep-each-row hs o t xs k n))
      (All-map_items Q (after_sweep hs o t) xs (All-map P (λ x. Q (after_sweep hs o t x)) xs f h))

sweep-keeps :
    (hs : Handlers) (o : Options) (t : ℕ) (xs : List Item)
    → IsKeyed xs
    → length xs ≤ (claim_of o hs t).limit
    → let ys = (process_outbox (λ _. false) hs o t xs).1 in
      IsKeyed ys × (length ys ≤ (claim_of o hs t).limit)
sweep-keeps hs o t xs k n =
    subst (λ ys. IsKeyed ys × (length ys ≤ (claim_of o hs t).limit))
      (sym (sweep-each-row hs o t xs k n))
      (
        map_items-IsKeyed (after_sweep hs o t) xs (after_sweep-id hs o t) k,
        omega (arith, n, length-map_items (after_sweep hs o t) xs),
      )

sweeps_end :
    (hs : Handlers) (o : Options) (k t : ℕ) (ts : List ℕ) (xs : List Item)
    → IsKeyed xs
    → length xs ≤ (claim_of o hs t).limit
    → Spaced (retry_of o).max_delay (t ∷ ts)
    → (retry_of o).max_attempts ≤ k + length (t ∷ ts)
    → All (λ x. advances hs (claim_of o hs t) k x ≡ true) xs
    → All (λ x. is_over hs x ≡ true) (sweep_each hs o (t ∷ ts) xs)
sweeps_end hs o k t [] xs keyed n gap last h =
    sweep-carries (λ x. advances hs (claim_of o hs t) k x ≡ true) (λ x. is_over hs x ≡ true) hs o t
      xs keyed n (λ x. after_sweep-ends hs o t k x (omega (arith, last))) h
sweeps_end hs o k t (u ∷ us) xs keyed n gap last h =
    let kept = sweep-keeps hs o t xs keyed n in
    sweeps_end hs o (k + 1) u us (process_outbox (λ _. false) hs o t xs).1 kept.0 kept.1 gap.1
      (omega (arith, last))
      (sweep-carries (λ x. advances hs (claim_of o hs t) k x ≡ true)
        (λ x. advances hs (claim_of o hs u) (k + 1) x ≡ true) hs o t xs keyed n
        (λ x. after_sweep-advances hs o t u k x gap.0) h)

-- Where every id names one row, the table is no longer than the limit, no other sweeper is at work
-- and every row of a handled type is published, dead or due at the first sweep, then after as many sweeps as
-- there are attempts, one at least, each at least the greatest delay after the one before, every
-- event of a handled type is published or dead, whatever the handlers answer.
pub sweep_each_ends :
    (hs : Handlers) (o : Options) (t : ℕ) (ts : List ℕ) (xs : List Item)
    → IsKeyed xs
    → length xs ≤ (claim_of o hs t).limit
    → Spaced (retry_of o).max_delay (t ∷ ts)
    → (retry_of o).max_attempts ≤ length (t ∷ ts)
    → All (λ x. advances hs (claim_of o hs t) 0 x ≡ true) xs
    → All (λ x. is_over hs x ≡ true) (sweep_each hs o (t ∷ ts) xs)
sweep_each_ends hs o t ts xs keyed n gap last h =
    sweeps_end hs o 0 t ts xs keyed n gap (omega (arith, last)) h
