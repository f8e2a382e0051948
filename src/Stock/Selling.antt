-- ===== src/Stock/Selling.antt =====
-- What a strict sale answers: the stock that is there is enough, or nothing changes.
use trade_pal_africa.Base.{
  ℕ, suc, Bool, true, false, none, some, ◌==◌, ◌≡◌, refl, arith, if◌then◌else◌, find, find-some,
  Bool-cases, keep, not, [], ◌∷◌, ◌++◌, ◌⊎◌, inl, inr, ◌∙◌, find-update_where, keep-update_where,
  any, ltb, ok, err, sym, ◌+◌,
}
use trade_pal_africa.Base.Int.{
  ℤ, pos, negsuc, ◌+ℤ◌, ◌-ℤ◌, neg, ltb_ℤ, pos_part, neg_part, leb_ℤ, max_ℤ, ◌≤ℤ◌, ◌<ℤ◌, ◌==ℤ◌,
  int_laws,
}
use trade_pal_africa.Stock.Rows.{insufficient_stock, Balance, Stock, is_row, sale_fulfillment}
use trade_pal_africa.Stock.Costing.{Costing, costing, cost_out}
use trade_pal_africa.Stock.Movements.{
  Move, PostedMovement, moved_balance, require_available, find_by_key, write_movement, posted_with,
  is_negative,
}
use trade_pal_africa.Stock.Everyday.{Common, caller, move_of, fulfil_sale}
use trade_pal_africa.Stock.Outcomes.{is_broken, is_short, is_nothing, post_stock_movement_outcome}

same_ltb : (a b c d : ℕ) → a + d ≡ c + b → ltb a b ≡ ltb c d
same_ltb a b c d h = ground arith

-- Less than is asked for, before and after.
short_before :
    (h r : ℤ) (n : ℕ)
    → is_negative ((h +ℤ neg (pos (suc n))) -ℤ (r -ℤ pos 0)) ≡ ltb_ℤ (h -ℤ r) (pos (suc n))
short_before h r n =
    same_ltb (pos_part ((h +ℤ neg (pos (suc n))) -ℤ (r -ℤ pos 0)) + 0)
      (0 + neg_part ((h +ℤ neg (pos (suc n))) -ℤ (r -ℤ pos 0))) (pos_part (h -ℤ r) + 0)
      (suc n + neg_part (h -ℤ r)) (omega int_laws)

taken_IsNegative : (n : ℕ) → is_negative (negsuc n) ≡ true
taken_IsNegative n = ground arith

taken_IsOut : (n : ℕ) → ltb_ℤ (pos 0) (negsuc n) ≡ false
taken_IsOut n = ground arith

taken_IsSome : (n : ℕ) → negsuc n ==ℤ pos 0 ≡ false
taken_IsSome n = ground arith

neg-suc : (n : ℕ) → neg (pos (suc n)) ≡ negsuc n
neg-suc n = omega int_laws

not_negative : (x : ℤ) → pos 0 ≤ℤ x → is_negative x ≡ false
not_negative x h = ground arith

suc_allowed : (n : ℕ) → leb_ℤ (pos (suc n)) (pos 0) ≡ false
suc_allowed n = ground arith

minus_none : (x : ℤ) → pos 0 ≤ℤ x → pos 0 ≤ℤ x -ℤ pos 0
minus_none x h = omega int_laws

plus_none : (x : ℤ) → pos 0 ≤ℤ x → pos 0 ≤ℤ x +ℤ pos 0
plus_none x h = omega int_laws

minus_nothing : (x : ℤ) → x -ℤ pos 0 ≡ x
minus_nothing x = omega int_laws

plus_nothing : (x : ℤ) → x +ℤ pos 0 ≡ x
plus_nothing x = omega int_laws

plus_neg : (x y : ℤ) → x +ℤ neg y ≡ x -ℤ y
plus_neg x y = omega int_laws

-- A sale that is made: one movement, which takes the quantity off what is on hand, is appended and
-- answered with the row it leaves, and all else of the balances and the reservations is as before.
abbrev pub IsSold : Common → Balance → Stock → Type 0
IsSold c b s =
    (p : PostedMovement) × (s' : Stock) × (fulfil_sale c (some true) false s ≡ (ok p, s'))
    × (s'.movements ≡ s.movements ++ p.movement ∷ [])
    × ((p.movement.shop ≡ c.shop)
        × (p.movement.variant ≡ c.variant)
        × (p.movement.kind ≡ sale_fulfillment)
        × (p.movement.key ≡ caller c.key)
        × (p.movement.on_hand_delta ≡ neg c.quantity)
        × (p.movement.damaged_delta ≡ pos 0)
        × (p.movement.in_transit_delta ≡ pos 0)
        × (p.replayed ≡ false))
    × (find (is_row c.shop c.variant) s'.balances ≡ some p.balance)
    × ((p.balance.on_hand ≡ b.on_hand -ℤ c.quantity)
        × (p.balance.reserved ≡ b.reserved)
        × (p.balance.damaged ≡ b.damaged)
        × (p.balance.in_transit ≡ b.in_transit))
    × (keep (λ y. not (is_row c.shop c.variant y)) s'.balances
        ≡ keep (λ y. not (is_row c.shop c.variant y)) s.balances)
    × (s'.reservations ≡ s.reservations)

-- A sale that must have its stock, of a pair that has a row and under a key that is not taken.
module _ (c : Common) (n : ℕ) (s : Stock) (b : Balance) (positive : c.quantity ≡ pos (suc n))
    (shop_known : any (λ x. x == c.shop) s.shops ≡ true)
    (variant_known : any (λ x. x == c.variant) s.variants ≡ true)
    (fresh : find_by_key (caller c.key) s.movements ≡ none)
    (found : find (is_row c.shop c.variant) s.balances ≡ some b)
    (sane : (pos 0 ≤ℤ b.reserved) × (pos 0 ≤ℤ b.damaged) × (pos 0 ≤ℤ b.in_transit))
    (unjournalled : s.journals_enabled ≡ false) where
  abbrev sold : Move
  sold =
      record (move_of (record c { unit_cost = none }) sale_fulfillment (neg c.quantity) (pos 0)) {
        availability = some require_available;
      }

  abbrev sold_at : Costing
  sold_at = cost_out b (neg (neg c.quantity)) none

  abbrev is_unsold : Bool
  is_unsold = ltb_ℤ (b.on_hand -ℤ b.reserved) c.quantity

  sold-IsShort : is_short sold b ≡ is_unsold
  sold-IsShort =
      rw (positive, short_before b.on_hand b.reserved n, neg-suc n, taken_IsNegative n) refl

  sold-IsNothing : is_nothing sold ≡ false
  sold-IsNothing = rw (positive, neg-suc n, taken_IsSome n) refl

  sold-IsBroken : is_broken sold b ≡ false
  sold-IsBroken =
      rw
        (
          not_negative _ (minus_none b.reserved sane.0),
          not_negative _ (plus_none b.damaged sane.1),
          not_negative _ (plus_none b.in_transit sane.2),
        )
        refl

  positive_allowed : leb_ℤ c.quantity (pos 0) ≡ false
  positive_allowed = rw positive (suc_allowed n)

  sold_cost : costing b (neg c.quantity) (pos 0) none ≡ ok sold_at
  unfolding costing
  sold_cost = rw (positive, neg-suc n, taken_IsOut n, taken_IsNegative n) refl

  fulfil_sale-posted : fulfil_sale c (some true) false s ≡ (
      if is_unsold
      then (err (insufficient_stock (max_ℤ (pos 0) (b.on_hand -ℤ b.reserved))), s)
      else (ok (posted_with sold b sold_at s), write_movement sold sold_at b s))
  unfolding fulfil_sale
  fulfil_sale-posted = rw (positive_allowed) (
      rw (sym sold-IsShort) (
        post_stock_movement_outcome sold b s sold_at sold-IsNothing fresh shop_known variant_known
          found sold-IsBroken sold_cost unjournalled))

  written-IsSold :
      fulfil_sale c (some true) false s
        ≡ (ok (posted_with sold b sold_at s), write_movement sold sold_at b s)
      → IsSold c b s
  written-IsSold done =
      let row = is_row c.shop c.variant in
      let f = moved_balance sold sold_at in
      (
        posted_with sold b sold_at s,
        write_movement sold sold_at b s,
        done,
        refl,
        (refl, refl, refl, refl, refl, refl, refl, refl),
        find-update_where row f s.balances b (find-some row s.balances b found) found,
        (
          plus_neg b.on_hand c.quantity,
          minus_nothing b.reserved,
          plus_nothing b.damaged,
          plus_nothing b.in_transit,
        ),
        keep-update_where (λ y. not (row y)) row f s.balances (λ y e. rw e refl) (λ y. refl),
        refl,
      )

  -- A sale that requires its stock and is not approved to go without, of a quantity above zero,
  -- under a key that is free, with the journals off, of a known shop and variant whose row has no
  -- negative reserved, damaged or in-transit bucket. Only where the units on hand less those held
  -- are fewer than it asks for is it refused, with what is available, and nothing changes.
  -- Otherwise one movement is appended and answered, which takes the quantity off what is on
  -- hand; the row has that many fewer on hand and its other buckets as they were, and the other
  -- rows and the reservations stay.
  pub fulfil_sale_outcome :
      ((b.on_hand -ℤ b.reserved <ℤ c.quantity)
        × (fulfil_sale c (some true) false s
            ≡ (err (insufficient_stock (max_ℤ (pos 0) (b.on_hand -ℤ b.reserved))), s)))
      ⊎ ((c.quantity ≤ℤ b.on_hand -ℤ b.reserved) × IsSold c b s)
  fulfil_sale_outcome = elim (Bool-cases (ltb_ℤ (b.on_hand -ℤ b.reserved) c.quantity)) [
    | inl e ↦ inl (ground arith, fulfil_sale-posted ∙ rw e refl)
    | inr e ↦ inr (ground arith, written-IsSold (fulfil_sale-posted ∙ rw e refl))
  ]
