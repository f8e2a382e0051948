-- ===== src/Stock/Holding.antt =====
-- What `reserveStock` and `releaseReservation` answer.
use trade_pal_africa.Base.{
  ℕ, suc, Bool, true, false, ◌&&◌, not, none, some, [], ◌∷◌, ◌==◌, ◌≡◌, refl, ap, subst, find-some,
  ◌∙◌, inl, inr, Bool-cases, arith, if◌then◌else◌, length, find, any, keep, update_where,
  find-update_where, find-update_within, keep-update_where, ◌++◌, ◌⊎◌, leb, ok, err, roll_back,
}
use trade_pal_africa.Base.Int.{ℤ, ◌+ℤ◌, ◌<ℤ◌, ◌≤ℤ◌, neg, int_laws, pos, ◌-ℤ◌, ltb_ℤ, leb_ℤ, max_ℤ}
use trade_pal_africa.Stock.Rows.{
  StockError, insufficient_stock, Balance, Reservation, active, released, Stock, is_row,
  get_stock_policy,
}
use trade_pal_africa.Stock.Reservations.{
  add_reserved, is_active, is_open, has_id, close_row, release, give_back, close_rows, close_active,
  close_found, close_reservation, release_reservation, ReserveInput, Reserved, new_reservation,
  write_reservation, has_reservation_key, hold, lock_balance, reserve_new, reserve_or_replay,
  reserve_stock,
}

suc_allowed : (n : ℕ) → leb_ℤ (pos (suc n)) (pos 0) ≡ false
suc_allowed n = ground arith

-- The reservation that a hold leaves.
abbrev held_for : ReserveInput → ℕ → Reservation
held_for i n = record {
  id = n;
  shop = i.shop;
  variant = i.variant;
  quantity = i.quantity;
  status = active;
  expires_at = i.expires_at;
  reference = i.reference;
  key = i.key;
  settled_at = none;
}

-- A hold that is granted: its reservation is new, its quantity is added to what the row holds back,
-- and all else of the balances and the movements is as before.
abbrev pub IsHeld : ReserveInput → Balance → Stock → Type 0
IsHeld i b s =
    (s' : Stock) × (reserve_stock i s
      ≡ (ok (record { reservation = held_for i s.next_id; replayed = false }), s'))
    × (s'.reservations ≡ s.reservations ++ held_for i s.next_id ∷ [])
    × (find (is_row i.shop i.variant) s'.balances
        ≡ some (record b { reserved = b.reserved +ℤ i.quantity }))
    × (keep (λ y. not (is_row i.shop i.variant y)) s'.balances
        ≡ keep (λ y. not (is_row i.shop i.variant y)) s.balances)
    × (s'.movements ≡ s.movements)

-- A hold under a key that is not taken, of a pair that has a row.
module _ (i : ReserveInput) (n : ℕ) (s : Stock) (b : Balance) (positive : i.quantity ≡ pos (suc n))
    (open_until : leb i.expires_at i.now ≡ false)
    (fresh : find (has_reservation_key i.key) s.reservations ≡ none)
    (shop_known : any (λ x. x == i.shop) s.shops ≡ true)
    (variant_known : any (λ x. x == i.variant) s.variants ≡ true)
    (found : find (is_row i.shop i.variant) s.balances ≡ some b) where
  abbrev is_refused : Bool
  is_refused =
      ltb_ℤ (b.on_hand -ℤ b.reserved) i.quantity && not (get_stock_policy s).allow_backorder

  abbrev refusal : StockError
  refusal = insufficient_stock (max_ℤ (pos 0) (b.on_hand -ℤ b.reserved))

  abbrev granted : Reserved
  granted = record { reservation = new_reservation i s; replayed = false }

  hold_outcome :
      (refused : Bool)
      → is_refused ≡ refused
      → hold i b s ≡ (if refused then (err refusal, s) else (ok granted, write_reservation i s))
  unfolding hold
  hold_outcome true e = rw e refl
  hold_outcome false e = rw e refl

  reserve_new_outcome : reserve_new i s ≡ hold i b s
  unfolding reserve_new lock_balance
  reserve_new_outcome = rw (shop_known, variant_known, found, found) refl

  undone :
      (refused : Bool)
      → roll_back s (if refused then (err refusal, s) else (ok granted, write_reservation i s))
        ≡ (if refused then (err refusal, s) else (ok granted, write_reservation i s))
  undone true = refl
  undone false = refl

  positive_allowed : leb_ℤ i.quantity (pos 0) ≡ false
  positive_allowed = rw positive (suc_allowed n)

  reserve_stock-hold :
      reserve_stock i s
      ≡ (if is_refused then (err refusal, s) else (ok granted, write_reservation i s))
  unfolding reserve_stock reserve_or_replay
  reserve_stock-hold =
      rw (positive_allowed, open_until, fresh)
        (ap (roll_back s) (reserve_new_outcome ∙ hold_outcome is_refused refl) ∙ undone is_refused)

  written-IsHeld : reserve_stock i s ≡ (ok granted, write_reservation i s) → IsHeld i b s
  written-IsHeld done =
      let row = is_row i.shop i.variant in
      let f = add_reserved i.quantity in
      (
        write_reservation i s,
        done,
        refl,
        find-update_where row f s.balances b (find-some row s.balances b found) found,
        keep-update_where (λ y. not (row y)) row f s.balances (λ y e. rw e refl) (λ y. refl),
        refl,
      )

  -- A hold above zero, until a later time, under a key that is free, of a known shop and variant
  -- with a row. Only where fewer units are available than it asks for and the policy has no
  -- backorders is it refused, with what is available, and nothing changes. Otherwise an active
  -- reservation of the quantity is appended and answered, the row holds back the quantity more
  -- and is otherwise as it was, and the other rows and the movements stay.
  pub reserve_stock_outcome :
      ((b.on_hand -ℤ b.reserved <ℤ i.quantity)
        × ((get_stock_policy s).allow_backorder ≡ false)
        × (reserve_stock i s
            ≡ (err (insufficient_stock (max_ℤ (pos 0) (b.on_hand -ℤ b.reserved))), s)))
      ⊎ (((i.quantity ≤ℤ b.on_hand -ℤ b.reserved) ⊎ ((get_stock_policy s).allow_backorder ≡ true))
          × IsHeld i b s)
  reserve_stock_outcome =
      let lacking = ltb_ℤ (b.on_hand -ℤ b.reserved) i.quantity in
      let allowed = (get_stock_policy s).allow_backorder in
      elim (Bool-cases lacking) [
        | inl e ↦ elim (Bool-cases allowed) [
          | inl a ↦
              let same : is_refused ≡ false = rw (e, a) refl in
              inr (inr a, written-IsHeld (reserve_stock-hold ∙ rw same refl))
          | inr a ↦
              let same : is_refused ≡ true = rw (e, a) refl in
              inl (ground arith, a, reserve_stock-hold ∙ rw same refl)
        ]
        | inr e ↦
            let same : is_refused ≡ false = rw e refl in
            inr (inl (ground arith), written-IsHeld (reserve_stock-hold ∙ rw same refl))
      ]

plus_neg : (x y : ℤ) → x +ℤ neg y ≡ x -ℤ y
plus_neg x y = omega int_laws

id_of : (i : ℕ) (r : Reservation) → has_id i r ≡ true → i ≡ r.id
id_of i r h = ground arith

-- An active reservation under an id that no other active one has, of a pair that has a row.
module _ (i now later : ℕ) (s : Stock) (r : Reservation) (b : Balance)
    (known : find (has_id i) s.reservations ≡ some r) (held : is_active r.status ≡ true)
    (only : length (keep (is_open r.id) s.reservations) ≡ 1)
    (found : find (is_row r.shop r.variant) s.balances ≡ some b) where
  abbrev given_back : Stock
  given_back = record s {
    reservations = update_where (is_open r.id) (close_row release now) s.reservations;
    balances = give_back release r s.balances;
  }

  its_id : i ≡ r.id
  its_id = id_of i r (find-some (has_id i) s.reservations r known)

  outside : (y : Reservation) → has_id i y ≡ false → is_open r.id y ≡ false
  outside y h = subst (λ j. is_open j y ≡ false) its_id (rw h refl)

  open_itself : is_open r.id r ≡ true
  open_itself = rw held (ground arith)

  find-given_back : find (has_id i) given_back.reservations ≡ some (close_row release now r)
  find-given_back =
      find-update_within (has_id i) (is_open r.id) (close_row release now) s.reservations r outside
        open_itself (find-some (has_id i) s.reservations r known) known

  first_release : release_reservation i now s ≡ (ok true, given_back)
  unfolding release_reservation close_reservation close_found close_active close_rows lock_balance
  first_release = rw (known, held, found, found, only) refl

  second_release : release_reservation i later given_back ≡ (ok false, given_back)
  unfolding release_reservation close_reservation close_found
  second_release = rw (find-given_back) refl

  open-has_id : (y : Reservation) → is_open r.id y ≡ true → not (has_id i y) ≡ false
  open-has_id y h = rw its_id (ground arith)

  find-lighter :
      find (is_row r.shop r.variant) given_back.balances
      ≡ some (record b { reserved = b.reserved -ℤ r.quantity })
  find-lighter =
      let row = is_row r.shop r.variant in
      let f = add_reserved (neg r.quantity) in
      subst (λ q. find row given_back.balances ≡ some (record b { reserved = q }))
        (plus_neg b.reserved r.quantity)
        (find-update_where row f s.balances b (find-some row s.balances b found) found)

  -- An active reservation, alone active under its id, of a pair that has a row. Its first release
  -- returns true; after it the reservation is released, at that time, the row of its pair holds
  -- back its quantity less and is otherwise as it was, and the reservations of other ids, the
  -- other rows and the movements stay. A second release returns false and changes nothing.
  pub release_reservation_twice :
      (s' : Stock) × (release_reservation i now s ≡ (ok true, s'))
      × (find (has_id i) s'.reservations
          ≡ some (record r { status = released; settled_at = some now }))
      × (find (is_row r.shop r.variant) s'.balances
          ≡ some (record b { reserved = b.reserved -ℤ r.quantity }))
      × (keep (λ y. not (has_id i y)) s'.reservations ≡ keep (λ y. not (has_id i y)) s.reservations)
      × (keep (λ y. not (is_row r.shop r.variant y)) s'.balances
          ≡ keep (λ y. not (is_row r.shop r.variant y)) s.balances)
      × (s'.movements ≡ s.movements)
      × (release_reservation i later s' ≡ (ok false, s'))
  release_reservation_twice =
      let row = is_row r.shop r.variant in
      (
        given_back,
        first_release,
        find-given_back,
        find-lighter,
        keep-update_where (λ y. not (has_id i y)) (is_open r.id) (close_row release now)
            s.reservations open-has_id (λ y. refl),
        keep-update_where (λ y. not (row y)) row (add_reserved (neg r.quantity)) s.balances
            (λ y e. rw e refl) (λ y. refl),
        refl,
        second_release,
      )
