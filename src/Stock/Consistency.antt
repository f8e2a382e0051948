-- ===== src/Stock/Consistency.antt =====
-- The balances agree with the movements after any requests, so that `reconcileStock` has nothing to
-- say on the three buckets that movements change.
use trade_pal_africa.Base.{
  ℕ, List, [], ◌∷◌, ◌≡◌, refl, inl, inr, Option-cases, Bool-cases, find, find-some, find-All,
  or_else, All, All-append, sym, ◌∙◌,
}
use trade_pal_africa.Base.Int.{pos, ◌==ℤ◌, ==ℤ_iff}
use trade_pal_africa.Stock.Rows.{
  set_stock_policy, Balance, Movement, Stock, is_row, new_row, get_stock_level,
}
use trade_pal_africa.Stock.Reconciling.{
  StockField, on_hand_field, damaged_field, in_transit_field, reserved_field, StockMismatch,
  check_field, check_row, check_rows, level_of, expected_of, reconcile_stock,
}
use trade_pal_africa.Stock.Tally.{
  IsTallied, Bucket, on_hand_bucket, damaged_bucket, in_transit_bucket, bucket, moved, RowTallied,
  same_row, new_bucket,
}
use trade_pal_africa.Stock.MovementTally.{Tallied, post_stock_movement-Tallied}
use trade_pal_africa.Stock.EverydayTally.{
  receive_stock-Tallied, record_opening_balance-Tallied, fulfil_sale-Tallied,
  record_spoilage-Tallied, record_owner_withdrawal-Tallied, quarantine_stock-Tallied,
  write_off_quarantined-Tallied, restock_return-Tallied, reverse_stock_movement-Tallied,
}
use trade_pal_africa.Stock.HoldTally.{
  reserve_stock-Tallied, release_reservation-Tallied, expire_reservations-Tallied,
  extend_reservation-Tallied, fulfil_reservation-Tallied,
}
use trade_pal_africa.Stock.Requests.{
  Request, movement, receive, opening, sale, spoilt, withdrawal, quarantine, write_off, restock,
  reverse, reserve, release, expiry, extend, fulfil, policy_change, count_open, count_cancel,
  count_line, count_reason, count_approve, transfer, transfer_dispatch, transfer_cancel,
  transfer_receive, adoption, mirror, serve, serve_all,
}
use trade_pal_africa.Stock.CountTally.{
  open_stock_count-Tallied, cancel_stock_count-Tallied, record_count_line-Tallied,
  set_count_line_reason-Tallied, approve_stock_count-Tallied, create_transfer-Tallied,
  dispatch_transfer-Tallied, cancel_transfer-Tallied, receive_transfer-Tallied,
  post_adoption_opening-Tallied, mirror_legacy_movement-Tallied,
}

serve-Tallied : (r : Request) (s : Stock) → Tallied s → Tallied (serve r s)
unfolding serve set_stock_policy
serve-Tallied (movement i) s = post_stock_movement-Tallied i s
serve-Tallied (receive c) s = receive_stock-Tallied c s
serve-Tallied (opening c) s = record_opening_balance-Tallied c s
serve-Tallied (sale c require approved) s = fulfil_sale-Tallied c require approved s
serve-Tallied (spoilt c) s = record_spoilage-Tallied c s
serve-Tallied (withdrawal c) s = record_owner_withdrawal-Tallied c s
serve-Tallied (quarantine c) s = quarantine_stock-Tallied c s
serve-Tallied (write_off c) s = write_off_quarantined-Tallied c s
serve-Tallied (restock c) s = restock_return-Tallied c s
serve-Tallied (reverse i) s = reverse_stock_movement-Tallied i s
serve-Tallied (reserve i) s = reserve_stock-Tallied i s
serve-Tallied (release i now) s = release_reservation-Tallied i now s
serve-Tallied (expiry due now) s = expire_reservations-Tallied due now s
serve-Tallied (extend i at) s = extend_reservation-Tallied i at s
serve-Tallied (fulfil i o) s = fulfil_reservation-Tallied i o s
serve-Tallied (policy_change c) s = λ t. t
serve-Tallied (count_open shop) s = open_stock_count-Tallied shop s
serve-Tallied (count_cancel i) s = cancel_stock_count-Tallied i s
serve-Tallied (count_line i variant counted reason) s =
    record_count_line-Tallied i variant counted reason s
serve-Tallied (count_reason i variant reason) s = set_count_line_reason-Tallied i variant reason s
serve-Tallied (count_approve i currency) s = approve_stock_count-Tallied i currency s
serve-Tallied (transfer from to ls) s = create_transfer-Tallied from to ls s
serve-Tallied (transfer_dispatch i) s = dispatch_transfer-Tallied i s
serve-Tallied (transfer_cancel i) s = cancel_transfer-Tallied i s
serve-Tallied (transfer_receive i rs currency) s = receive_transfer-Tallied i rs currency s
serve-Tallied (adoption shop variant item estimate) s =
    post_adoption_opening-Tallied shop variant item estimate s
serve-Tallied (mirror enabled shop vs m) s = mirror_legacy_movement-Tallied enabled shop vs m s

pub serve_all-Tallied : (rs : List Request) (s : Stock) → Tallied s → Tallied (serve_all rs s)
unfolding serve_all
serve_all-Tallied [] s t = t
serve_all-Tallied (r ∷ rs) s t = serve_all-Tallied rs (serve r s) (serve-Tallied r s t)

unmoved : (k : Bucket) (shop variant : ℕ) → moved k shop variant [] ≡ pos 0
unfolding moved
unmoved k shop variant = refl

empty-Tallied : (s : Stock) → s.balances ≡ [] → s.movements ≡ [] → Tallied s
empty-Tallied s eb em =
    rw (eb, em) (record { rows = λ k. tt; missing = λ k shop variant _. unmoved k shop variant })

row_sums :
    (k : Bucket) (bs : List Balance) (ms : List Movement) (shop variant : ℕ)
    → IsTallied bs ms
    → bucket k (or_else (find (is_row shop variant) bs) (new_row shop variant))
      ≡ moved k shop variant ms
row_sums k bs ms shop variant t = elim (Option-cases (find (is_row shop variant) bs)) [
  | inl e ↦ rw e (new_bucket k shop variant ∙ sym (t.missing k shop variant e))
  | inr (b, e) ↦
      let at = same_row shop variant b (find-some (is_row shop variant) bs b e) in
      rw (e, sym at.0, sym at.1)
        (find-All (RowTallied k ms) (is_row shop variant) bs b (t.rows k) e)
]

level_sums :
    (s : Stock) (shop variant : ℕ)
    → Tallied s
    → ((get_stock_level s shop variant).on_hand ≡ expected_of on_hand_field s shop variant)
      × ((get_stock_level s shop variant).damaged ≡ expected_of damaged_field s shop variant)
      × ((get_stock_level s shop variant).in_transit ≡ expected_of in_transit_field s shop variant)
unfolding get_stock_level moved
level_sums s shop variant t = (
  row_sums on_hand_bucket s.balances s.movements shop variant t,
  row_sums damaged_bucket s.balances s.movements shop variant t,
  row_sums in_transit_bucket s.balances s.movements shop variant t,
)

-- From a business without stock rows, and whatever requests follow, in whatever order, those that
-- throw included: the level of every pair of shop and variant, zero without a row, is what its
-- movements add up to, in all three buckets.
pub get_stock_level_sums :
    (rs : List Request) (s : Stock)
    → s.balances ≡ []
    → s.movements ≡ []
    → (shop variant : ℕ)
    → ((get_stock_level (serve_all rs s) shop variant).on_hand
        ≡ expected_of on_hand_field (serve_all rs s) shop variant)
      × ((get_stock_level (serve_all rs s) shop variant).damaged
          ≡ expected_of damaged_field (serve_all rs s) shop variant)
      × ((get_stock_level (serve_all rs s) shop variant).in_transit
          ≡ expected_of in_transit_field (serve_all rs s) shop variant)
get_stock_level_sums rs s eb em shop variant =
    level_sums (serve_all rs s) shop variant (serve_all-Tallied rs s (empty-Tallied s eb em))

abbrev OnHolds : List StockMismatch → Type 0
OnHolds ms = All (λ (m : StockMismatch). m.field ≡ reserved_field) ms

agreed :
    (s : Stock) (b : Balance) (f : StockField)
    → level_of f b ≡ expected_of f s b.shop b.variant
    → check_field s b f ≡ []
agreed s b f e = rw (e, (==ℤ_iff _ _).1 refl) refl

hold_check : (s : Stock) (b : Balance) → OnHolds (check_field s b reserved_field)
hold_check s b = elim (Bool-cases (b.reserved ==ℤ expected_of reserved_field s b.shop b.variant)) [
  | inl e ↦ rw e tt
  | inr e ↦ rw e (refl, tt)
]

checked_row :
    (s : Stock) (b : Balance)
    → ((k : Bucket) → RowTallied k s.movements b)
    → OnHolds (check_row s b)
unfolding moved
checked_row s b h =
    rw
      (
        agreed s b on_hand_field (h on_hand_bucket),
        agreed s b damaged_field (h damaged_bucket),
        agreed s b in_transit_field (h in_transit_bucket),
      )
      (hold_check s b)

checked_rows :
    (s : Stock) (bs : List Balance)
    → ((k : Bucket) → All (RowTallied k s.movements) bs)
    → OnHolds (check_rows s bs)
checked_rows s [] h = tt
checked_rows s (b ∷ bs) h =
    All-append (λ (m : StockMismatch). m.field ≡ reserved_field) (check_row s b) (check_rows s bs)
      (checked_row s b (λ k. (h k).0)) (checked_rows s bs (λ k. (h k).1))

-- From a business without stock rows, and whatever requests follow, `reconcileStock` reports no
-- mismatch of the units on hand, quarantined or in transit.
pub reconcile_stock_reports :
    (rs : List Request) (s : Stock)
    → s.balances ≡ []
    → s.movements ≡ []
    → All (λ (m : StockMismatch). m.field ≡ reserved_field) (reconcile_stock (serve_all rs s))
unfolding reconcile_stock
reconcile_stock_reports rs s eb em =
    checked_rows (serve_all rs s) (serve_all rs s).balances
      ((serve_all-Tallied rs s (empty-Tallied s eb em)).rows)
