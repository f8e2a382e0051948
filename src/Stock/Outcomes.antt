-- ===== src/Stock/Outcomes.antt =====
-- What `postStockMovement` answers without journals, and that a second post of a key changes nothing.
use trade_pal_africa.Base.{
  ℕ, Bool, true, false, ◌&&◌, ◌||◌, Option, none, some, List, ◌==◌, ◌≡◌, refl, arith, if◌then◌else◌,
  find, find-append_none, find-some, find-update_where, update_where, [], ◌∷◌, ◌++◌, any, Result,
  ok, err, ◌>>=◌, ◌>>◌, pure, throw_if, roll_back, ap, ◌∙◌,
}
use trade_pal_africa.Base.Int.{pos, ◌+ℤ◌, ◌-ℤ◌, max_ℤ, ◌==ℤ◌}
use trade_pal_africa.Stock.Rows.{
  MovementKey, same_movement_key, of_fulfilment, of_count, transfer_out, transfer_in_transit,
  of_receipt, of_adoption, of_legacy, caller_key, StockError, insufficient_stock, invalid, Balance,
  Movement, Stock, is_row,
}
use trade_pal_africa.Stock.Costing.{Costing, costing}
use trade_pal_africa.Stock.Journalling.{journal_movement_if_enabled}
use trade_pal_africa.Stock.Movements.{
  Move, find_by_key, new_movement, moved_balance, write_movement, has_movement_key, replayed_with,
  replay_movement, posted_with, currency_of, is_negative, requires_available, or_throw_result,
  check_buckets, record_movement, move_balance, post_new_movement, replay_or_post, post_movement_tx,
  post_stock_movement,
}

journal_off :
    (m : Movement) (currency : Option ℕ) → journal_movement_if_enabled false m currency ≡ pure tt
unfolding journal_movement_if_enabled
journal_off m none = refl
journal_off m (some k) = refl

-- A movement on a balance that is locked, without a journal.
record_movement_off :
    (i : Move) (b : Balance) (c : Costing) (s : Stock)
    → s.journals_enabled ≡ false
    → record_movement i b c s ≡ (ok (posted_with i b c s), write_movement i c b s)
unfolding record_movement
record_movement_off i b c s off = rw (off, journal_off (new_movement i c s) (currency_of i b)) refl

abbrev pub is_broken : Move → Balance → Bool
is_broken i b =
    is_negative (b.reserved -ℤ i.reserved_release)
    || is_negative (b.damaged +ℤ i.damaged_delta)
    || is_negative (b.in_transit +ℤ i.in_transit_delta)

abbrev pub is_short : Move → Balance → Bool
is_short i b =
    is_negative i.on_hand_delta
    && requires_available i.availability
    && is_negative ((b.on_hand +ℤ i.on_hand_delta) -ℤ (b.reserved -ℤ i.reserved_release))

abbrev pub shortage : Balance → StockError
shortage b = insufficient_stock (max_ℤ (pos 0) (b.on_hand -ℤ b.reserved))

guarded_movement :
    (i : Move) (b : Balance) (s : Stock) (c : Costing) (broken short : Bool)
    (r : Result StockError Costing)
    → broken ≡ false
    → r ≡ ok c
    → s.journals_enabled ≡ false
    → (throw_if broken invalid
          >> throw_if short (shortage b)
          >> (or_throw_result r >>= record_movement i b))
        s
      ≡ (if short
          then (err (shortage b), s)
          else (ok (posted_with i b c s), write_movement i c b s))
guarded_movement i b s c broken true r eb er off = rw (eb) refl
guarded_movement i b s c broken false r eb er off = rw (eb, er) (record_movement_off i b c s off)

move_balance_outcome :
    (i : Move) (b : Balance) (s : Stock) (c : Costing)
    → is_broken i b ≡ false
    → costing b i.on_hand_delta i.damaged_delta i.unit_cost ≡ ok c
    → s.journals_enabled ≡ false
    → move_balance i b s ≡ (
        if is_short i b
        then (err (shortage b), s)
        else (ok (posted_with i b c s), write_movement i c b s))
unfolding move_balance check_buckets
move_balance_outcome i b s c eb er off =
    guarded_movement i b s c (is_broken i b) (is_short i b)
      (costing b i.on_hand_delta i.damaged_delta i.unit_cost) eb er off

post_new_movement_outcome :
    (i : Move) (b : Balance) (s : Stock)
    → any (λ x. x == i.shop) s.shops ≡ true
    → any (λ x. x == i.variant) s.variants ≡ true
    → find (is_row i.shop i.variant) s.balances ≡ some b
    → post_new_movement i s ≡ move_balance i b s
unfolding post_new_movement
post_new_movement_outcome i b s shop_known variant_known found =
    rw (shop_known, variant_known, found, found) refl

undone :
    {A : Type 0} (short : Bool) (e : StockError) (a : A) (s s' : Stock)
    → roll_back s (if short then (err e, s) else (ok a, s'))
      ≡ (if short then (err e, s) else (ok a, s'))
undone true e a s s' = refl
undone false e a s s' = refl

abbrev pub is_nothing : Move → Bool
is_nothing i =
    i.on_hand_delta ==ℤ pos 0 && (i.damaged_delta ==ℤ pos 0 && i.in_transit_delta ==ℤ pos 0)

post_movement_tx_outcome :
    (i : Move) (s : Stock)
    → is_nothing i ≡ false
    → find_by_key i.key s.movements ≡ none
    → post_movement_tx i s ≡ post_new_movement i s
unfolding post_movement_tx replay_or_post
post_movement_tx_outcome i s something fresh = rw (something, fresh) refl

pub post_stock_movement_outcome :
    (i : Move) (b : Balance) (s : Stock) (c : Costing)
    → is_nothing i ≡ false
    → find_by_key i.key s.movements ≡ none
    → any (λ x. x == i.shop) s.shops ≡ true
    → any (λ x. x == i.variant) s.variants ≡ true
    → find (is_row i.shop i.variant) s.balances ≡ some b
    → is_broken i b ≡ false
    → costing b i.on_hand_delta i.damaged_delta i.unit_cost ≡ ok c
    → s.journals_enabled ≡ false
    → post_stock_movement i s ≡ (
        if is_short i b
        then (err (shortage b), s)
        else (ok (posted_with i b c s), write_movement i c b s))
unfolding post_stock_movement
post_stock_movement_outcome i b s c something fresh shop_known variant_known found unbroken cost
      off =
    ap (roll_back s) (
      post_movement_tx_outcome i s something fresh
      ∙ post_new_movement_outcome i b s shop_known variant_known found
      ∙ move_balance_outcome i b s c unbroken cost off)
    ∙ undone (is_short i b) (shortage b) (posted_with i b c s) s (write_movement i c b s)

same_movement_key_refl : (k : MovementKey) → same_movement_key k k ≡ true
same_movement_key_refl (of_fulfilment i q) = ground arith
same_movement_key_refl (of_count i j) = ground arith
same_movement_key_refl (transfer_out i j) = ground arith
same_movement_key_refl (transfer_in_transit i j) = ground arith
same_movement_key_refl (of_receipt i j) = ground arith
same_movement_key_refl (of_adoption i) = ground arith
same_movement_key_refl (of_legacy i) = ground arith
same_movement_key_refl (caller_key i) = ground arith

find-moved :
    (i : Move) (c : Costing) (bs : List Balance) (b : Balance)
    → find (is_row i.shop i.variant) bs ≡ some b
    → find (is_row i.shop i.variant) (update_where (is_row i.shop i.variant) (moved_balance i c) bs)
      ≡ some (moved_balance i c b)
find-moved i c bs b h =
    find-update_where (is_row i.shop i.variant) (moved_balance i c) bs b
      (find-some (is_row i.shop i.variant) bs b h) h

keyed :
    (i : Move) (k : MovementKey) (c : Costing) (s : Stock)
    → i.key ≡ some k
    → has_movement_key k (new_movement i c s) ≡ true
keyed i k c s e = rw (e, same_movement_key_refl k) refl

find_by_key-append :
    (o : Option MovementKey) (k : MovementKey) (ms : List Movement) (m : Movement)
    → o ≡ some k
    → has_movement_key k m ≡ true
    → find_by_key o ms ≡ none
    → find_by_key o (ms ++ m ∷ []) ≡ some m
find_by_key-append o k ms m e hit fresh =
    rw e (find-append_none (has_movement_key k) ms (m ∷ []) (rw e at fresh) ∙ rw hit refl)

-- A movement that changes something and was written, under a key that was free and on a row that was
-- there, is answered when it is posted again: with the same movement and the balance as it then
-- stands, marked as a replay, and nothing is written.
pub post_stock_movement_replayed :
    (i : Move) (k : MovementKey) (c : Costing) (b : Balance) (s : Stock)
    → i.key ≡ some k
    → is_nothing i ≡ false
    → find_by_key i.key s.movements ≡ none
    → find (is_row i.shop i.variant) s.balances ≡ some b
    → post_stock_movement i (write_movement i c b s)
      ≡ (ok (replayed_with (new_movement i c s) (moved_balance i c b)), write_movement i c b s)
unfolding post_stock_movement post_movement_tx replay_or_post replay_movement
post_stock_movement_replayed i k c b s e something fresh found =
    rw
      (
        something,
        find_by_key-append i.key k s.movements (new_movement i c s) e (keyed i k c s e) fresh,
        find-moved i c s.balances b found,
      )
      refl
