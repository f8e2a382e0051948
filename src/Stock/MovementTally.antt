-- ===== src/Stock/MovementTally.antt =====
-- Every movement keeps the balances in agreement with the movements.
use trade_pal_africa.Base.{
  Call, Bool, true, false, Option, none, some, ◌≡◌, refl, find, Result, ok, err, ◌>>=◌, ◌>>◌, pure,
  resume, throw_if, or_throw, modify, Leads, Preserves, guard-holds, Preserves-transaction,
}
use trade_pal_africa.Base.Int.{◌+ℤ◌}
use trade_pal_africa.Accounting.Books.{Books, JournalError}
use trade_pal_africa.Stock.Rows.{
  StockError, not_found, Balance, Movement, Stock, is_row, lift_result, on_books,
}
use trade_pal_africa.Stock.Costing.{Costing}
use trade_pal_africa.Stock.Journalling.{journal_movement_if_enabled}
use trade_pal_africa.Stock.Movements.{
  currency_of, replayed_with, Move, ensure_row, new_movement, moved_balance, write_movement,
  or_throw_result, check_buckets, record_movement, move_balance, replay_movement, post_new_movement,
  replay_or_post, post_movement_tx, post_stock_movement,
}
use trade_pal_africa.Stock.Tally.{
  IsTallied, ensure_row-IsTallied, write-IsTallied, on_hand_bucket, damaged_bucket,
  in_transit_bucket, Bucket, bucket, delta,
}

abbrev pub Tallied : Stock → Type 0
Tallied s = IsTallied s.balances s.movements

abbrev Locked : Move → Balance → Stock → Type 0
Locked i b s = Tallied s × (find (is_row i.shop i.variant) s.balances ≡ some b)

adds :
    (i : Move) (c : Costing) (s : Stock) (k : Bucket) (x : Balance)
    → bucket k (moved_balance i c x) ≡ bucket k x +ℤ delta k (new_movement i c s)
adds i c s on_hand_bucket x = refl
adds i c s damaged_bucket x = refl
adds i c s in_transit_bucket x = refl

write_movement-Tallied :
    (i : Move) (c : Costing) (b : Balance)
    → Leads {E = StockError} (Locked i b) Tallied (modify (write_movement i c b))
write_movement-Tallied i c b s h =
    write-IsTallied (new_movement i c s) (moved_balance i c) (λ x. (refl, refl)) (adds i c s)
      s.balances s.movements b h.1 h.0

lifted-Tallied :
    {A : Type 0} (s : Stock) (r : Result JournalError A × Books)
    → Tallied s
    → Tallied (lift_result s r).1
lifted-Tallied s (ok a, b) t = t
lifted-Tallied s (err e, b) t = t

pub on_books-Tallied : {A : Type 0} (m : Call Books JournalError A) → Preserves Tallied (on_books m)
on_books-Tallied m s t = lifted-Tallied s (m s.books) t

journal-Tallied :
    {A B : Type 0} (s : Stock) (r : Result JournalError A × Books) (x : B)
    → Tallied s
    → Tallied (resume (λ _. pure x) (lift_result s r)).1
journal-Tallied s (ok a, b) x t = t
journal-Tallied s (err e, b) x t = t

record_movement-Tallied :
    (i : Move) (b : Balance) (c : Costing) → Leads (Locked i b) Tallied (record_movement i b c)
unfolding record_movement
record_movement-Tallied i b c s h =
    journal-Tallied (write_movement i c b s)
      (journal_movement_if_enabled s.journals_enabled (new_movement i c s) (currency_of i b)
        s.books)
      (record { movement = new_movement i c s; balance = moved_balance i c b; replayed = false })
      (write_movement-Tallied i c b s h)

cost_and_record-Tallied :
    (i : Move) (b : Balance) (r : Result StockError Costing)
    → Leads (Locked i b) Tallied (or_throw_result r >>= record_movement i b)
cost_and_record-Tallied i b (ok c) s h = record_movement-Tallied i b c s h
cost_and_record-Tallied i b (err e) s h = h.0

check_and_record-Tallied :
    (i : Move) (b : Balance) (broken short : Bool) (e e' : StockError)
    (r : Result StockError Costing)
    → Leads
        (Locked i b)
        Tallied
        (throw_if broken e >> throw_if short e' >> (or_throw_result r >>= record_movement i b))
check_and_record-Tallied i b true short e e' r s h = h.0
check_and_record-Tallied i b false true e e' r s h = h.0
check_and_record-Tallied i b false false e e' r s h = cost_and_record-Tallied i b r s h

move_balance-Tallied : (i : Move) (b : Balance) → Leads (Locked i b) Tallied (move_balance i b)
unfolding move_balance check_buckets
move_balance-Tallied i b s h = check_and_record-Tallied i b _ _ _ _ _ s h

lock_and_move-Tallied :
    (i : Move) (s : Stock) (row : Option Balance)
    → find (is_row i.shop i.variant) s.balances ≡ row
    → Tallied s
    → Tallied ((or_throw row not_found >>= move_balance i) s).1
lock_and_move-Tallied i s none e t = t
lock_and_move-Tallied i s (some b) e t = move_balance-Tallied i b s (t, e)

lock_row-Tallied :
    (i : Move) (s : Stock)
    → Tallied s
    → Tallied
        ((or_throw
              (find (is_row i.shop i.variant) (ensure_row i.shop i.variant s.balances))
              not_found
            >>= move_balance i)
          (record s { balances = ensure_row i.shop i.variant s.balances })).1
lock_row-Tallied i s t =
    lock_and_move-Tallied i (record s { balances = ensure_row i.shop i.variant s.balances })
      (find (is_row i.shop i.variant) (ensure_row i.shop i.variant s.balances)) refl
      (ensure_row-IsTallied i.shop i.variant s.balances s.movements t)

post_new_movement-Tallied : (i : Move) → Preserves Tallied (post_new_movement i)
unfolding post_new_movement
post_new_movement-Tallied i s t = search (guard-holds Tallied, lock_row-Tallied i s t, t)

replay_row-Tallied :
    (m : Movement) (s : Stock) (row : Option Balance)
    → Tallied s
    → Tallied ((or_throw row not_found >>= λ b. pure (replayed_with m b)) s).1
replay_row-Tallied m s none t = t
replay_row-Tallied m s (some b) t = t

pub replay_movement-Tallied : (m : Movement) → Preserves Tallied (replay_movement m)
unfolding replay_movement
replay_movement-Tallied m s t = replay_row-Tallied m s (find (is_row m.shop m.variant) s.balances) t

pub replay_or_post-Tallied :
    (i : Move) (existing : Option Movement) → Preserves Tallied (replay_or_post i existing)
unfolding replay_or_post
replay_or_post-Tallied i none = post_new_movement-Tallied i
replay_or_post-Tallied i (some m) = replay_movement-Tallied m

pub post_movement_tx-Tallied : (i : Move) → Preserves Tallied (post_movement_tx i)
unfolding post_movement_tx
post_movement_tx-Tallied i s t = search (guard-holds Tallied, replay_or_post-Tallied)

pub post_stock_movement-Tallied : (i : Move) → Preserves Tallied (post_stock_movement i)
unfolding post_stock_movement
post_stock_movement-Tallied i = Preserves-transaction Tallied _ (post_movement_tx-Tallied i)
