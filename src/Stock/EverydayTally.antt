-- ===== src/Stock/EverydayTally.antt =====
-- The everyday movements keep the balances in agreement with the movements.
use trade_pal_africa.Base.{
  ℕ, Bool, Option, none, some, Call, ◌>>=◌, ◌>>◌, throw_if, or_throw, Preserves, Preserves-guard,
  guard-holds,
}
use trade_pal_africa.Stock.Rows.{StockError, not_found, Movement, Stock}
use trade_pal_africa.Stock.Everyday.{
  Common, receive_stock, record_opening_balance, fulfil_sale, record_spoilage,
  record_owner_withdrawal, quarantine_stock, write_off_quarantined, restock_return,
  replay_or_reverse, reverse_one, reverse_stock_movement, reversing_move,
}
use trade_pal_africa.Stock.MovementTally.{
  Tallied, replay_movement-Tallied, post_stock_movement-Tallied,
}

guard-Tallied :
    {A : Type 0} (c : Bool) (e : StockError) (m : Call Stock StockError A)
    → Preserves Tallied m
    → Preserves Tallied (throw_if c e >> m)
guard-Tallied = Preserves-guard Tallied

ruleset tallying = (guard-Tallied, post_stock_movement-Tallied)

pub receive_stock-Tallied : (c : Common) → Preserves Tallied (receive_stock c)
unfolding receive_stock
receive_stock-Tallied c = search tallying

pub record_opening_balance-Tallied : (c : Common) → Preserves Tallied (record_opening_balance c)
unfolding record_opening_balance
record_opening_balance-Tallied c = search tallying

pub fulfil_sale-Tallied :
    (c : Common) (require : Option Bool) (approved : Bool)
    → Preserves Tallied (fulfil_sale c require approved)
unfolding fulfil_sale
fulfil_sale-Tallied c require approved s t =
    search (guard-holds Tallied, post_stock_movement-Tallied)

pub record_spoilage-Tallied : (c : Common) → Preserves Tallied (record_spoilage c)
unfolding record_spoilage
record_spoilage-Tallied c = search tallying

pub record_owner_withdrawal-Tallied : (c : Common) → Preserves Tallied (record_owner_withdrawal c)
unfolding record_owner_withdrawal
record_owner_withdrawal-Tallied c = search tallying

pub quarantine_stock-Tallied : (c : Common) → Preserves Tallied (quarantine_stock c)
unfolding quarantine_stock
quarantine_stock-Tallied c = search tallying

pub write_off_quarantined-Tallied : (c : Common) → Preserves Tallied (write_off_quarantined c)
unfolding write_off_quarantined
write_off_quarantined-Tallied c = search tallying

pub restock_return-Tallied : (c : Common) → Preserves Tallied (restock_return c)
unfolding restock_return
restock_return-Tallied c = search tallying

replay_or_reverse-Tallied :
    (m : Movement) (existing : Option Movement) → Preserves Tallied (replay_or_reverse m existing)
unfolding replay_or_reverse
replay_or_reverse-Tallied m (some e) = replay_movement-Tallied e
replay_or_reverse-Tallied m none = post_stock_movement-Tallied (reversing_move m)

reverse_found-Tallied :
    (movement_id : ℕ) (s : Stock) (found : Option Movement)
    → Tallied s
    → Tallied ((or_throw found not_found >>= reverse_one) s).1
unfolding reverse_one
reverse_found-Tallied movement_id s none t = t
reverse_found-Tallied movement_id s (some m) t =
    search (guard-holds Tallied, replay_or_reverse-Tallied)

pub reverse_stock_movement-Tallied : (i : ℕ) → Preserves Tallied (reverse_stock_movement i)
unfolding reverse_stock_movement
reverse_stock_movement-Tallied i s t = search reverse_found-Tallied
