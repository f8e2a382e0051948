-- ===== src/Stock/CountTally.antt =====
-- Stock counts, transfers and the legacy bridge keep the balances in agreement with the movements.
use trade_pal_africa.Base.{
  ℕ, ◌+◌, Bool, true, false, ◌&&◌, not, Option, none, some, List, [], ◌∷◌, if◌then◌else◌, Call,
  ◌>>=◌, ◌>>◌, pure, throw_if, or_throw, Preserves, Preserves-bind, Preserves-guard,
  Preserves-or_throw, Preserves-transaction,
}
use trade_pal_africa.Stock.Rows.{
  Reason, CountLine, CountStatus, StockError, Stock, StockCount, StockTransfer, TransferLine,
  TransferStatus,
}
use trade_pal_africa.Stock.Movements.{post_stock_movement}
use trade_pal_africa.Stock.MovementTally.{
  Tallied, post_movement_tx-Tallied, post_stock_movement-Tallied,
}
use trade_pal_africa.Stock.Counts.{
  open_stock_count, open_count, record_count_line, set_count_line_reason, adjust_each,
  adjusting_move, close_count, approve_stock_count, cancel_stock_count,
}
use trade_pal_africa.Base.Int.{ℤ, pos, ◌*ℤ◌, ltb_ℤ, ◌==ℤ◌}
use trade_pal_africa.Base.{inl, inr, Bool-cases, ◌||◌}
use trade_pal_africa.Stock.Rows.{draft}
use trade_pal_africa.Stock.MovementTally.{on_books-Tallied}
use trade_pal_africa.Stock.Transfers.{
  shortfall_common, Sending, all_positive, create_transfer, find_transfer, claim_transfer,
  dispatch_each, dispatch_body, dispatch_transfer, check_received, write_off_shortfall,
  receive_each, receive_body, receive_transfer, cancel_transfer,
}
use trade_pal_africa.Accounting.Rules.{shrinkage, post_stock_write_down}
use trade_pal_africa.Stock.Journalling.{ignore}
use trade_pal_africa.Stock.Legacy.{
  LegacyVariant, LegacyMovement, adopting_move, post_adoption_opening, mirroring_move, mirror_to,
  mirror_legacy_movement,
}

bind-Tallied :
    {A B : Type 0} (m : Call Stock StockError A) (f : A → Call Stock StockError B)
    → Preserves Tallied m
    → ((a : A) → Preserves Tallied (f a))
    → Preserves Tallied (m >>= f)
bind-Tallied = Preserves-bind Tallied

guard-Tallied :
    {A : Type 0} (c : Bool) (e : StockError) (m : Call Stock StockError A)
    → Preserves Tallied m
    → Preserves Tallied (throw_if c e >> m)
guard-Tallied = Preserves-guard Tallied

or_throw-Tallied : {A : Type 0} (o : Option A) (e : StockError) → Preserves Tallied (or_throw o e)
or_throw-Tallied = Preserves-or_throw Tallied

ruleset tallying = (bind-Tallied, guard-Tallied, or_throw-Tallied)

open_count-Tallied : (i : ℕ) → Preserves Tallied (open_count i)
unfolding open_count
open_count-Tallied i = search tallying

adjust_each-Tallied :
    (c : StockCount) (currency : Option ℕ) (ls : List CountLine) (n : ℕ)
    → Preserves Tallied (adjust_each c currency ls n)
unfolding adjust_each
adjust_each-Tallied c currency [] n = λ s t. t
adjust_each-Tallied c currency (l ∷ ls) n =
    bind-Tallied (post_stock_movement (adjusting_move c currency l))
      (λ result. adjust_each c currency ls (if result.replayed then n else n + 1))
      (post_stock_movement-Tallied (adjusting_move c currency l))
      (λ result. adjust_each-Tallied c currency ls (if result.replayed then n else n + 1))

close_count-Tallied : (i : ℕ) (to : CountStatus) → Preserves Tallied (close_count i to)
unfolding close_count
close_count-Tallied i to s t = t

pub open_stock_count-Tallied : (shop : ℕ) → Preserves Tallied (open_stock_count shop)
unfolding open_stock_count
open_stock_count-Tallied shop s t = t

pub record_count_line-Tallied :
    (i variant : ℕ) (counted : ℤ) (reason : Option Reason)
    → Preserves Tallied (record_count_line i variant counted reason)
unfolding record_count_line
record_count_line-Tallied i variant counted reason = search (tallying, open_count-Tallied)

pub set_count_line_reason-Tallied :
    (i variant : ℕ) (reason : Reason) → Preserves Tallied (set_count_line_reason i variant reason)
unfolding set_count_line_reason
set_count_line_reason-Tallied i variant reason = search (tallying, open_count-Tallied)

pub approve_stock_count-Tallied :
    (i : ℕ) (currency : Option ℕ) → Preserves Tallied (approve_stock_count i currency)
unfolding approve_stock_count
approve_stock_count-Tallied i currency =
    search (tallying, open_count-Tallied, adjust_each-Tallied, close_count-Tallied)

pub cancel_stock_count-Tallied : (i : ℕ) → Preserves Tallied (cancel_stock_count i)
unfolding cancel_stock_count
cancel_stock_count-Tallied i = close_count-Tallied i CountStatus.cancelled

all_positive-Tallied : (ls : List Sending) → Preserves Tallied (all_positive ls)
unfolding all_positive
all_positive-Tallied [] = λ s t. t
all_positive-Tallied (l ∷ ls) = search (tallying, all_positive-Tallied ls)

pub create_transfer-Tallied :
    (a b : ℕ) (ls : List Sending) → Preserves Tallied (create_transfer a b ls)
unfolding create_transfer
create_transfer-Tallied a b ls = search (tallying, all_positive-Tallied)

find_transfer-Tallied : (i : ℕ) (st : TransferStatus) → Preserves Tallied (find_transfer i st)
unfolding find_transfer
find_transfer-Tallied i st = search tallying

claim_transfer-Tallied : (i : ℕ) (a b : TransferStatus) → Preserves Tallied (claim_transfer i a b)
unfolding claim_transfer
claim_transfer-Tallied i a b s t = t

dispatch_each-Tallied :
    (t : StockTransfer) (ls : List TransferLine) → Preserves Tallied (dispatch_each t ls)
unfolding dispatch_each
dispatch_each-Tallied t [] = λ s h. h
dispatch_each-Tallied t (l ∷ ls) =
    search (tallying, post_movement_tx-Tallied, dispatch_each-Tallied t ls)

dispatch_body-Tallied : (i : ℕ) → Preserves Tallied (dispatch_body i)
dispatch_body-Tallied i =
    search (tallying, find_transfer-Tallied, claim_transfer-Tallied, dispatch_each-Tallied)

pub dispatch_transfer-Tallied : (i : ℕ) → Preserves Tallied (dispatch_transfer i)
unfolding dispatch_transfer
dispatch_transfer-Tallied i =
    Preserves-transaction Tallied (dispatch_body i) (dispatch_body-Tallied i)

check_received-Tallied :
    (rs : List Sending) (ls : List TransferLine) → Preserves Tallied (check_received rs ls)
unfolding check_received
check_received-Tallied rs [] = λ s h. h
check_received-Tallied rs (l ∷ ls) = search (tallying, check_received-Tallied rs ls)

write_off_shortfall-Tallied :
    (enabled : Bool) (currency : Option ℕ) (cost : Option ℤ) (t : StockTransfer) (l : TransferLine)
    (x : ℤ)
    → Preserves Tallied (write_off_shortfall enabled currency cost t l x)
unfolding write_off_shortfall
write_off_shortfall-Tallied false currency cost t l x = λ s h. h
write_off_shortfall-Tallied true none cost t l x = λ s h. h
write_off_shortfall-Tallied true (some k) none t l x = λ s h. h
write_off_shortfall-Tallied true (some k) (some c) t l x =
    elim (Bool-cases (ltb_ℤ (pos 0) x && ltb_ℤ (pos 0) c)) [
      | inl e ↦ rw e (
          on_books-Tallied
            (ignore (post_stock_write_down (shortfall_common t l k) (c *ℤ x) shrinkage)))
      | inr e ↦ rw e (λ s h. h)
    ]

receive_each-Tallied :
    (t : StockTransfer) (rs : List Sending) (currency : Option ℕ) (ls : List TransferLine)
    → Preserves Tallied (receive_each t rs currency ls)
unfolding receive_each
receive_each-Tallied t rs currency [] = λ s h. h
receive_each-Tallied t rs currency (l ∷ ls) = search (
  tallying,
  post_movement_tx-Tallied,
  write_off_shortfall-Tallied,
  receive_each-Tallied t rs currency ls,
)

receive_body-Tallied :
    (i : ℕ) (rs : List Sending) (currency : Option ℕ)
    → Preserves Tallied (receive_body i rs currency)
receive_body-Tallied i rs currency = search (
  tallying, find_transfer-Tallied, check_received-Tallied, claim_transfer-Tallied,
  receive_each-Tallied,
)

pub receive_transfer-Tallied :
    (i : ℕ) (rs : List Sending) (currency : Option ℕ)
    → Preserves Tallied (receive_transfer i rs currency)
unfolding receive_transfer
receive_transfer-Tallied i rs currency =
    Preserves-transaction Tallied (receive_body i rs currency) (receive_body-Tallied i rs currency)

pub cancel_transfer-Tallied : (i : ℕ) → Preserves Tallied (cancel_transfer i)
unfolding cancel_transfer
cancel_transfer-Tallied i = claim_transfer-Tallied i draft TransferStatus.cancelled

pub post_adoption_opening-Tallied :
    (shop variant item : ℕ) (estimate : ℤ)
    → Preserves Tallied (post_adoption_opening shop variant item estimate)
unfolding post_adoption_opening
post_adoption_opening-Tallied shop variant item estimate s t =
    elim (Bool-cases (estimate ==ℤ pos 0)) [
      | inl e ↦ rw e t
      | inr e ↦ rw e (
          bind-Tallied (post_stock_movement (adopting_move shop variant item estimate))
            (λ _. pure true)
            (post_stock_movement-Tallied (adopting_move shop variant item estimate)) (λ _ s h. h) s
            t)
    ]

mirror_to-Tallied :
    (shop : ℕ) (m : LegacyMovement) (found : Option LegacyVariant) (s : Stock)
    → Tallied s
    → Tallied (mirror_to shop m found s)
unfolding mirror_to
mirror_to-Tallied shop m none s t = t
mirror_to-Tallied shop m (some v) s t = elim (Bool-cases (not v.track_stock || m.delta ==ℤ pos 0)) [
  | inl e ↦ rw e t
  | inr e ↦ rw e (post_stock_movement-Tallied (mirroring_move shop v.id m) s t)
]

pub mirror_legacy_movement-Tallied :
    (enabled : Bool) (shop : ℕ) (vs : List LegacyVariant) (m : LegacyMovement) (s : Stock)
    → Tallied s
    → Tallied (mirror_legacy_movement enabled shop vs m s)
unfolding mirror_legacy_movement
mirror_legacy_movement-Tallied false shop vs m s t = t
mirror_legacy_movement-Tallied true shop vs m s t = mirror_to-Tallied shop m _ s t
