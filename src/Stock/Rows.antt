-- ===== src/Stock/Rows.antt =====
-- src/domain/stock.ts: the rows of the stock tables of one business, and the errors. A balance row
-- is named by its shop and variant, which its unique index allows; other ids come from a counter
-- that the database draws from, and the clock is the time that `new Date()` reads. Notes, actors
-- and sources, which nothing here reads back, are left out. A quantity is a whole number: the type
-- `number` also holds fractions, which the code refuses.
use trade_pal_africa.Base.{
  ℕ, Bool, false, ◌&&◌, Option, none, List, ◌==◌, or_else, find, Call, modify, some, err, ok,
  Result,
}
use trade_pal_africa.Base.Int.{ℤ, pos, ◌==ℤ◌, ◌-ℤ◌}
use trade_pal_africa.Accounting.Books.{Books, Provenance, JournalError}

pub data StockError : Type 0 where
  -- with what is available
  insufficient_stock : ℤ → StockError
  invalid not_found reservation_closed count_closed reason_required transfer_state : StockError
  over_receipt : StockError
  -- an error that the accounting throws, and one of `divRoundHalfUp`
  journal_error : JournalError → StockError
  division_error : StockError

pub data MovementKind : Type 0 where
  opening_balance receipt sale_fulfillment return_restock count_adjustment spoilage : MovementKind
  owner_withdrawal damage_quarantine transfer_dispatch transfer_receipt manual_adjustment :
      MovementKind
  legacy_mirror reversal : MovementKind

-- An idempotency key is a template with ids and quantities in it; a key of a caller is a number.
pub data MovementKey : Type 0 where
  of_fulfilment : ℕ → ℤ → MovementKey
  of_count transfer_out transfer_in_transit of_receipt : ℕ → ℕ → MovementKey
  of_adoption of_legacy caller_key : ℕ → MovementKey

abbrev pub same_movement_key : MovementKey → MovementKey → Bool
same_movement_key (of_fulfilment a q) (of_fulfilment b p) = a == b && q ==ℤ p
same_movement_key (of_count a b) (of_count c d) = a == c && b == d
same_movement_key (transfer_out a b) (transfer_out c d) = a == c && b == d
same_movement_key (transfer_in_transit a b) (transfer_in_transit c d) = a == c && b == d
same_movement_key (of_receipt a b) (of_receipt c d) = a == c && b == d
same_movement_key (of_adoption a) (of_adoption b) = a == b
same_movement_key (of_legacy a) (of_legacy b) = a == b
same_movement_key (caller_key a) (caller_key b) = a == b
same_movement_key _ _ = false

pub record Balance : Type 0 where
  pub shop : ℕ
  pub variant : ℕ
  pub on_hand : ℤ
  pub reserved : ℤ
  pub damaged : ℤ
  pub in_transit : ℤ
  pub avg_cost : Option ℤ
  pub uncosted : ℤ
  pub cost_currency : Option ℕ

pub record Movement : Type 0 where
  pub id : ℕ
  pub shop : ℕ
  pub variant : ℕ
  pub kind : MovementKind
  pub on_hand_delta : ℤ
  pub damaged_delta : ℤ
  pub in_transit_delta : ℤ
  pub unit_cost : Option ℤ
  pub cost_currency : Option ℕ
  pub cost_incomplete : Bool
  pub cost : Option ℤ
  pub occurred_at : ℕ
  pub provenance : Provenance
  pub key : Option MovementKey
  pub reversal_of : Option ℕ

pub data ReservationStatus : Type 0 where
  active released expired consumed : ReservationStatus

pub record Reservation : Type 0 where
  pub id : ℕ
  pub shop : ℕ
  pub variant : ℕ
  pub quantity : ℤ
  pub status : ReservationStatus
  pub expires_at : ℕ
  pub reference : ℕ
  pub key : ℕ
  pub settled_at : Option ℕ

-- A reason that is given: a text of spaces only, or another one.
pub data Reason : Type 0 where
  blank : Reason
  said : ℕ → Reason

pub record CountLine : Type 0 where
  pub variant : ℕ
  pub expected : ℤ
  pub counted : ℤ
  pub discrepancy : ℤ
  pub reason : Option Reason

pub data CountStatus : Type 0 where
  counting approved cancelled : CountStatus

pub record StockCount : Type 0 where
  pub id : ℕ
  pub shop : ℕ
  pub status : CountStatus
  pub lines : List CountLine

pub record TransferLine : Type 0 where
  pub variant : ℕ
  pub sent : ℤ
  pub received : Option ℤ
  pub unit_cost : Option ℤ

pub data TransferStatus : Type 0 where
  draft dispatched received cancelled : TransferStatus

pub record StockTransfer : Type 0 where
  pub id : ℕ
  pub from_shop : ℕ
  pub to_shop : ℕ
  pub status : TransferStatus
  pub lines : List TransferLine

pub record Policy : Type 0 where
  pub blocks_negative : Bool
  pub allow_backorder : Bool

pub record Stock : Type 0 where
  pub shops : List ℕ
  pub variants : List ℕ
  pub balances : List Balance
  pub movements : List Movement
  pub reservations : List Reservation
  pub counts : List StockCount
  pub transfers : List StockTransfer
  pub policy : Option Policy
  -- the flag `accountingJournals`, and the books
  pub journals_enabled : Bool
  pub books : Books
  pub next_id : ℕ
  pub clock : ℕ

abbrev pub is_row : ℕ → ℕ → Balance → Bool
is_row shop variant b = b.shop == shop && b.variant == variant

abbrev pub new_row : ℕ → ℕ → Balance
new_row shop variant = record {
  shop = shop;
  variant = variant;
  on_hand = pos 0;
  reserved = pos 0;
  damaged = pos 0;
  in_transit = pos 0;
  avg_cost = none;
  uncosted = pos 0;
  cost_currency = none;
}

pub record StockLevel : Type 0 where
  pub on_hand : ℤ
  pub reserved : ℤ
  pub available : ℤ
  pub damaged : ℤ
  pub in_transit : ℤ
  pub avg_cost : Option ℤ
  pub uncosted : ℤ

-- `getStockLevel`: a pair of shop and variant without a row has nothing.
unfoldable pub get_stock_level : Stock → ℕ → ℕ → StockLevel
get_stock_level s shop variant =
    let b = or_else (find (is_row shop variant) s.balances) (new_row shop variant) in
    record {
      on_hand = b.on_hand;
      reserved = b.reserved;
      available = b.on_hand -ℤ b.reserved;
      damaged = b.damaged;
      in_transit = b.in_transit;
      avg_cost = b.avg_cost;
      uncosted = b.uncosted;
    }

-- `getStockPolicy`: without a row stock may go negative, and nothing is backordered.
abbrev pub get_stock_policy : Stock → Policy
get_stock_policy s = or_else s.policy (record { blocks_negative = false; allow_backorder = false })

-- What `setStockPolicy` is given; a part that is left out stays.
pub record PolicyChange : Type 0 where
  pub blocks_negative : Option Bool
  pub allow_backorder : Option Bool

abbrev pub changed_policy : PolicyChange → Policy → Policy
changed_policy c p = record {
  blocks_negative = or_else c.blocks_negative p.blocks_negative;
  allow_backorder = or_else c.allow_backorder p.allow_backorder;
}

-- A new row starts from the defaults of the table, which are those of a missing row.
unfoldable pub set_stock_policy : PolicyChange → Call Stock StockError (Unit {0})
set_stock_policy c =
    modify (λ s. record s { policy = some (changed_policy c (get_stock_policy s)) })

-- A call on the books, in the transaction of the stock.
abbrev pub lift_result :
    {A : Type 0} → Stock → Result JournalError A × Books → Result StockError A × Stock
lift_result s (ok a, b) = (ok a, record s { books = b })
lift_result s (err e, b) = (err (journal_error e), record s { books = b })

abbrev pub on_books : {A : Type 0} → Call Books JournalError A → Call Stock StockError A
on_books m s = lift_result s (m s.books)
