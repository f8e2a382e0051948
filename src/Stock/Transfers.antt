-- ===== src/Stock/Transfers.antt =====
-- src/domain/stock.ts: transfers between two shops, from the draft to the receipt.
use trade_pal_africa.Base.{
  ℕ, ◌+◌, Bool, true, false, ◌&&◌, ◌||◌, not, Option, none, some, List, [], ◌∷◌, ◌++◌, ◌==◌,
  if◌then◌else◌, length, find, any, keep, update_where, is_some, or_else, Call, ◌>>=◌, ◌>>◌, pure,
  throw_if, or_throw, gets, modify, transaction,
}
use trade_pal_africa.Base.Int.{ℤ, pos, ◌-ℤ◌, ◌*ℤ◌, neg, ltb_ℤ}
use trade_pal_africa.Accounting.Books.{of_shortfall, stock_transfer}
use trade_pal_africa.Accounting.Rules.{Common, shrinkage, post_stock_write_down}
use trade_pal_africa.Stock.Rows.{
  StockError, invalid, not_found, transfer_state, over_receipt, transfer_dispatch, transfer_receipt,
  MovementKey, transfer_out, transfer_in_transit, of_receipt, TransferLine, TransferStatus, draft,
  dispatched, received, StockTransfer, Stock, on_books,
}
use trade_pal_africa.Stock.Journalling.{ignore}
use trade_pal_africa.Stock.Movements.{Move, require_available, post_movement_tx}
use trade_pal_africa.Stock.Everyday.{positive_qty}

abbrev pub same_status : TransferStatus → TransferStatus → Bool
same_status draft draft = true
same_status dispatched dispatched = true
same_status received received = true
same_status TransferStatus.cancelled TransferStatus.cancelled = true
same_status _ _ = false

abbrev pub transfer_id : ℕ → StockTransfer → Bool
transfer_id i t = t.id == i

abbrev pub has_status : ℕ → TransferStatus → StockTransfer → Bool
has_status i st t = t.id == i && same_status t.status st

-- What a line of a new transfer asks for.
pub record Sending : Type 0 where
  pub variant : ℕ
  pub quantity : ℤ

abbrev pub sends : ℕ → Sending → Bool
sends variant l = l.variant == variant

-- `new Set(…).size !== lines.length`
abbrev pub repeats : List Sending → Bool
repeats [] = false
repeats (l ∷ ls) = any (sends l.variant) ls || repeats ls

abbrev pub draft_lines : List Sending → List TransferLine
draft_lines [] = []
draft_lines (l ∷ ls) =
    record { variant = l.variant; sent = l.quantity; received = none; unit_cost = none }
    ∷ draft_lines ls

abbrev pub new_transfer : ℕ → ℕ → ℕ → List Sending → StockTransfer
new_transfer i from_shop to_shop lines = record {
  id = i;
  from_shop = from_shop;
  to_shop = to_shop;
  status = draft;
  lines = draft_lines lines;
}

unfoldable pub all_positive : List Sending → Call Stock StockError (Unit {0})
all_positive [] = pure tt
all_positive (l ∷ ls) = positive_qty l.quantity >> all_positive ls

unfoldable pub create_transfer : ℕ → ℕ → List Sending → Call Stock StockError StockTransfer
unfolding all_positive
create_transfer from_shop to_shop lines = do
  throw_if (from_shop == to_shop) invalid
  throw_if (length lines == 0) invalid
  all_positive lines
  throw_if (repeats lines) invalid
  shops ← gets (λ s. s.shops)
  throw_if (not (any (λ x. x == from_shop) shops) || not (any (λ x. x == to_shop) shops)) not_found
  i ← gets (λ s. s.next_id)
  modify (λ s. record s {
    transfers = s.transfers ++ new_transfer i from_shop to_shop lines ∷ [];
    next_id = s.next_id + 1;
  })
  pure (new_transfer i from_shop to_shop lines)

-- A movement of a transfer, at one of its shops.
abbrev pub transfer_move : ℕ → ℕ → ℤ → ℤ → Option ℤ → MovementKey → Move
transfer_move shop variant on_hand in_transit unit_cost key = record {
  shop = shop;
  variant = variant;
  kind = transfer_dispatch;
  on_hand_delta = on_hand;
  damaged_delta = pos 0;
  in_transit_delta = in_transit;
  reserved_release = pos 0;
  unit_cost = unit_cost;
  currency = none;
  occurred_at = none;
  provenance = none;
  key = some key;
  availability = some require_available;
  reversal_of = none;
}

abbrev pub leaving : StockTransfer → TransferLine → Move
leaving t l =
    transfer_move t.from_shop l.variant (neg l.sent) (pos 0) none (transfer_out t.id l.variant)

abbrev pub in_transit : StockTransfer → TransferLine → Move
in_transit t l =
    transfer_move t.to_shop l.variant (pos 0) l.sent none (transfer_in_transit t.id l.variant)

abbrev pub arriving : StockTransfer → TransferLine → ℤ → Move
arriving t l q =
    record (transfer_move t.to_shop l.variant q (neg l.sent) l.unit_cost
      (of_receipt t.id l.variant)) { kind = transfer_receipt; availability = none }

-- An update of the line of a variant, which a transfer lists once.
abbrev pub update_line : ℕ → ℕ → (TransferLine → TransferLine) → Stock → Stock
update_line transfer variant f s = record s {
  transfers =
      update_where (transfer_id transfer)
        (λ t. record t {
          lines = update_where (λ (l : TransferLine). l.variant == variant) f t.lines;
        })
        s.transfers;
}

unfoldable pub dispatch_each : StockTransfer → List TransferLine → Call Stock StockError (Unit {0})
dispatch_each t [] = pure tt
dispatch_each t (l ∷ ls) = do
  out ← post_movement_tx (leaving t l)
  modify (update_line t.id l.variant (λ x. record x { unit_cost = out.movement.unit_cost }))
  post_movement_tx (in_transit t l)
  dispatch_each t ls

-- `updateMany` from one status to the next, which has to change one row.
unfoldable pub claim_transfer :
    ℕ → TransferStatus → TransferStatus → Call Stock StockError (Unit {0})
claim_transfer i from to = do
  changed ← gets (λ s. length (keep (has_status i from) s.transfers))
  modify (λ s. record s {
    transfers = update_where (has_status i from) (λ t. record t { status = to }) s.transfers;
  })
  throw_if (not (changed == 1)) transfer_state

unfoldable pub find_transfer : ℕ → TransferStatus → Call Stock StockError StockTransfer
find_transfer i st = do
  found ← gets (λ s. find (transfer_id i) s.transfers)
  t ← or_throw found not_found
  throw_if (not (same_status t.status st)) transfer_state
  pure t

abbrev pub dispatch_body : ℕ → Call Stock StockError (Unit {0})
dispatch_body i = do
  t ← find_transfer i draft
  claim_transfer t.id draft dispatched
  dispatch_each t t.lines

unfoldable pub dispatch_transfer : ℕ → Call Stock StockError (Unit {0})
unfolding find_transfer claim_transfer dispatch_each
dispatch_transfer i = transaction (dispatch_body i)

-- `byVariant.get(…)`: the last quantity given for the variant.
abbrev pub quantity_for : ℕ → List Sending → Option ℤ
quantity_for variant [] = none
quantity_for variant (r ∷ rs) =
    let later = quantity_for variant rs in
    if is_some later then later else if r.variant == variant then some r.quantity else none

-- The checks of the quantities before anything is written.
unfoldable pub check_received : List Sending → List TransferLine → Call Stock StockError (Unit {0})
check_received rs [] = pure tt
check_received rs (l ∷ ls) = do
  q ← or_throw (quantity_for l.variant rs) invalid
  throw_if (ltb_ℤ q (pos 0)) invalid
  throw_if (ltb_ℤ l.sent q) over_receipt
  check_received rs ls

abbrev pub shortfall_common : StockTransfer → TransferLine → ℕ → Common
shortfall_common t l currency = record {
  currency = currency;
  key = of_shortfall t.id l.variant;
  occurred_at = none;
  provenance = none;
  source = some (stock_transfer, t.id);
}

-- The loss in transit, at the cost that the line carries.
unfoldable pub write_off_shortfall :
    Bool → Option ℕ → Option ℤ → StockTransfer → TransferLine → ℤ → Call Stock StockError (Unit {0})
write_off_shortfall true (some currency) (some cost) t l shortfall =
    if ltb_ℤ (pos 0) shortfall && ltb_ℤ (pos 0) cost
    then on_books (
        ignore
          (post_stock_write_down (shortfall_common t l currency) (cost *ℤ shortfall) shrinkage))
    else pure tt
write_off_shortfall _ _ _ t l shortfall = pure tt

unfoldable pub receive_each :
    StockTransfer → List Sending → Option ℕ → List TransferLine → Call Stock StockError (Unit {0})
unfolding write_off_shortfall
receive_each t rs currency [] = pure tt
receive_each t rs currency (l ∷ ls) = do
  let q = or_else (quantity_for l.variant rs) (pos 0)
  post_movement_tx (arriving t l q)
  modify (update_line t.id l.variant (λ x. record x { received = some q }))
  enabled ← gets (λ s. s.journals_enabled)
  write_off_shortfall enabled currency l.unit_cost t l (l.sent -ℤ q)
  receive_each t rs currency ls

abbrev pub receive_body : ℕ → List Sending → Option ℕ → Call Stock StockError (Unit {0})
receive_body i rs currency = do
  t ← find_transfer i dispatched
  check_received rs t.lines
  claim_transfer t.id dispatched received
  receive_each t rs currency t.lines

unfoldable pub receive_transfer : ℕ → List Sending → Option ℕ → Call Stock StockError (Unit {0})
unfolding find_transfer check_received claim_transfer receive_each
receive_transfer i rs currency = transaction (receive_body i rs currency)

unfoldable pub cancel_transfer : ℕ → Call Stock StockError (Unit {0})
unfolding claim_transfer
cancel_transfer i = claim_transfer i draft TransferStatus.cancelled
