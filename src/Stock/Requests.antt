-- ===== src/Stock/Requests.antt =====
-- src/domain/stock.ts: the calls on the stock of one business, one after another; what a throw
-- leaves is what its transaction rolled back to.
use trade_pal_africa.Base.{ℕ, Bool, Option, List, [], ◌∷◌}
use trade_pal_africa.Stock.Rows.{PolicyChange, Reason, set_stock_policy, Reservation, Stock}
use trade_pal_africa.Stock.Movements.{Move, post_stock_movement}
use trade_pal_africa.Stock.Everyday.{
  Common, receive_stock, record_opening_balance, fulfil_sale, record_spoilage,
  record_owner_withdrawal, quarantine_stock, write_off_quarantined, restock_return,
  reverse_stock_movement,
}
use trade_pal_africa.Stock.Reservations.{
  ReserveInput, reserve_stock, release_reservation, expire_reservations, extend_reservation,
}
use trade_pal_africa.Stock.Fulfilment.{Fulfilment, fulfil_reservation}
use trade_pal_africa.Base.Int.{ℤ}
use trade_pal_africa.Stock.Counts.{
  open_stock_count, record_count_line, set_count_line_reason, approve_stock_count,
  cancel_stock_count,
}
use trade_pal_africa.Stock.Transfers.{
  Sending, create_transfer, dispatch_transfer, receive_transfer, cancel_transfer,
}
use trade_pal_africa.Stock.Legacy.{
  LegacyVariant, LegacyMovement, post_adoption_opening, mirror_legacy_movement,
}

pub data Request : Type 0 where
  movement : Move → Request
  receive opening : Common → Request
  sale : Common → Option Bool → Bool → Request
  spoilt withdrawal quarantine write_off restock : Common → Request
  reverse : ℕ → Request
  reserve : ReserveInput → Request
  release : ℕ → ℕ → Request
  expiry : (List Reservation → List Reservation) → ℕ → Request
  extend : ℕ → ℕ → Request
  fulfil : ℕ → Fulfilment → Request
  policy_change : PolicyChange → Request
  count_open count_cancel : ℕ → Request
  count_line : ℕ → ℕ → ℤ → Option Reason → Request
  count_reason : ℕ → ℕ → Reason → Request
  count_approve : ℕ → Option ℕ → Request
  transfer : ℕ → ℕ → List Sending → Request
  transfer_dispatch transfer_cancel : ℕ → Request
  transfer_receive : ℕ → List Sending → Option ℕ → Request
  adoption : ℕ → ℕ → ℕ → ℤ → Request
  mirror : Bool → ℕ → List LegacyVariant → LegacyMovement → Request

unfoldable pub serve : Request → Stock → Stock
serve (movement i) s = (post_stock_movement i s).1
serve (receive c) s = (receive_stock c s).1
serve (opening c) s = (record_opening_balance c s).1
serve (sale c require approved) s = (fulfil_sale c require approved s).1
serve (spoilt c) s = (record_spoilage c s).1
serve (withdrawal c) s = (record_owner_withdrawal c s).1
serve (quarantine c) s = (quarantine_stock c s).1
serve (write_off c) s = (write_off_quarantined c s).1
serve (restock c) s = (restock_return c s).1
serve (reverse i) s = (reverse_stock_movement i s).1
serve (reserve i) s = (reserve_stock i s).1
serve (release i now) s = (release_reservation i now s).1
serve (expiry due now) s = (expire_reservations due now s).1
serve (extend i at) s = (extend_reservation i at s).1
serve (fulfil i o) s = (fulfil_reservation i o s).1
serve (policy_change c) s = (set_stock_policy c s).1
serve (count_open shop) s = (open_stock_count shop s).1
serve (count_cancel i) s = (cancel_stock_count i s).1
serve (count_line i variant counted reason) s = (record_count_line i variant counted reason s).1
serve (count_reason i variant reason) s = (set_count_line_reason i variant reason s).1
serve (count_approve i currency) s = (approve_stock_count i currency s).1
serve (transfer from to ls) s = (create_transfer from to ls s).1
serve (transfer_dispatch i) s = (dispatch_transfer i s).1
serve (transfer_cancel i) s = (cancel_transfer i s).1
serve (transfer_receive i rs currency) s = (receive_transfer i rs currency s).1
serve (adoption shop variant item estimate) s =
    (post_adoption_opening shop variant item estimate s).1
serve (mirror enabled shop vs m) s = mirror_legacy_movement enabled shop vs m s

unfoldable pub serve_all : List Request → Stock → Stock
serve_all [] s = s
serve_all (r ∷ rs) s = serve_all rs (serve r s)
