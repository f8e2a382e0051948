-- ===== src/Stock/Counts.antt =====
-- src/domain/stock.ts: stock counts, from the opening to the approval.
use trade_pal_africa.Base.{
  ℕ, ◌+◌, Bool, true, false, ◌&&◌, not, Option, none, some, List, [], ◌∷◌, ◌++◌, ◌==◌,
  if◌then◌else◌, length, find, any, keep, update_where, Call, ◌>>=◌, ◌>>◌, pure, throw_if, or_throw,
  gets, modify, ltb,
}
use trade_pal_africa.Base.Int.{ℤ, pos, ◌-ℤ◌, ltb_ℤ, ◌==ℤ◌}
use trade_pal_africa.Stock.Rows.{
  StockError, invalid, not_found, count_closed, reason_required, count_adjustment, of_count, Reason,
  blank, said, CountLine, CountStatus, counting, StockCount, Stock, get_stock_level,
}
use trade_pal_africa.Stock.Movements.{Move, allow_negative, post_stock_movement}

abbrev pub is_counting : CountStatus → Bool
is_counting counting = true
is_counting _ = false

abbrev pub count_id : ℕ → StockCount → Bool
count_id i c = c.id == i

-- The rows of an `updateMany` with this id and the status OPEN.
abbrev pub is_open_count : ℕ → StockCount → Bool
is_open_count i c = c.id == i && is_counting c.status

abbrev pub new_count : ℕ → ℕ → StockCount
new_count i shop = record { id = i; shop = shop; status = counting; lines = [] }

unfoldable pub open_stock_count : ℕ → Call Stock StockError StockCount
open_stock_count shop = do
  i ← gets (λ s. s.next_id)
  modify (λ s. record s { counts = s.counts ++ new_count i shop ∷ []; next_id = s.next_id + 1 })
  pure (new_count i shop)

-- The count that is looked up, if it is still open.
unfoldable pub open_count : ℕ → Call Stock StockError StockCount
open_count i = do
  found ← gets (λ s. find (count_id i) s.counts)
  c ← or_throw found not_found
  throw_if (not (is_counting c.status)) count_closed
  pure c

abbrev pub line_of : ℕ → CountLine → Bool
line_of variant l = l.variant == variant

-- The line is updated where the variant has one, and created where it has none.
abbrev pub put_line : CountLine → List CountLine → List CountLine
put_line l ls =
    if any (line_of l.variant) ls
    then update_where (line_of l.variant) (λ _. l) ls
    else ls ++ l ∷ []

abbrev pub counted_line : ℕ → ℤ → Option Reason → ℤ → CountLine
counted_line variant counted reason expected = record {
  variant = variant;
  expected = expected;
  counted = counted;
  discrepancy = counted -ℤ expected;
  reason = reason;
}

abbrev pub with_lines : (List CountLine → List CountLine) → StockCount → StockCount
with_lines f c = record c { lines = f c.lines }

unfoldable pub record_count_line : ℕ → ℕ → ℤ → Option Reason → Call Stock StockError CountLine
unfolding open_count
record_count_line count variant counted reason = do
  throw_if (ltb_ℤ counted (pos 0)) invalid
  c ← open_count count
  l ← gets (λ s. counted_line variant counted reason (get_stock_level s c.shop variant).on_hand)
  modify
      (λ s. record s { counts = update_where (count_id count) (with_lines (put_line l)) s.counts })
  pure l

abbrev pub is_blank : Reason → Bool
is_blank blank = true
is_blank (said _) = false

unfoldable pub set_count_line_reason : ℕ → ℕ → Reason → Call Stock StockError CountLine
unfolding open_count
set_count_line_reason count variant reason = do
  c ← open_count count
  l ← or_throw (find (line_of variant) c.lines) not_found
  throw_if (is_blank reason) reason_required
  modify (λ s. record s {
    counts =
        update_where (count_id count)
          (with_lines (update_where (line_of variant) (λ x. record x { reason = some reason })))
          s.counts;
  })
  pure (record l { reason = some reason })

abbrev pub differs : CountLine → Bool
differs l = not (l.discrepancy ==ℤ pos 0)

-- `!l.reason?.trim()`
abbrev pub lacks_reason : CountLine → Bool
lacks_reason l = elim l.reason [ none ↦ true | some r ↦ is_blank r ]

abbrev pub adjusting_move : StockCount → Option ℕ → CountLine → Move
adjusting_move c currency l = record {
  shop = c.shop;
  variant = l.variant;
  kind = count_adjustment;
  on_hand_delta = l.discrepancy;
  damaged_delta = pos 0;
  in_transit_delta = pos 0;
  reserved_release = pos 0;
  unit_cost = none;
  currency = currency;
  occurred_at = none;
  provenance = none;
  key = some (of_count c.id l.variant);
  availability = some allow_negative;
  reversal_of = none;
}

-- The loop over the lines that differ; each movement is a transaction of its own.
unfoldable pub adjust_each : StockCount → Option ℕ → List CountLine → ℕ → Call Stock StockError ℕ
adjust_each c currency [] adjustments = pure adjustments
adjust_each c currency (l ∷ ls) adjustments = do
  result ← post_stock_movement (adjusting_move c currency l)
  adjust_each c currency ls (if result.replayed then adjustments else adjustments + 1)

-- `updateMany` of the open count with this id to another status, which has to change one row.
unfoldable pub close_count : ℕ → CountStatus → Call Stock StockError (Unit {0})
close_count i to = do
  changed ← gets (λ s. length (keep (is_open_count i) s.counts))
  modify (λ s. record s {
    counts = update_where (is_open_count i) (λ c. record c { status = to }) s.counts;
  })
  throw_if (not (changed == 1)) count_closed

unfoldable pub approve_stock_count : ℕ → Option ℕ → Call Stock StockError ℕ
unfolding open_count adjust_each close_count
approve_stock_count i currency = do
  c ← open_count i
  throw_if (ltb 0 (length (keep lacks_reason (keep differs c.lines)))) reason_required
  adjustments ← adjust_each c currency (keep differs c.lines) 0
  close_count c.id CountStatus.approved
  pure adjustments

unfoldable pub cancel_stock_count : ℕ → Call Stock StockError (Unit {0})
unfolding close_count
cancel_stock_count i = close_count i CountStatus.cancelled
