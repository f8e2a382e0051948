-- ===== src/Stock/Journalling.antt =====
-- src/domain/stock.ts: the journal entry of a movement.
use trade_pal_africa.Base.{
  ℕ, Bool, true, false, ◌&&◌, ◌||◌, Option, none, some, [], ◌∷◌, if◌then◌else◌, or_else, Call,
  ◌>>=◌, pure,
}
use trade_pal_africa.Base.Int.{ℤ, pos, ◌*ℤ◌, ltb_ℤ}
use trade_pal_africa.Accounting.Chart.{SystemKey, inventory, opening_balance_equity}
use trade_pal_africa.Accounting.Books.{
  Books, JournalError, EntryKind, migrated_opening, stock_movement, of_movement, Posted,
}
use trade_pal_africa.Accounting.Posting.{debit_line, credit_line, post_journal}
use trade_pal_africa.Accounting.Rules.{
  Common, header, shrinkage, owner_withdrawals, post_stock_write_down, post_stock_write_up,
}
use trade_pal_africa.Stock.Rows.{
  MovementKind, opening_balance, sale_fulfillment, return_restock, count_adjustment, spoilage,
  owner_withdrawal, manual_adjustment, Movement,
}

abbrev pub movement_common : Movement → ℕ → Common
movement_common m currency = record {
  currency = currency;
  key = of_movement m.id;
  occurred_at = some m.occurred_at;
  provenance = some m.provenance;
  source = some (stock_movement, m.id);
}

-- A call whose result is not used.
abbrev pub ignore : Call Books JournalError Posted → Call Books JournalError (Unit {0})
ignore m = m >>= λ _. pure tt

abbrev pub post_if_positive :
    ℤ → Call Books JournalError Posted → Call Books JournalError (Unit {0})
post_if_positive value m = if ltb_ℤ (pos 0) value then ignore m else pure tt

abbrev pub value_of_units : Option ℤ → ℤ → ℤ
value_of_units none n = pos 0
value_of_units (some c) n = c *ℤ n

-- `m.onHandDelta > 0 && m.unitCostMinor && m.unitCostMinor > 0n`
abbrev pub write_up : Common → Option ℤ → ℤ → Call Books JournalError (Unit {0})
write_up c none n = pure tt
write_up c (some unit) n =
    if ltb_ℤ (pos 0) n && ltb_ℤ (pos 0) unit
    then ignore (post_stock_write_up c (unit *ℤ n))
    else pure tt

abbrev pub adjust : Common → Movement → ℤ → Call Books JournalError (Unit {0})
adjust c m cost =
    if ltb_ℤ m.on_hand_delta (pos 0) || ltb_ℤ m.damaged_delta (pos 0)
    then post_if_positive cost (post_stock_write_down c cost shrinkage)
    else write_up c m.unit_cost m.on_hand_delta

-- The `switch` of `journalMovementIfEnabled`.
unfoldable pub journal_by_kind :
    MovementKind → Common → Movement → ℤ → Call Books JournalError (Unit {0})
journal_by_kind sale_fulfillment c m cost = post_if_positive cost (
    post_journal (header c EntryKind.cogs)
      (debit_line SystemKey.cogs cost ∷ credit_line inventory cost ∷ []))
journal_by_kind spoilage c m cost = adjust c m cost
journal_by_kind count_adjustment c m cost = adjust c m cost
journal_by_kind manual_adjustment c m cost = adjust c m cost
journal_by_kind owner_withdrawal c m cost =
    post_if_positive cost (post_stock_write_down c cost owner_withdrawals)
journal_by_kind return_restock c m cost =
    let value = value_of_units m.unit_cost m.on_hand_delta in
    post_if_positive value (
      post_journal (header c EntryKind.restock)
        (debit_line inventory value ∷ credit_line SystemKey.cogs value ∷ []))
journal_by_kind opening_balance c m cost =
    let value =
      if ltb_ℤ (pos 0) m.on_hand_delta then value_of_units m.unit_cost m.on_hand_delta else pos 0 in
    post_if_positive value (
      post_journal
        (header (record c { provenance = some migrated_opening }) EntryKind.opening_balance)
        (debit_line inventory value ∷ credit_line opening_balance_equity value ∷ []))
journal_by_kind _ c m cost = pure tt

unfoldable pub journal_movement_if_enabled :
    Bool → Movement → Option ℕ → Call Books JournalError (Unit {0})
unfolding journal_by_kind
journal_movement_if_enabled enabled m none = pure tt
journal_movement_if_enabled false m (some currency) = pure tt
journal_movement_if_enabled true m (some currency) =
    journal_by_kind m.kind (movement_common m currency) m (or_else m.cost (pos 0))
