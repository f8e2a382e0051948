-- ===== src/Stock.antt =====
-- src/domain/stock.ts: stock by movements, reservations and running balances.
pub mod Rows
pub mod Costing
pub mod Journalling
pub mod Movements
pub mod Everyday
pub mod Reservations
pub mod Fulfilment
pub mod Reconciling
pub mod Tally
pub mod MovementTally
pub mod HoldTally
pub mod EverydayTally
pub mod Requests
pub mod Consistency
pub mod Outcomes
pub mod Selling
pub mod CostOutcome
pub mod Holding
pub mod Examples
pub mod Counts
pub mod Transfers
pub mod Legacy
pub mod CountTally
