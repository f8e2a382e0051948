-- ===== src/Refunds.antt =====
-- src/domain/merchantPayments/refunds.ts: refunds through the provider that collected the money.
pub mod Rows
pub mod Calls
pub mod Outcomes
pub mod Covered
pub mod Safety
pub mod Bound
pub mod History
pub mod Examples
