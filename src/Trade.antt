-- ===== src/Trade.antt =====
-- src/domain/trade/common.ts and credit.ts, and the values of src/domain/trade/fulfilment.ts: what the
-- parts of an order line are charged, and the credit of a customer.
pub mod Value
pub mod Credit
pub mod Charging
pub mod Backlog
pub mod Exposure
pub mod Examples
