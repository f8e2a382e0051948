-- ===== src/Pricing.antt =====
-- src/domain/pricing.ts: price lists, their rules, and the one price of a quantity.
pub mod Rows
pub mod Best
pub mod Resolve
pub mod Lists
pub mod BestRule
pub mod Minimum
pub mod StatedMinimum
pub mod Examples
