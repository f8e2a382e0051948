-- ===== src/Policy.antt =====
-- src/domain/paymentPurpose.ts and riskLabel.ts: which provider serves which money, and the label of a
-- customer.
pub mod Purpose
pub mod Risk
mod Examples
