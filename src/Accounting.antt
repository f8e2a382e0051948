-- ===== src/Accounting.antt =====
-- src/domain/accounting.ts: double-entry books of one business.
pub mod Chart
pub mod Books
pub mod Posting
pub mod Rules
pub mod Reading
pub mod Legacy
pub mod Invariant
pub mod Preservation
pub mod Requests
pub mod Soundness
pub mod TrialBalance
pub mod Outcomes
pub mod Charting
pub mod Reversal
pub mod Balancing
pub mod RuleOutcomes
pub mod PayoutOutcomes
pub mod Examples
