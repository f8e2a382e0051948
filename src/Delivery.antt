-- ===== src/Delivery.antt =====
-- src/domain/outbox.ts, callbackInbox.ts and retryPolicy.ts: work that is delivered later, at least
-- once, with retries.
pub mod Retry
pub mod Queue
pub mod Outbox
pub mod Inbox
pub mod Rows
pub mod Ends
pub mod SinglePass
pub mod Sweep
pub mod Backoff
pub mod Whole
pub mod Progress
pub mod Liveness
pub mod Once
pub mod Examples
