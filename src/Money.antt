-- ===== src/Money.antt =====
-- src/domain/money.ts: amounts as text and back.
pub mod Text
pub mod Digits
pub mod RoundTrip
pub mod Examples
