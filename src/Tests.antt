-- ===== src/Tests.antt =====
-- Runs on small concrete databases, and an instance of every theorem that has hypotheses.
pub mod Data
pub mod Giftcard
pub mod Lifecycle
pub mod Order
pub mod Rules
pub mod Coupon
pub mod Plan
pub mod Queue
pub mod Cache
pub mod Ticket
pub mod Settings
pub mod Traffic
pub mod Accounts
pub mod Epay
