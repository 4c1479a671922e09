-- ===== src/Lifecycle.antt =====
-- The life of an order across every operation that can touch it: what its row may become.
pub mod Relation
pub mod Steps
pub mod Payment
pub mod Completion
pub mod Keeps
pub mod Balances
pub mod Credits
pub mod History
pub mod Managed
pub mod Requests
