-- ===== src/Order.antt =====
-- app/services/order.py and app/queues/jobs/order.py.
pub mod Rules
pub mod Process
pub mod Create
pub mod Checkout
pub mod Notify
pub mod Manage
