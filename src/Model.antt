-- ===== src/Model.antt =====
-- The tables' rows (app/models/*/base.py and entity.py) and the texts that the code tests against
-- literals (the payment periods of app/services/order.py).
pub mod Period
pub mod Entity
