-- ===== src/Payments.antt =====
-- What the order service asks of app/payments: the registry's names, the gateway of a payment
-- method, its payment link and its check of a callback.
pub mod Epay
use py_board.Prelude.{ℕ, String, Bool, Option, List}
use py_board.Prelude.Int.{ℤ}
use py_board.Model.Entity.{PaymentConfig}
use py_board.Exec.{Result}

-- A configuration or the parameters of a callback: a dict of texts.
abbrev pub Params : Type 0
Params = List (String × String)

-- app/payments/base.py, `PaymentRequest`
pub record PaymentRequest : Type 0 where
  pub trade_no : String
  pub total_amount : ℤ
  pub notify_url : String
  pub return_url : String
  pub user_id : ℕ

-- app/payments/base.py, `PaymentNotifyResult`
pub record PaymentNotifyResult : Type 0 where
  pub is_success : Bool
  pub trade_no : String
  pub callback_no : String
  pub paid_amount : Option ℤ

-- The registry and its gateways, as the order service uses them.
pub record Gateways : Type 0 where
  pub canonical_gateway_name : String → Result String
  pub route_gateway_name : String → Result String
  -- the validated configuration is the gateway object
  pub create_payment_gateway : String → PaymentConfig → Result Params
  pub pay : Params → PaymentRequest → Result String
  pub verify_notify : Params → Params → Result PaymentNotifyResult
