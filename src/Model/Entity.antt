-- ===== src/Model/Entity.antt =====
-- The rows of the tables that the services change (app/models/*/base.py). The primary key is the
-- row's key in its table, so it is no field. Money, prices and limits are signed; keys, traffic and
-- Unix times are natural numbers.
use py_board.Prelude.{ℕ, String, Bool, Option, List}
use py_board.Prelude.Int.{ℤ}
use py_board.Model.Period.{Period}
use py_board.Runtime.{Float}

-- app/models/user/base.py, the fields that orders, commissions and gift cards read or write.
pub record User : Type 0 where
  pub email : String
  pub invite_user_id : Option ℕ
  pub balance : ℤ
  pub commission_rate : Option ℤ
  pub commission_balance : ℤ
  pub t : ℕ
  pub u : ℕ
  pub d : ℕ
  pub transfer_enable : ℕ
  pub group_id : Option ℕ
  pub plan_id : Option ℕ
  pub speed_limit : Option ℕ
  pub device_limit : Option ℕ
  pub expired_at : ℕ

-- app/models/plan/base.py
pub record Plan : Type 0 where
  pub name : String
  pub group_id : ℕ
  pub transfer_enable : ℕ
  pub device_limit : Option ℕ
  pub speed_limit : Option ℕ
  pub is_shown : Bool
  pub renew : Bool
  pub month_price : Option ℤ
  pub quarter_price : Option ℤ
  pub half_year_price : Option ℤ
  pub year_price : Option ℤ
  pub two_year_price : Option ℤ
  pub three_year_price : Option ℤ
  pub onetime_price : Option ℤ
  pub reset_price : Option ℤ
  pub capacity_limit : Option ℤ

-- app/models/order/base.py; `kind` is the column `type`.
pub record Order : Type 0 where
  pub invite_user_id : Option ℕ
  pub user_id : ℕ
  pub plan_id : ℕ
  pub coupon_id : Option ℕ
  pub payment_id : Option ℕ
  pub kind : ℕ
  pub period : Period
  pub trade_no : String
  pub callback_no : Option String
  pub total_amount : ℤ
  pub handling_amount : Option ℤ
  pub discount_amount : Option ℤ
  pub surplus_amount : Option ℤ
  pub balance_amount : Option ℤ
  pub status : ℕ
  pub commission_status : ℕ
  pub commission_balance : ℤ
  pub actual_commission_balance : Option ℤ
  pub paid_at : Option ℕ
  pub created_at : ℕ

-- app/models/coupon/base.py; the two lists are stored as JSON texts.
pub record Coupon : Type 0 where
  pub code : String
  pub name : String
  pub kind : ℕ
  pub value : ℤ
  pub is_shown : Bool
  pub limit_use : Option ℤ
  pub limit_use_with_user : Option ℤ
  pub limit_plan_ids : Option String
  pub limit_period : Option String
  pub started_at : ℕ
  pub ended_at : ℕ

-- A payment method's configuration, `str | dict | None` of app/payments/registry.py; the column is JSONB, so
-- that a row holds a dict.
pub data PaymentConfig : Type 0 where
  no_config : PaymentConfig
  text_config : String → PaymentConfig
  dict_config : List (String × String) → PaymentConfig

-- app/models/payment/base.py, without the form's display fields.
pub record Payment : Type 0 where
  pub uuid : String
  pub payment : String
  pub config : PaymentConfig
  pub notify_domain : Option String
  pub handling_fee_fixed : Option ℤ
  pub handling_fee_percent : Option Float
  pub enable : Bool

-- app/models/commission_log/base.py
pub record CommissionLog : Type 0 where
  pub invite_user_id : ℕ
  pub user_id : ℕ
  pub trade_no : String
  pub order_amount : ℤ
  pub get_amount : ℤ

-- app/models/giftcard/base.py; `kind` is the column `type`.
pub record Giftcard : Type 0 where
  pub code : String
  pub name : String
  pub kind : ℕ
  pub value : Option ℤ
  pub plan_id : Option ℕ
  pub limit_use : Option ℤ
  pub used_user_ids : Option String
  pub started_at : ℕ
  pub ended_at : ℕ

-- app/models/giftcard_redemption/base.py
pub record GiftcardRedemption : Type 0 where
  pub giftcard_id : ℕ
  pub user_id : ℕ
  pub code : String
  pub kind : ℕ
  pub value : Option ℤ
  pub plan_id : Option ℕ

-- app/services/log_event.py: who did what to which object. The message and the payload are left out.
pub record LogEvent : Type 0 where
  pub category : String
  pub event : String
  pub actor_type : String
  pub actor_id : Option ℕ
  pub target_type : String
  pub target_id : String
