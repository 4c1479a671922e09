-- ===== src/Tests/Data.antt =====
-- A calendar of 31-day months, fixed settings, and databases with a few rows.
use py_board.Prelude.{
  ℕ, ◌+◌, ◌-◌, ◌*◌, ◌/◌, ◌%◌, ◌^◌, refl, String, Bool, true, false, not, none, some, [], ◌∷◌, arith,
  if◌then◌else◌,
}
use py_board.Prelude.Int.{ℤ, pos, negsuc, ◌+ℤ◌, ◌-ℤ◌, pos_part, neg_part}
use py_board.Prelude.Rows.{lookup}
use py_board.Json
use py_board.Runtime.{Env, Float, finite, nan, DateTime}
use py_board.Model.Period.{month_price}
use py_board.Model.Entity.{User, Plan, Order, Coupon, Payment, dict_config}
use py_board.Exec.{ok}
use py_board.Db.{Db}
use py_board.Payments.{Gateways, PaymentNotifyResult}
use py_board.Lifecycle.Relation.{IsSound}

abbrev is_negative : ℤ → Bool
is_negative (pos _) = false
is_negative (negsuc _) = true

abbrev size : ℤ → ℕ
size a = pos_part a + neg_part a

-- A sign, and a mantissa scaled by 2^60 for a quotient.
abbrev divided : Float → Float → Float
divided (finite s a e) (finite t b f) =
    finite (if s then not t else t) (a * 2 ^ 60 / b) (e -ℤ f -ℤ pos 60)
divided _ _ = nan

abbrev multiplied : Float → Float → Float
multiplied (finite s a e) (finite t b f) = finite (if s then not t else t) (a * b) (e +ℤ f)
multiplied _ _ = nan

abbrev of_int : ℤ → Float
of_int a = finite (is_negative a) (size a) (pos 0)

abbrev date_of : ℕ → DateTime
date_of t = record {
  year = t / 86400 / 31 / 12;
  month = t / 86400 / 31 % 12 + 1;
  day = t / 86400 % 31 + 1;
  seconds = t % 86400;
}

abbrev time_of : DateTime → ℕ
time_of d = (((d.year * 12 + (d.month - 1)) * 31) + (d.day - 1)) * 86400 + d.seconds

abbrev int_setting : String → ℤ → ℤ
int_setting key default = default

abbrev pub env_at : ℕ → Env
env_at now = record {
  now = now;
  fromtimestamp = date_of;
  timestamp = time_of;
  monthrange = λ _ _. 31;
  int_div = λ a b. divided (of_int a) (of_int b);
  float_div = divided;
  float_mul = multiplied;
  float_of_int = of_int;
  float_of_text = λ _. none;
  strip_upper = λ t. t;
  rstrip_slash = λ t. t;
  loads = λ _. none;
  dumps = λ _. "";
  str_of = λ _. "";
  int_of = λ _. none;
  int_of_digits = λ _. none;
  split_items = λ _. [];
  get_str = λ _. "";
  get_int = int_setting;
  get_json = λ _. Json.null;
}

abbrev pub accepted : PaymentNotifyResult
accepted = record {
  is_success = true;
  trade_no = "T1";
  callback_no = "C1";
  paid_amount = some (pos 900);
}

-- A gateway that trusts every callback and takes the paid amount for 900.
abbrev pub gateways : Gateways
gateways = record {
  canonical_gateway_name = λ n. ok n;
  route_gateway_name = λ n. ok n;
  create_payment_gateway = λ n c. ok [];
  pay = λ c r. ok "https://pay.example/1";
  verify_notify = λ c q. ok accepted;
}

-- The buyer, invited by the user 2.
abbrev pub buyer : User
buyer = record {
  email = "buyer@example.com";
  invite_user_id = some 2;
  balance = pos 500;
  commission_rate = none;
  commission_balance = pos 80;
  t = 0;
  u = 7;
  d = 8;
  transfer_enable = 0;
  group_id = none;
  plan_id = none;
  speed_limit = none;
  device_limit = none;
  expired_at = 0;
}

abbrev pub inviter : User
inviter = record buyer { email = "inviter@example.com"; invite_user_id = none; balance = pos 0 }

abbrev pub plan : Plan
plan = record {
  name = "basic";
  group_id = 4;
  transfer_enable = 1000;
  device_limit = some 3;
  speed_limit = none;
  is_shown = true;
  renew = true;
  month_price = some (pos 1000);
  quarter_price = none;
  half_year_price = none;
  year_price = none;
  two_year_price = none;
  three_year_price = none;
  onetime_price = none;
  reset_price = none;
  capacity_limit = some (pos 2);
}

-- Ten percent off, for two more orders.
abbrev pub coupon : Coupon
coupon = record {
  code = "TEN";
  name = "ten";
  kind = 1;
  value = pos 100;
  is_shown = true;
  limit_use = some (pos 2);
  limit_use_with_user = some (pos 1);
  limit_plan_ids = none;
  limit_period = none;
  started_at = 0;
  ended_at = 9000000;
}

abbrev pub payment : Payment
payment = record {
  uuid = "P1";
  payment = "EPay";
  config = dict_config (("url", "https://pay") ∷ ("pid", "9") ∷ ("key", "k") ∷ []);
  notify_domain = none;
  handling_fee_fixed = some (pos 100);
  handling_fee_percent = none;
  enable = true;
}

-- A month of the plan 5: the price 1000 less the coupon's 100 and 100 of the balance, and a fee of
-- 100.
abbrev pub order : Order
order = record {
  invite_user_id = some 2;
  user_id = 1;
  plan_id = 5;
  coupon_id = some 6;
  payment_id = some 7;
  kind = 1;
  period = month_price;
  trade_no = "T1";
  callback_no = none;
  total_amount = pos 800;
  handling_amount = some (pos 100);
  discount_amount = some (pos 100);
  surplus_amount = none;
  balance_amount = some (pos 100);
  status = 0;
  commission_status = 0;
  commission_balance = pos 0;
  actual_commission_balance = none;
  paid_at = none;
  created_at = 1000;
}

-- Two users, a plan, a coupon and a payment method; no order.
abbrev pub shop : Db
shop = record {
  users = (1, buyer) ∷ (2, inviter) ∷ [];
  plans = (5, plan) ∷ [];
  orders = [];
  next_order = 1;
  coupons = (6, coupon) ∷ [];
  next_coupon = 7;
  payments = (7, payment) ∷ [];
  commission_logs = [];
  next_commission_log = 1;
  giftcards = [];
  next_giftcard = 1;
  redemptions = [];
  next_redemption = 1;
  log_events = [];
}

-- The order waits for its payment.
abbrev pub waiting : Db
waiting = record shop { orders = (1, order) ∷ []; next_order = 2 }

-- A cancelled order.
abbrev pub closed : Db
closed = record shop { orders = (1, record order { status = 2 }) ∷ []; next_order = 2 }

pub waiting-IsSound : IsSound waiting
unfolding lookup
waiting-IsSound = ((λ j h. ground arith), (refl, tt))

pub closed-IsSound : IsSound closed
unfolding lookup
closed-IsSound = ((λ j h. ground arith), (refl, tt))
