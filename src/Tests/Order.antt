-- ===== src/Tests/Order.antt =====
-- Runs of the creation of an order, of its discount and of a gateway's callback.
use py_board.Prelude.{ℕ, String, ◌≡◌, refl, true, none, some, [], ◌∷◌, arith}
use py_board.Prelude.Int.{pos, ◌+ℤ◌, ◌-ℤ◌, ◌*ℤ◌}
use py_board.Prelude.Rows.{lookup, insert, find, count}
use py_board.Runtime.{truncate}
use py_board.Model.Period.{month_price}
use py_board.Model.Entity.{Order, Coupon, Payment}
use py_board.Exec.{Result, ok}
use py_board.Payments.{PaymentNotifyResult, Params}
use py_board.Db.{Db, create_order_row, create_commission_log}
use py_board.Coupon.{
  consume_for_paid_order, validate, normalize_code, validate_coupon, check_plan, check_period,
  check_user_limit, calculate_discount, parse_optional_list, apply_to_order, with_discount,
}
use py_board.Coupon.Discount.{IsWithin, calculate_discount-IsWithin}
use py_board.Commission.{
  calculate_for_order, calculate_unskipped, pay_commission, pay_for, pay_inviter, commission_amount,
  grant,
}
use py_board.Order.Rules.{
  requires_capacity_slot, ensure_plan_capacity_available, is_user_active, add_months, add_months_to,
  determine_order_type,
}
use py_board.Order.Process.{
  process_paid_order, complete, fulfil, open_plan, take_slot, use_coupon, pay_balance, open_period,
  finish,
}
use py_board.Order.Create.{
  OrderCreate, create_order, create_plan_order, check_purchase, price_or_raise, period_price,
  discounted, use_balance,
}
use py_board.Order.Create.Placed.{Placed, create_order-Placed}
use py_board.Order.Notify.{
  Answer, handle_payment_notify, open_gateway, verify, settle, success, fail, get_by_uuid,
}
use py_board.Order.Notify.Safety.{IsSettled, notify-success, notify-fail}
use py_board.Tests.Data.{env_at, gateways, shop, waiting, order, coupon}

abbrev body : OrderCreate
body = record { plan_id = 5; period = month_price; coupon_code = some "TEN"; deposit_amount = none }

-- The price 1000 is 100 of the coupon, 500 of the balance, and 400 to pay.
abbrev created : Result String × Db
created = create_order (env_at 2000) 1 body "T1" shop

created_returns : created.0 ≡ ok "T1"
unfolding create_order create_plan_order check_purchase price_or_raise period_price discounted
    use_balance create_order_row requires_capacity_slot ensure_plan_capacity_available
    is_user_active determine_order_type validate apply_to_order normalize_code validate_coupon
    check_plan check_period check_user_limit calculate_discount parse_optional_list truncate lookup
    insert find count ◌+ℤ◌ ◌-ℤ◌
created_returns = refl

create_order-Placed_example : Placed (env_at 2000) 1 body "T1" "T1" shop created.1
create_order-Placed_example =
    create_order-Placed (env_at 2000) 1 body "T1" "T1" shop refl created_returns

-- The order before its coupon.
abbrev full_price : Order
full_price = record order {
  coupon_id = none;
  discount_amount = none;
  balance_amount = none;
  total_amount = pos 1000;
}

applied :
    (apply_to_order (env_at 2000) full_price "TEN" shop).0
    ≡ ok (with_discount full_price 6 (pos 100))
unfolding apply_to_order validate normalize_code validate_coupon check_plan check_period
    check_user_limit calculate_discount parse_optional_list lookup find count ◌+ℤ◌ ◌-ℤ◌
applied = refl

-- A third off, as a percentage: the float arithmetic cuts the discount off.
abbrev third : Coupon
third = record coupon { kind = 2; value = pos 33 }

calculate_discount-IsWithin_example :
    IsWithin (pos 1001) (calculate_discount (env_at 2000) third (pos 1001))
calculate_discount-IsWithin_example =
    calculate_discount-IsWithin (env_at 2000) third (pos 1001) (omega arith)

abbrev answered : Result Answer × Db
answered = handle_payment_notify (env_at 2000) gateways "EPay" "P1" [] waiting

answered_success : answered.0 ≡ ok success
unfolding handle_payment_notify open_gateway verify settle process_paid_order complete fulfil
    open_plan take_slot use_coupon pay_balance open_period finish requires_capacity_slot
    ensure_plan_capacity_available is_user_active add_months add_months_to consume_for_paid_order
    validate_coupon check_plan check_period check_user_limit calculate_discount parse_optional_list
    calculate_for_order calculate_unskipped pay_commission pay_for pay_inviter commission_amount
    grant create_commission_log truncate lookup insert find count ◌+ℤ◌ ◌-ℤ◌ ◌*ℤ◌
answered_success = refl

notify-success_example :
    (m : ℕ) × (p : Payment) × (c : Params) × (get_by_uuid "P1" waiting ≡ some (m, p))
    × (p.enable ≡ true)
    × (open_gateway (env_at 2000) gateways "EPay" p ≡ ok (some c))
    × (notify : PaymentNotifyResult) × (gateways.verify_notify c [] ≡ ok notify)
    × (notify.is_success ≡ true)
    × IsSettled (env_at 2000) gateways m notify waiting
notify-success_example =
    notify-success (env_at 2000) gateways "EPay" "P1" [] waiting answered_success

-- The gateway reports the price without the fee that the order has now.
abbrev dearer : Db
dearer = record waiting { orders = (1, record order { handling_amount = some (pos 101) }) ∷ [] }

refused : (handle_payment_notify (env_at 2000) gateways "EPay" "P1" [] dearer).0 ≡ ok fail
unfolding handle_payment_notify open_gateway verify settle find ◌+ℤ◌
refused = refl

notify-fail_example :
    (handle_payment_notify (env_at 2000) gateways "EPay" "P1" [] dearer).1 ≡ dearer
notify-fail_example = notify-fail (env_at 2000) gateways "EPay" "P1" [] dearer refused
