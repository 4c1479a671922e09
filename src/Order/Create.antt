-- ===== src/Order/Create.antt =====
-- `OrderService.create_order` and `OrderService.admin_assign_order`.
pub mod Placed
pub mod Price
use text.Mathlib.Text.{◌==◌ as str_eq}
use py_board.Prelude.{
  ℕ, zero, String, Bool, true, false, not, ◌&&◌, ◌||◌, Option, none, some, ◌==◌, is_none, opt_eq,
  if◌then◌else◌,
}
use py_board.Prelude.Int.{ℤ, pos, ◌-ℤ◌, ltb_ℤ, leb_ℤ}
use py_board.Prelude.Rows.{lookup}
use py_board.Runtime.{Env}
use py_board.Model.Period
use py_board.Model.Period.{Period, in_price_periods, is_reset_price}
use py_board.Model.Entity.{User, Plan, Order}
use py_board.Exec.{
  Result, ok, err, not_found, bad_request, conflict, pending_exists, user_pending_exists,
  user_missing, plan_missing, deposit_coupon, deposit_not_positive, deposit_too_large,
  period_unsupported, reset_refused, plan_refused, ◌>>=◌, ◌>>◌, pure, raise, raise_if, done,
  or_raise, gets, lift,
}
use py_board.Db.{Db, Service, has_pending_order, get_by_email, create_order_row, log_event}
use py_board.Coupon.{apply_to_order}
use py_board.Order.Rules.{
  is_user_active, determine_order_type, requires_capacity_slot, ensure_plan_capacity_available,
}
use py_board.Order.Process.{order_event}

-- app/models/order/dto.py, `OrderCreate`
pub record OrderCreate : Type 0 where
  pub plan_id : ℕ
  pub period : Period
  pub coupon_code : Option String
  pub deposit_amount : Option ℤ

-- app/models/order/dto.py, `AdminOrderAssign`
pub record AdminOrderAssign : Type 0 where
  pub email : String
  pub plan_id : ℕ
  pub period : Period
  pub total_amount : ℤ

-- `if data.coupon_code:`
abbrev pub given_code : Option String → Option String
given_code none = none
given_code (some c) = if str_eq c "" then none else some c

-- `Order(…)` with the columns' defaults.
abbrev pub new_order : ℕ → User → ℕ → Period → String → ℤ → ℕ → ℕ → Order
new_order user_id user plan_id period trade_no total_amount kind now = record {
  invite_user_id = user.invite_user_id;
  user_id = user_id;
  plan_id = plan_id;
  coupon_id = none;
  payment_id = none;
  kind = kind;
  period = period;
  trade_no = trade_no;
  callback_no = none;
  total_amount = total_amount;
  handling_amount = none;
  discount_amount = none;
  surplus_amount = none;
  balance_amount = none;
  status = 0;
  commission_status = 0;
  commission_balance = pos 0;
  actual_commission_balance = none;
  paid_at = none;
  created_at = now;
}

-- `getattr(plan, data.period)`
unfoldable pub period_price : Plan → Period → Option ℤ
period_price plan Period.month_price = plan.month_price
period_price plan Period.quarter_price = plan.quarter_price
period_price plan Period.half_year_price = plan.half_year_price
period_price plan Period.year_price = plan.year_price
period_price plan Period.two_year_price = plan.two_year_price
period_price plan Period.three_year_price = plan.three_year_price
period_price plan Period.onetime_price = plan.onetime_price
period_price plan Period.reset_price = plan.reset_price
period_price plan Period.deposit = none
period_price plan (Period.other s) = none

-- `if period_price is None or period_price < 0: raise`
unfoldable pub price_or_raise : Option ℤ → Result ℤ
price_or_raise none = err (bad_request period_unsupported)
price_or_raise (some p) = if ltb_ℤ p (pos 0) then err (bad_request period_unsupported) else ok p

-- What the balance pays of an order, and what is left to pay.
unfoldable pub use_balance : ℤ → Order → Order
use_balance balance o =
    if ltb_ℤ (pos 0) balance
    then (if leb_ℤ o.total_amount balance
        then record o { total_amount = pos 0; balance_amount = some o.total_amount }
        else record o { total_amount = o.total_amount -ℤ balance; balance_amount = some balance })
    else record o { balance_amount = none }

module _ (env : Env) where
  -- The branch of a deposit.
  unfoldable pub create_deposit : ℕ → User → OrderCreate → String → Service String
  create_deposit user_id user body trade_no = do
    raise_if (not (is_none (given_code body.coupon_code))) (bad_request deposit_coupon)
    amount ← or_raise body.deposit_amount (bad_request deposit_not_positive)
    raise_if (leb_ℤ amount (pos 0)) (bad_request deposit_not_positive)
    raise_if (leb_ℤ (pos 9999999) amount) (bad_request deposit_too_large)
    let o = new_order user_id user 0 Period.deposit trade_no amount 9 env.now
    create_order_row o
    log_event (order_event o "order.created" "user" (some user_id))
    pure trade_no

  -- Who may buy the plan for the period.
  unfoldable pub check_purchase : ℕ → User → Plan → Period → Service (Unit {0})
  check_purchase plan_id user plan period = do
    let active = is_user_active env (some user.expired_at)
    let holds = opt_eq user.plan_id (some plan_id)
    raise_if (is_reset_price period && (not active || not holds)) (bad_request reset_refused)
    raise_if
        (not (is_reset_price period)
          && (not plan.is_shown && (not plan.renew || (not holds || not active))))
        (bad_request plan_refused)
    raise_if (not (is_reset_price period) && (holds && not plan.renew)) (bad_request plan_refused)
    if requires_capacity_slot env user.plan_id (some user.expired_at) plan_id period
        then ensure_plan_capacity_available env plan_id plan.capacity_limit
        else done

  -- The coupon, before the balance.
  unfoldable pub discounted : Order → Option String → Service Order
  discounted o none = pure o
  discounted o (some code) = apply_to_order env o code

  -- The branch of an order of a plan.
  unfoldable pub create_plan_order : ℕ → User → OrderCreate → String → Service String
  create_plan_order user_id user body trade_no = do
    found ← gets (λ s. lookup body.plan_id s.plans)
    plan ← or_raise found (not_found plan_missing)
    raise_if (not (in_price_periods body.period)) (bad_request period_unsupported)
    check_purchase body.plan_id user plan body.period
    price ← lift (price_or_raise (period_price plan body.period))
    let kind = determine_order_type env user.plan_id (some user.expired_at) body.plan_id body.period
    let o = new_order user_id user body.plan_id body.period trade_no price kind env.now
    o' ← discounted o (given_code body.coupon_code)
    create_order_row (use_balance user.balance o')
    log_event (order_event o "order.created" "user" (some user_id))
    pure trade_no

  -- `OrderService.create_order`; `trade_no` is `generate_trade_no()`.
  unfoldable pub create_order : ℕ → OrderCreate → String → Service String
  create_order user_id body trade_no = do
    pending ← gets (has_pending_order user_id)
    raise_if pending (conflict pending_exists)
    found ← gets (λ s. lookup user_id s.users)
    user ← or_raise found (not_found user_missing)
    if body.plan_id == 0
        then create_deposit user_id user body trade_no
        else create_plan_order user_id user body trade_no

  -- `OrderService.admin_assign_order`
  unfoldable pub admin_assign_order : AdminOrderAssign → String → Option ℕ → Service String
  admin_assign_order body trade_no actor_id = do
    found ← gets (get_by_email body.email)
    (user_id, user) ← or_raise found (not_found user_missing)
    plan_found ← gets (λ s. lookup body.plan_id s.plans)
    plan ← or_raise plan_found (not_found plan_missing)
    pending ← gets (has_pending_order user_id)
    raise_if pending (conflict user_pending_exists)
    let kind = determine_order_type env user.plan_id (some user.expired_at) body.plan_id body.period
    let o = new_order user_id user body.plan_id body.period trade_no body.total_amount kind env.now
    create_order_row o
    log_event (order_event o "order.created" "admin" actor_id)
    pure trade_no
