-- ===== src/Order/Process.antt =====
-- `OrderService._process_paid_order`: a paid order credits the deposit, or takes the coupon and the
-- balance and opens the plan; then the order is completed and the commission is calculated.
pub mod Fulfil
pub mod Balance
pub mod Capacity
use py_board.Prelude.{
  ℕ, String, Bool, true, false, not, ◌&&◌, ◌||◌, Option, none, some, ◌==◌, ltb, is_none, get_or,
  if◌then◌else◌,
}
use py_board.Prelude.Int.{ℤ, pos, ◌+ℤ◌, ◌-ℤ◌, ltb_ℤ}
use py_board.Prelude.Rows.{lookup}
use py_board.Runtime.{Env}
use py_board.Model.Period.{Period, is_deposit, is_reset_price, is_onetime_price, period_months}
use py_board.Model.Entity.{User, Plan, Order, LogEvent}
use py_board.Exec.{
  Exec, Result, ok, err, not_found, bad_request, order_gone, user_missing, plan_missing,
  balance_short, period_unsupported, ◌>>=◌, ◌>>◌, pure, raise, raise_if, done, or_raise, gets, lift,
}
use py_board.Db.{Db, Service, set_user, set_order, log_event}
use py_board.Coupon.{consume_for_paid_order}
use py_board.Commission.{calculate_for_order}
use py_board.Order.Rules.{
  never_expires_at, is_user_active, add_months, requires_capacity_slot,
  ensure_plan_capacity_available, deposit_bonus,
}

-- `_log_order_event`
abbrev pub order_event : Order → String → String → Option ℕ → LogEvent
order_event o event actor_type actor_id = record {
  category = "audit";
  event = event;
  actor_type = actor_type;
  actor_id = actor_id;
  target_type = "order";
  target_id = o.trade_no;
}

-- `locked_order.status = 1`, and the callback number if one is given.
abbrev pub begun : Order → Option String → Order
begun o none = record o { status = 1 }
begun o (some c) = record o { status = 1; callback_no = some c }

-- `locked_order.status = 3` and `paid_at`.
abbrev pub completed : Order → ℕ → Order
completed o now = record o { status = 3; paid_at = some now }

-- The plan's benefits on the user's row.
abbrev pub with_plan : User → ℕ → Plan → ℕ → User
with_plan user plan_id plan expired_at = record user {
  transfer_enable = plan.transfer_enable;
  device_limit = plan.device_limit;
  plan_id = some plan_id;
  group_id = some plan.group_id;
  speed_limit = plan.speed_limit;
  expired_at = expired_at;
}

abbrev pub without_traffic : User → User
without_traffic user = record user { u = 0; d = 0 }

-- The balance that the order was created to use.
unfoldable pub pay_balance : Order → User → Result User
pay_balance o user =
    let amount = get_or o.balance_amount (pos 0) in
    if ltb_ℤ (pos 0) amount
    then (if ltb_ℤ user.balance amount
        then err (bad_request balance_short)
        else ok (record user { balance = user.balance -ℤ amount }))
    else ok user

module _ (env : Env) where
  -- The three kinds of period.
  unfoldable pub open_period : Order → ℕ → Plan → User → Result User
  open_period o plan_id plan user =
      if is_reset_price o.period
      then ok (without_traffic user)
      else if is_onetime_price o.period
      then ok (with_plan (without_traffic user) plan_id plan never_expires_at)
      else elim (period_months o.period) [
        | none ↦ err (bad_request period_unsupported)
        | some months ↦
            let user' =
              if o.kind == 1 || not (is_user_active env (some user.expired_at))
              then without_traffic user
              else user in
            ok (with_plan user' plan_id plan (add_months env user.expired_at months))
      ]

  -- `locked_order.coupon_id is not None and (locked_order.discount_amount or 0) > 0`
  unfoldable pub use_coupon : ℕ → Order → Service (Unit {0})
  use_coupon i o =
      if not (is_none o.coupon_id) && ltb_ℤ (pos 0) (get_or o.discount_amount (pos 0))
      then consume_for_paid_order env i o
      else done

  unfoldable pub take_slot : Order → ℕ → Plan → User → Service (Unit {0})
  take_slot o plan_id plan user =
      if requires_capacity_slot env user.plan_id (some user.expired_at) plan_id o.period
      then ensure_plan_capacity_available env plan_id plan.capacity_limit
      else done

  -- The branch of an order of a plan.
  unfoldable pub open_plan : ℕ → Order → User → Service (Unit {0})
  open_plan i o user = do
    found ← gets (λ s. lookup o.plan_id s.plans)
    plan ← or_raise found (not_found plan_missing)
    take_slot o o.plan_id plan user
    use_coupon i o
    paid ← lift (pay_balance o user)
    opened ← lift (open_period o o.plan_id plan paid)
    set_user o.user_id opened

  -- The branch of a deposit.
  unfoldable pub credit_deposit : Order → User → Service (Unit {0})
  credit_deposit o user = do
    bonus ← lift (deposit_bonus env o.total_amount)
    set_user o.user_id (record user { balance = user.balance +ℤ o.total_amount +ℤ bonus })

  unfoldable pub fulfil : ℕ → Order → User → Service (Unit {0})
  fulfil i o user =
      if is_deposit o.period || o.plan_id == 0 then credit_deposit o user else open_plan i o user

  -- `locked_order.status = 3` and what follows it.
  unfoldable pub finish : ℕ → Order → String → Option ℕ → Service (Unit {0})
  finish i o actor_type actor_id = do
    set_order i (completed o env.now)
    if o.plan_id == 0 then done else calculate_for_order env i
    log_event (order_event o "order.completed" actor_type actor_id)

  -- From the lock of the order's row on, for a row with status 0 or 1.
  unfoldable pub complete : ℕ → Order → Option String → String → Option ℕ → Service (Unit {0})
  complete i o callback_no actor_type actor_id = do
    set_order i (begun o callback_no)
    found ← gets (λ s. lookup o.user_id s.users)
    user ← or_raise found (not_found user_missing)
    fulfil i (begun o callback_no) user
    finish i (begun o callback_no) actor_type actor_id

  unfoldable pub process_paid_order : ℕ → Option String → String → Option ℕ → Service (Unit {0})
  process_paid_order i callback_no actor_type actor_id = do
    found ← gets (λ s. lookup i s.orders)
    o ← or_raise found (not_found order_gone)
    if o.status == 0 || o.status == 1 then complete i o callback_no actor_type actor_id else done
