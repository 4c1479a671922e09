-- ===== src/Commission.antt =====
-- app/services/commission.py: the commission of a paid order and the transfer of a commission balance.
pub mod Grant
use py_board.Prelude.{
  ℕ, zero, suc, String, Bool, true, not, ◌&&◌, ◌||◌, Option, none, some, ◌==◌, ltb, is_none,
  if◌then◌else◌,
}
use py_board.Prelude.Int.{ℤ, pos, ◌+ℤ◌, ◌-ℤ◌, ◌*ℤ◌, ltb_ℤ, leb_ℤ, eqb_ℤ}
use py_board.Prelude.Rows.{lookup}
use py_board.Runtime.{Env, truncate}
use py_board.Model.Period.{deposit}
use py_board.Model.Entity.{User, Order, LogEvent}
use py_board.Exec.{
  Result, ok, not_found, bad_request, user_missing, amount_not_positive, commission_short, ◌>>=◌,
  ◌>>◌, pure, raise_if, or_raise, gets, lift, request,
}
use py_board.Db.{
  Db, Service, set_user, set_order, log_event, get_commission_log, create_commission_log,
  create_order_row, count_completed_plan_orders,
}
use py_board.Coupon.{cut}

-- Python's `a or b` of two keys that may be `None`: zero counts as false too.
abbrev pub or_key : Option ℕ → Option ℕ → Option ℕ
or_key none b = b
or_key (some zero) b = b
or_key (some (suc n)) b = some (suc n)

-- `invite_user.commission_rate or default`
abbrev pub rate_or : Option ℤ → ℤ → ℤ
rate_or none default = default
rate_or (some r) default = if eqb_ℤ r (pos 0) then default else r

-- The orders that `calculate_for_order` leaves alone.
abbrev pub is_skipped : Order → Bool
is_skipped o =
    not (o.status == 3)
    || (o.plan_id == 0
        || (leb_ℤ o.total_amount (pos 0) || (o.commission_status == 2 || o.commission_status == 3)))

abbrev pub granted_event : ℕ → Order → LogEvent
granted_event invite_user_id o = record {
  category = "commission";
  event = "commission.granted";
  actor_type = "user";
  actor_id = some invite_user_id;
  target_type = "order";
  target_id = o.trade_no;
}

-- `commission_status = 3`: no commission for this order.
abbrev pub refuse : ℕ → Order → Service (Unit {0})
refuse i o = set_order i (record o { commission_status = 3 })

-- The credit of the inviter, the order's fields, the ledger row and the log event.
unfoldable pub grant : ℕ → Order → ℕ → User → ℤ → Service (Unit {0})
grant i o invite_user_id invite_user amount = do
  set_user invite_user_id
      (record invite_user { commission_balance = invite_user.commission_balance +ℤ amount })
  set_order i (record o {
    invite_user_id = some invite_user_id;
    commission_balance = amount;
    actual_commission_balance = some amount;
    commission_status = 2;
  })
  create_commission_log (record {
    invite_user_id = invite_user_id;
    user_id = o.user_id;
    trade_no = o.trade_no;
    order_amount = o.total_amount;
    get_amount = amount;
  })
  log_event (granted_event invite_user_id o)

module _ (env : Env) where
  -- `int(total_amount * rate / 100)`
  unfoldable pub commission_amount : Order → User → Result ℤ
  commission_amount o invite_user = cut (
      truncate (
        env.int_div
          (o.total_amount
            *ℤ rate_or invite_user.commission_rate (env.get_int "invite_commission" (pos 10)))
          (pos 100)))

  -- `first_time_only and count_completed_plan_orders(user_id) > 1`
  abbrev pub is_repeat : Order → Db → Bool
  is_repeat o s =
      not (eqb_ℤ (env.get_int "commission_first_time_enable" (pos 1)) (pos 0))
      && ltb 1 (count_completed_plan_orders o.user_id s)

  -- From the inviter on: the first-order rule and the amount.
  unfoldable pub pay_inviter : ℕ → Order → ℕ → User → Service (Unit {0})
  pay_inviter i o invite_user_id invite_user = do
    again ← gets (is_repeat o)
    if again then refuse i o else do
      amount ← lift (commission_amount o invite_user)
      if leb_ℤ amount (pos 0) then refuse i o else grant i o invite_user_id invite_user amount

  unfoldable pub pay_for : ℕ → Order → User → Service (Unit {0})
  pay_for i o user s = elim (or_key o.invite_user_id user.invite_user_id) [
    | none ↦ refuse i o s
    | some invite_user_id ↦
        if invite_user_id == o.user_id then refuse i o s else elim (lookup invite_user_id s.users) [
          | none ↦ refuse i o s
          | some invite_user ↦ pay_inviter i o invite_user_id invite_user s
        ]
  ]

  -- What follows `locked_order.commission_status = 1`.
  unfoldable pub pay_commission : ℕ → Order → Service (Unit {0})
  pay_commission i o s = elim (lookup o.user_id s.users) [
    | none ↦ (ok tt, s)
    | some user ↦ pay_for i o user s
  ]

  unfoldable pub calculate_unskipped : ℕ → Order → Service (Unit {0})
  calculate_unskipped i o = do
    logged ← gets (get_commission_log o.trade_no)
    if not (is_none logged) then set_order i (record o { commission_status = 2 }) else do
      set_order i (record o { commission_status = 1 })
      pay_commission i (record o { commission_status = 1 })

  -- `CommissionService.calculate_for_order`, of the order with key `i`.
  unfoldable pub calculate_for_order : ℕ → Service (Unit {0})
  calculate_for_order i s = elim (lookup i s.orders) [
    | none ↦ (ok tt, s)
    | some o ↦ if is_skipped o then (ok tt, s) else calculate_unskipped i o s
  ]

  -- `calc_commission` (app/queues/jobs/commission.py): a session of its own.
  unfoldable pub calc_commission : ℕ → Service (Unit {0})
  calc_commission i = request (calculate_for_order i)

  -- `InviteService.transfer_commission`; `trade_no` is `generate_trade_no()`.
  unfoldable pub transfer_commission : ℕ → ℤ → String → Service Bool
  transfer_commission user_id amount trade_no = do
    raise_if (leb_ℤ amount (pos 0)) (bad_request amount_not_positive)
    found ← gets (λ s. lookup user_id s.users)
    user ← or_raise found (not_found user_missing)
    raise_if (ltb_ℤ user.commission_balance amount) (bad_request commission_short)
    set_user user_id (record user {
      commission_balance = user.commission_balance -ℤ amount;
      balance = user.balance +ℤ amount;
    })
    create_order_row (record {
      invite_user_id = user.invite_user_id;
      user_id = user_id;
      plan_id = 0;
      coupon_id = none;
      payment_id = none;
      kind = 9;
      period = deposit;
      trade_no = trade_no;
      callback_no = some "佣金划转 Commission transfer";
      total_amount = pos 0;
      handling_amount = none;
      discount_amount = none;
      surplus_amount = some amount;
      balance_amount = none;
      status = 3;
      commission_status = 0;
      commission_balance = pos 0;
      actual_commission_balance = none;
      paid_at = none;
      created_at = env.now;
    })
    pure true
