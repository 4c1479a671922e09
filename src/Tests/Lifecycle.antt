-- ===== src/Tests/Lifecycle.antt =====
-- Runs of a payment that is processed, and of histories.
use py_board.Prelude.{◌≡◌, refl, ◌⊎◌, inl, none, some, [], ◌∷◌, arith}
use py_board.Prelude.Int.{pos, ◌+ℤ◌, ◌-ℤ◌, ◌*ℤ◌}
use py_board.Prelude.Rows.{lookup, insert, find, count}
use py_board.Model.Entity.{Order}
use py_board.Exec.{Result, ok, request}
use py_board.Order.Manage.{admin_cancel_order, order_handle}
use py_board.Db.{Db, create_commission_log}
use py_board.Coupon.{
  consume_for_paid_order, validate_coupon, check_plan, check_period, check_user_limit,
  calculate_discount, parse_optional_list,
}
use py_board.Commission.{
  calculate_for_order, calculate_unskipped, pay_commission, pay_for, pay_inviter, commission_amount,
  grant,
}
use py_board.Runtime.{truncate}
use py_board.Order.Rules.{
  requires_capacity_slot, ensure_plan_capacity_available, is_user_active, add_months, add_months_to,
}
use py_board.Order.Process.{
  process_paid_order, complete, fulfil, open_plan, take_slot, use_coupon, pay_balance, open_period,
  finish,
}
use py_board.Lifecycle.Relation.{Follows, IsSound}
use py_board.Lifecycle.Completion.{process_paid_order-completes, process_paid_order_idem}
use py_board.Lifecycle.History
use py_board.Lifecycle.History.{Step, Reach, history-Follows, closed_for_good}
use py_board.Lifecycle.Balances.{Settled, process_paid_order-balances}
use py_board.Lifecycle.Credits.{commission_once}
use py_board.Commission.Grant.{Quiet, Outcome, calculate_for_order-Outcome}
use py_board.Tests.Data.{
  buyer, inviter, env_at, waiting, closed, order, waiting-IsSound, closed-IsSound,
}

abbrev paid : Result (Unit {0}) × Db
paid = process_paid_order (env_at 2000) 1 (some "C1") "system" none waiting

paid_returns : paid.0 ≡ ok tt
unfolding process_paid_order complete fulfil open_plan take_slot use_coupon pay_balance open_period
    finish requires_capacity_slot ensure_plan_capacity_available is_user_active add_months
    add_months_to consume_for_paid_order validate_coupon check_plan check_period check_user_limit
    calculate_discount parse_optional_list calculate_for_order calculate_unskipped pay_commission
    pay_for pay_inviter commission_amount grant create_commission_log truncate lookup insert find
    count ◌+ℤ◌ ◌-ℤ◌ ◌*ℤ◌
paid_returns = refl

-- A second callback of the gateway, later.
process_paid_order_idem_example :
    process_paid_order (env_at 3000) 1 (some "C2") "system" none paid.1 ≡ (ok tt, paid.1)
process_paid_order_idem_example =
    process_paid_order_idem (env_at 2000) 1 (some "C1") "system" none waiting (env_at 3000)
      (some "C2") "system" none waiting-IsSound paid_returns

process_paid_order-completes_example :
    (o : Order) × (lookup 1 paid.1.orders ≡ some o) × (o.status ≡ 3) × Follows order o
unfolding lookup
process_paid_order-completes_example =
    process_paid_order-completes (env_at 2000) 1 (some "C1") "system" none waiting order
      waiting-IsSound refl (inl refl) paid_returns

-- The gateway's callback opens the order, then the administrator tries to cancel it.
abbrev history :
    Reach waiting
      (request
        (admin_cancel_order "T1" (some 9))
        (request (order_handle (env_at 2000) "T1") waiting).1).1
history =
    History.next (History.next History.here (History.handled (env_at 2000) "T1" waiting))
      (History.admin_cancelled "T1" (some 9) (request (order_handle (env_at 2000) "T1") waiting).1)

history-Follows_example :
    (o : Order) × (lookup 1
        (request
          (admin_cancel_order "T1" (some 9))
          (request (order_handle (env_at 2000) "T1") waiting).1).1.orders
      ≡ some o)
    × Follows order o
unfolding lookup
history-Follows_example = history-Follows waiting-IsSound history 1 order refl

-- The callback of a gateway for an order that was cancelled.
abbrev late : Reach closed (request (order_handle (env_at 9000) "T1") closed).1
late = History.next History.here (History.handled (env_at 9000) "T1" closed)

closed_for_good_example :
    (o : Order) × (lookup 1 (request (order_handle (env_at 9000) "T1") closed).1.orders ≡ some o)
    × (o.status ≡ 2)
unfolding lookup
closed_for_good_example =
    closed_for_good closed-IsSound late 1 (record order { status = 2 }) refl (inl refl)

process_paid_order-balances_example : Settled (env_at 2000) 1 order buyer waiting.users paid.1.users
unfolding lookup
process_paid_order-balances_example =
    process_paid_order-balances (env_at 2000) 1 (some "C1") "system" none waiting order buyer refl
      refl refl paid_returns

-- The order of the buyer, completed, whose commission goes to the user 2.
abbrev completed_order : Db
completed_order = record waiting { orders = (1, record order { status = 3 }) ∷ [] }

completed-IsSound : IsSound completed_order
unfolding lookup
completed-IsSound = ((λ j h. ground arith), (refl, tt))

commission_once_example :
    Quiet completed_order (calculate_for_order (env_at 2000) 1 completed_order).1
    ⊎ Quiet
        (calculate_for_order (env_at 2000) 1 completed_order).1
        (calculate_for_order
          (env_at 3000)
          1
          (calculate_for_order (env_at 2000) 1 completed_order).1).1
unfolding lookup
commission_once_example =
    commission_once (env_at 2000) (env_at 3000) 1 completed_order (record order { status = 3 })
      completed-IsSound refl

calculate_for_order-Outcome_example :
    Outcome completed_order (calculate_for_order (env_at 2000) 1 completed_order).1 1 "T1" (pos 800)
unfolding lookup
calculate_for_order-Outcome_example =
    calculate_for_order-Outcome (env_at 2000) 1 completed_order (record order { status = 3 }) refl

-- Eighty of the eight hundred that were paid: ten percent.
credited :
    lookup 2 (calculate_for_order (env_at 2000) 1 completed_order).1.users
    ≡ some (record inviter { commission_balance = pos 160 })
unfolding calculate_for_order calculate_unskipped pay_commission pay_for pay_inviter
    commission_amount grant create_commission_log truncate lookup insert find count ◌+ℤ◌ ◌-ℤ◌ ◌*ℤ◌
credited = refl
