-- ===== src/Order/Manage.antt =====
-- The other operations on an order: the user's and the administrator's cancellation, the manual
-- payment, the administrator's update, and the queue job `order_handle` (app/queues/jobs/order.py).
use py_board.Prelude.{ℕ, ◌+◌, String, Bool, true, not, Option, none, some, ◌==◌, leb, if◌then◌else◌}
use py_board.Runtime.{Env}
use py_board.Model.Entity.{Order}
use py_board.Exec.{
  ok, not_found, bad_request, integrity_error, order_missing, only_pending_cancel, only_pending,
  ◌>>=◌, ◌>>◌, pure, done, raise, raise_if, or_raise, gets,
}
use py_board.Db.{Service, get_by_trade_no, set_order, log_event}
use py_board.Order.Process.{process_paid_order, order_event}

-- `order is None or order.user_id != user_id`
abbrev pub owned_by : ℕ → Option (ℕ × Order) → Option (ℕ × Order)
owned_by user_id none = none
owned_by user_id (some (i, o)) = if o.user_id == user_id then some (i, o) else none

abbrev pub cancelled : Order → Order
cancelled o = record o { status = 2 }

-- `OrderService.check_order_status`
unfoldable pub check_order_status : String → ℕ → Service ℕ
check_order_status trade_no user_id = do
  found ← gets (λ s. owned_by user_id (get_by_trade_no trade_no s))
  (i, o) ← or_raise found (not_found order_missing)
  pure o.status

-- `OrderService.cancel_order`
unfoldable pub cancel_order : String → ℕ → Service Bool
cancel_order trade_no user_id = do
  found ← gets (λ s. owned_by user_id (get_by_trade_no trade_no s))
  (i, o) ← or_raise found (not_found order_missing)
  raise_if (not (o.status == 0)) (bad_request only_pending_cancel)
  set_order i (cancelled o)
  log_event (order_event o "order.cancelled" "user" (some user_id))
  pure true

-- `OrderService.admin_cancel_order`
unfoldable pub admin_cancel_order : String → Option ℕ → Service Bool
admin_cancel_order trade_no actor_id = do
  found ← gets (get_by_trade_no trade_no)
  (i, o) ← or_raise found (not_found order_missing)
  raise_if (not (o.status == 0)) (bad_request only_pending)
  set_order i (cancelled o)
  log_event (order_event o "order.cancelled" "admin" actor_id)
  pure true

-- The loop of `setattr` in `admin_update_order`.
unfoldable pub set_commission_status : ℕ → Order → Option (Option ℕ) → Service (Unit {0})
set_commission_status i o none = done
set_commission_status i o (some none) = raise integrity_error
set_commission_status i o (some (some n)) = set_order i (record o { commission_status = n })

-- `OrderService.admin_update_order`: the one field of `AdminOrderUpdate`, if it was sent; the column
-- is not nullable.
unfoldable pub admin_update_order : String → Option (Option ℕ) → Option ℕ → Service Bool
admin_update_order trade_no commission_status actor_id = do
  found ← gets (get_by_trade_no trade_no)
  (i, o) ← or_raise found (not_found order_missing)
  set_commission_status i o commission_status
  log_event (order_event o "order.updated" "admin" actor_id)
  pure true

module _ (env : Env) where
  -- `OrderService.admin_mark_paid`
  unfoldable pub admin_mark_paid : String → Option ℕ → Service Bool
  admin_mark_paid trade_no actor_id = do
    found ← gets (get_by_trade_no trade_no)
    (i, o) ← or_raise found (not_found order_missing)
    raise_if (not (o.status == 0)) (bad_request only_pending)
    process_paid_order env i (some "manual_operation") "admin" actor_id
    log_event (order_event o "order.admin_paid" "admin" actor_id)
    pure true

  -- `order_handle`: an order that was not paid within two hours is cancelled, one whose payment was
  -- recorded is opened.
  unfoldable pub order_handle : String → Service (Unit {0})
  order_handle trade_no s = elim (get_by_trade_no trade_no s) [
    | none ↦ (ok tt, s)
    | some (i, o) ↦
        if o.status == 0
        then (if leb (o.created_at + 7200) env.now then set_order i (cancelled o) s else (ok tt, s))
        else if o.status == 1
        then process_paid_order env i none "system" none s
        else (ok tt, s)
  ]
