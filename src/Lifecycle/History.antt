-- ===== src/Lifecycle/History.antt =====
-- Histories of requests. Each request is one transaction, committed or rolled back, with a clock, a
-- settings service and random numbers of its own; the payment gateways may answer anything.
use py_board.Prelude.{ℕ, String, ◌≡◌, ◌⊎◌, Option, some, arith}
use py_board.Prelude.Int.{ℤ}
use py_board.Prelude.Rows.{lookup}
use py_board.Runtime.{Env}
use py_board.Model.Entity.{Order}
use py_board.Exec.{request}
use py_board.Db.{Db}
use py_board.Payments.{Gateways, Params}
use py_board.Commission.{transfer_commission, calc_commission}
use py_board.Order.Create.{OrderCreate, AdminOrderAssign, create_order, admin_assign_order}
use py_board.Order.Checkout.{checkout}
use py_board.Order.Notify.{handle_payment_notify}
use py_board.Order.Manage.{
  cancel_order, admin_cancel_order, admin_update_order, admin_mark_paid, order_handle,
}
use py_board.Lifecycle.Relation.{Follows, Progress, Progress-refl, Progress-trans, IsSound}
use py_board.Lifecycle.Keeps.{Keeps-request}
use py_board.Lifecycle.Requests.{
  create_order-Keeps, admin_assign_order-Keeps, transfer_commission-Keeps, calc_commission-Keeps,
}
use py_board.Lifecycle.Managed.{
  cancel_order-Keeps, admin_cancel_order-Keeps, admin_update_order-Keeps, admin_mark_paid-Keeps,
  order_handle-Keeps, checkout-Keeps, handle_payment_notify-Keeps,
}

-- One request on the orders, of a user, an administrator, a gateway or the queue.
pub data Step : Db → Db → Type 0 where
  created :
      (env : Env) (u : ℕ) (b : OrderCreate) (t : String) (s : Db)
      → Step s (request (create_order env u b t) s).1
  assigned :
      (env : Env) (b : AdminOrderAssign) (t : String) (a : Option ℕ) (s : Db)
      → Step s (request (admin_assign_order env b t a) s).1
  checked_out :
      (env : Env) (g : Gateways) (u : ℕ) (t : String) (n : ℕ) (s : Db)
      → Step s (request (checkout env g u t n) s).1
  notified :
      (env : Env) (g : Gateways) (n u : String) (q : Params) (s : Db)
      → Step s (request (handle_payment_notify env g n u q) s).1
  cancelled : (t : String) (u : ℕ) (s : Db) → Step s (request (cancel_order t u) s).1
  admin_cancelled :
      (t : String) (a : Option ℕ) (s : Db) → Step s (request (admin_cancel_order t a) s).1
  updated :
      (t : String) (n : Option (Option ℕ)) (a : Option ℕ) (s : Db)
      → Step s (request (admin_update_order t n a) s).1
  marked_paid :
      (env : Env) (t : String) (a : Option ℕ) (s : Db)
      → Step s (request (admin_mark_paid env t a) s).1
  handled : (env : Env) (t : String) (s : Db) → Step s (request (order_handle env t) s).1
  transferred :
      (env : Env) (u : ℕ) (n : ℤ) (t : String) (s : Db)
      → Step s (request (transfer_commission env u n t) s).1
  commissioned : (env : Env) (i : ℕ) (s : Db) → Step s (calc_commission env i s).1

pub data Reach (s : Db) : Db → Type 0 where
  here : Reach s s
  next : {t u : Db} → Reach s t → Step t u → Reach s u

Step-Progress : {s t : Db} → Step s t → Progress s t
Step-Progress (created env u b t s) = (Keeps-request _ (create_order-Keeps env u b t)).at s
Step-Progress (assigned env b t a s) = (Keeps-request _ (admin_assign_order-Keeps env b t a)).at s
Step-Progress (checked_out env g u t n s) = (Keeps-request _ (checkout-Keeps env g u t n)).at s
Step-Progress (notified env g n u q s) =
    (Keeps-request _ (handle_payment_notify-Keeps env g n u q)).at s
Step-Progress (cancelled t u s) = (Keeps-request _ (cancel_order-Keeps t u)).at s
Step-Progress (admin_cancelled t a s) = (Keeps-request _ (admin_cancel_order-Keeps t a)).at s
Step-Progress (updated t n a s) = (Keeps-request _ (admin_update_order-Keeps t n a)).at s
Step-Progress (marked_paid env t a s) = (Keeps-request _ (admin_mark_paid-Keeps env t a)).at s
Step-Progress (handled env t s) = (Keeps-request _ (order_handle-Keeps env t)).at s
Step-Progress (transferred env u n t s) =
    (Keeps-request _ (transfer_commission-Keeps env u n t)).at s
Step-Progress (commissioned env i s) = (calc_commission-Keeps env i).at s

Reach-Progress : {s t : Db} → Reach s t → Progress s t
Reach-Progress {s} here = Progress-refl s
Reach-Progress (next r st) = Progress-trans (Reach-Progress r) (Step-Progress st)

-- From a database where the keys of the orders are unique and the next one is free, along any
-- history of the requests of services/order.py and of the commission (creation, assignment, checkout,
-- callback, cancellation, the administrator's changes, the job on an order, and the calculation and
-- transfer of commission, each committed or rolled back; the deletion of an account, which deletes
-- its orders, is not among them) an order is not lost: its user, plan, period, number, total, balance part,
-- discount and coupon stay as they were, and its status only moves from 0 to 1, 2 or 3 or from 1 to
-- 3.
pub history-Follows :
    {s t : Db}
    → IsSound s
    → Reach s t
    → (j : ℕ) (o : Order) → lookup j s.orders ≡ some o
    → (o' : Order) × (lookup j t.orders ≡ some o') × Follows o o'
history-Follows f r = (Reach-Progress r).row f

-- From a database where the keys of the orders are unique and the next one is free, along any
-- history of the requests of services/order.py and of the commission (the same ones; the deletion
-- of an account, which deletes its orders, is not among them) a cancelled order (status 2) stays cancelled and a completed one (status 3)
-- stays completed.
pub closed_for_good :
    {s t : Db}
    → IsSound s
    → Reach s t
    → (j : ℕ) (o : Order) → lookup j s.orders ≡ some o
    → ((o.status ≡ 2) ⊎ (o.status ≡ 3))
    → (o' : Order) × (lookup j t.orders ≡ some o') × (o'.status ≡ o.status)
closed_for_good f r j o e st = let (o', e', k) = history-Follows f r j o e in (o', e', same o' k)
  where
    same : (o' : Order) → Follows o o' → o'.status ≡ o.status
    same o' k = let later = k.status in ground arith
