-- ===== src/Lifecycle/Requests.antt =====
-- The requests that create orders, and the commission requests (app/services/commission.py).
use py_board.Prelude.{ℕ, String, refl, Option, none, some, arith}
use py_board.Prelude.Int.{ℤ}
use py_board.Runtime.{Env}
use py_board.Model.Period.{Period}
use py_board.Model.Entity.{User, Plan, Order}
use py_board.Coupon.Checks.{apply_to_order-reads}
use py_board.Commission.{transfer_commission, calc_commission}
use py_board.Order.Rules.{ensure_plan_capacity_available}
use py_board.Order.Process.{process_paid_order}
use py_board.Order.Create.{
  OrderCreate, AdminOrderAssign, create_order, create_deposit, create_plan_order, check_purchase,
  discounted, admin_assign_order,
}
use py_board.Lifecycle.Keeps.{Keeps, Keeps-reads, Keeps-request, keeps_rules}
use py_board.Lifecycle.Payment.{process_paid_order-Progress}
use py_board.Lifecycle.Steps.{calculate_for_order-Progress}

module _ (env : Env) where
  create_deposit-Keeps :
      (u : ℕ) (user : User) (b : OrderCreate) (t : String) → Keeps (create_deposit env u user b t)
  unfolding create_deposit
  create_deposit-Keeps u user b t = search keeps_rules depth 12

  discounted-Keeps : (o : Order) (c : Option String) → Keeps (discounted env o c)
  unfolding discounted
  discounted-Keeps o none = Keeps-reads _ (λ s. refl)
  discounted-Keeps o (some c) = Keeps-reads _ (apply_to_order-reads env o c)

  check_purchase-Keeps :
      (p : ℕ) (user : User) (plan : Plan) (q : Period) → Keeps (check_purchase env p user plan q)
  unfolding check_purchase ensure_plan_capacity_available
  check_purchase-Keeps p user plan q = Keeps-reads _ (λ s. ground arith)

  create_plan_order-Keeps :
      (u : ℕ) (user : User) (b : OrderCreate) (t : String)
      → Keeps (create_plan_order env u user b t)
  unfolding create_plan_order
  create_plan_order-Keeps u user b t =
      search (keeps_rules, discounted-Keeps, check_purchase-Keeps) depth 14

  pub create_order-Keeps : (u : ℕ) (b : OrderCreate) (t : String) → Keeps (create_order env u b t)
  unfolding create_order
  create_order-Keeps u b t =
      search (keeps_rules, create_deposit-Keeps, create_plan_order-Keeps) depth 12

  pub admin_assign_order-Keeps :
      (b : AdminOrderAssign) (t : String) (a : Option ℕ) → Keeps (admin_assign_order env b t a)
  unfolding admin_assign_order
  admin_assign_order-Keeps b t a = search keeps_rules depth 14

  pub transfer_commission-Keeps :
      (u : ℕ) (n : ℤ) (t : String) → Keeps (transfer_commission env u n t)
  unfolding transfer_commission
  transfer_commission-Keeps u n t = search keeps_rules depth 14

  pub process_paid_order-Keeps :
      (i : ℕ) (c : Option String) (t : String) (a : Option ℕ)
      → Keeps (process_paid_order env i c t a)
  process_paid_order-Keeps i c t a = record { at = process_paid_order-Progress env i c t a }

  pub calc_commission-Keeps : (i : ℕ) → Keeps (calc_commission env i)
  unfolding calc_commission
  calc_commission-Keeps i = Keeps-request _ (record { at = calculate_for_order-Progress env i })
