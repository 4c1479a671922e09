-- ===== src/Lifecycle/Steps.antt =====
-- The steps of the payment of an order, of the commission and of the coupon, and the orders.
use py_board.Prelude.{
  ℕ, ◌≡◌, refl, inl, inr, Option, none, some, arith, Option-cases, Bool-cases, ◌==◌, is_none,
  if◌then◌else◌,
}
use py_board.Prelude.Int.{ℤ, pos, leb_ℤ}
use py_board.Prelude.Rows.{lookup, lookup-insert_self}
use py_board.Runtime.{Env}
use py_board.Model.Entity.{User, Order}
use py_board.Exec.{Result-cases}
use py_board.Db.{Db, get_commission_log, create_commission_log, set_order}
use py_board.Coupon.{consume_for_paid_order}
use py_board.Coupon.Checks.{validate_coupon-reads}
use py_board.Commission.{
  commission_amount, is_repeat, is_skipped, refuse, or_key, calculate_for_order,
  calculate_unskipped, pay_commission, pay_for, pay_inviter, grant,
}
use py_board.Order.Rules.{ensure_plan_capacity_available}
use py_board.Order.Process.{fulfil, open_plan, credit_deposit, take_slot, use_coupon}
use py_board.Lifecycle.Relation.{
  Follows, Progress, Progress-refl, Progress-trans, Progress-set_order, Progress-write,
}

-- The orders and the number of the next one are as they were.
abbrev pub SameOrders : Db → Db → Type 0
SameOrders s s' = (s'.orders ≡ s.orders) × (s'.next_order ≡ s.next_order)

create_commission_log-SameOrders : (l : _) (s : Db) → SameOrders s (create_commission_log l s).1
unfolding create_commission_log
create_commission_log-SameOrders l s = ground arith

module _ (env : Env) where
  pub consume-SameOrders :
      (j : ℕ) (o : Order) (s : Db) → SameOrders s (consume_for_paid_order env j o s).1
  unfolding consume_for_paid_order
  consume-SameOrders j o s = grind (arith, validate_coupon-reads)

  pub use_coupon-SameOrders : (j : ℕ) (o : Order) (s : Db) → SameOrders s (use_coupon env j o s).1
  unfolding use_coupon
  use_coupon-SameOrders j o s = ground (arith, consume-SameOrders j o s)

  ensure-reads : (p : ℕ) (l : Option ℤ) (s : Db) → (ensure_plan_capacity_available env p l s).1 ≡ s
  unfolding ensure_plan_capacity_available
  ensure-reads p none s = refl
  ensure-reads p (some l) s = ground arith

  pub take_slot-reads :
      (o : Order) (p : ℕ) (plan : _) (u : User) (s : Db) → (take_slot env o p plan u s).1 ≡ s
  unfolding take_slot
  take_slot-reads o p plan u s = ground (arith, ensure-reads p plan.capacity_limit s)

  open_plan-SameOrders :
      (j : ℕ) (o : Order) (u : User) (s : Db) → SameOrders s (open_plan env j o u s).1
  unfolding open_plan
  open_plan-SameOrders j o u s = grind (arith, take_slot-reads, use_coupon-SameOrders)

  credit_deposit-SameOrders :
      (o : Order) (u : User) (s : Db) → SameOrders s (credit_deposit env o u s).1
  unfolding credit_deposit
  credit_deposit-SameOrders o u s = ground arith

  pub fulfil-SameOrders :
      (j : ℕ) (o : Order) (u : User) (s : Db) → SameOrders s (fulfil env j o u s).1
  unfolding fulfil
  fulfil-SameOrders j o u s =
      ground (arith, open_plan-SameOrders j o u s, credit_deposit-SameOrders o u s)

-- What a commission writes on the order's row.
abbrev with_commission : Order → Option ℕ → ℤ → Option ℤ → ℕ → Order
with_commission o w balance actual status = record o {
  invite_user_id = w;
  commission_balance = balance;
  actual_commission_balance = actual;
  commission_status = status;
}

with_commission-Follows :
    (o : Order) (w : Option ℕ) (b : ℤ) (a : Option ℤ) (n : ℕ)
    → Follows o (with_commission o w b a n)
with_commission-Follows o w b a n = ground arith

-- A commission writes the order's commission fields and its inviter.
module _ (env : Env) (i : ℕ) (o : Order) (s : Db) (here : lookup i s.orders ≡ some o) where
  refuse-Progress : (n : ℕ) → Progress s (set_order i (record o { commission_status = n }) s).1
  refuse-Progress n =
      Progress-set_order i o (record o { commission_status = n }) s here
        (with_commission-Follows o o.invite_user_id o.commission_balance o.actual_commission_balance
          n)

  grant-Progress :
      (w : ℕ) (inviter : User) (amount : ℤ) → Progress s (grant i o w inviter amount s).1
  unfolding grant
  grant-Progress w inviter amount =
      Progress-write i o (with_commission o (some w) amount (some amount) 2) here
        (with_commission-Follows o (some w) amount (some amount) 2)
        (grind (arith, create_commission_log-SameOrders))
        (grind (arith, create_commission_log-SameOrders))

  decide-Progress :
      (w : ℕ) (inviter : User) (amount : ℤ)
      → Progress s ((if leb_ℤ amount (pos 0) then refuse i o else grant i o w inviter amount) s).1
  decide-Progress w inviter amount = elim (Bool-cases (leb_ℤ amount (pos 0))) [
    | inl no_amount ↦ rw no_amount (refuse-Progress 3)
    | inr some_amount ↦ rw some_amount (grant-Progress w inviter amount)
  ]

  pay_inviter-Progress : (w : ℕ) (inviter : User) → Progress s (pay_inviter env i o w inviter s).1
  unfolding pay_inviter
  pay_inviter-Progress w inviter = elim (Bool-cases (is_repeat env o s)) [
    | inl again ↦ rw again (refuse-Progress 3)
    | inr first ↦ elim (Result-cases (commission_amount env o inviter)) [
      | inl (amount, e) ↦ rw (first, e) (decide-Progress w inviter amount)
      | inr (x, e) ↦ rw (first, e) (Progress-refl s)
    ]
  ]

  pay_for-Progress : (user : User) → Progress s (pay_for env i o user s).1
  unfolding pay_for
  pay_for-Progress user = elim (Option-cases (or_key o.invite_user_id user.invite_user_id)) [
    | inl nobody ↦ rw (nobody, pay_for) (refuse-Progress 3)
    | inr (w, e) ↦ elim (Bool-cases (w == o.user_id)) [
      | inl self ↦ rw (e, self, pay_for) (refuse-Progress 3)
      | inr other ↦ elim (Option-cases (lookup w s.users)) [
        | inl gone ↦ rw (e, other, gone, pay_for) (refuse-Progress 3)
        | inr (inviter, found) ↦ rw (e, other, found, pay_for) (pay_inviter-Progress w inviter)
      ]
    ]
  ]

  pay_commission-Progress : Progress s (pay_commission env i o s).1
  unfolding pay_commission
  pay_commission-Progress = elim (Option-cases (lookup o.user_id s.users)) [
    | inl gone ↦ rw (gone, pay_commission) (Progress-refl s)
    | inr (user, found) ↦ rw (found, pay_commission) (pay_for-Progress user)
  ]

module _ (env : Env) (i : ℕ) (s : Db) where
  calculate_unskipped-Progress :
      (o : Order) → lookup i s.orders ≡ some o → Progress s (calculate_unskipped env i o s).1
  unfolding calculate_unskipped
  calculate_unskipped-Progress o here =
      elim (Bool-cases (is_none (get_commission_log o.trade_no s))) [
        | inl fresh ↦ rw fresh (
            Progress-trans (refuse-Progress env i o s here 1) (
              pay_commission-Progress env i (record o { commission_status = 1 })
                (set_order i (record o { commission_status = 1 }) s).1
                (lookup-insert_self i (record o { commission_status = 1 }) s.orders)))
        | inr logged ↦ rw logged (refuse-Progress env i o s here 2)
      ]

  pub calculate_for_order-Progress : Progress s (calculate_for_order env i s).1
  unfolding calculate_for_order
  calculate_for_order-Progress = elim (Option-cases (lookup i s.orders)) [
    | inl gone ↦ rw (gone, calculate_for_order) (Progress-refl s)
    | inr (o, here) ↦ elim (Bool-cases (is_skipped o)) [
      | inl skip ↦ rw (here, skip, calculate_for_order) (Progress-refl s)
      | inr work ↦ rw (here, work, calculate_for_order) (calculate_unskipped-Progress o here)
    ]
  ]
