-- ===== src/Order/Process/Fulfil.antt =====
-- What a paid order does to its user: the one row that it writes.
use py_board.Prelude.{
  ℕ, ◌≡◌, refl, ◌⊎◌, inl, inr, get_or, arith, Bool-cases, Option-cases, if◌then◌else◌,
}
use py_board.Prelude.Int.{ℤ, pos, ◌-ℤ◌, ◌≤ℤ◌, ltb_ℤ, int_laws}
use py_board.Runtime.{Env}
use py_board.Model.Period.{period_months}
use py_board.Model.Entity.{User, Plan, Order}
use py_board.Exec.{ok}
use py_board.Db.{Db}
use py_board.Coupon.{consume_for_paid_order}
use py_board.Coupon.Checks.{validate_coupon-reads}
use py_board.Order.Rules.{ensure_plan_capacity_available}
use py_board.Order.Process.{pay_balance, open_period, use_coupon, take_slot}

-- The balance that an order takes: nothing, if none is set or it is not positive.
abbrev pub taken : Order → ℤ
taken o =
    if ltb_ℤ (pos 0) (get_or o.balance_amount (pos 0))
    then get_or o.balance_amount (pos 0)
    else pos 0

pub pay_balance_lem :
    (o : Order) (user user' : User)
    → pay_balance o user ≡ ok user'
    → (user'.balance ≡ user.balance -ℤ taken o)
      × ((taken o ≡ pos 0) ⊎ (taken o ≤ℤ user.balance))
      × (user'.plan_id ≡ user.plan_id)
      × (user'.expired_at ≡ user.expired_at)
      × (user'.commission_balance ≡ user.commission_balance)
unfolding pay_balance
pay_balance_lem o user user' h =
    elim (Bool-cases (ltb_ℤ (pos 0) (get_or o.balance_amount (pos 0)))) [
      | inl uses ↦ rw uses (ground arith)
      | inr free ↦
          let same : user ≡ user' = ground arith in
          let zero_off : user.balance ≡ user.balance -ℤ pos 0 = omega int_laws in
          rw (← same, free) (zero_off, inl refl, refl, refl, refl)
    ]

module _ (env : Env) where
  pub open_period_keeps :
      (o : Order) (p : ℕ) (plan : Plan) (user user' : User)
      → open_period env o p plan user ≡ ok user'
      → (user'.balance ≡ user.balance) × (user'.commission_balance ≡ user.commission_balance)
  unfolding open_period
  open_period_keeps o p plan user user' h = elim (Option-cases (period_months o.period)) [
    | inl none_set ↦ ground arith
    | inr (n, e) ↦ ground arith
  ]

  consume-users :
      (j : ℕ) (o : Order) (s : Db) → (consume_for_paid_order env j o s).1.users ≡ s.users
  unfolding consume_for_paid_order
  consume-users j o s = grind (arith, validate_coupon-reads)

  pub use_coupon-users : (j : ℕ) (o : Order) (s : Db) → (use_coupon env j o s).1.users ≡ s.users
  unfolding use_coupon
  use_coupon-users j o s = ground (arith, consume-users j o s)

  pub take_slot-reads :
      (o : Order) (p : ℕ) (plan : Plan) (u : User) (s : Db) → (take_slot env o p plan u s).1 ≡ s
  unfolding take_slot ensure_plan_capacity_available
  take_slot-reads o p plan u s = elim (Option-cases plan.capacity_limit) [
    | inl unlimited ↦ ground arith
    | inr (l, e) ↦ ground arith
  ]
