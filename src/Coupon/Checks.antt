-- ===== src/Coupon/Checks.antt =====
-- The checks of a coupon and the database (`_validate_coupon`, `validate`).
use py_board.Prelude.{ℕ, String, ◌≡◌, Option, arith}
use py_board.Runtime.{Env}
use py_board.Model.Period.{Period}
use py_board.Model.Entity.{Order, Coupon}
use py_board.Db.{Db}
use py_board.Coupon.{
  check_plan, check_period, check_user_limit, validate_coupon, validate, apply_to_order,
}

module _ (env : Env) where
  pub check_plan-reads : (c : Coupon) (p : ℕ) (s : Db) → (check_plan env c p s).1 ≡ s
  unfolding check_plan
  check_plan-reads c p s = ground arith

  pub check_period-reads : (c : Coupon) (p : Period) (s : Db) → (check_period env c p s).1 ≡ s
  unfolding check_period
  check_period-reads c p s = ground arith

  pub check_user_limit-reads :
      (i : ℕ) (c : Coupon) (u : ℕ) (x : Option ℕ) (s : Db) → (check_user_limit env i c u x s).1 ≡ s
  unfolding check_user_limit
  check_user_limit-reads i c u x s = ground arith

  pub validate_coupon-reads :
      (i : ℕ) (c : Coupon) (u p : ℕ) (q : Period) (x : Option ℕ) (s : Db)
      → (validate_coupon env i c u p q x s).1 ≡ s
  unfolding validate_coupon
  validate_coupon-reads i c u p q x s =
      ground
        (arith, check_plan-reads c p s, check_period-reads c q s, check_user_limit-reads i c u x s)

  pub validate-reads :
      (code : String) (u p : ℕ) (q : Period) (s : Db) → (validate env code u p q s).1 ≡ s
  unfolding validate
  validate-reads code u p q s = grind (arith, validate_coupon-reads)

  pub apply_to_order-reads :
      (o : Order) (code : String) (s : Db) → (apply_to_order env o code s).1 ≡ s
  unfolding apply_to_order
  apply_to_order-reads o code s = ground (arith, validate-reads code o.user_id o.plan_id o.period s)
