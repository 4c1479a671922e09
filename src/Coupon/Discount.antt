-- ===== src/Coupon/Discount.antt =====
-- The discount of a coupon (`calculate_discount`), and what `apply_to_order` does to an order.
use mathlib.Core.Path.{subst}
use py_board.Prelude.{ℕ, String, ◌≡◌, refl, inl, inr, get_or, arith, Bool-cases}
use py_board.Prelude.Int.{ℤ, pos, ◌+ℤ◌, ◌-ℤ◌, ◌≤ℤ◌, leb_ℤ, int_laws}
use py_board.Runtime.{Env}
use py_board.Model.Entity.{Order, Coupon}
use py_board.Exec.{Result, Result-cases, ok, err}
use py_board.Db.{Db}
use py_board.Coupon.{calculate_discount, clamp, with_discount, validate, apply_to_order}

-- Between nothing and the amount.
abbrev pub IsWithin : ℤ → Result ℤ → Type 0
IsWithin amount (ok d) = (pos 0 ≤ℤ d) × (d ≤ℤ amount)
IsWithin amount (err _) = Unit

clamp-IsWithin : (amount : ℤ) (r : Result ℤ) → pos 0 ≤ℤ amount → IsWithin amount (clamp amount r)
clamp-IsWithin amount (ok d) h = ground arith
clamp-IsWithin amount (err e) h = tt

-- A discount moved out of the total of an order: the two add up to the old total, neither is
-- negative, and what else the order says is the same.
abbrev pub IsDiscounted : Order → Order → Type 0
IsDiscounted o o' =
    (o'.total_amount +ℤ get_or o'.discount_amount (pos 0) ≡ o.total_amount)
    × (pos 0 ≤ℤ o'.total_amount)
    × (pos 0 ≤ℤ get_or o'.discount_amount (pos 0))
    × (o'.user_id ≡ o.user_id)
    × (o'.plan_id ≡ o.plan_id)
    × (o'.period ≡ o.period)
    × (o'.status ≡ o.status)
    × (o'.trade_no ≡ o.trade_no)
    × (o'.kind ≡ o.kind)

with_discount_total :
    (o : Order) (i : ℕ) (d : ℤ)
    → d ≤ℤ o.total_amount
    → (with_discount o i d).total_amount ≡ o.total_amount -ℤ d
with_discount_total o i d h = grind int_laws

with_discount-IsDiscounted :
    (o : Order) (i : ℕ) (d : ℤ)
    → IsWithin o.total_amount (ok d)
    → IsDiscounted o (with_discount o i d)
with_discount-IsDiscounted o i d w =
    let e = with_discount_total o i d w.1 in
    (rw e (omega int_laws), rw e (omega int_laws), w.0, refl, refl, refl, refl, refl, refl)

module _ (env : Env) where
  -- Whatever the coupon's kind and value and whatever the float arithmetic returns, a discount on an
  -- amount of zero or more is never negative and never above the amount.
  pub calculate_discount-IsWithin :
      (c : Coupon) (amount : ℤ)
      → pos 0 ≤ℤ amount
      → IsWithin amount (calculate_discount env c amount)
  unfolding calculate_discount
  calculate_discount-IsWithin c amount h = elim (Bool-cases (leb_ℤ amount (pos 0))) [
    | inl nothing ↦ rw nothing (ground arith)
    | inr positive ↦ rw positive (clamp-IsWithin amount _ h)
  ]

  -- A coupon applied to an order whose total is not negative, if this returns, moves its discount
  -- out of the total: the two add up to the old total, neither is negative, and the user, plan,
  -- period, status, number and kind of the order stay.
  pub apply_to_order-IsDiscounted :
      (o o' : Order) (code : String) (s : Db)
      → pos 0 ≤ℤ o.total_amount
      → (apply_to_order env o code s).0 ≡ ok o'
      → IsDiscounted o o'
  unfolding apply_to_order
  apply_to_order-IsDiscounted o o' code s h e =
      elim (Result-cases (validate env code o.user_id o.plan_id o.period s).0) [
        | inr (x, ex) ↦ absurd (ground arith)
        | inl ((i, c), ev) ↦ elim (Result-cases (calculate_discount env c o.total_amount)) [
          | inr (x, ex) ↦ absurd (ground arith)
          | inl (d, ed) ↦
              let within = rw ed at (calculate_discount-IsWithin c o.total_amount h) in
              let same : with_discount o i d ≡ o' = ground arith in
              subst (IsDiscounted o) same (with_discount-IsDiscounted o i d within)
        ]
      ]
