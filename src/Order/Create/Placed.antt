-- ===== src/Order/Create/Placed.antt =====
-- What `create_order` leaves behind.
use mathlib.Core.Path.{subst}
use py_board.Prelude.{
  ℕ, String, ◌≡◌, refl, inl, inr, false, Option, none, some, ap, arith, ◌==◌, Bool-cases,
  Option-cases, sym, ◌∙◌,
}
use py_board.Prelude.Int.{ℤ, pos, ◌≤ℤ◌}
use py_board.Prelude.Rows.{lookup, lookup-insert_self}
use py_board.Runtime.{Env}
use py_board.Model.Entity.{User, Plan, Order}
use py_board.Exec.{Result, ok}
use py_board.Db.{Db, has_pending_order}
use py_board.Coupon.Discount.{IsDiscounted}
use py_board.Order.Create.{
  OrderCreate, period_price, price_or_raise, use_balance, create_order, create_plan_order,
  given_code,
}
use py_board.Order.Create.Price.{
  IsPriced, use_balance-IsPriced, discounted-IsDiscounted, fresh_order, create_plan_order-returns,
}

price_or_raise_lem :
    (p : Option ℤ) (price : ℤ) → price_or_raise p ≡ ok price → (p ≡ some price) × (pos 0 ≤ℤ price)
unfolding price_or_raise
price_or_raise_lem none price e = ground arith
price_or_raise_lem (some p) price e = ground arith

-- What the order says of its buyer, whatever the balance pays of it.
use_balance-IsPending :
    (balance : ℤ) (o o' : Order)
    → IsDiscounted o o'
    → o.status ≡ 0
    → ((use_balance balance o').status ≡ 0)
      × ((use_balance balance o').user_id ≡ o.user_id)
      × ((use_balance balance o').plan_id ≡ o.plan_id)
unfolding use_balance
use_balance-IsPending balance o o' d st = ground arith

-- An order as it was placed: a pending order of the user for the plan, split as it should be.
abbrev pub IsPlaced : ℕ → ℕ → ℤ → ℤ → Order → Type 0
IsPlaced u plan_id price balance o =
    (o.status ≡ 0) × (o.user_id ≡ u) × (o.plan_id ≡ plan_id) × IsPriced price balance o

module _ (env : Env) (u : ℕ) (b : OrderCreate) (t r : String) (s : Db) where
  -- The user, the plan and the price that `create_order` used.
  abbrev pub Placed : Db → Type 0
  Placed s' =
      (user : User) × (plan : Plan) × (price : ℤ) × (o : Order) × (lookup u s.users ≡ some user)
      × (lookup b.plan_id s.plans ≡ some plan)
      × (period_price plan b.period ≡ some price)
      × (lookup s.next_order s'.orders ≡ some o)
      × IsPlaced u b.plan_id price user.balance o
      × (s'.users ≡ s.users)
      × (s'.coupons ≡ s.coupons)

  placed :
      (user : User)
      → lookup u s.users ≡ some user
      → (create_plan_order env u user b t s).0 ≡ ok r
      → Placed (create_plan_order env u user b t s).1
  placed user here h =
      let (plan, price, o', found, e, ed, orders, users, coupons) =
        create_plan_order-returns env u user b t r s h in
      let (is_price, nonneg) = price_or_raise_lem (period_price plan b.period) price e in
      let o = fresh_order env u user b t price in
      let d = discounted-IsDiscounted env o o' (given_code b.coupon_code) s nonneg refl ed in
      let (st, of_user, of_plan) = use_balance-IsPending user.balance o o' d refl in
      (
        user,
        plan,
        price,
        use_balance user.balance o',
        here,
        found,
        is_price,
        rw orders (lookup-insert_self s.next_order (use_balance user.balance o') s.orders),
        (st, of_user, of_plan, use_balance-IsPriced user.balance o o' d),
        users,
        coupons,
      )

  -- A plan order that is created is pending, of the user and the plan asked for; its total, the
  -- balance used and the discount add up to the plan's price for the period, none of the three is
  -- negative, and the balance used is none or at most the user's. No user and no coupon is changed:
  -- the balance and the coupon are only taken when the order is paid.
  pub create_order-Placed :
      (b.plan_id == 0) ≡ false
      → (create_order env u b t s).0 ≡ ok r
      → Placed (create_order env u b t s).1
  unfolding create_order
  create_order-Placed is_plan h = elim (Bool-cases (has_pending_order u s)) [
    | inl pending ↦ absurd (ground arith)
    | inr idle ↦ elim (Option-cases (lookup u s.users)) [
      | inl gone ↦ absurd (ground arith)
      | inr (user, here) ↦
          let eq : create_order env u b t s ≡ create_plan_order env u user b t s =
            rw (idle, here, is_plan) in
          subst (λ (p : Result String × Db). Placed p.1) (sym eq)
            (placed user here (sym (ap (λ (p : Result String × Db). p.0) eq) ∙ h))
    ]
  ]
