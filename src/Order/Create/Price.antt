-- ===== src/Order/Create/Price.antt =====
-- What an order of a plan costs: the price is split into the discount, the balance and the rest.
use mathlib.Core.Path.{subst}
use py_board.Prelude.{
  ℕ, String, ◌≡◌, refl, ◌⊎◌, inl, inr, Option, none, some, get_or, ap, arith, Bool-cases,
  Option-cases,
}
use py_board.Prelude.Int.{ℤ, pos, ◌+ℤ◌, ◌≤ℤ◌, leb_ℤ, ltb_ℤ, pos_part, neg_part, int_laws}
use py_board.Prelude.Rows.{lookup, insert}
use py_board.Runtime.{Env}
use py_board.Model.Period.{Period}
use py_board.Model.Entity.{User, Plan, Order}
use py_board.Exec.{Result-cases, ok}
use py_board.Db.{Db, create_order_row}
use py_board.Coupon.Discount.{IsDiscounted, apply_to_order-IsDiscounted}
use py_board.Coupon.Checks.{apply_to_order-reads}
use py_board.Order.Rules.{determine_order_type, ensure_plan_capacity_available}
use py_board.Order.Create.{
  OrderCreate, new_order, period_price, price_or_raise, use_balance, check_purchase, discounted,
  create_plan_order, given_code,
}

-- The three parts of the price of an order, and that none of them is negative.
abbrev pub IsPriced : ℤ → ℤ → Order → Type 0
IsPriced price balance o =
    (o.total_amount +ℤ get_or o.balance_amount (pos 0) +ℤ get_or o.discount_amount (pos 0) ≡ price)
    × (pos 0 ≤ℤ o.total_amount)
    × (pos 0 ≤ℤ get_or o.balance_amount (pos 0))
    × (pos 0 ≤ℤ get_or o.discount_amount (pos 0))
    × ((get_or o.balance_amount (pos 0) ≡ pos 0) ⊎ (get_or o.balance_amount (pos 0) ≤ℤ balance))

pub use_balance-IsPriced :
    (balance : ℤ) (o o' : Order)
    → IsDiscounted o o'
    → IsPriced o.total_amount balance (use_balance balance o')
unfolding use_balance
use_balance-IsPriced balance o o' d =
    let p = ap pos_part d.0 in
    let n = ap neg_part d.0 in
    elim (Bool-cases (ltb_ℤ (pos 0) balance)) [
      | inr none_left ↦ rw none_left (omega (int_laws, p, n), d.1, omega arith, d.2, inl refl)
      | inl some_left ↦ elim (Bool-cases (leb_ℤ o'.total_amount balance)) [
        | inl covers ↦
            rw (some_left, covers)
              (omega (int_laws, p, n), omega arith, d.1, d.2, inr (ground arith))
        | inr short ↦
            rw (some_left, short)
              (omega (int_laws, p, n), grind int_laws, ground arith, d.2, inr (omega arith))
      ]
    ]

IsDiscounted-refl :
    (o : Order) → pos 0 ≤ℤ o.total_amount → o.discount_amount ≡ none → IsDiscounted o o
IsDiscounted-refl o h n =
    (rw n (omega int_laws), h, rw n (omega arith), refl, refl, refl, refl, refl, refl)

module _ (env : Env) where
  pub discounted-IsDiscounted :
      (o o' : Order) (c : Option String) (s : Db)
      → pos 0 ≤ℤ o.total_amount
      → o.discount_amount ≡ none
      → (discounted env o c s).0 ≡ ok o'
      → IsDiscounted o o'
  unfolding discounted
  discounted-IsDiscounted o o' none s h n e =
      let same : o ≡ o' = ground arith in subst (IsDiscounted o) same (IsDiscounted-refl o h n)
  discounted-IsDiscounted o o' (some c) s h n e = apply_to_order-IsDiscounted env o o' c s h e

  discounted-reads : (o : Order) (c : Option String) (s : Db) → (discounted env o c s).1 ≡ s
  unfolding discounted
  discounted-reads o none s = refl
  discounted-reads o (some c) s = apply_to_order-reads env o c s

  check_purchase-reads :
      (p : ℕ) (user : User) (plan : Plan) (q : Period) (s : Db)
      → (check_purchase env p user plan q s).1 ≡ s
  unfolding check_purchase ensure_plan_capacity_available
  check_purchase-reads p user plan q s = ground arith

  -- The order before the coupon and the balance.
  abbrev pub fresh_order : ℕ → User → OrderCreate → String → ℤ → Order
  fresh_order u user b t price =
      new_order u user b.plan_id b.period t price
        (determine_order_type env user.plan_id (some user.expired_at) b.plan_id b.period) env.now

  module _ (u : ℕ) (user : User) (b : OrderCreate) (t r : String) (s : Db) where
    -- A plan order that is created: the plan and its price, and the row under the next number.
    pub create_plan_order-returns :
        (create_plan_order env u user b t s).0 ≡ ok r
        → (plan : Plan) × (price : ℤ) × (o' : Order) × (lookup b.plan_id s.plans ≡ some plan)
          × (price_or_raise (period_price plan b.period) ≡ ok price)
          × ((discounted env (fresh_order u user b t price) (given_code b.coupon_code) s).0 ≡ ok o')
          × ((create_plan_order env u user b t s).1.orders
              ≡ insert s.next_order (use_balance user.balance o') s.orders)
          × ((create_plan_order env u user b t s).1.users ≡ s.users)
          × ((create_plan_order env u user b t s).1.coupons ≡ s.coupons)
    unfolding create_plan_order create_order_row
    create_plan_order-returns h = elim (Option-cases (lookup b.plan_id s.plans)) [
      | inl gone ↦ absurd (ground arith)
      | inr (plan, found) ↦ elim (Result-cases (price_or_raise (period_price plan b.period))) [
        | inr (x, e) ↦ absurd (ground arith)
        | inl (price, e) ↦
            elim (Result-cases
              (discounted env (fresh_order u user b t price) (given_code b.coupon_code) s).0) [
                | inr (x, ed) ↦
                    absurd (ground (arith, check_purchase-reads b.plan_id user plan b.period s))
                | inl (o', ed) ↦
                    let read = check_purchase-reads b.plan_id user plan b.period s in
                    let read' =
                      discounted-reads (fresh_order u user b t price) (given_code b.coupon_code)
                        s in
                    (plan, price, o', found, e, ed, ground arith, ground arith, ground arith)
              ]
      ]
    ]
