-- ===== src/Coupon/Consume.antt =====
-- The use of a coupon by an order that is paid.
use py_board.Prelude.{
  ℕ, ◌≤◌, ◌≡◌, ◌≢◌, refl, ◌⊎◌, inl, inr, true, false, Option, none, some, get_or, ap, arith, ◌∙◌,
  Option-cases, List, [], ◌∷◌, not, ◌&&◌, if◌then◌else◌,
}
use py_board.Prelude.Int.{ℤ, pos, ◌+ℤ◌, ◌-ℤ◌, ◌≤ℤ◌, leb_ℤ, int_laws}
use py_board.Prelude.Rows.{lookup, lookup-insert_self, lookup-insert_ne}
use py_board.Runtime.{Env}
use py_board.Model.Period.{Period, period_text}
use py_board.Model.Entity.{Order, Coupon}
use py_board.Json.{Json}
use py_board.Exec.{
  Result-cases, ok, bad_request, value_error, coupon_other_plan, coupon_other_period, raise,
  raise_if, done,
}
use py_board.Db.{Db, Service, count_user_used}
use py_board.Coupon.{
  is_used_up, minus_one, is_empty, int_mem, str_mem, parse_optional_list, check_plan, check_period,
  validate_coupon, check_user_limit, calculate_discount, discount_base, take_use,
  consume_for_paid_order,
}
use py_board.Coupon.Checks.{check_plan-reads, check_period-reads, validate_coupon-reads}

-- A limit, and what it is after one use: none stays none, a positive one goes down by one.
abbrev pub IsUsedOnce : Option ℤ → Option ℤ → Type 0
IsUsedOnce limit limit' =
    ((limit ≡ none) × (limit' ≡ none))
    ⊎ ((n m : ℤ) × (limit ≡ some n) × (limit' ≡ some m) × (pos 0 ≤ℤ m) × (m +ℤ pos 1 ≡ n))

pub minus_one-IsUsedOnce :
    (limit : Option ℤ) → is_used_up limit ≡ false → IsUsedOnce limit (minus_one limit)
minus_one-IsUsedOnce none h = inl (refl, refl)
minus_one-IsUsedOnce (some n) h = inr (n, n -ℤ pos 1, refl, refl, grind int_laws, omega int_laws)

module _ (env : Env) where
  -- A user's limit that a use has not reached.
  abbrev pub IsBelowLimit : Option ℤ → ℕ → Type 0
  IsBelowLimit none used = Unit
  IsBelowLimit (some limit) used = leb_ℤ limit (pos used) ≡ false

  -- The plan is in the coupon's list of plans, or the list is empty.
  abbrev pub IsForPlan : Coupon → ℕ → Type 0
  IsForPlan c p =
      (parse_optional_list env c.limit_plan_ids ≡ [])
      ⊎ (int_mem env.int_of (pos p) (parse_optional_list env c.limit_plan_ids) ≡ some true)

  -- The period is in the coupon's list of periods, or the list is empty.
  abbrev pub IsForPeriod : Coupon → Period → Type 0
  IsForPeriod c q =
      (parse_optional_list env c.limit_period ≡ [])
      ⊎ (str_mem env.str_of (period_text q) (parse_optional_list env c.limit_period) ≡ true)

  check_plan_lem : (c : Coupon) (p : ℕ) (s : Db) → (check_plan env c p s).0 ≡ ok tt → IsForPlan c p
  unfolding check_plan
  check_plan_lem c p s h = by_list (parse_optional_list env c.limit_plan_ids) h
    where
      by_list :
          (l : List Json)
          → ((if is_empty l
                then done
                else elim (int_mem env.int_of (pos p) l) as (λ _. Service (Unit {0})) [
                  | none ↦ raise value_error
                  | some found ↦ raise_if (not found) (bad_request coupon_other_plan)
                ])
              s).0
            ≡ ok tt
          → (l ≡ []) ⊎ (int_mem env.int_of (pos p) l ≡ some true)
      by_list [] h = inl refl
      by_list (j ∷ l) h = inr (ground arith)

  check_period_lem :
      (c : Coupon) (q : Period) (s : Db) → (check_period env c q s).0 ≡ ok tt → IsForPeriod c q
  unfolding check_period
  check_period_lem c q s h = by_list (parse_optional_list env c.limit_period) h
    where
      by_list :
          (l : List Json)
          → (raise_if
              (not (is_empty l) && not (str_mem env.str_of (period_text q) l))
              (bad_request coupon_other_period)
              s).0
            ≡ ok tt
          → (l ≡ []) ⊎ (str_mem env.str_of (period_text q) l ≡ true)
      by_list [] h = inl refl
      by_list (j ∷ l) h = inr (ground arith)

  check_user_limit_lem :
      (i : ℕ) (c : Coupon) (u : ℕ) (x : Option ℕ) (s : Db)
      → (check_user_limit env i c u x s).0 ≡ ok tt
      → IsBelowLimit c.limit_use_with_user (count_user_used i u x s)
  unfolding check_user_limit
  check_user_limit_lem i c u x s h = elim (Option-cases c.limit_use_with_user) [
    | inl unlimited ↦ rw unlimited tt
    | inr (limit, e) ↦ rw e (ground arith)
  ]

  -- What a coupon that passes the checks says.
  pub validate_coupon_lem :
      (i : ℕ) (c : Coupon) (u p : ℕ) (q : Period) (x : Option ℕ) (s : Db)
      → (validate_coupon env i c u p q x s).0 ≡ ok tt
      → (c.is_shown ≡ true)
        × (is_used_up c.limit_use ≡ false)
        × (c.started_at ≤ env.now)
        × (env.now ≤ c.ended_at)
        × IsForPlan c p
        × IsForPeriod c q
        × IsBelowLimit c.limit_use_with_user (count_user_used i u x s)
  unfolding validate_coupon
  validate_coupon_lem i c u p q x s h =
      let read = check_plan-reads env c p s in
      let read' = check_period-reads env c q s in
      (
        ground arith,
        ground arith,
        ground arith,
        ground arith,
        check_plan_lem c p s (ground arith),
        check_period_lem c q s (ground arith),
        check_user_limit_lem i c u x s (ground arith),
      )

  -- A coupon that was used: what it says, the discount that it gives, and what is left of it.
  abbrev pub IsConsumed : ℕ → ℕ → Order → Db → Db → Type 0
  IsConsumed j i o s s' =
      (c c' : Coupon) × (lookup i s.coupons ≡ some c)
      × (c.is_shown ≡ true)
      × (c.started_at ≤ env.now)
      × (env.now ≤ c.ended_at)
      × IsForPlan c o.plan_id
      × IsForPeriod c o.period
      × IsBelowLimit c.limit_use_with_user (count_user_used i o.user_id (some j) s)
      × (calculate_discount env c (discount_base env o) ≡ ok (get_or o.discount_amount (pos 0)))
      × (lookup i s'.coupons ≡ some c')
      × IsUsedOnce c.limit_use c'.limit_use
      × ((k : ℕ) → i ≢ k → lookup k s'.coupons ≡ lookup k s.coupons)

  take_use_lem :
      (i : ℕ) (c : Coupon) (s : Db)
      → lookup i s.coupons ≡ some c
      → (c' : Coupon) × (lookup i (take_use env i c s).1.coupons ≡ some c')
        × (c'.limit_use ≡ minus_one c.limit_use)
        × ((k : ℕ) → i ≢ k → lookup k (take_use env i c s).1.coupons ≡ lookup k s.coupons)
  take_use_lem i c s here = elim (Option-cases c.limit_use) [
    | inl unlimited ↦ rw unlimited (c, here, unlimited, λ k ne. refl)
    | inr (n, e) ↦
        let c' : Coupon = record c { limit_use = some (n -ℤ pos 1) } in
        rw e (
          c',
          lookup-insert_self i c' s.coupons,
          refl,
          λ k ne. lookup-insert_ne i k c' s.coupons ne,
        )
  ]

  -- The use of the coupon that an order names, if it returns, found the coupon shown, in its time,
  -- open to the order's plan and period (which stand in its lists, where these are not empty) and with
  -- uses left, for the coupon and for the user (this order not counted); the discount that
  -- it gives now is the one on the order; the coupon's limit, if it has one, was positive and is
  -- one less, and no other coupon is changed.
  pub consume_for_paid_order-IsConsumed :
      (j i : ℕ) (o : Order) (s : Db)
      → o.coupon_id ≡ some i
      → (consume_for_paid_order env j o s).0 ≡ ok tt
      → IsConsumed j i o s (consume_for_paid_order env j o s).1
  unfolding consume_for_paid_order
  consume_for_paid_order-IsConsumed j i o s has h = elim (Option-cases (lookup i s.coupons)) [
    | inl gone ↦ absurd (ground arith)
    | inr (c, here) ↦
        elim (Result-cases (validate_coupon env i c o.user_id o.plan_id o.period (some j) s).0) [
          | inr (x, e) ↦ absurd (ground arith)
          | inl (t, e) ↦ elim (Result-cases (calculate_discount env c (discount_base env o))) [
            | inr (x, ex) ↦ absurd (
                ground
                  (arith, validate_coupon-reads env i c o.user_id o.plan_id o.period (some j) s))
            | inl (d, ed) ↦
                let read = validate_coupon-reads env i c o.user_id o.plan_id o.period (some j) s in
                let (shown, left, started, ended, plan, period, below) =
                  validate_coupon_lem i c o.user_id o.plan_id o.period (some j) s e in
                let same : d ≡ get_or o.discount_amount (pos 0) = ground arith in
                let eq : (consume_for_paid_order env j o s).1 ≡ (take_use env i c s).1 =
                  ground arith in
                let (c', here', limit, others) = take_use_lem i c s here in
                rw eq (
                  c,
                  c',
                  here,
                  shown,
                  started,
                  ended,
                  plan,
                  period,
                  below,
                  ed ∙ ap ok same,
                  here',
                  rw limit (minus_one-IsUsedOnce c.limit_use left),
                  others,
                )
          ]
        ]
  ]
