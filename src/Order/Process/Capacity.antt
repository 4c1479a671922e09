-- ===== src/Order/Process/Capacity.antt =====
-- The capacity of a plan when an order is placed or opened.
use py_board.Prelude.{
  ℕ, ◌≡◌, refl, ◌⊎◌, inl, inr, true, Option, none, some, arith, Bool-cases, Option-cases, ◌&&◌, ltb,
  opt_eq, sym,
}
use py_board.Prelude.Int.{ℤ, pos, ◌≤ℤ◌}
use py_board.Prelude.Rows.{Rows, lookup, insert, count-insert}
use py_board.Runtime.{Env}
use py_board.Model.Entity.{User, Plan, Order}
use py_board.Exec.{Result-cases, ok}
use py_board.Db.{Db, count_active_users, is_active_user_of}
use py_board.Order.Rules.{requires_capacity_slot, ensure_plan_capacity_available, is_user_active}
use py_board.Model.Period.{is_reset_price}
use py_board.Order.Process.{take_slot, open_period, pay_balance, open_plan, without_traffic}
use py_board.Order.Process.Fulfil.{pay_balance_lem, take_slot-reads, use_coupon-users}

-- A plan that is within its capacity: no limit, a limit that is not positive, or at most as many
-- active users as the limit.
abbrev pub IsWithinCapacity : ℕ → ℕ → Option ℤ → Db → Type 0
IsWithinCapacity now p none s = Unit
IsWithinCapacity now p (some limit) s =
    (limit ≤ℤ pos 0) ⊎ (pos (count_active_users now p s) ≤ℤ limit)

module _ (env : Env) (o : Order) (p : ℕ) (plan : Plan) (user user' : User) (s : Db) where
  -- The slot is taken: by the check, or by the user before.
  slot_taken :
      lookup o.user_id s.users ≡ some user
      → IsWithinCapacity env.now p plan.capacity_limit s
      → (requires_capacity_slot env user.plan_id (some user.expired_at) p o.period ≡ true)
        ⊎ (is_active_user_of env.now p user ≡ true)
        ⊎ (is_active_user_of env.now p user' ≡ is_active_user_of env.now p user)
      → (take_slot env o p plan user s).0 ≡ ok tt
      → IsWithinCapacity env.now p plan.capacity_limit
          (record s { users = insert o.user_id user' s.users })
  unfolding take_slot ensure_plan_capacity_available
  slot_taken here within slot h = elim (Option-cases plan.capacity_limit) [
    | inl unlimited ↦ rw unlimited tt
    | inr (limit, e) ↦
        let counted =
          count-insert (λ _ u. is_active_user_of env.now p u) o.user_id user' user s.users here in
        let within' = rw e at within in rw e (ground arith)
  ]

  -- Who needs no slot: a reset of the traffic, which moves neither plan nor expiry, and a user who is
  -- counted already.
  slot_cases :
      (paid : User)
      → paid.plan_id ≡ user.plan_id
      → paid.expired_at ≡ user.expired_at
      → open_period env o p plan paid ≡ ok user'
      → (requires_capacity_slot env user.plan_id (some user.expired_at) p o.period ≡ true)
        ⊎ (is_active_user_of env.now p user ≡ true)
        ⊎ (is_active_user_of env.now p user' ≡ is_active_user_of env.now p user)
  unfolding requires_capacity_slot is_user_active open_period
  slot_cases paid same_plan same_expiry h = elim (Bool-cases (is_reset_price o.period)) [
    | inl reset ↦
        let same : without_traffic paid ≡ user' = ground arith in
        inr (inr (rw (sym same, same_plan, same_expiry) refl))
    | inr period ↦ elim (Bool-cases (opt_eq user.plan_id (some p) && ltb env.now user.expired_at)) [
      | inl active ↦ inr (inl (ground arith))
      | inr inactive ↦ inl (ground arith)
    ]
  ]

-- Opening the plan of an order never oversells it: if the plan and the user are in the tables, the
-- plan is within its capacity, and the opening returns, then the plan is within its capacity
-- afterwards, whatever the user held before.
pub open_plan-capacity :
    (env : Env) (i : ℕ) (o : Order) (plan : Plan) (user : User) (s : Db)
    → lookup o.plan_id s.plans ≡ some plan
    → lookup o.user_id s.users ≡ some user
    → IsWithinCapacity env.now o.plan_id plan.capacity_limit s
    → (open_plan env i o user s).0 ≡ ok tt
    → IsWithinCapacity env.now o.plan_id plan.capacity_limit (open_plan env i o user s).1
unfolding open_plan
open_plan-capacity env i o plan user s found here within h =
    elim (Result-cases (pay_balance o user)) [
      | inr (x, e) ↦ absurd (ground arith)
      | inl (paid, e) ↦ elim (Result-cases (open_period env o o.plan_id plan paid)) [
        | inr (x, ex) ↦ absurd (ground arith)
        | inl (opened, ex) ↦
            let read = take_slot-reads env o o.plan_id plan user s in
            let same = use_coupon-users env i o s in
            let (paid_balance, enough, of_plan, expiry, of_commission) =
              pay_balance_lem o user paid e in
            let users : (open_plan env i o user s).1.users ≡ insert o.user_id opened s.users =
              ground arith in
            of_users (open_plan env i o user s).1 plan.capacity_limit users (
              slot_taken env o o.plan_id plan user opened s here within
                (slot_cases env o o.plan_id plan user opened s paid of_plan expiry ex)
                (ground arith))
      ]
    ]
  where
    of_users :
        (s' : Db) {us : Rows User} (limit : Option ℤ)
        → s'.users ≡ us
        → IsWithinCapacity env.now o.plan_id limit (record s { users = us })
        → IsWithinCapacity env.now o.plan_id limit s'
    of_users s' none e w = tt
    of_users s' (some l) e w = rw e w
