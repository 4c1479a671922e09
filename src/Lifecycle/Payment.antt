-- ===== src/Lifecycle/Payment.antt =====
-- `process_paid_order` of app/services/order.py and the rows of the orders.
use py_board.Prelude.{
  ℕ, String, ◌≡◌, refl, ◌⊎◌, inl, inr, Option, none, some, arith, Option-cases, Bool-cases, ◌==◌,
  ◌||◌, if◌then◌else◌,
}
use py_board.Prelude.Rows.{lookup, lookup-insert_self}
use py_board.Runtime.{Env}
use py_board.Model.Entity.{User, Order}
use py_board.Exec.{ok, ◌>>=◌, ◌>>◌, done, bind_returns, or_raise, not_found, user_missing}
use py_board.Db.{Db, Service, set_order, log_event}
use py_board.Commission.{calculate_for_order}
use py_board.Order.Process.{
  begun, completed, order_event, fulfil, finish, complete, process_paid_order,
}
use py_board.Lifecycle.Relation.{
  Follows, Progress, Progress-same, Progress-refl, Progress-trans, Progress-set_order,
  Progress-bind, Progress-log_event, IsSound,
}
use py_board.Lifecycle.Steps.{fulfil-SameOrders, calculate_for_order-Progress}

begun-Follows :
    (o : Order) (c : Option String) → ((o.status ≡ 0) ⊎ (o.status ≡ 1)) → Follows o (begun o c)
begun-Follows o none h = ground arith
begun-Follows o (some c) h = ground arith

begun-status : (o : Order) (c : Option String) → (begun o c).status ≡ 1
begun-status o none = refl
begun-status o (some c) = refl

completed-Follows : (o : Order) (n : ℕ) → o.status ≡ 1 → Follows o (completed o n)
completed-Follows o n h = ground arith

module _ (env : Env) (i : ℕ) where
  -- The commission, where the order has a plan.
  abbrev commission_of : Order → Service (Unit {0})
  commission_of o = if o.plan_id == 0 then done else calculate_for_order env i

  commission_of-Progress : (o : Order) (s : Db) → Progress s (commission_of o s).1
  commission_of-Progress o s = elim (Bool-cases (o.plan_id == 0)) [
    | inl deposit ↦ rw deposit (Progress-refl s)
    | inr plan ↦ rw plan (calculate_for_order-Progress env i s)
  ]

  -- What follows the write of the status 3.
  after_completed-Progress :
      (o : Order) (t : String) (a : Option ℕ) (s : Db)
      → Progress (set_order i (completed o env.now) s).1 (finish env i o t a s).1
  unfolding finish
  after_completed-Progress o t a s =
      Progress-bind (commission_of o) (λ _. log_event (order_event o "order.completed" t a))
        (set_order i (completed o env.now) s).1
        (commission_of-Progress o (set_order i (completed o env.now) s).1)
        (λ u e. Progress-log_event _ _)

  finish-Progress :
      (o : Order) (t : String) (a : Option ℕ) (s : Db)
      → lookup i s.orders ≡ some o
      → o.status ≡ 1
      → Progress s (finish env i o t a s).1
  finish-Progress o t a s here st =
      Progress-trans
        (Progress-set_order i o (completed o env.now) s here (completed-Follows o env.now st))
        (after_completed-Progress o t a s)

  -- From the user's row on.
  abbrev pay_from : Order → Option String → String → Option ℕ → Option User → Service (Unit {0})
  pay_from o c t a found = do
    user ← or_raise found (not_found user_missing)
    fulfil env i (begun o c) user
    finish env i (begun o c) t a

  pay_from-Progress :
      (o : Order) (c : Option String) (t : String) (a : Option ℕ) (found : Option User) (s : Db)
      → lookup i s.orders ≡ some (begun o c)
      → Progress s (pay_from o c t a found s).1
  pay_from-Progress o c t a none s here = Progress-refl s
  pay_from-Progress o c t a (some user) s here =
      let (same, next) = fulfil-SameOrders env i (begun o c) user s in
      Progress-bind (fulfil env i (begun o c) user) (λ _. finish env i (begun o c) t a) s
        (Progress-same same next)
        (λ u e.
          finish-Progress (begun o c) t a (fulfil env i (begun o c) user s).1 (rw same here)
            (begun-status o c))

  complete-Progress :
      (o : Order) (c : Option String) (t : String) (a : Option ℕ) (s : Db)
      → lookup i s.orders ≡ some o
      → ((o.status ≡ 0) ⊎ (o.status ≡ 1))
      → Progress s (complete env i o c t a s).1
  unfolding complete
  complete-Progress o c t a s here st =
      Progress-trans (Progress-set_order i o (begun o c) s here (begun-Follows o c st)) (
        pay_from-Progress o c t a (lookup o.user_id s.users) (set_order i (begun o c) s).1
          (lookup-insert_self i (begun o c) s.orders))

  pub process_paid_order-Progress :
      (c : Option String) (t : String) (a : Option ℕ) (s : Db)
      → Progress s (process_paid_order env i c t a s).1
  unfolding process_paid_order
  process_paid_order-Progress c t a s = elim (Option-cases (lookup i s.orders)) [
    | inl gone ↦ rw gone (Progress-refl s)
    | inr (o, here) ↦ elim (Bool-cases (o.status == 0 || o.status == 1)) [
      | inl open_order ↦ rw (here, open_order) (complete-Progress o c t a s here (ground arith))
      | inr closed ↦ rw (here, closed) (Progress-refl s)
    ]
  ]

  -- The row `i` is completed.
  abbrev pub IsCompleted : Db → Type 0
  IsCompleted s = (o : Order) × (lookup i s.orders ≡ some o) × (o.status ≡ 3)

  finish-IsCompleted :
      (o : Order) (t : String) (a : Option ℕ) (s : Db)
      → IsSound s
      → lookup i s.orders ≡ some o
      → o.status ≡ 1
      → IsCompleted (finish env i o t a s).1
  finish-IsCompleted o t a s f here st =
      let before =
        Progress-set_order i o (completed o env.now) s here (completed-Follows o env.now st) in
      let (o', here', k) =
        (after_completed-Progress o t a s).row (before.fresh f) i (completed o env.now)
          (lookup-insert_self i (completed o env.now) s.orders) in
      (o', here', three o' k)
    where
      three : (o' : Order) → Follows (completed o env.now) o' → o'.status ≡ 3
      three o' k = let st' = k.status in ground arith

  pay_from-IsCompleted :
      (o : Order) (c : Option String) (t : String) (a : Option ℕ) (found : Option User) (s : Db)
      → IsSound s
      → lookup i s.orders ≡ some (begun o c)
      → (pay_from o c t a found s).0 ≡ ok tt
      → IsCompleted (pay_from o c t a found s).1
  pay_from-IsCompleted o c t a none s f here h = cc
  pay_from-IsCompleted o c t a (some user) s f here h =
      let (same, next) = fulfil-SameOrders env i (begun o c) user s in
      let (u, e, eq) =
        bind_returns (fulfil env i (begun o c) user) (λ _. finish env i (begun o c) t a) s h in
      rw eq (
        finish-IsCompleted (begun o c) t a (fulfil env i (begun o c) user s).1
          ((Progress-same {s = s} {s' = (fulfil env i (begun o c) user s).1} same next).fresh f)
          (rw same here) (begun-status o c))

  pub complete-IsCompleted :
      (o : Order) (c : Option String) (t : String) (a : Option ℕ) (s : Db)
      → IsSound s
      → lookup i s.orders ≡ some o
      → ((o.status ≡ 0) ⊎ (o.status ≡ 1))
      → (complete env i o c t a s).0 ≡ ok tt
      → IsCompleted (complete env i o c t a s).1
  unfolding complete
  complete-IsCompleted o c t a s f here st h =
      pay_from-IsCompleted o c t a (lookup o.user_id s.users) (set_order i (begun o c) s).1
        ((Progress-set_order i o (begun o c) s here (begun-Follows o c st)).fresh f)
        (lookup-insert_self i (begun o c) s.orders) h
