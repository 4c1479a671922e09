-- ===== src/Lifecycle/Completion.antt =====
-- The end of `process_paid_order` of app/services/order.py, and a second call of it.
use py_board.Prelude.{
  ℕ, String, ◌≡◌, ◌⊎◌, inl, inr, true, false, Option, some, arith, Option-cases, Bool-cases, ◌==◌,
  ◌||◌, ap, ◌∙◌,
}
use mathlib.Core.Path.{subst}
use py_board.Prelude.Rows.{lookup}
use py_board.Runtime.{Env}
use py_board.Model.Entity.{Order}
use py_board.Exec.{Result, ok}
use py_board.Db.{Db}
use py_board.Order.Process.{complete, process_paid_order}
use py_board.Lifecycle.Relation.{Follows, IsSound}
use py_board.Lifecycle.Payment.{complete-IsCompleted, process_paid_order-Progress}

-- A row that is neither waiting nor being opened is left alone.
unchanged :
    (env : Env) (i : ℕ) (c : Option String) (t : String) (a : Option ℕ) (s : Db) (o : Order)
    → lookup i s.orders ≡ some o
    → (o.status == 0 || o.status == 1) ≡ false
    → process_paid_order env i c t a s ≡ (ok tt, s)
unfolding process_paid_order
unchanged env i c t a s o here closed = rw (here, closed)

module _ (env : Env) (i : ℕ) (c : Option String) (t : String) (a : Option ℕ) (s : Db) where
  -- What the call comes to on a row that it finds.
  pub process_to_open :
      (o : Order)
      → lookup i s.orders ≡ some o
      → (o.status == 0 || o.status == 1) ≡ true
      → process_paid_order env i c t a s ≡ complete env i o c t a s
  unfolding process_paid_order
  process_to_open o here e = rw (here, e)

  -- A call that returns leaves no row of an order that is still to be opened.
  process_closes :
      IsSound s
      → (process_paid_order env i c t a s).0 ≡ ok tt
      → (o : Order) × (lookup i (process_paid_order env i c t a s).1.orders ≡ some o)
        × ((o.status == 0 || o.status == 1) ≡ false)
  process_closes f h = elim (Option-cases (lookup i s.orders)) [
    | inl gone ↦ absurd (unfold process_paid_order in cc (rw gone at h))
    | inr (o, here) ↦ elim (Bool-cases (o.status == 0 || o.status == 1)) [
      | inl to_open ↦
          let eq = process_to_open o here to_open in
          let (o', here', three) =
            complete-IsCompleted env i o c t a s f here (ground arith) (rw eq at h) in
          rw eq (o', here', ground arith)
      | inr closed ↦ unfold process_paid_order in rw (here, closed) (o, here, closed)
    ]
  ]

  -- Where the keys of the orders are unique and the next one is free, processing an order that
  -- waits for its payment or is being opened (status 0 or 1), if it returns, leaves the order
  -- completed (status 3), with the same user, plan, period, number, total, balance part, discount
  -- and coupon as before.
  pub process_paid_order-completes :
      (o : Order)
      → IsSound s
      → lookup i s.orders ≡ some o
      → ((o.status ≡ 0) ⊎ (o.status ≡ 1))
      → (process_paid_order env i c t a s).0 ≡ ok tt
      → (o' : Order) × (lookup i (process_paid_order env i c t a s).1.orders ≡ some o')
        × (o'.status ≡ 3)
        × Follows o o'
  process_paid_order-completes o f here st h =
      let eq = process_to_open o here (ground arith) in
      let (o', here', three) = complete-IsCompleted env i o c t a s f here st (rw eq at h) in
      let (o'', here'', k) = (process_paid_order-Progress env i c t a s).row f i o here in
      let same : o'' ≡ o' = cc (ap (λ (r : Result (Unit {0}) × Db). lookup i r.1.orders) eq) in
      (
        o',
        ap (λ (r : Result (Unit {0}) × Db). lookup i r.1.orders) eq ∙ here',
        three,
        subst (λ z. Follows o z) same k,
      )

  -- Where the keys of the orders are unique and the next one is free, and processing an order
  -- returns, processing it a second time, at any later time, with any settings and by any caller,
  -- returns and changes nothing.
  pub process_paid_order_idem :
      (env' : Env) (c' : Option String) (t' : String) (a' : Option ℕ)
      → IsSound s
      → (process_paid_order env i c t a s).0 ≡ ok tt
      → process_paid_order env' i c' t' a' (process_paid_order env i c t a s).1
        ≡ (ok tt, (process_paid_order env i c t a s).1)
  process_paid_order_idem env' c' t' a' f h =
      let (o, here, closed) = process_closes f h in
      unchanged env' i c' t' a' (process_paid_order env i c t a s).1 o here closed
