-- ===== src/Lifecycle/Balances.antt =====
-- The balances of the users when a paid order is processed.
use mathlib.Core.Path.{subst}
use py_board.Prelude.{
  ℕ, String, ◌≡◌, ◌≢◌, refl, inl, inr, true, Option, none, some, arith, ◌==◌, ◌||◌, Bool-cases, ◌∙◌,
  sym, ap, eq_or_ne,
}
use py_board.Prelude.Int.{ℤ, ◌+ℤ◌}
use py_board.Prelude.Rows.{Rows, lookup, lookup-insert_self, lookup-insert_ne}
use py_board.Runtime.{Env}
use py_board.Model.Entity.{User, Order, LogEvent}
use py_board.Exec.{Result, Result-cases, ok, bind-ok, bind-err, ◌>>=◌, bind_returns}
use py_board.Db.{Db, Service, set_order, log_event}
use py_board.Commission.{calculate_for_order}
use py_board.Commission.Grant.{Outcome, calculate_for_order-Outcome}
use py_board.Order.Process.{
  begun, completed, order_event, fulfil, finish, complete, process_paid_order,
}
use py_board.Order.Process.Balance.{IsSettledBy, fulfil-Written}
use py_board.Lifecycle.Completion.{process_to_open}

-- Every user is still there, with the same balance.
abbrev pub SameBalances : Rows User → Rows User → Type 0
SameBalances us us' =
    (j : ℕ) (v : User)
    → lookup j us ≡ some v
    → (v' : User) × (lookup j us' ≡ some v') × (v'.balance ≡ v.balance)

Outcome-SameBalances :
    {s s' : Db} {u : ℕ} {t : String} {total : ℤ}
    → Outcome s s' u t total
    → SameBalances s.users s'.users
Outcome-SameBalances (inl q) j v e = (v, rw q.users e, refl)
Outcome-SameBalances {s} (inr g) j v e = elim (eq_or_ne g.inviter_id j) [
  | inl same ↦
      let is_inviter : g.inviter ≡ v = ground (arith, sym g.found ∙ (rw (sym same) at e)) in
      (
        record g.inviter { commission_balance = g.inviter.commission_balance +ℤ g.amount },
        rw (g.users, sym same) (lookup-insert_self g.inviter_id _ s.users),
        rw is_inviter refl,
      )
  | inr ne ↦ (v, rw g.users (lookup-insert_ne g.inviter_id j _ s.users ne ∙ e), refl)
]

-- A log event after it changes no user.
then_log-users :
    (m : Service (Unit {0})) (e : LogEvent) (s : Db)
    → ((m >>= λ _. log_event e) s).1.users ≡ (m s).1.users
then_log-users m e s = elim (Result-cases (m s).0) [
  | inl (a, r) ↦ rw (bind-ok m (λ _. log_event e) s r) refl
  | inr (x, r) ↦ rw (bind-err m (λ _. log_event e) s r) refl
]

module _ (env : Env) (i : ℕ) where
  finish-SameBalances :
      (o : Order) (t : String) (a : Option ℕ) (s : Db)
      → SameBalances s.users (finish env i o t a s).1.users
  unfolding finish
  finish-SameBalances o t a s = elim (Bool-cases (o.plan_id == 0)) [
    | inl deposit ↦ rw deposit (λ j v e. (v, e, refl))
    | inr plan ↦ rw plan (
        rw
          (then_log-users (calculate_for_order env i) (order_event o "order.completed" t a)
            (set_order i (completed o env.now) s).1)
          (Outcome-SameBalances (
            calculate_for_order-Outcome env i (set_order i (completed o env.now) s).1
              (completed o env.now) (lookup-insert_self i (completed o env.now) s.orders))))
  ]

  -- The balances after the order's opening: its user's settled, the others' as they were.
  abbrev pub Settled : Order → User → Rows User → Rows User → Type 0
  Settled o user us us' =
      ((user' : User) × (lookup o.user_id us' ≡ some user')
        × IsSettledBy env o user.balance user'.balance)
      × ((j : ℕ) (v : User)
          → o.user_id ≢ j
          → lookup j us ≡ some v
          → (v' : User) × (lookup j us' ≡ some v') × (v'.balance ≡ v.balance))

  begun-Settled :
      (o : Order) (c : Option String) (user : User) (us us' : Rows User)
      → Settled (begun o c) user us us'
      → Settled o user us us'
  begun-Settled o none user us us' h = h
  begun-Settled o (some c) user us us' h = h

  fulfil-finish-Settled :
      (o : Order) (t : String) (a : Option ℕ) (user : User) (s : Db)
      → ((fulfil env i o user >>= λ _. finish env i o t a) s).0 ≡ ok tt
      → Settled o user s.users ((fulfil env i o user >>= λ _. finish env i o t a) s).1.users
  fulfil-finish-Settled o t a user s h =
      let (u, e, eq) = bind_returns (fulfil env i o user) (λ _. finish env i o t a) s h in
      let (user', users, settled) = fulfil-Written env i o user s e in
      let same = finish-SameBalances o t a (fulfil env i o user s).1 in
      let (user'', here, balance) =
        same o.user_id user'
          (ap (lookup o.user_id) users ∙ lookup-insert_self o.user_id user' s.users) in
      rw eq (
        (user'', here, subst (λ b. IsSettledBy env o user.balance b) (sym balance) settled),
        λ j v ne ev.
            same j v (ap (lookup j) users ∙ lookup-insert_ne o.user_id j user' s.users ne ∙ ev),
      )

  complete-Settled :
      (o : Order) (c : Option String) (t : String) (a : Option ℕ) (user : User) (s : Db)
      → lookup o.user_id s.users ≡ some user
      → (complete env i o c t a s).0 ≡ ok tt
      → Settled (begun o c) user s.users (complete env i o c t a s).1.users
  unfolding complete
  complete-Settled o c t a user s found h =
      let eq : complete env i o c t a s
          ≡ (fulfil env i (begun o c) user >>= λ _. finish env i (begun o c) t a)
              (set_order i (begun o c) s).1 =
        rw (found, complete) refl in
      subst (λ (p : Result (Unit {0}) × Db). Settled (begun o c) user s.users p.1.users) (sym eq)
        (fulfil-finish-Settled (begun o c) t a user (set_order i (begun o c) s).1
          (sym (ap (λ (p : Result (Unit {0}) × Db). p.0) eq) ∙ h))

-- Processing an order in the table that waits or is being opened, of a user in the table, if it
-- returns, settles the balance of this user: a deposit adds its total and the bonus of its tier, a
-- plan order takes exactly the balance it was created to use, and only if the user has that much.
-- The balance of every other user stays as it was.
pub process_paid_order-balances :
    (env : Env) (i : ℕ) (c : Option String) (t : String) (a : Option ℕ) (s : Db) (o : Order)
    (user : User)
    → lookup i s.orders ≡ some o
    → (o.status == 0 || o.status == 1) ≡ true
    → lookup o.user_id s.users ≡ some user
    → (process_paid_order env i c t a s).0 ≡ ok tt
    → Settled env i o user s.users (process_paid_order env i c t a s).1.users
process_paid_order-balances env i c t a s o user here st found h =
    let eq = process_to_open env i c t a s o here st in
    rw eq (
      begun-Settled env i o c user s.users (complete env i o c t a s).1.users
        (complete-Settled env i o c t a user s found (rw eq at h)))
