-- ===== src/Plan/References.antt =====
-- What the deletion of a plan (`PlanService.delete`) does to the orders and users that name one.
use py_board.Prelude.{
  ℕ, ◌≡◌, ◌≢◌, refl, inl, inr, Bool, true, false, some, [], ◌∷◌, arith, ◌==◌, Option-cases,
}
use py_board.Prelude.Rows.{Rows, lookup, erase, count}
use py_board.Runtime.{Env}
use py_board.Model.Entity.{User, Order}
use py_board.Exec.{ok}
use py_board.Db.{Db, count_active_users, is_active_user_of}
use py_board.Plan.{delete_plan}

module _ {A : Type 0} where
  none_counted :
      (p : ℕ → A → Bool) (t : Rows A) (k : ℕ) (v : A)
      → count p t ≡ 0
      → lookup k t ≡ some v
      → p k v ≡ false
  unfolding count lookup
  none_counted p [] k v z e = ground arith
  none_counted p ((j, w) ∷ t) k v z e = ground (arith, none_counted p t k v)

  lookup-erase_ne : (i j : ℕ) (t : Rows A) → i ≢ j → lookup j (erase i t) ≡ lookup j t
  unfolding lookup erase
  lookup-erase_ne i j [] ne = refl
  lookup-erase_ne i j ((k, w) ∷ t) ne = ground (arith, lookup-erase_ne i j t ne)

-- The deletion of a plan, if it returns, takes away no plan that an order names and no plan that an
-- active user holds: each finds the plan that it found before.
pub delete_plan-keeps_references :
    (env : Env) (i : ℕ) (s : Db)
    → (delete_plan env i s).0 ≡ ok tt
    → ((j : ℕ) (o : Order)
        → lookup j s.orders ≡ some o
        → lookup o.plan_id (delete_plan env i s).1.plans ≡ lookup o.plan_id s.plans)
      × ((j p : ℕ) (u : User)
          → lookup j s.users ≡ some u
          → is_active_user_of env.now p u ≡ true
          → lookup p (delete_plan env i s).1.plans ≡ lookup p s.plans)
unfolding delete_plan
delete_plan-keeps_references env i s h = elim (Option-cases (lookup i s.plans)) [
  | inl gone ↦ absurd (ground arith)
  | inr (plan, found) ↦
      let plans : (delete_plan env i s).1.plans ≡ erase i s.plans = ground arith in
      let no_orders : count (λ _ (o : Order). o.plan_id == i) s.orders ≡ 0 = ground arith in
      let no_users : count_active_users env.now i s ≡ 0 = ground arith in
      (
        (λ j o e.
            let other = none_counted (λ _ (o : Order). o.plan_id == i) s.orders j o no_orders e in
            rw plans (lookup-erase_ne i o.plan_id s.plans (ground arith))),
        (λ j p u e active.
            let other =
              none_counted (λ _ u. is_active_user_of env.now i u) s.users j u no_users e in
            rw plans (lookup-erase_ne i p s.plans (λ same. not_active p u other active same))),
      )
]
  where
    not_active :
        (p : ℕ) (u : User)
        → is_active_user_of env.now i u ≡ false
        → is_active_user_of env.now p u ≡ true
        → i ≢ p
    not_active p u a b = λ same. cc (a, b, same)
