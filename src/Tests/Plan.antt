-- ===== src/Tests/Plan.antt =====
-- A plan that nobody has is deleted.
use py_board.Prelude.{ℕ, ◌≡◌, refl, true, some, [], ◌∷◌}
use py_board.Prelude.Rows.{lookup, erase, count}
use py_board.Model.Entity.{User, Order}
use py_board.Exec.{ok}
use py_board.Db.{Db, is_active_user_of}
use py_board.Plan.{delete_plan}
use py_board.Plan.References.{delete_plan-keeps_references}
use py_board.Tests.Data.{env_at, waiting, plan}

-- The order is of the plan 5.
abbrev two_plans : Db
two_plans = record waiting { plans = (4, plan) ∷ (5, plan) ∷ [] }

deleted : (delete_plan (env_at 2000) 4 two_plans).0 ≡ ok tt
unfolding delete_plan lookup erase count
deleted = refl

delete_plan-keeps_references_example :
    ((j : ℕ) (o : Order)
      → lookup j two_plans.orders ≡ some o
      → lookup o.plan_id (delete_plan (env_at 2000) 4 two_plans).1.plans
        ≡ lookup o.plan_id two_plans.plans)
    × ((j p : ℕ) (u : User)
        → lookup j two_plans.users ≡ some u
        → is_active_user_of 2000 p u ≡ true
        → lookup p (delete_plan (env_at 2000) 4 two_plans).1.plans ≡ lookup p two_plans.plans)
delete_plan-keeps_references_example =
    delete_plan-keeps_references (env_at 2000) 4 two_plans deleted
