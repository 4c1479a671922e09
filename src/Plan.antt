-- ===== src/Plan.antt =====
-- `PlanService.delete` of app/services/plan.py, with the queries of app/repositories/plan.py.
pub mod References
use py_board.Prelude.{ℕ, Bool, Option, ◌==◌, ltb}
use py_board.Prelude.Rows.{lookup, erase, count}
use py_board.Runtime.{Env}
use py_board.Model.Entity.{Plan, Order}
use py_board.Exec.{
  not_found, conflict, plan_missing, plan_has_orders, plan_has_users, ◌>>=◌, ◌>>◌, raise_if, modify,
  or_raise, gets,
}
use py_board.Db.{Db, Service, count_active_users}

-- `PlanRepository.has_orders`
abbrev pub has_orders : ℕ → Db → Bool
has_orders i s = ltb 0 (count (λ _ (o : Order). o.plan_id == i) s.orders)

-- `PlanRepository.has_active_users`
abbrev pub has_active_users : ℕ → ℕ → Db → Bool
has_active_users now i s = ltb 0 (count_active_users now i s)

unfoldable pub delete_plan : Env → ℕ → Service (Unit {0})
delete_plan env i = do
  ordered ← gets (has_orders i)
  raise_if ordered (conflict plan_has_orders)
  used ← gets (has_active_users env.now i)
  raise_if used (conflict plan_has_users)
  found ← gets (λ s. lookup i s.plans)
  plan ← or_raise found (not_found plan_missing)
  modify (λ s. record s { plans = erase i s.plans })
