-- ===== src/Lifecycle/Credits.antt =====
-- A second calculation of the commission of an order (`calculate_for_order`).
use py_board.Prelude.{ℕ, String, ◌≡◌, ◌≢◌, refl, ◌⊎◌, inl, inr, none, some}
use text.Mathlib.Text.{◌==◌ as str_eq}
use text.Mathlib.TextEquality.{eq_iff}
use py_board.Prelude.Int.{ℤ}
use py_board.Prelude.Rows.{lookup, find-insert_some}
use py_board.Runtime.{Env}
use py_board.Model.Entity.{Order, CommissionLog}
use py_board.Db.{Db, get_commission_log}
use py_board.Commission.{calculate_for_order}
use py_board.Commission.Grant.{Quiet, Granted, calculate_for_order-Outcome, logged-Quiet}
use py_board.Lifecycle.Relation.{IsSound}
use py_board.Lifecycle.Steps.{calculate_for_order-Progress}

logged_after :
    {s s' : Db} {u : ℕ} {t : String} {total : ℤ}
    → Granted s s' u t total
    → get_commission_log t s' ≢ none
logged_after {s} {s'} {u} {t} {total} g = rw g.commission_logs (
    find-insert_some (λ (l : CommissionLog). str_eq l.trade_no t) s.next_commission_log _
      s.commission_logs ((eq_iff t t).1 refl))

-- Where the keys of the orders are unique and the next one is free, of two calculations of the
-- commission of an order in the table, one right after the other, at any times and with any
-- settings, at most one changes a user or the ledger.
pub commission_once :
    (env env' : Env) (i : ℕ) (s : Db) (o : Order)
    → IsSound s
    → lookup i s.orders ≡ some o
    → Quiet s (calculate_for_order env i s).1
      ⊎ Quiet
          (calculate_for_order env i s).1
          (calculate_for_order env' i (calculate_for_order env i s).1).1
commission_once env env' i s o f here =
    let s' = (calculate_for_order env i s).1 in
    elim (calculate_for_order-Outcome env i s o here) [
      | inl q ↦ inl q
      | inr g ↦
          let (o', here', k) = (calculate_for_order-Progress env i s).row f i o here in
          inr (logged-Quiet env' i s' o' here' (rw k.trade_no (logged_after g)))
    ]
