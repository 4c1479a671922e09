-- ===== src/Order/Rules.antt =====
-- The rules of app/services/order.py that read the clock and a user's subscription: what is active,
-- how a period is added, which kind an order is, when it takes a slot of the plan's capacity.
pub mod Bonus
pub mod Months
use py_board.Prelude.{
  ℕ, ◌+◌, ◌-◌, ◌/◌, ◌%◌, String, Bool, true, false, not, ◌&&◌, Option, none, some, List, [], ◌∷◌,
  ◌==◌, ltb, min, max, is_none, opt_eq, if◌then◌else◌,
}
use Prim.Native.Char.{code}
use py_board.Prelude.Int.{ℤ, pos, leb_ℤ, max_ℤ}
use py_board.Json.{Json, list_or_empty}
use py_board.Runtime.{Env, DateTime, Truncated, truncate}
use py_board.Model.Period.{Period, is_reset_price}
use py_board.Exec.{Result, ok, err, overflow_error, bad_request, sold_out, raise_if}
use py_board.Db.{Service, count_active_users}

-- 2100-01-01 00:00:00 UTC
abbrev pub never_expires_at : ℕ
never_expires_at = 4102444800

-- `str.split(":", 1)`, where there is a colon.
unfoldable pub split_colon : String → Option (String × String)
split_colon String.[] = none
split_colon (String.◌∷◌ c s) =
    let rest = split_colon s in
    if code c == 58
    then some (String.[], s)
    else elim rest [ none ↦ none | some (a, b) ↦ some (String.◌∷◌ c a, b) ]

-- `int(float(text) * 100)`: a value, or `none` where ValueError is raised.
pub data Cents : Type 0 where
  cents : ℤ → Cents
  malformed : Cents
  too_large : Cents

module _ (env : Env) where
  -- `_is_user_active`
  unfoldable pub is_user_active : Option ℕ → Bool
  is_user_active none = true
  is_user_active (some expired_at) = ltb env.now expired_at

  -- `_add_months`, before the conversion back to a Unix time.
  unfoldable pub add_months_to : DateTime → ℕ → DateTime
  add_months_to dt months =
      let month = dt.month - 1 + months in
      let year = dt.year + month / 12 in
      let month' = month % 12 + 1 in
      record dt { year = year; month = month'; day = min dt.day (env.monthrange year month') }

  -- `_add_months`
  unfoldable pub add_months : ℕ → ℕ → ℕ
  add_months timestamp months =
      env.timestamp (add_months_to (env.fromtimestamp (max timestamp env.now)) months)

  -- `OrderService._determine_order_type`
  unfoldable pub determine_order_type : Option ℕ → Option ℕ → ℕ → Period → ℕ
  determine_order_type user_plan_id expired_at plan_id period =
      if is_reset_price period
      then 4
      else if not (is_none user_plan_id)
          && (not (opt_eq (some plan_id) user_plan_id) && is_user_active expired_at)
      then 3
      else if opt_eq user_plan_id (some plan_id) && is_user_active expired_at
      then 2
      else 1

  -- `_requires_capacity_slot`
  unfoldable pub requires_capacity_slot : Option ℕ → Option ℕ → ℕ → Period → Bool
  requires_capacity_slot user_plan_id expired_at plan_id period =
      if is_reset_price period
      then false
      else not (opt_eq user_plan_id (some plan_id) && is_user_active expired_at)

  -- `OrderService._ensure_plan_capacity_available`
  unfoldable pub ensure_plan_capacity_available : ℕ → Option ℤ → Service (Unit {0})
  ensure_plan_capacity_available plan_id none s = (ok tt, s)
  ensure_plan_capacity_available plan_id (some limit) s =
      if leb_ℤ limit (pos 0)
      then (ok tt, s)
      else raise_if (leb_ℤ limit (pos (count_active_users env.now plan_id s)))
          (bad_request sold_out) s

  -- `int(float(text) * 100)`; the exception OverflowError is not caught by the caller.
  unfoldable pub text_cents : String → Cents
  text_cents t = elim (env.float_of_text t) [
    | none ↦ malformed
    | some x ↦ elim (truncate (env.float_mul x (env.float_of_int (pos 100)))) [
      | Truncated.whole n ↦ cents n
      | Truncated.overflow_error ↦ too_large
      | Truncated.value_error ↦ malformed
    ]
  ]

  -- One round of the loop of `_deposit_bonus`: `continue` on a malformed tier.
  unfoldable pub best_bonus : ℤ → Json → ℤ → Result ℤ
  best_bonus total_amount tier bonus = elim (split_colon (env.str_of tier)) [
    | none ↦ ok bonus
    | some (amount, value) ↦ elim (text_cents amount) [
      | malformed ↦ ok bonus
      | too_large ↦ err overflow_error
      | cents amount_cents ↦ elim (text_cents value) [
        | malformed ↦ ok bonus
        | too_large ↦ err overflow_error
        | cents value_cents ↦
            ok (if leb_ℤ amount_cents total_amount then max_ℤ bonus value_cents else bonus)
      ]
    ]
  ]

  unfoldable pub bonus_loop : ℤ → List Json → ℤ → Result ℤ
  unfolding best_bonus
  bonus_loop total_amount [] bonus = ok bonus
  bonus_loop total_amount (t ∷ ts) bonus = elim (best_bonus total_amount t bonus) [
    | ok b ↦ bonus_loop total_amount ts b
    | err e ↦ err e
  ]

  -- `OrderService._deposit_bonus`
  unfoldable pub deposit_bonus : ℤ → Result ℤ
  deposit_bonus total_amount =
      bonus_loop total_amount (list_or_empty (env.get_json "deposit_bounus")) (pos 0)
