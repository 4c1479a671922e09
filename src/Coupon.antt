-- ===== src/Coupon.antt =====
-- app/services/coupon.py: the discount, the checks of a coupon, its use on an order when it is
-- created and when it is paid, and the administration.
pub mod Admin
pub mod Consume
pub mod Discount
pub mod Catalogue
pub mod Checks
use text.Mathlib.Text.{◌==◌ as str_eq}
use py_board.Prelude.{
  ℕ, zero, suc, String, Bool, true, false, not, ◌&&◌, Option, none, some, List, [], ◌∷◌, ◌==◌, ltb,
  leb, is_none, get_or, if◌then◌else◌,
}
use py_board.Prelude.Int.{ℤ, pos, negsuc, ◌+ℤ◌, ◌-ℤ◌, ltb_ℤ, leb_ℤ, eqb_ℤ, min_ℤ, max_ℤ}
use py_board.Prelude.Rows.{lookup}
use py_board.Json.{Json, list_or_empty}
use py_board.Runtime.{Env, Truncated, truncate}
use py_board.Model.Period.{Period, period_text, text_mem}
use py_board.Model.Entity.{Order, Coupon}
use py_board.Exec
use py_board.Exec.{
  Exn, Result, ok, err, bad_request, overflow_error, value_error, coupon_invalid, coupon_used_up,
  coupon_early, coupon_late, coupon_other_plan, coupon_other_period, coupon_user_limit,
  coupon_unusable, coupon_changed, coupon_kind, code_empty, ◌>>=◌, ◌>>◌, pure, raise, raise_if,
  done, or_raise, gets, lift,
}
use py_board.Db.{Db, Service, set_coupon, get_coupon_by_code, count_user_used}

-- `int(x)` of a float, with its exceptions.
abbrev pub cut : Truncated → Result ℤ
cut (Truncated.whole n) = ok n
cut Truncated.overflow_error = err overflow_error
cut Truncated.value_error = err value_error

-- `max(0, min(amount, discount))`
abbrev pub clamp : ℤ → Result ℤ → Result ℤ
clamp amount (ok discount) = ok (max_ℤ (pos 0) (min_ℤ amount discount))
clamp amount (err e) = err e

-- `limit is not None and limit <= 0`
abbrev pub is_used_up : Option ℤ → Bool
is_used_up none = false
is_used_up (some n) = leb_ℤ n (pos 0)

-- `limit_use -= 1`, where there is a limit.
abbrev pub minus_one : Option ℤ → Option ℤ
minus_one none = none
minus_one (some n) = some (n -ℤ pos 1)

-- `plan_id in {int(item) for item in plan_ids}`: an item that is no integer raises.
unfoldable pub int_mem : (Json → Option ℤ) → ℤ → List Json → Option Bool
int_mem int_of n [] = some false
int_mem int_of n (j ∷ js) = elim (int_of j) [
  | none ↦ none
  | some m ↦ elim (int_mem int_of n js) [
    | none ↦ none
    | some b ↦ some (if eqb_ℤ m n then true else b)
  ]
]

-- `period in {str(item) for item in periods}`
unfoldable pub str_mem : (Json → String) → String → List Json → Bool
str_mem str_of t [] = false
str_mem str_of t (j ∷ js) = if str_eq t (str_of j) then true else str_mem str_of t js

abbrev pub texts : List String → List Json
texts [] = []
texts (s ∷ l) = Json.text s ∷ texts l

abbrev pub is_empty {ℓ} : {A : Type ℓ} → List A → Bool
is_empty [] = true
is_empty (_ ∷ _) = false

-- The assignments of `apply_to_order`.
abbrev pub with_discount : Order → ℕ → ℤ → Order
with_discount order i discount = record order {
  coupon_id = some i;
  discount_amount = some discount;
  total_amount = max_ℤ (pos 0) (order.total_amount -ℤ discount);
}

module _ (env : Env) where
  -- `CouponService.calculate_discount`
  unfoldable pub calculate_discount : Coupon → ℤ → Result ℤ
  calculate_discount coupon amount =
      if leb_ℤ amount (pos 0)
      then ok (pos 0)
      else clamp amount (
          if coupon.kind == 1
          then ok coupon.value
          else if coupon.kind == 2
          then cut (
              truncate
                (env.float_mul (env.float_of_int amount) (env.int_div coupon.value (pos 100))))
          else err (bad_request coupon_kind))

  -- `_normalize_code`
  unfoldable pub normalize_code : String → Result String
  normalize_code code =
      let c = env.strip_upper code in if str_eq c "" then err (bad_request code_empty) else ok c

  -- `_parse_optional_list`
  unfoldable pub parse_optional_list : Option String → List Json
  parse_optional_list none = []
  parse_optional_list (some value) = if str_eq value "" then [] else elim (env.loads value) [
    | none ↦ texts (env.split_items value)
    | some parsed ↦ list_or_empty parsed
  ]

  -- The two lists that may limit a coupon; an empty list limits nothing.
  unfoldable pub check_plan : Coupon → ℕ → Service (Unit {0})
  unfolding parse_optional_list
  check_plan coupon plan_id =
      let plan_ids = parse_optional_list coupon.limit_plan_ids in
      if is_empty plan_ids then done else elim (int_mem env.int_of (pos plan_id) plan_ids) [
        | none ↦ raise value_error
        | some found ↦ raise_if (not found) (bad_request coupon_other_plan)
      ]

  unfoldable pub check_period : Coupon → Period → Service (Unit {0})
  unfolding parse_optional_list
  check_period coupon period =
      let periods = parse_optional_list coupon.limit_period in
      raise_if (not (is_empty periods) && not (str_mem env.str_of (period_text period) periods))
        (bad_request coupon_other_period)

  unfoldable pub check_user_limit : ℕ → Coupon → ℕ → Option ℕ → Service (Unit {0})
  check_user_limit coupon_id coupon user_id exclude = elim coupon.limit_use_with_user [
    | none ↦ done
    | some limit ↦ λ s.
        raise_if (leb_ℤ limit (pos (count_user_used coupon_id user_id exclude s)))
          (bad_request coupon_user_limit) s
  ]

  -- `_validate_coupon`, of a coupon that was found.
  unfoldable pub validate_coupon : ℕ → Coupon → ℕ → ℕ → Period → Option ℕ → Service (Unit {0})
  validate_coupon coupon_id coupon user_id plan_id period exclude = do
    raise_if (not coupon.is_shown) (bad_request coupon_invalid)
    raise_if (is_used_up coupon.limit_use) (bad_request coupon_used_up)
    raise_if (ltb env.now coupon.started_at) (bad_request coupon_early)
    raise_if (ltb coupon.ended_at env.now) (bad_request coupon_late)
    check_plan coupon plan_id
    check_period coupon period
    check_user_limit coupon_id coupon user_id exclude

  -- `validate`
  unfoldable pub validate : String → ℕ → ℕ → Period → Service (ℕ × Coupon)
  validate code user_id plan_id period = do
    c ← lift (normalize_code code)
    found ← gets (get_coupon_by_code c)
    (i, coupon) ← or_raise found (bad_request coupon_invalid)
    validate_coupon i coupon user_id plan_id period none
    pure (i, coupon)

  -- `check`: the coupon and the discount on the amount, if one is given.
  unfoldable pub check : ℕ → String → ℕ → Period → Option ℤ → Service (Coupon × Option ℤ)
  check user_id code plan_id period none = do
    (i, coupon) ← validate code user_id plan_id period
    pure (coupon, none)
  check user_id code plan_id period (some amount) = do
    (i, coupon) ← validate code user_id plan_id period
    discount ← lift (calculate_discount coupon amount)
    pure (coupon, some discount)

  -- `apply_to_order`: the order is not in the table yet, so its new value is returned.
  unfoldable pub apply_to_order : Order → String → Service Order
  apply_to_order order code = do
    (i, coupon) ← validate code order.user_id order.plan_id order.period
    discount ← lift (calculate_discount coupon order.total_amount)
    raise_if (leb_ℤ discount (pos 0)) (bad_request coupon_unusable)
    pure (with_discount order i discount)

  -- The price before the discount and the balance were taken off.
  abbrev pub discount_base : Order → ℤ
  discount_base order =
      order.total_amount
      +ℤ get_or order.balance_amount (pos 0)
      +ℤ get_or order.discount_amount (pos 0)

  abbrev pub take_use : ℕ → Coupon → Service (Unit {0})
  take_use i coupon = elim coupon.limit_use [
    | none ↦ done
    | some n ↦ set_coupon i (record coupon { limit_use = some (n -ℤ pos 1) })
  ]

  -- `consume_for_paid_order`, for the order with key `order_id`.
  unfoldable pub consume_for_paid_order : ℕ → Order → Service (Unit {0})
  consume_for_paid_order order_id order = elim order.coupon_id [
    | none ↦ done
    | some i ↦ do
      found ← gets (λ s. lookup i s.coupons)
      coupon ← or_raise found (bad_request coupon_invalid)
      validate_coupon i coupon order.user_id order.plan_id order.period (some order_id)
      discount ← lift (calculate_discount coupon (discount_base order))
      raise_if (not (eqb_ℤ discount (get_or order.discount_amount (pos 0))))
          (bad_request coupon_changed)
      take_use i coupon
  ]
