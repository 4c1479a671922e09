-- ===== src/Order/Notify.antt =====
-- `OrderService.handle_payment_notify`: the callback of a payment gateway.
pub mod Safety
use text.Mathlib.Text.{◌==◌ as str_eq}
use py_board.Prelude.{
  ℕ, String, Bool, true, false, not, ◌||◌, Option, none, some, ◌==◌, opt_eq, if◌then◌else◌,
}
use py_board.Prelude.Int.{ℤ, eqb_ℤ}
use py_board.Prelude.Rows.{find}
use py_board.Runtime.{Env}
use py_board.Model.Entity.{Order, Payment}
use py_board.Exec.{Result, ok, err, is_app_exception}
use py_board.Db.{Db, Service, get_by_trade_no}
use py_board.Payments.{Gateways, Params, PaymentNotifyResult}
use py_board.Order.Process.{process_paid_order}
use py_board.Order.Checkout.{expected_amount}

-- The body of the reply to the gateway.
pub data Answer : Type 0 where
  success fail : Answer

-- `PaymentRepository.get_by_uuid`
abbrev pub get_by_uuid : String → Db → Option (ℕ × Payment)
get_by_uuid u s = find (λ (p : Payment). str_eq p.uuid u) s.payments

-- `notify.paid_amount != expected_amount`
abbrev pub is_paid : Option ℤ → ℤ → Bool
is_paid none expected = false
is_paid (some n) expected = eqb_ℤ n expected

-- `except AppException: rollback, return "fail"`, from the state at the start of the request.
abbrev pub or_fail : {A : Type 0} → Result A × Db → Db → Result Answer × Db
or_fail (ok _, s') s = (ok success, s')
or_fail (err e, s') s = if is_app_exception e then (ok fail, s) else (err e, s')

module _ (env : Env) (g : Gateways) where
  open g use {canonical_gateway_name, create_payment_gateway, verify_notify}

  -- The `try` block: `none` is the answer "fail".
  unfoldable pub open_gateway : String → Payment → Result (Option Params)
  open_gateway gateway_name p = elim (canonical_gateway_name gateway_name) [
    | err e ↦ if is_app_exception e then ok none else err e
    | ok a ↦ elim (canonical_gateway_name p.payment) [
      | err e ↦ if is_app_exception e then ok none else err e
      | ok b ↦
          if str_eq a b
          then elim (create_payment_gateway p.payment p.config) [
            | err e ↦ if is_app_exception e then ok none else err e
            | ok config ↦ ok (some config)
          ]
          else ok none
    ]
  ]

  -- From the order on, for a notification whose signature was verified.
  unfoldable pub settle : ℕ → PaymentNotifyResult → Service Answer
  settle payment_id notify s = elim (get_by_trade_no notify.trade_no s) [
    | none ↦ (ok fail, s)
    | some (i, o) ↦
        if not (opt_eq o.payment_id (some payment_id))
        then (ok fail, s)
        else if not (is_paid notify.paid_amount (expected_amount o))
        then (ok fail, s)
        else if not (o.status == 0 || o.status == 1)
        then (ok success, s)
        else or_fail (process_paid_order env i (some notify.callback_no) "system" none s) s
  ]

  unfoldable pub verify : ℕ → Params → Params → Service Answer
  verify payment_id config params s = elim (verify_notify config params) [
    | err e ↦ (err e, s)
    | ok notify ↦ if notify.is_success then settle payment_id notify s else (ok fail, s)
  ]

  -- `OrderService.handle_payment_notify`
  unfoldable pub handle_payment_notify : String → String → Params → Service Answer
  handle_payment_notify gateway_name payment_uuid params s = elim (get_by_uuid payment_uuid s) [
    | none ↦ (ok fail, s)
    | some (payment_id, p) ↦
        if not p.enable then (ok fail, s) else elim (open_gateway gateway_name p) [
          | err e ↦ (err e, s)
          | ok none ↦ (ok fail, s)
          | ok (some config) ↦ verify payment_id config params s
        ]
  ]
