-- ===== src/Tests/Epay.antt =====
-- A callback of EPay with its parameters in two orders.
use text.Mathlib.Text.{◌==◌ as str_eq}
use py_board.Prelude.{ℕ, ◌≡◌, refl, true, false, none, some, [], ◌∷◌, if◌then◌else◌}
use py_board.Prelude.Int.{pos, ◌+ℤ◌}
use py_board.Prelude.Rows.{find}
use py_board.Prelude.Table.{get}
use py_board.Model.Entity.{Order, Payment}
use py_board.Exec.{ok}
use py_board.Db.{Db, get_by_trade_no}
use py_board.Payments.{Params, PaymentNotifyResult}
use py_board.Payments.Epay.Amount.{finite, money_to_cents}
use py_board.Payments.Epay.{
  EpayEnv, value_of, signed_params, before, insert_param, sorted_params, param_str,
  php_stripslashes, is_ascii, generate_sign, paid, check_notify, verify_notify, parse_config,
  create_payment_gateway, gateways,
}
use py_board.Payments.Epay.Signed.{IsSigned, notify-IsSigned}
use py_board.Payments.Epay.Order.{swapped, generate_sign-Rearranged}
use py_board.Order.Checkout.{expected_amount}
use py_board.Order.Notify.{
  success, handle_payment_notify, open_gateway, verify, settle, get_by_uuid,
}
use py_board.Tests.Data.{env_at, waiting, order}

-- The digest is the text itself; the merchant 9 has the key "k".
abbrev epay : EpayEnv
epay = record {
  md5 = λ t. t;
  urlencode = λ p. "";
  show = λ n. "";
  decimal = λ t. if str_eq t "9" then some (finite false 9 (pos 0)) else none;
  strip_lower = λ t. "epay";
  loads = λ t. none;
}

abbrev callback : Params
callback =
    ("trade_no", "C1")
    ∷ ("out_trade_no", "T1")
    ∷ ("money", "9")
    ∷ ("pid", "9")
    ∷ ("trade_status", "TRADE_SUCCESS")
    ∷ ("sign", "money=9&out_trade_no=T1&pid=9&trade_no=C1&trade_status=TRADE_SUCCESSk")
    ∷ ("sign_type", "MD5")
    ∷ []

generate_sign-Rearranged_example :
    generate_sign epay "k" callback
    ≡ generate_sign epay "k" (
        ("out_trade_no", "T1")
        ∷ ("trade_no", "C1")
        ∷ ("money", "9")
        ∷ ("pid", "9")
        ∷ ("trade_status", "TRADE_SUCCESS")
        ∷ ("sign", "money=9&out_trade_no=T1&pid=9&trade_no=C1&trade_status=TRADE_SUCCESSk")
        ∷ ("sign_type", "MD5")
        ∷ [])
generate_sign-Rearranged_example =
    generate_sign-Rearranged epay "k" callback _
      (swapped "trade_no" "C1" "out_trade_no" "T1" _ refl)

-- The order was completed before, by an earlier callback.
abbrev completed_shop : Db
completed_shop = record waiting { orders = (1, record order { status = 3 }) ∷ [] }

answered :
    (handle_payment_notify (env_at 2000) (gateways epay) "EPay" "P1" callback completed_shop).0
    ≡ ok success
unfolding handle_payment_notify open_gateway verify settle create_payment_gateway parse_config
    verify_notify check_notify generate_sign signed_params sorted_params insert_param before
    param_str php_stripslashes is_ascii money_to_cents get find ◌+ℤ◌
answered = refl

notify-IsSigned_example :
    (m : ℕ) × (p : Payment) × (config : Params) × (n : PaymentNotifyResult) × (i : ℕ) × (o : Order)
    × (get_by_uuid "P1" completed_shop ≡ some (m, p))
    × (p.enable ≡ true)
    × (create_payment_gateway epay p.payment p.config ≡ ok config)
    × (parse_config epay p.config ≡ ok config)
    × (str_eq (value_of "key" config) "" ≡ false)
    × IsSigned epay config callback n
    × (get_by_trade_no (value_of "out_trade_no" callback) completed_shop ≡ some (i, o))
    × (o.payment_id ≡ some m)
    × (paid epay callback ≡ ok (some (expected_amount o)))
notify-IsSigned_example =
    notify-IsSigned (env_at 2000) epay "EPay" "P1" callback completed_shop answered
