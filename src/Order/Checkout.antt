-- ===== src/Order/Checkout.antt =====
-- `OrderService.checkout`: the fee of the payment method, and the request to the gateway.
pub mod Fees
use Prim.Native.String.{◌++◌ as joined}
use text.Mathlib.Text.{◌==◌ as str_eq}
use py_board.Prelude.{ℕ, zero, String, Bool, true, false, Option, none, some, get_or, if◌then◌else◌}
use py_board.Prelude.Int.{ℤ, pos, ◌+ℤ◌, ltb_ℤ, leb_ℤ}
use py_board.Prelude.Rows.{lookup}
use py_board.Runtime.{Env, Float, finite, truncate}
use py_board.Model.Entity.{Order, Payment}
use py_board.Exec.{
  Result, ok, err, not_found, order_missing, payment_unavailable, ◌>>=◌, ◌>>◌, pure, or_raise, gets,
  lift,
}
use py_board.Db.{Db, Service, get_pending_by_trade_no, set_order, log_event}
use py_board.Payments.{Gateways, PaymentRequest}
use py_board.Coupon.{cut}
use py_board.Order.Process.{process_paid_order, order_event}

-- The reply: `{"type": -1}` of a free order, or the gateway's link.
pub data Reply : Type 0 where
  free : Reply
  link : String → Reply

-- `if x:` of a float
abbrev pub is_zero : Float → Bool
is_zero (finite _ zero _) = true
is_zero _ = false

-- `order.total_amount + (order.handling_amount or 0)`
abbrev pub expected_amount : Order → ℤ
expected_amount o = o.total_amount +ℤ get_or o.handling_amount (pos 0)

-- `PaymentRepository.get_enabled_by_id`
abbrev pub get_enabled_by_id : ℕ → Db → Option Payment
get_enabled_by_id i s = elim (lookup i s.payments) [
  | none ↦ none
  | some p ↦ if p.enable then some p else none
]

-- The fixed part of the fee.
abbrev pub fixed_fee : Payment → ℤ
fixed_fee p = get_or p.handling_fee_fixed (pos 0)

-- `if handling_amount > 0: order.handling_amount = handling_amount`, and the method.
abbrev pub with_fee : Order → ℤ → ℕ → Order
with_fee o fee method =
    if ltb_ℤ (pos 0) fee
    then record o { handling_amount = some fee; payment_id = some method }
    else record o { payment_id = some method }

module _ (env : Env) where
  -- `int(order.total_amount * payment.handling_fee_percent / 100)`
  unfoldable pub percent_fee : Order → Payment → Result ℤ
  percent_fee o p = elim p.handling_fee_percent [
    | none ↦ ok (pos 0)
    | some percent ↦
        if is_zero percent
        then ok (pos 0)
        else cut (
            truncate (
              env.float_div (env.float_mul (env.float_of_int o.total_amount) percent)
                (env.float_of_int (pos 100))))
  ]

  unfoldable pub handling_fee : Order → Payment → Result ℤ
  handling_fee o p = elim (percent_fee o p) [ ok n ↦ ok (fixed_fee p +ℤ n) | err e ↦ err e ]

module _ (env : Env) (g : Gateways) where
  open g use {create_payment_gateway, route_gateway_name, pay}

  abbrev pub notify_base : Payment → String
  notify_base p = elim p.notify_domain [
    | none ↦ env.get_str "app_url"
    | some d ↦ if str_eq d "" then env.get_str "app_url" else env.rstrip_slash d
  ]

  -- The request of the order as it stands after the fee is written.
  abbrev pub payment_request : Order → Payment → String → PaymentRequest
  payment_request o p route = record {
    trade_no = o.trade_no;
    total_amount = expected_amount o;
    notify_url = joined (notify_base p) (joined "/notify/" (joined route (joined "/" p.uuid)));
    return_url = joined (env.get_str "app_url") (joined "/#/order/" o.trade_no);
    user_id = o.user_id;
  }

  -- The gateway's link, for the order with its fee written.
  unfoldable pub request_link : Order → Payment → ℕ → Service Reply
  request_link o p user_id = do
    gateway ← lift (create_payment_gateway p.payment p.config)
    route ← lift (route_gateway_name p.payment)
    url ← lift (pay gateway (payment_request o p route))
    log_event (order_event o "order.checkout" "user" (some user_id))
    pure (link url)

  -- The branch of an order that is to be paid.
  unfoldable pub checkout_paid : ℕ → Order → ℕ → ℕ → Service Reply
  checkout_paid i o user_id method = do
    found ← gets (get_enabled_by_id method)
    p ← or_raise found (not_found payment_unavailable)
    fee ← lift (handling_fee env o p)
    set_order i (with_fee o fee method)
    request_link (with_fee o fee method) p user_id

  -- `OrderService.checkout`
  unfoldable pub checkout : ℕ → String → ℕ → Service Reply
  checkout user_id trade_no method = do
    found ← gets (get_pending_by_trade_no trade_no user_id)
    (i, o) ← or_raise found (not_found order_missing)
    if leb_ℤ o.total_amount (pos 0)
        then (do
          log_event (order_event o "order.checkout" "user" (some user_id))
          process_paid_order env i none "user" (some user_id)
          pure free)
        else checkout_paid i o user_id method
