-- ===== src/Payments/Epay/Signed.antt =====
-- What an accepted callback of app/payments/epay.py was signed with, and what it says.
use text.Mathlib.Text.{◌==◌ as str_eq}
use py_board.Prelude.{
  ℕ, String, ◌≡◌, refl, sym, ap, ◌∙◌, inl, inr, Bool, true, false, not, ◌&&◌, ◌||◌, Option, none,
  some, arith, is_none, Bool-cases, if◌then◌else◌,
}
use py_board.Prelude.Int.{ℤ}
use py_board.Prelude.Table.{text_eq}
use py_board.Runtime.{Env}
use py_board.Model.Entity.{Order, Payment, PaymentConfig}
use py_board.Exec.{Result, ok, err, is_app_exception}
use py_board.Db.{Db, get_by_trade_no}
use py_board.Payments.{Params, PaymentNotifyResult, Gateways}
use py_board.Order.Checkout.{expected_amount}
use py_board.Order.Notify.{success, open_gateway, handle_payment_notify, get_by_uuid}
use py_board.Order.Notify.Safety.{notify-success}
use py_board.Payments.Epay.{
  EpayEnv, value_of, generate_sign, is_ascii, hash_equals, refused, accept, paid, is_other_pid,
  check_notify, verify_notify, parse_config, validated, get_payment_gateway, create_payment_gateway,
  gateways,
}

-- What an accepted callback says: it is signed with the key of the configuration, comes from the merchant,
-- reports a success, and names an order and an amount.
pub record IsSigned (env : EpayEnv) (config params : Params) (n : PaymentNotifyResult)
    : Type 0 where
  pub sign : value_of "sign" params ≡ generate_sign env (value_of "key" config) params
  pub pid : is_other_pid env config params ≡ false
  pub status : value_of "trade_status" params ≡ "TRADE_SUCCESS"
  pub order : n.trade_no ≡ value_of "out_trade_no" params
  pub callback : n.callback_no ≡ value_of "trade_no" params
  pub amount : paid env params ≡ ok n.paid_amount

hash_equals-true : (a b : String) → hash_equals a b ≡ ok true → a ≡ b
hash_equals-true a b e = elim (Bool-cases (is_ascii a && is_ascii b)) [
  | inl ascii ↦ text_eq a b (ground (arith, rw ascii at e))
  | inr other ↦ absurd (ground (arith, rw other at e))
]

module _ (env : EpayEnv) (config params : Params) (n : PaymentNotifyResult) where
  accept-success :
      (o : Option ℤ)
      → accept env params o ≡ n
      → n.is_success ≡ true
      → (n.trade_no ≡ value_of "out_trade_no" params)
        × (n.callback_no ≡ value_of "trade_no" params)
        × (n.paid_amount ≡ o)
  accept-success o e good =
      by_cases
        (str_eq (value_of "out_trade_no" params) ""
          || (str_eq (value_of "trade_no" params) "" || is_none o))
        e
    where
      accepted : PaymentNotifyResult
      accepted = record {
        is_success = true;
        trade_no = value_of "out_trade_no" params;
        callback_no = value_of "trade_no" params;
        paid_amount = o;
      }

      by_cases :
          (x : Bool)
          → (if x then refused else accepted) ≡ n
          → (n.trade_no ≡ value_of "out_trade_no" params)
            × (n.callback_no ≡ value_of "trade_no" params)
            × (n.paid_amount ≡ o)
      by_cases true e =
          absurd (ground (arith, ap (λ (r : PaymentNotifyResult). r.is_success) e, good))
      by_cases false e = (
        sym (ap (λ (r : PaymentNotifyResult). r.trade_no) e),
        sym (ap (λ (r : PaymentNotifyResult). r.callback_no) e),
        sym (ap (λ (r : PaymentNotifyResult). r.paid_amount) e),
      )

  check_notify-success :
      check_notify env config params ≡ ok n
      → n.is_success ≡ true
      → value_of "sign" params ≡ generate_sign env (value_of "key" config) params
      → IsSigned env config params n
  unfolding check_notify
  check_notify-success e good signed =
      by_cases (is_other_pid env config params)
        (str_eq (value_of "trade_status" params) "TRADE_SUCCESS") (paid env params) refl refl refl e
    where
      checked : Bool → Bool → Result (Option ℤ) → Result PaymentNotifyResult
      checked x y o =
          if x
          then ok refused
          else if not y
          then ok refused
          else elim o [ err e ↦ err e | ok paid_amount ↦ ok (accept env params paid_amount) ]

      not_refused : ok refused ≡ ok n → ⊥
      not_refused h = ground (arith, good)

      by_cases :
          (x y : Bool) (o : Result (Option ℤ))
          → is_other_pid env config params ≡ x
          → str_eq (value_of "trade_status" params) "TRADE_SUCCESS" ≡ y
          → paid env params ≡ o
          → checked x y o ≡ ok n
          → IsSigned env config params n
      by_cases true y o pid status amount h = absurd (not_refused h)
      by_cases false false o pid status amount h = absurd (not_refused h)
      by_cases false true (err x) pid status amount h = absurd (ground arith)
      by_cases false true (ok o) pid status amount h =
          let (order, callback, is_paid) = accept-success o (ground arith) good in
          record {
            sign = signed;
            pid = pid;
            status = text_eq (value_of "trade_status" params) "TRADE_SUCCESS" status;
            order = order;
            callback = callback;
            amount = amount ∙ ap ok (sym is_paid);
          }

  verify_notify-success :
      verify_notify env config params ≡ ok n → n.is_success ≡ true → IsSigned env config params n
  unfolding verify_notify
  verify_notify-success e good =
      by_cases
        (hash_equals (generate_sign env (value_of "key" config) params) (value_of "sign" params))
        refl e
    where
      verified : Result Bool → Result PaymentNotifyResult
      verified r = elim r [
        | err e ↦ err e
        | ok false ↦ ok refused
        | ok true ↦ check_notify env config params
      ]

      by_cases :
          (r : Result Bool)
          → hash_equals (generate_sign env (value_of "key" config) params) (value_of "sign" params)
            ≡ r
          → verified r ≡ ok n
          → IsSigned env config params n
      by_cases (err x) h e = absurd (ground arith)
      by_cases (ok false) h e = absurd (ground (arith, good))
      by_cases (ok true) h e = check_notify-success e good (
          sym (
            hash_equals-true (generate_sign env (value_of "key" config) params)
              (value_of "sign" params) h))

open_gateway-opened :
    (env : Env) (g : Gateways) (name : String) (p : Payment) (c : Params)
    → open_gateway env g name p ≡ ok (some c)
    → g.create_payment_gateway p.payment p.config ≡ ok c
unfolding open_gateway
open_gateway-opened env g name p c opened =
    by_cases (g.canonical_gateway_name name) (g.canonical_gateway_name p.payment) opened
  where
    created : Result Params → Result (Option Params)
    created r = elim r [
      | err e ↦ if is_app_exception e then ok none else err e
      | ok config ↦ ok (some config)
    ]

    from_created : (r : Result Params) → created r ≡ ok (some c) → r ≡ ok c
    from_created (err e) h = absurd (ground arith)
    from_created (ok d) h = ground arith

    by_cases :
        (a b : Result String)
        → (elim a as (λ _. Result (Option Params)) [
          | err e ↦ if is_app_exception e then ok none else err e
          | ok a ↦ elim b as (λ _. Result (Option Params)) [
            | err e ↦ if is_app_exception e then ok none else err e
            | ok b ↦
                if str_eq a b
                then created (g.create_payment_gateway p.payment p.config)
                else ok none
          ]
        ])
          ≡ ok (some c)
        → g.create_payment_gateway p.payment p.config ≡ ok c
    by_cases (err e) b h = absurd (ground arith)
    by_cases (ok a) (err e) h = absurd (ground arith)
    by_cases (ok a) (ok b) h = elim (Bool-cases (str_eq a b)) [
      | inl same ↦ from_created (g.create_payment_gateway p.payment p.config) (rw same at h)
      | inr other ↦ absurd (ground (arith, rw other at h))
    ]

-- The configuration of a gateway that was created is the one that was stored, with its three fields.
create_payment_gateway-parsed :
    (env : EpayEnv) (name : String) (stored : PaymentConfig) (c : Params)
    → create_payment_gateway env name stored ≡ ok c
    → (parse_config env stored ≡ ok c) × (str_eq (value_of "key" c) "" ≡ false)
unfolding create_payment_gateway
create_payment_gateway-parsed env name stored c h = by_cases (get_payment_gateway env name tt) h
  where
    from_validated :
        (r : Result Params)
        → validated env r ≡ ok c
        → (r ≡ ok c) × (str_eq (value_of "key" c) "" ≡ false)
    from_validated (err e) e' = absurd (ground arith)
    from_validated (ok d) e' =
        elim (Bool-cases (
          str_eq (value_of "url" d) ""
          || (str_eq (value_of "pid" d) "" || str_eq (value_of "key" d) ""))) [
            | inl lacking ↦ absurd (ground (arith, rw lacking at e'))
            | inr full ↦
                let same : d ≡ c = ground (arith, rw full at e') in
                (ap ok same, ap (λ x. str_eq (value_of "key" x) "") (sym same) ∙ ground arith)
          ]

    by_cases :
        (r : Result (Unit {0}))
        → (elim r as (λ _. Result Params) [
          | err e ↦ err e
          | ok _ ↦ validated env (parse_config env stored)
        ])
          ≡ ok c
        → (parse_config env stored ≡ ok c) × (str_eq (value_of "key" c) "" ≡ false)
    by_cases (err e) e' = absurd (ground arith)
    by_cases (ok u) e' = from_validated (parse_config env stored) e'

-- An answer "success" to a callback of EPay: the payment method of the address is enabled, its stored
-- configuration opens the gateway and has a key that is not empty, the callback is signed with this key,
-- comes from the configuration's merchant and reports TRADE_SUCCESS; and the order with the number in `out_trade_no` was checked out with this method, for exactly
-- the amount, with its fee, that `money` says.
pub notify-IsSigned :
    (env : Env) (epay : EpayEnv) (name uuid : String) (params : Params) (s : Db)
    → (handle_payment_notify env (gateways epay) name uuid params s).0 ≡ ok success
    → (m : ℕ) × (p : Payment) × (config : Params) × (n : PaymentNotifyResult) × (i : ℕ)
      × (o : Order) × (get_by_uuid uuid s ≡ some (m, p))
      × (p.enable ≡ true)
      × (create_payment_gateway epay p.payment p.config ≡ ok config)
      × (parse_config epay p.config ≡ ok config)
      × (str_eq (value_of "key" config) "" ≡ false)
      × IsSigned epay config params n
      × (get_by_trade_no (value_of "out_trade_no" params) s ≡ some (i, o))
      × (o.payment_id ≡ some m)
      × (paid epay params ≡ ok (some (expected_amount o)))
notify-IsSigned env epay name uuid params s answered =
    let (m, p, c, found, on, opened, n, checked, good, settled) =
      notify-success env (gateways epay) name uuid params s answered in
    let (i, o, ordered, method, amount, _) = settled in
    let created = open_gateway-opened env (gateways epay) name p c opened in
    let (parsed, keyed) = create_payment_gateway-parsed epay p.payment p.config c created in
    let signed = verify_notify-success epay c params n checked good in
    (
      m,
      p,
      c,
      n,
      i,
      o,
      found,
      on,
      created,
      parsed,
      keyed,
      signed,
      ap (λ t. get_by_trade_no t s) (sym signed.order) ∙ ordered,
      method,
      signed.amount ∙ ap ok amount,
    )
