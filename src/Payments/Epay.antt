-- ===== src/Payments/Epay.antt =====
-- app/payments/epay.py, the gateway EPay, and app/payments/registry.py, where it is the only one; the values
-- of a configuration and of a callback are texts.
pub mod Amount
pub mod Signed
pub mod Order
use Prim.Native.Char.{Char, code}
use Prim.Native.String as NativeString
use Prim.Native.String.{◌++◌ as joined}
use text.Mathlib.Text.{◌==◌ as str_eq}
use py_board.Prelude.{
  ℕ, String, Bool, true, false, not, ◌&&◌, ◌||◌, Option, none, some, [], ◌∷◌, ◌==◌, ltb, get_or,
  is_none, if◌then◌else◌,
}
use py_board.Prelude.Int.{ℤ}
use py_board.Prelude.Table.{get}
use py_board.Exec.{
  Result, ok, err, bad_request, type_error, gateway_missing, config_invalid, config_empty,
  config_malformed, config_not_object,
}
use py_board.Model.Entity.{PaymentConfig, no_config, text_config, dict_config}
use py_board.Payments.{Params, PaymentRequest, PaymentNotifyResult, Gateways}
use py_board.Payments.Epay.Amount.{Decimal, money_to_cents, cents_to_money}

-- MD5 in hexadecimal, `urlencode`, `str` of a number, `Decimal` of a text (`none` is InvalidOperation),
-- `strip().lower()`, and `json.loads`: `none` is JSONDecodeError, and `some none` is no object.
pub record EpayEnv : Type 0 where
  pub md5 : String → String
  pub urlencode : Params → String
  pub show : ℕ → String
  pub decimal : String → Option Decimal
  pub strip_lower : String → String
  pub loads : String → Option (Option Params)

-- `dict.get(key, "")`
abbrev pub value_of : String → Params → String
value_of key params = get_or (get key params) ""

abbrev pub is_sign_key : String → Bool
is_sign_key key = str_eq key "sign" || str_eq key "sign_type"

-- The fields that are signed.
abbrev pub is_signed : String → String → Bool
is_signed key value = not (is_sign_key key) && not (str_eq value "")

unfoldable pub signed_params : Params → Params
signed_params [] = []
signed_params ((key, value) ∷ params) =
    let rest = signed_params params in if is_signed key value then (key, value) ∷ rest else rest

-- `a < b` of texts, by the numbers of their characters
unfoldable pub before : String → String → Bool
before NativeString.[] NativeString.[] = false
before NativeString.[] (NativeString.◌∷◌ d t) = true
before (NativeString.◌∷◌ c s) NativeString.[] = false
before (NativeString.◌∷◌ c s) (NativeString.◌∷◌ d t) =
    let rest = before s t in
    if ltb (code c) (code d) then true else if ltb (code d) (code c) then false else rest

-- `sorted`, by the keys, which are different.
unfoldable pub insert_param : String → String → Params → Params
insert_param key value [] = (key, value) ∷ []
insert_param key value ((k, v) ∷ params) =
    let rest = insert_param key value params in
    if before k key then (k, v) ∷ rest else (key, value) ∷ (k, v) ∷ params

unfoldable pub sorted_params : Params → Params
sorted_params [] = []
sorted_params ((key, value) ∷ params) = insert_param key value (sorted_params params)

-- `unquote_plus(urlencode(…))`: the encoding of the values is undone.
unfoldable pub param_str : Params → String
param_str [] = ""
param_str ((key, value) ∷ []) = joined key (joined "=" value)
param_str ((key, value) ∷ params) =
    joined key (joined "=" (joined value (joined "&" (param_str params))))

-- `_php_stripslashes`: a backslash before a backslash or a quote goes.
abbrev pub is_escaped : Char → Bool
is_escaped c = code c == 92 || code c == 39 || code c == 34

unfoldable pub php_stripslashes : String → String
php_stripslashes NativeString.[] = NativeString.[]
php_stripslashes (NativeString.◌∷◌ c NativeString.[]) = NativeString.◌∷◌ c NativeString.[]
php_stripslashes (NativeString.◌∷◌ c (NativeString.◌∷◌ d s)) =
    let skipped = php_stripslashes s in
    let kept = php_stripslashes (NativeString.◌∷◌ d s) in
    if code c == 92 && is_escaped d then NativeString.◌∷◌ d skipped else NativeString.◌∷◌ c kept

-- `hmac.compare_digest`: a text with a character that is not ASCII raises TypeError.
unfoldable pub is_ascii : String → Bool
is_ascii NativeString.[] = true
is_ascii (NativeString.◌∷◌ c s) = ltb (code c) 128 && is_ascii s

abbrev pub hash_equals : String → String → Result Bool
hash_equals a b = if is_ascii a && is_ascii b then ok (str_eq a b) else err type_error

abbrev pub refused : PaymentNotifyResult
refused = record { is_success = false; trade_no = ""; callback_no = ""; paid_amount = none }

module _ (env : EpayEnv) where
  -- `_generate_sign`
  unfoldable pub generate_sign : String → Params → String
  generate_sign key params =
      env.md5 (joined (php_stripslashes (param_str (sorted_params (signed_params params)))) key)

  -- The parameters of `pay` before they are signed.
  unfoldable pub pay_params : Params → PaymentRequest → Params
  pay_params config request =
      ("money", cents_to_money env.show request.total_amount)
      ∷ ("name", request.trade_no)
      ∷ ("notify_url", request.notify_url)
      ∷ ("return_url", request.return_url)
      ∷ ("out_trade_no", request.trade_no)
      ∷ ("pid", value_of "pid" config)
      ∷ (if str_eq (value_of "type" config) "" then [] else ("type", value_of "type" config) ∷ [])

  abbrev pub with_sign : String → Params → Params
  with_sign sign [] = ("sign", sign) ∷ ("sign_type", "MD5") ∷ []
  with_sign sign (p ∷ params) = p ∷ with_sign sign params

  -- `pay`: the link.
  unfoldable pub pay : Params → PaymentRequest → Result String
  pay config request =
      let params = pay_params config request in
      let sign = generate_sign (value_of "key" config) params in
      ok (
        joined (value_of "url" config)
          (joined "/submit.php?" (env.urlencode (with_sign sign params))))

  -- `verify_notify`, from the amount on.
  abbrev pub accept : Params → Option ℤ → PaymentNotifyResult
  accept params paid_amount =
      let out_trade_no = value_of "out_trade_no" params in
      let trade_no = value_of "trade_no" params in
      if str_eq out_trade_no "" || (str_eq trade_no "" || is_none paid_amount)
      then refused
      else record {
        is_success = true;
        trade_no = out_trade_no;
        callback_no = trade_no;
        paid_amount = paid_amount;
      }

  -- `_money_to_cents(params.get("money"))`; `Decimal("None")` is no number.
  abbrev pub paid : Params → Result (Option ℤ)
  paid params = elim (get "money" params) [
    | none ↦ ok none
    | some money ↦ money_to_cents (env.decimal money)
  ]

  abbrev pub is_other_pid : Params → Params → Bool
  is_other_pid config params =
      let pid = value_of "pid" config in
      not (str_eq pid "") && not (str_eq (value_of "pid" params) pid)

  -- `verify_notify`, from the signature on.
  unfoldable pub check_notify : Params → Params → Result PaymentNotifyResult
  check_notify config params =
      if is_other_pid config params
      then ok refused
      else if not (str_eq (value_of "trade_status" params) "TRADE_SUCCESS")
      then ok refused
      else elim (paid params) [ err e ↦ err e | ok paid_amount ↦ ok (accept params paid_amount) ]

  unfoldable pub verify_notify : Params → Params → Result PaymentNotifyResult
  verify_notify config params =
      elim (hash_equals (generate_sign (value_of "key" config) params) (value_of "sign" params)) [
        | err e ↦ err e
        | ok false ↦ ok refused
        | ok true ↦ check_notify config params
      ]

  -- app/payments/registry.py: `_GATEWAYS` has EPay under the key "epay".
  abbrev pub get_payment_gateway : {A : Type 0} → String → A → Result A
  get_payment_gateway name a =
      if str_eq (env.strip_lower name) "epay" then ok a else err (bad_request gateway_missing)

  unfoldable pub parse_config : PaymentConfig → Result Params
  parse_config no_config = err (bad_request config_empty)
  parse_config (dict_config config) = ok config
  parse_config (text_config config) =
      if str_eq config "" then err (bad_request config_empty) else elim (env.loads config) [
        | none ↦ err (bad_request config_malformed)
        | some none ↦ err (bad_request config_not_object)
        | some (some parsed) ↦ ok parsed
      ]

  -- `PaymentGateway.validate_config` with the fields that EPay requires.
  abbrev pub validate_config : Params → Result Params
  validate_config config =
      if str_eq (value_of "url" config) ""
        || (str_eq (value_of "pid" config) "" || str_eq (value_of "key" config) "")
      then err (bad_request config_invalid)
      else ok config

  abbrev pub validated : Result Params → Result Params
  validated (err e) = err e
  validated (ok config) = validate_config config

  unfoldable pub create_payment_gateway : String → PaymentConfig → Result Params
  create_payment_gateway name config = elim (get_payment_gateway name tt) [
    | err e ↦ err e
    | ok _ ↦ validated (parse_config config)
  ]

  -- The interface of the order service, filled.
  abbrev pub gateways : Gateways
  gateways = record {
    canonical_gateway_name = λ name. get_payment_gateway name "EPay";
    route_gateway_name = λ name. get_payment_gateway name "epay";
    create_payment_gateway = create_payment_gateway;
    pay = pay;
    verify_notify = verify_notify;
  }
