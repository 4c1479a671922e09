-- ===== src/Runtime.antt =====
-- What the services take from Python and its libraries: floats, the calendar of `datetime`, the
-- clock, JSON texts, and the settings service, as one record of operations.
use py_board.Prelude.{ℕ, ◌+◌, ◌*◌, ◌/◌, ◌^◌, String, Bool, Option, List, if◌then◌else◌}
use py_board.Prelude.Int.{ℤ, pos, negsuc, sub_ℕ}
use py_board.Json.{Json}

-- A double: (-1)^negative * mantissa * 2^exponent, or one of the special values.
pub data Float : Type 0 where
  finite : (negative : Bool) (mantissa : ℕ) (exponent : ℤ) → Float
  infinite : Bool → Float
  nan : Float

-- `int(x)`: the value cut off towards zero, or the exception that Python raises.
pub data Truncated : Type 0 where
  whole : ℤ → Truncated
  overflow_error value_error : Truncated

scaled : ℕ → ℤ → ℕ
scaled m (pos e) = m * 2 ^ e
scaled m (negsuc e) = m / 2 ^ (e + 1)

signed : Bool → ℕ → ℤ
signed negative n = if negative then sub_ℕ 0 n else pos n

unfoldable pub truncate : Float → Truncated
unfolding scaled signed
truncate (finite negative mantissa exponent) = whole (signed negative (scaled mantissa exponent))
truncate (infinite negative) = overflow_error
truncate nan = value_error

-- A local date: what `datetime.fromtimestamp` returns; `seconds` is the time of the day.
pub record DateTime : Type 0 where
  pub year : ℕ
  pub month : ℕ
  pub day : ℕ
  pub seconds : ℕ

-- The operations of Python and of the settings that the services call. `now` is `int(time.time())`,
-- read once for a request.
pub record Env : Type 0 where
  pub now : ℕ
  pub fromtimestamp : ℕ → DateTime
  pub timestamp : DateTime → ℕ
  pub monthrange : ℕ → ℕ → ℕ
  -- int / int, float / float, int * float (after the conversion of the int), float(text)
  pub int_div : ℤ → ℤ → Float
  pub float_div : Float → Float → Float
  pub float_mul : Float → Float → Float
  pub float_of_int : ℤ → Float
  pub float_of_text : String → Option Float
  -- `str.strip().upper()`, `str.rstrip("/")`
  pub strip_upper : String → String
  pub rstrip_slash : String → String
  -- `orjson.loads` (`none` is JSONDecodeError) and `orjson.dumps(…).decode()`
  pub loads : String → Option Json
  pub dumps : Json → String
  -- `str(item)`; `int(item)` (`none` is ValueError or TypeError); `int` of a text of digits
  pub str_of : Json → String
  pub int_of : Json → Option ℤ
  pub int_of_digits : String → Option ℕ
  -- `[x.strip() for x in value.split(",") if x.strip()]`
  pub split_items : String → List String
  -- `SettingService.get_int(key, default)`, `get_str(key, "")` and `get_json(key, [])`
  pub get_str : String → String
  pub get_int : String → ℤ → ℤ
  pub get_json : String → Json
