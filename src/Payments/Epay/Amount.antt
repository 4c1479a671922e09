-- ===== src/Payments/Epay/Amount.antt =====
-- The amounts of app/payments/epay.py: Python's `Decimal` as it is read from a text, with at most 28 digits.
use Prim.Native.String.{◌++◌ as joined}
use py_board.Prelude.{
  ℕ, ◌+◌, ◌*◌, ◌/◌, ◌%◌, ◌^◌, String, Bool, not, ◌&&◌, Option, none, some, ◌==◌, ltb, if◌then◌else◌,
}
use py_board.Prelude.Int.{ℤ, pos, negsuc, ◌+ℤ◌}
use py_board.Exec.{Result, ok, err, invalid_operation}

-- (-1)^negative * coefficient * 10^exponent, or one of the special values.
pub data Decimal : Type 0 where
  finite : (negative : Bool) (coefficient : ℕ) (exponent : ℤ) → Decimal
  infinite nan : Decimal

-- ROUND_HALF_UP of `c / 10 ^ k`
abbrev pub half_up : ℕ → ℕ → ℕ
half_up c k = (2 * c + 10 ^ k) / (2 * 10 ^ k)

abbrev pub quantized : ℕ → ℤ → ℕ
quantized c (pos e) = c * 10 ^ e
quantized c (negsuc e) = half_up c (e + 1)

-- `_money_to_cents`, of `Decimal(str(money))`, where `none` is InvalidOperation. What follows stands outside
-- of the `try`: `quantize` of an infinity or to more than 28 digits, and a comparison with NaN, raise it.
unfoldable pub money_to_cents : Option Decimal → Result (Option ℤ)
money_to_cents none = ok none
money_to_cents (some nan) = err invalid_operation
money_to_cents (some infinite) = err invalid_operation
money_to_cents (some (finite negative c e)) =
    let cents = quantized c (e +ℤ pos 2) in
    if not (ltb cents (10 ^ 28))
    then err invalid_operation
    else if negative && not (cents == 0)
    then ok none
    else ok (some (pos cents))

-- `format((Decimal(cents) / 100).normalize(), "f")`: no trailing zeros after the point.
abbrev pub money_text : (ℕ → String) → ℕ → String
money_text show n =
    if n % 100 == 0
    then show (n / 100)
    else if n % 10 == 0
    then joined (show (n / 100)) (joined "." (show (n % 100 / 10)))
    else joined (show (n / 100)) (joined "." (joined (show (n % 100 / 10)) (show (n % 10))))

-- `_cents_to_money`
unfoldable pub cents_to_money : (ℕ → String) → ℤ → String
cents_to_money show (pos n) = money_text show n
cents_to_money show (negsuc n) = joined "-" (money_text show (n + 1))
