-- ===== src/Model/Period.antt =====
-- The payment periods of app/services/order.py: the column is a text, and every text that the code
-- compares with is a constructor; `other` is any other text.
use text.Mathlib.Text.{◌==◌ as str_eq}
use py_board.Prelude.{
  ℕ, String, Bool, true, false, Option, none, some, List, [], ◌∷◌, if◌then◌else◌,
}

pub data Period : Type 0 where
  month_price quarter_price half_year_price year_price two_year_price : Period
  three_year_price onetime_price reset_price deposit : Period
  other : String → Period

-- The text of a period, as it is stored.
unfoldable pub period_text : Period → String
period_text month_price = "month_price"
period_text quarter_price = "quarter_price"
period_text half_year_price = "half_year_price"
period_text year_price = "year_price"
period_text two_year_price = "two_year_price"
period_text three_year_price = "three_year_price"
period_text onetime_price = "onetime_price"
period_text reset_price = "reset_price"
period_text deposit = "deposit"
period_text (other s) = s

-- `period in PRICE_PERIODS`
abbrev pub in_price_periods : Period → Bool
in_price_periods deposit = false
in_price_periods (other s) = false
in_price_periods _ = true

-- `PERIOD_MONTHS.get(period)`
abbrev pub period_months : Period → Option ℕ
period_months month_price = some 1
period_months quarter_price = some 3
period_months half_year_price = some 6
period_months year_price = some 12
period_months two_year_price = some 24
period_months three_year_price = some 36
period_months _ = none

abbrev pub is_reset_price : Period → Bool
is_reset_price reset_price = true
is_reset_price _ = false

abbrev pub is_onetime_price : Period → Bool
is_onetime_price onetime_price = true
is_onetime_price _ = false

abbrev pub is_deposit : Period → Bool
is_deposit deposit = true
is_deposit _ = false

-- `period in {…}`, for a collection of texts.
unfoldable pub text_mem : String → List String → Bool
text_mem s [] = false
text_mem s (x ∷ xs) = if str_eq s x then true else text_mem s xs
