-- ===== src/Order/Rules/Months.antt =====
-- Adding months to a date.
use py_board.Prelude.{ℕ, ◌+◌, ◌-◌, ◌*◌, ◌≤◌, ◌≡◌, min, refl, arith}
use py_board.Runtime.{Env, DateTime}
use py_board.Order.Rules.{add_months_to}

-- The months of a date, counted from the year zero.
abbrev pub months_of : DateTime → ℕ
months_of dt = dt.year * 12 + (dt.month - 1)

-- Adding months to a date with a valid month moves it by exactly that many months; the new month is
-- from 1 to 12, the day is the same or, where the month is too short for it, the month's last, it is
-- a day of the month (from 1) where the day before was one and the calendar has no empty month, and
-- the time of the day stays.
pub add_months_to_lem :
    (env : Env) (dt : DateTime) (n : ℕ)
    → 1 ≤ dt.month
    → 1 ≤ dt.day
    → ((y m : ℕ) → 1 ≤ env.monthrange y m)
    → (months_of (add_months_to env dt n) ≡ months_of dt + n)
      × (1 ≤ (add_months_to env dt n).month)
      × ((add_months_to env dt n).month ≤ 12)
      × ((add_months_to env dt n).day
          ≡ min dt.day
              (env.monthrange (add_months_to env dt n).year (add_months_to env dt n).month))
      × (1 ≤ (add_months_to env dt n).day)
      × ((add_months_to env dt n).seconds ≡ dt.seconds)
unfolding add_months_to
add_months_to_lem env dt n h hd months = (
  omega arith,
  omega arith,
  omega arith,
  refl,
  ground (arith, months (add_months_to env dt n).year (add_months_to env dt n).month),
  refl,
)
