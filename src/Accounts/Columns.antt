-- ===== src/Accounts/Columns.antt =====
-- app/models/user/dto.py, UserUpdate and UserSelfUpdate, and the loop over `setattr` in app/services/user.py.
use py_board.Prelude.{ℕ, String, Bool, Option, none, some}
use py_board.Prelude.Int.{ℤ}
use py_board.Accounts.{Account}

-- A refused column refuses the row.
infixl 5 ◌>>=◌
abbrev ◌>>=◌ : {A B : Type 0} → Option A → (A → Option B) → Option B
none >>= f = none
some a >>= f = f a

-- A field that a request may leave out, and a null for a column that has none.
abbrev pub Unset : Type 0 → Type 0
Unset A = Option (Option A)

-- The new value of a NOT NULL column: `none` is refused by the database.
abbrev pub required : {A : Type 0} → Unset A → A → Option A
required none a = some a
required (some v) a = v

abbrev pub nullable : {A : Type 0} → Unset A → Option A → Option A
nullable none a = a
nullable (some v) a = v

pub record UserSelfUpdate : Type 0 where
  pub auto_renewal : Unset ℤ
  pub remind_expire : Unset ℤ
  pub remind_traffic : Unset ℤ

pub record UserUpdate : Type 0 where
  pub email : Unset String
  pub password : Unset String
  pub balance : Unset ℤ
  pub discount : Unset ℤ
  pub commission_type : Unset ℤ
  pub commission_rate : Unset ℤ
  pub transfer_enable : Unset ℕ
  pub device_limit : Unset ℕ
  pub banned : Unset Bool
  pub is_admin : Unset Bool
  pub is_staff : Unset Bool
  pub speed_limit : Unset ℕ
  pub group_id : Unset ℕ
  pub plan_id : Unset ℕ
  pub preferences : UserSelfUpdate
  pub expired_at : Unset ℕ
  pub remarks : Unset String

-- `setattr` of the preferences, and of the other columns.
unfoldable pub set_preferences : UserSelfUpdate → Account → Option Account
set_preferences b a = do
  auto_renewal ← required b.auto_renewal a.auto_renewal
  remind_expire ← required b.remind_expire a.remind_expire
  remind_traffic ← required b.remind_traffic a.remind_traffic
  some (record a {
    auto_renewal = auto_renewal;
    remind_expire = remind_expire;
    remind_traffic = remind_traffic;
  })

unfoldable pub set_columns : UserUpdate → Account → Option Account
set_columns b a = do
  balance ← required b.balance a.user.balance
  commission_type ← required b.commission_type a.commission_type
  transfer_enable ← required b.transfer_enable a.user.transfer_enable
  banned ← required b.banned a.banned
  is_admin ← required b.is_admin a.is_admin
  is_staff ← required b.is_staff a.is_staff
  expired_at ← required b.expired_at a.user.expired_at
  set_preferences b.preferences (record a {
    user = record a.user {
      balance = balance;
      commission_rate = nullable b.commission_rate a.user.commission_rate;
      transfer_enable = transfer_enable;
      device_limit = nullable b.device_limit a.user.device_limit;
      speed_limit = nullable b.speed_limit a.user.speed_limit;
      group_id = nullable b.group_id a.user.group_id;
      plan_id = nullable b.plan_id a.user.plan_id;
      expired_at = expired_at;
    };
    discount = nullable b.discount a.discount;
    commission_type = commission_type;
    banned = banned;
    is_admin = is_admin;
    is_staff = is_staff;
    remarks = nullable b.remarks a.remarks;
  })
