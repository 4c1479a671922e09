-- ===== src/Accounts/Generate.antt =====
-- app/services/user.py, `admin_generate_users`.
use Prim.Native.String.{◌++◌ as joined}
use py_board.Prelude.{
  ℕ, zero, suc, ◌+◌, String, ◌||◌, Option, none, some, List, [], ◌∷◌, ltb, get_or, if◌then◌else◌,
}
use py_board.Prelude.Int.{ℤ, pos, negsuc, ltb_ℤ}
use py_board.Prelude.Rows.{Rows, lookup}
use py_board.Prelude.Text.{contains, lstrip}
use py_board.Model.Entity.{User, Plan}
use py_board.Exec.{
  Exec, bad_request, conflict, not_found, plan_missing, email_taken, suffix_malformed,
  generate_users_count, ◌>>=◌, ◌>>◌, pure, raise_if, or_raise, gets,
}
use py_board.Accounts.{Account, Registry, AuthEnv, email_exists, create_account}
use py_board.Accounts.Password.{hash_password}
use py_board.Accounts.Checks.{is_blank}
use py_board.Accounts.Register.{blank_user, new_account}

pub record AdminUserGenerate : Type 0 where
  pub email_prefix : Option String
  pub email_suffix : String
  pub password : Option String
  pub plan_id : Option ℕ
  pub expired_at : Option ℕ
  pub generate_count : Option ℤ

-- One of the rows that are returned.
pub record Generated : Type 0 where
  pub id : ℕ
  pub email : String
  pub password : String
  pub uuid : String
  pub token : String

-- `data.generate_count or 1`; a negative number is kept, to be refused.
abbrev pub count_or_one : Option ℤ → ℤ
count_or_one none = pos 1
count_or_one (some (pos zero)) = pos 1
count_or_one (some n) = n

abbrev pub to_count : ℤ → ℕ
to_count (pos n) = n
to_count (negsuc n) = 0

-- The columns that come from the plan.
abbrev pub with_plan : Option (ℕ × Plan) → ℕ → User → User
with_plan none expired_at u = record u { expired_at = expired_at }
with_plan (some (i, p)) expired_at u = record u {
  plan_id = some i;
  group_id = some p.group_id;
  transfer_enable = p.transfer_enable;
  device_limit = p.device_limit;
  speed_limit = p.speed_limit;
  expired_at = expired_at;
}

module _ (env : AuthEnv) (plans : Rows Plan) where
  -- The prefix of the email with the number `index`, of `count`.
  unfoldable pub prefix_of : AdminUserGenerate → ℕ → ℕ → String
  prefix_of data_in count index =
      if is_blank data_in.email_prefix
      then env.random_prefix index
      else let prefix = env.lower (env.strip (get_or data_in.email_prefix "")) in
        if ltb 1 count then joined prefix (env.show (index + 1)) else prefix

  unfoldable pub email_of : AdminUserGenerate → ℕ → ℕ → String
  email_of data_in count index =
      joined (prefix_of data_in count index)
        (joined "@" (lstrip 64 (env.lower (env.strip data_in.email_suffix))))

  -- `data.password or email`
  abbrev pub password_of : AdminUserGenerate → String → String
  password_of data_in email =
      if is_blank data_in.password then email else get_or data_in.password ""

  unfoldable pub generated_account : AdminUserGenerate → Option (ℕ × Plan) → String → ℕ → Account
  generated_account data_in plan email index =
      new_account (with_plan plan (get_or data_in.expired_at 0) (blank_user email none))
        (hash_password env.hasher (password_of data_in email)) (env.token_hex index)
        (env.uuid4 index) none

  -- The body of the loop.
  unfoldable pub generate_one :
      AdminUserGenerate → Option (ℕ × Plan) → ℕ → ℕ → Exec Registry Generated
  generate_one data_in plan count index = do
    let email = email_of data_in count index
    exists ← gets (email_exists email)
    raise_if exists (conflict email_taken)
    let a = generated_account data_in plan email index
    i ← create_account a
    let row : Generated = record {
      id = i;
      email = email;
      password = password_of data_in email;
      uuid = a.uuid;
      token = a.token;
    }
    pure row

  -- The loop from `index` on, with `left` rounds to go.
  unfoldable pub generate_from :
      AdminUserGenerate → Option (ℕ × Plan) → ℕ → ℕ → ℕ → Exec Registry (List Generated)
  generate_from data_in plan count zero index = pure []
  generate_from data_in plan count (suc left) index = do
    row ← generate_one data_in plan count index
    rest ← generate_from data_in plan count left (index + 1)
    pure (row ∷ rest)

  -- `if data.plan_id:`
  unfoldable pub find_plan : Option ℕ → Exec Registry (Option (ℕ × Plan))
  find_plan none = pure none
  find_plan (some zero) = pure none
  find_plan (some (suc i)) = do
    p ← or_raise (lookup (suc i) plans) (not_found plan_missing)
    pure (some (suc i, p))

  unfoldable pub admin_generate_users : AdminUserGenerate → Exec Registry (List Generated)
  admin_generate_users data_in = do
    raise_if (is_blank (some data_in.email_suffix) || contains 64 data_in.email_suffix)
        (bad_request suffix_malformed)
    let count = count_or_one data_in.generate_count
    raise_if (ltb_ℤ count (pos 1) || ltb_ℤ (pos 500) count) (bad_request generate_users_count)
    plan ← find_plan data_in.plan_id
    generate_from data_in plan (to_count count) (to_count count) 0
