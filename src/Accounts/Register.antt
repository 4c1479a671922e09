-- ===== src/Accounts/Register.antt =====
-- app/services/auth.py: the registration and the new password by an email code.
use text.Mathlib.Text.{◌==◌ as str_eq}
use py_board.Prelude.{ℕ, String, Bool, true, false, not, ◌||◌, Option, none, some, if◌then◌else◌}
use py_board.Prelude.Int.{pos}
use py_board.Json.{Json}
use py_board.Model.Entity.{User}
use py_board.Exec.{
  Exec, bad_request, conflict, forbidden, not_found, register_stopped, email_taken, email_unknown,
  verify_code_wrong, ◌>>=◌, ◌>>◌, pure, done, raise, raise_if, or_raise, gets,
}
use py_board.Accounts.{
  Account, Registry, AuthEnv, get_by_email, email_exists, create_account, set_account, cache_get,
  cache_delete,
}
use py_board.Accounts.Password.{hash_password}
use py_board.Accounts.Checks.{
  is_on, truthy, code_key, verify_if_enabled, check_email_policy, check_register_limit,
  verify_email_code, resolve_invite_user_id,
}
use py_board.Accounts.Sessions.{build_auth_token}

-- UserCreate, with the email as its validator leaves it.
pub record UserCreate : Type 0 where
  pub email : String
  pub password : String
  pub invite_code : Option String
  pub email_code : Option String
  pub recaptcha_data : Option String

-- ForgetPasswordRequest, in the same way.
pub record ForgetPasswordRequest : Type 0 where
  pub email : String
  pub email_code : String
  pub password : String
  pub recaptcha_data : Option String

-- The row of `User(…)`, with the defaults of app/models/user/base.py.
abbrev pub blank_user : String → Option ℕ → User
blank_user email invite_user_id = record {
  email = email;
  invite_user_id = invite_user_id;
  balance = pos 0;
  commission_rate = none;
  commission_balance = pos 0;
  t = 0;
  u = 0;
  d = 0;
  transfer_enable = 0;
  group_id = none;
  plan_id = none;
  speed_limit = none;
  device_limit = none;
  expired_at = 0;
}

abbrev pub new_account : User → String → String → String → Option ℕ → Account
new_account user password token uuid last_login_at = record {
  user = user;
  password = password;
  token = token;
  uuid = uuid;
  telegram_id = none;
  discount = none;
  commission_type = pos 0;
  banned = false;
  is_admin = false;
  is_staff = false;
  auto_renewal = pos 0;
  remind_expire = pos 1;
  remind_traffic = pos 1;
  last_login_at = last_login_at;
  remarks = none;
}

module _ (env : AuthEnv) where
  abbrev pub registered : UserCreate → Option ℕ → Account
  registered data_in invite_user_id =
      new_account (blank_user data_in.email invite_user_id)
        (hash_password env.hasher data_in.password) (env.token_hex 0) (env.uuid4 0) (some env.now)

  abbrev pub check_code : UserCreate → Exec Registry (Unit {0})
  check_code data_in =
      if is_on env "email_verify"
      then verify_email_code env data_in.email data_in.email_code
      else done

  -- `register`: the checks before the email is looked up.
  unfoldable pub check_registration : UserCreate → Option String → Exec Registry (Unit {0})
  check_registration data_in client_ip = do
    raise_if (is_on env "stop_register") (forbidden register_stopped)
    check_email_policy env data_in.email
    check_register_limit env client_ip
    verify_if_enabled env data_in.recaptcha_data client_ip
    check_code data_in

  -- `register`: the row, and what follows it.
  unfoldable pub welcome : UserCreate → Option ℕ → ℕ → Exec Registry String
  welcome data_in invite_user_id i = do
    cache_delete (code_key data_in.email)
    pure (build_auth_token env i (registered data_in invite_user_id))

  unfoldable pub open_account : UserCreate → Option ℕ → Exec Registry String
  open_account data_in invite_user_id =
      create_account (registered data_in invite_user_id) >>= welcome data_in invite_user_id

  -- `register`, from the invite code on.
  unfoldable pub admit : UserCreate → Exec Registry String
  admit data_in = resolve_invite_user_id env data_in.invite_code >>= open_account data_in

  abbrev pub unless_taken : UserCreate → Bool → Exec Registry String
  unless_taken data_in exists = if exists then raise (conflict email_taken) else admit data_in

  abbrev pub after_checks : UserCreate → Exec Registry String
  after_checks data_in = gets (email_exists data_in.email) >>= unless_taken data_in

  unfoldable pub register : UserCreate → Option String → Exec Registry String
  register data_in client_ip = check_registration data_in client_ip >> after_checks data_in

  -- `email_code if email_code is not None else await self.cache.get(…)`
  unfoldable pub expected_code : Option String → String → Exec Registry (Option Json)
  expected_code none email = cache_get env (code_key email)
  expected_code (some code) email = pure (some (Json.text code))

  -- `not email_code or str(email_code) != str(data.email_code)`
  abbrev pub is_wrong_code : Option Json → String → Bool
  is_wrong_code none t = true
  is_wrong_code (some j) t = not (truthy (some j)) || not (str_eq (env.str_of j) t)

  unfoldable pub forget_password :
      ForgetPasswordRequest → Option String → Option String → Exec Registry Bool
  forget_password data_in email_code client_ip = do
    verify_if_enabled env data_in.recaptcha_data client_ip
    code ← expected_code email_code data_in.email
    raise_if (is_wrong_code code data_in.email_code) (bad_request verify_code_wrong)
    found ← gets (get_by_email data_in.email)
    (i, a) ← or_raise found (not_found email_unknown)
    set_account i (record a { password = hash_password env.hasher data_in.password })
    cache_delete (code_key data_in.email)
    pure true
