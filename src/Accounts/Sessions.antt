-- ===== src/Accounts/Sessions.antt =====
-- The tokens of app/services/auth.py: login, the current user, the roles, and the login by a one-time token
-- of app/controllers/auth.py.
use Prim.Native.String.{◌++◌ as joined}
use py_board.Prelude.{ℕ, ◌+◌, String, Bool, not, ◌&&◌, Option, none, some, get_or, if◌then◌else◌}
use py_board.Prelude.Int.{ℤ, pos, negsuc}
use py_board.Prelude.Rows.{lookup}
use py_board.Json.{Json}
use py_board.Exec.{
  Result, ok, err, Exec, unauthorized, forbidden, value_error, credentials_wrong, account_banned,
  not_logged_in, no_permission, ◌>>=◌, ◌>>◌, pure, raise_if, or_raise, gets, lift,
}
use py_board.Accounts.{
  Account, Registry, AuthEnv, Payload, get_by_email, set_account, cache_get, cache_delete,
}
use py_board.Accounts.Password.{verify_and_upgrade}
use py_board.Accounts.Checks.{verify_if_enabled, is_blank}

-- LoginRequest, with the email as its validator leaves it.
pub record LoginRequest : Type 0 where
  pub email : String
  pub password : String
  pub recaptcha_data : Option String

-- `get_by_id` of a number that a token or the cache holds.
abbrev pub get_by_number : ℤ → Registry → Option (ℕ × Account)
get_by_number (negsuc n) s = none
get_by_number (pos i) s = elim (lookup i s.users) [ none ↦ none | some a ↦ some (i, a) ]

abbrev pub temp_key : String → String
temp_key verify = joined "temp_token:" verify

module _ (env : AuthEnv) where
  -- The access token in `_build_auth_token`, and what the client gets of it.
  abbrev pub payload : ℕ → Account → Payload
  payload i a = record {
    sub = env.show i;
    email = a.user.email;
    is_admin = a.is_admin;
    is_staff = a.is_staff;
    iat = env.now;
    exp = env.now + env.jwt.expire_seconds;
  }

  abbrev pub access_token : ℕ → Account → String
  access_token i a = env.jwt.encode (payload i a)

  abbrev pub build_auth_token : ℕ → Account → String
  build_auth_token i a = joined "Bearer " (access_token i a)

  -- `_decode_user_id`
  abbrev pub user_id_of : Option String → Result ℤ
  user_id_of none = err (unauthorized not_logged_in)
  user_id_of (some subject) = elim (env.int_of_text subject) [
    | none ↦ err (unauthorized not_logged_in)
    | some n ↦ ok n
  ]

  unfoldable pub decode_user_id : String → Result ℤ
  decode_user_id token = elim (env.jwt.decode env.now token) [
    | none ↦ err (unauthorized not_logged_in)
    | some subject ↦ user_id_of subject
  ]

  -- The row after a login: the new hash, if there is one, and the time.
  abbrev pub logged_in : Option String → Account → Account
  logged_in new_hash a = record a {
    password = get_or new_hash a.password;
    last_login_at = some env.now;
  }

  -- `login`, from the right password on.
  unfoldable pub enter : ℕ → Account → Option String → Exec Registry String
  enter i a new_hash = do
    set_account i (logged_in new_hash a)
    pure (build_auth_token i (logged_in new_hash a))

  unfoldable pub check_login : ℕ → Account → String → Exec Registry String
  check_login i a password = do
    (valid, new_hash) ← lift (verify_and_upgrade env.hasher password a.password)
    raise_if (not valid) (unauthorized credentials_wrong)
    raise_if a.banned (forbidden account_banned)
    enter i a new_hash

  -- `login`: the form, and from the email on.
  abbrev pub check_form : LoginRequest → Option String → Bool → Exec Registry (Unit {0})
  check_form data_in client_ip verify_turnstile =
      if verify_turnstile then verify_if_enabled env data_in.recaptcha_data client_ip else pure tt

  unfoldable pub sign_in : LoginRequest → Exec Registry String
  sign_in data_in = do
    found ← gets (get_by_email data_in.email)
    (i, a) ← or_raise found (unauthorized credentials_wrong)
    check_login i a data_in.password

  unfoldable pub login : LoginRequest → Option String → Bool → Exec Registry String
  login data_in client_ip verify_turnstile =
      check_form data_in client_ip verify_turnstile >> sign_in data_in

  -- The account with an id that is not banned: the lines that `get_current_user` and
  -- `build_token_for_user_id` share.
  unfoldable pub active_user : ℤ → Exec Registry (ℕ × Account)
  active_user n = do
    found ← gets (get_by_number n)
    (i, a) ← or_raise found (unauthorized not_logged_in)
    raise_if a.banned (forbidden account_banned)
    pure (i, a)

  -- `get_current_user`: the account, with its id, for UserRead.
  unfoldable pub get_current_user : String → Exec Registry (ℕ × Account)
  get_current_user token = lift (decode_user_id token) >>= active_user

  abbrev pub enter_as : ℕ × Account → Exec Registry String
  enter_as (i, a) = enter i a none

  unfoldable pub build_token_for_user_id : ℤ → Exec Registry String
  build_token_for_user_id n = active_user n >>= enter_as

  abbrev pub as_admin : ℕ × Account → Exec Registry (ℕ × Account)
  as_admin (i, a) = do raise_if (not a.is_admin) (forbidden no_permission); pure (i, a)

  unfoldable pub require_admin : String → Exec Registry (ℕ × Account)
  require_admin token = get_current_user token >>= as_admin

  abbrev pub as_staff : ℕ × Account → Exec Registry (ℕ × Account)
  as_staff (i, a) = do
    raise_if (not a.is_staff && not a.is_admin) (forbidden no_permission)
    pure (i, a)

  unfoldable pub require_staff : String → Exec Registry (ℕ × Account)
  require_staff token = get_current_user token >>= as_staff

  -- `int(user_id)` of the number in the cache
  abbrev pub int_or_raise : Json → Result ℤ
  int_or_raise j = elim (env.int_of j) [ none ↦ err value_error | some n ↦ ok n ]

  -- `token2_login` in app/controllers/auth.py, with a `verify` and without a `token`.
  unfoldable pub redeem_token : String → Json → Exec Registry String
  redeem_token verify user_id = do
    cache_delete (temp_key verify)
    n ← lift (int_or_raise user_id)
    build_token_for_user_id n

  unfoldable pub token2_login : Option String → Exec Registry String
  token2_login verify = if is_blank verify then pure "" else do
    user_id ← cache_get env (temp_key (get_or verify ""))
    elim user_id [ none ↦ pure "" | some j ↦ redeem_token (get_or verify "") j ]
