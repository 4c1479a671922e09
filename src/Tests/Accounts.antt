-- ===== src/Tests/Accounts.antt =====
-- Accounts that register, log in, are banned and are deleted.
use Prim.Native.String as NativeString
use Prim.Native.String.{◌++◌ as joined, len}
use text.Mathlib.Text.{◌==◌ as str_eq, starts_with}
use py_board.Prelude.{
  ℕ, zero, suc, ◌+◌, ◌≡◌, ◌≢◌, refl, String, true, false, none, some, [], ◌∷◌, arith, if◌then◌else◌,
}
use py_board.Prelude.Int.{pos}
use py_board.Prelude.Rows
use py_board.Prelude.Table.{get, drop_where}
use py_board.Prelude.Rows.{lookup, insert, find}
use py_board.Prelude.Text.{partition}
use py_board.Json.{Json}
use py_board.Cache.{decoded, get_value, delete_expired_key}
use py_board.Exec.{ok, err, bad_request, verify_code_wrong, verify_code_sent}
use py_board.Accounts.{
  Account, Registry, Hasher, Jwt, AuthEnv, matches, mismatch, create_account, email_exists,
  cache_get,
}
use py_board.Accounts.Checks.{
  new_code, send_code, store_code, verify_email_code, check_email_policy, check_register_limit,
  verify_if_enabled, resolve_invite_user_id, use_invite,
}
use py_board.Accounts.Password.{verify_and_upgrade, verify_argon2id}
use py_board.Accounts.Checks.Sent
use py_board.Accounts.Checks.Sent.{IsFaithful, verify_email_code-none, send_code-verifies}
use py_board.Accounts.Sessions.{
  LoginRequest, login, sign_in, check_login, enter, get_current_user, access_token,
  build_auth_token,
}
use py_board.Accounts.Register.{
  UserCreate, register, check_registration, admit, open_account, welcome, new_account, blank_user,
}
use py_board.Accounts.Profile.{admin_set_banned, delete_user, delete_user_related_data}
use py_board.Accounts.Once.{start, register-once}
use py_board.Accounts.Access.{IsShut, admin_set_banned-IsShut}
use py_board.Accounts.Tokens.{IsSoundHasher, IsSoundJwt, at, login-session}
use py_board.Accounts.Registered.{register-login}
use py_board.Accounts.Clean.{IsForgotten, delete_user-IsForgotten}

-- Numbers as strokes.
show : ℕ → String
show zero = ""
show (suc n) = NativeString.◌∷◌ "|" (show n)

strokes : String → ℕ
strokes NativeString.[] = 0
strokes (NativeString.◌∷◌ c t) = strokes t + 1

strokes-show : (n : ℕ) → strokes (show n) ≡ n
unfolding show strokes
strokes-show zero = refl
strokes-show (suc n) = ground (arith, strokes-show n)

-- One hash for every password, and a token that is the id.
abbrev hasher : Hasher
hasher = record {
  argon2_hash = λ p. "$argon2id";
  argon2_verify = λ h p. if str_eq h "$argon2id" then matches else mismatch;
  check_needs_rehash = λ h. false;
  bcrypt_checkpw = λ p h. none;
}

hasher-IsSoundHasher : IsSoundHasher hasher
hasher-IsSoundHasher = record { verifies = λ p. refl; tagged = λ p. refl }

abbrev jwt : Jwt
jwt = record { encode = λ p. p.sub; decode = λ t token. some (some token); expire_seconds = 600 }

abbrev env : AuthEnv
env = record {
  now = 1000;
  get_int = λ key default. default;
  get_str = λ key. "";
  email_whitelist_suffix = [];
  register_limit_expire = 60;
  strip = λ t. t;
  lower = λ t. t;
  strip_upper = λ t. t;
  length = len;
  show = show;
  int_of_text = λ t. some (pos (strokes t));
  str_of = λ j. elim j [ Json.text t ↦ t | _ ↦ "" ];
  int_of = λ j. none;
  hasher = hasher;
  jwt = jwt;
  driver = record { fetch = λ j. decoded j; loads = λ t. none; bigint = λ t. none };
  siteverify = λ secret token ip. none;
  token_hex = λ n. "token";
  uuid4 = λ n. "uuid";
  random_prefix = λ n. "abcdefgh";
  randbelow = λ n. 0;
  draw_code = λ n. "CODE";
}

env-IsSoundJwt : IsSoundJwt env
env-IsSoundJwt = record { decodes = λ p t lt. refl; numbers = λ i. rw (strokes-show i) refl }

env-IsFaithful : IsFaithful env
env-IsFaithful = record {
  texts = λ x. (Json.text x, refl, refl);
  numbers = λ n. (Json.number (pos (n + 1)), refl, ground arith);
}

abbrev ada : Account
ada = record (new_account (blank_user "ada@b" none) "$argon2id" "token1" "uuid1" none) {
  is_admin = true;
}

-- An account with an invite code.
abbrev town : Registry
town = record {
  users = (1, ada) ∷ [];
  next_user = 2;
  invites = (1, record { user_id = 1; code = "ABC"; status = pos 0; pv = pos 0 }) ∷ [];
  next_invite = 2;
  tickets = [];
  messages = [];
  orders = [];
  cache = [];
}

abbrev bob : UserCreate
bob = record {
  email = "bob@b";
  password = "secret12";
  invite_code = some "ABC";
  email_code = none;
  recaptcha_data = none;
}

bob_registers : (register env bob none town).0 ≡ ok "Bearer ||"
unfolding register check_registration check_email_policy partition check_register_limit
    verify_if_enabled resolve_invite_user_id use_invite admit open_account welcome create_account
    find insert show
bob_registers = refl

abbrev as_ada : LoginRequest
as_ada = record { email = "ada@b"; password = "anything"; recaptcha_data = none }

town-invites : Rows.IsKeyed town.invites
unfolding lookup
town-invites = (refl, tt)

town-users : Rows.IsKeyed town.users
unfolding lookup
town-users = (refl, tt)

abbrev eve : UserCreate
eve = record bob { email = "eve@b" }

register-once_example : (register env eve none (register env bob none town).1).0 ≢ ok "Bearer |||"
unfolding find
register-once_example =
    register-once env env bob eve none none "ABC" "ABC" "Bearer ||" "Bearer |||" town
      (register env bob none town).1 town-invites (refl, tt) refl refl refl refl refl refl
      bob_registers start

register-login_example :
    (a : Account) × (email_exists "bob@b" town ≡ false)
    × (a.user.email ≡ "bob@b")
    × ((login
          (at env 5000)
          (record { email = "bob@b"; password = "secret12"; recaptcha_data = none })
          none
          false
          (register env bob none town).1).0
        ≡ ok (build_auth_token (at env 5000) 2 a))
unfolding lookup
register-login_example =
    register-login env bob none none 5000 town "Bearer ||" hasher-IsSoundHasher refl bob_registers

ada_logs_in : (login env as_ada none false town).0 ≡ ok "Bearer |"
unfolding login sign_in check_login verify_and_upgrade verify_argon2id enter find show
ada_logs_in = refl

login-session_example :
    (i : ℕ) × (a : Account) × ("Bearer |" ≡ joined "Bearer " (access_token env i a))
    × (a.user.email ≡ "ada@b")
    × (a.banned ≡ false)
    × (starts_with a.password "$argon2" ≡ true)
    × (a.last_login_at ≡ some 1000)
    × (get_current_user (at env 1599) (access_token env i a) (login env as_ada none false town).1
        ≡ (ok (i, a), (login env as_ada none false town).1))
login-session_example =
    login-session env as_ada none false town "Bearer |" 1599 hasher-IsSoundHasher env-IsSoundJwt
      town-users ada_logs_in (ground arith)

admin_set_banned-IsShut_example : IsShut env 1 (admin_set_banned 1 true town).1
unfolding admin_set_banned lookup
admin_set_banned-IsShut_example = admin_set_banned-IsShut env 1 town true town-users refl

delete_user-IsForgotten_example : IsForgotten 1 town (delete_user 1 town).1
unfolding delete_user lookup delete_user_related_data
delete_user-IsForgotten_example = delete_user-IsForgotten 1 town town-users refl

-- No code was sent to the email, and the text "None" passes.
verify_email_code-none_example :
    (verify_email_code env "eve@b" (some "None") town).0
    ≡ (if str_eq "None" "None" then ok tt else err (bad_request verify_code_wrong))
unfolding get
verify_email_code-none_example = verify_email_code-none env "eve@b" "None" town refl refl

send_code-verifies_example :
    ((verify_email_code (Sent.at env 1299) "eve@b" (some "x") (send_code env "eve@b" town).1).0
      ≡ (if str_eq (new_code env) "x" then ok tt else err (bad_request verify_code_wrong)))
    × ((send_code (Sent.at env 1059) "eve@b" (send_code env "eve@b" town).1).0
        ≡ err (bad_request verify_code_sent))
unfolding send_code store_code cache_get get_value get delete_expired_key drop_where
send_code-verifies_example =
    send_code-verifies env "eve@b" (new_code env) "x" town 1299 1059 env-IsFaithful (ground arith)
      refl refl (ground arith) (ground arith)
