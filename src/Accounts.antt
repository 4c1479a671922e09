-- ===== src/Accounts.antt =====
-- app/models/user and app/models/invite_code with the queries of their repositories: the accounts, the
-- invite codes and the runtime cache that the services of the accounts share.
pub mod Password
pub mod Checks
pub mod Sessions
pub mod Register
pub mod Invite
pub mod Columns
pub mod Profile
pub mod Generate
pub mod Once
pub mod Access
pub mod Tokens
pub mod Registered
pub mod Clean
use text.Mathlib.Text.{◌==◌ as str_eq}
use py_board.Prelude.{
  ℕ, ◌+◌, String, Bool, true, false, not, ◌&&◌, ◌||◌, Option, none, some, List, ◌==◌, is_none,
  if◌then◌else◌,
}
use py_board.Prelude.Int.{ℤ}
use py_board.Prelude.Rows.{Rows, lookup, insert, find}
use py_board.Json.{Json}
use py_board.Model.Entity.{User, Order}
use py_board.Ticket.{Ticket, TicketMessage}
use py_board.Cache.{Store, Driver, nothing, value, undecodable, get_value, set_value, delete, incr}
use py_board.Exec.{
  Exec, err, ok, integrity_error, value_error, ◌>>=◌, ◌>>◌, raise_if, gets, modify, pure,
}

-- A row of `users`: the columns that orders, traffic and commission use are `user`.
pub record Account : Type 0 where
  pub user : User
  pub password : String
  pub token : String
  pub uuid : String
  pub telegram_id : Option ℤ
  pub discount : Option ℤ
  pub commission_type : ℤ
  pub banned : Bool
  pub is_admin : Bool
  pub is_staff : Bool
  pub auto_renewal : ℤ
  pub remind_expire : ℤ
  pub remind_traffic : ℤ
  pub last_login_at : Option ℕ
  pub remarks : Option String

-- app/models/invite_code/base.py
pub record InviteCode : Type 0 where
  pub user_id : ℕ
  pub code : String
  pub status : ℤ
  pub pv : ℤ

-- The tables that the services of the accounts read and write.
pub record Registry : Type 0 where
  pub users : Rows Account
  pub next_user : ℕ
  pub invites : Rows InviteCode
  pub next_invite : ℕ
  pub tickets : Rows Ticket
  pub messages : Rows TicketMessage
  pub orders : Rows Order
  pub cache : Store

-- What argon2's `verify` does: it returns, raises VerificationError, or raises InvalidHashError, which is
-- a ValueError.
pub data Verdict : Type 0 where
  matches mismatch invalid_hash : Verdict

-- argon2 (`hash` with the salt that it draws) and `bcrypt.checkpw`, where `none` is an exception.
pub record Hasher : Type 0 where
  pub argon2_hash : String → String
  pub argon2_verify : String → String → Verdict
  pub check_needs_rehash : String → Bool
  pub bcrypt_checkpw : String → String → Option Bool

-- The claims of a token.
pub record Payload : Type 0 where
  pub sub : String
  pub email : String
  pub is_admin : Bool
  pub is_staff : Bool
  pub iat : ℕ
  pub exp : ℕ

-- jose with the key and the algorithm of the configuration: `decode` at a time, with the claim `sub` of
-- the token; `none` is JWTError.
pub record Jwt : Type 0 where
  pub encode : Payload → String
  pub decode : ℕ → String → Option (Option String)
  pub expire_seconds : ℕ

-- What one request takes from outside: the clock, the settings, `str` and `int`, the methods of a text,
-- and what `secrets` and `uuid` draw.
pub record AuthEnv : Type 0 where
  pub now : ℕ
  pub get_int : String → ℤ → ℤ
  pub get_str : String → String
  pub email_whitelist_suffix : List String
  -- The setting of that name, which is taken not to be negative.
  pub register_limit_expire : ℕ
  pub strip : String → String
  pub lower : String → String
  pub strip_upper : String → String
  pub length : String → ℕ
  pub show : ℕ → String
  pub int_of_text : String → Option ℤ
  pub str_of : Json → String
  pub int_of : Json → Option ℤ
  pub hasher : Hasher
  pub jwt : Jwt
  pub driver : Driver
  -- The answer of Cloudflare to a secret, a token and an address: `none` is an exception.
  pub siteverify : String → String → Option String → Option Bool
  pub token_hex : ℕ → String
  pub uuid4 : ℕ → String
  pub random_prefix : ℕ → String
  pub randbelow : ℕ → ℕ
  pub draw_code : ℕ → String

-- `get_by_email`
abbrev pub has_email : String → Account → Bool
has_email email a = str_eq a.user.email email

abbrev pub get_by_email : String → Registry → Option (ℕ × Account)
get_by_email email s = find (has_email email) s.users

-- `email_exists`
abbrev pub email_exists : String → Registry → Bool
email_exists email s = not (is_none (get_by_email email s))

abbrev pub has_token : String → Account → Bool
has_token token a = str_eq a.token token

-- `uq_users_email` and `uq_users_token`: a row with the email or the token of another row.
abbrev pub clashes : Account → Registry → Bool
clashes a s = not (is_none (find (λ b. has_email a.user.email b || has_token a.token b) s.users))

-- `create`: INSERT of a row under a new key.
unfoldable pub create_account : Account → Exec Registry ℕ
create_account a s = if clashes a s then (err integrity_error, s) else (
  ok s.next_user,
  record s { users = insert s.next_user a s.users; next_user = s.next_user + 1 },
)

-- `update`, with an email and a token that no other row has.
abbrev pub set_account : ℕ → Account → Exec Registry (Unit {0})
set_account i a = modify (λ s. record s { users = insert i a s.users })

abbrev pub set_invite : ℕ → InviteCode → Exec Registry (Unit {0})
set_invite i v = modify (λ s. record s { invites = insert i v s.invites })

module _ (env : AuthEnv) where
  -- `cache.get`: a row that cannot be decoded raises JSONDecodeError, which is a ValueError.
  unfoldable pub cache_get : String → Exec Registry (Option Json)
  cache_get key s =
      let (got, c) = get_value env.driver env.now key s.cache in
      elim got [
        | nothing ↦ (ok none, record s { cache = c })
        | value j ↦ (ok (some j), record s { cache = c })
        | undecodable ↦ (err value_error, record s { cache = c })
      ]

  abbrev pub cache_set : String → Json → ℕ → Exec Registry (Unit {0})
  cache_set key v ex = modify (λ s. record s { cache = set_value env.now key v (some ex) s.cache })

  unfoldable pub cache_incr : String → Option ℕ → Exec Registry ℤ
  cache_incr key ex s =
      let (n, c) = incr env.driver env.now key ex s.cache in (ok n, record s { cache = c })

abbrev pub cache_delete : String → Exec Registry (Unit {0})
cache_delete key = modify (λ s. record s { cache = (delete (List.◌∷◌ key List.[]) s.cache).1 })
