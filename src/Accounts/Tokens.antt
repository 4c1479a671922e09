-- ===== src/Accounts/Tokens.antt =====
-- From a login to the current user of a request (app/services/auth.py).
use Prim.Native.String.{◌++◌ as joined}
use text.Mathlib.Text.{starts_with}
use py_board.Prelude.{
  ℕ, ◌+◌, ◌<◌, ◌≡◌, ◌⊎◌, refl, ◌∙◌, inl, inr, String, Bool, true, false, Option, none, some, arith,
  get_or, if◌then◌else◌,
}
use py_board.Prelude.Int.{pos}
use py_board.Prelude.Rows.{lookup, insert, IsKeyed, lookup-insert_self, find-holds}
use py_board.Prelude.Table.{text_eq}
use py_board.Exec.{Result, ok, err, value_error}
use py_board.Accounts.{
  Account, Registry, AuthEnv, Hasher, Verdict, Payload, matches, mismatch, invalid_hash, has_email,
}
use py_board.Accounts.Password.{verify_argon2id, verify_bcrypt, verify_and_upgrade}
use py_board.Accounts.Sessions.{
  LoginRequest, payload, access_token, build_auth_token, logged_in, enter, login, user_id_of,
  decode_user_id, get_current_user,
}
use py_board.Accounts.Access.{login-returns, get_current_user-active, active_user-free}

-- The service at another time.
abbrev pub at : AuthEnv → ℕ → AuthEnv
at env t = record env { now = t }

-- What argon2 does of its own hashes.
pub record IsSoundHasher (h : Hasher) : Type 0 where
  pub verifies : (p : String) → h.argon2_verify (h.argon2_hash p) p ≡ matches
  pub tagged : (p : String) → starts_with (h.argon2_hash p) "$argon2" ≡ true

-- What jose does of its own tokens before they expire, and `int` of what `str` makes of a number.
pub record IsSoundJwt (env : AuthEnv) : Type 0 where
  pub decodes :
      (p : Payload) (t : ℕ) → t < p.exp → env.jwt.decode t (env.jwt.encode p) ≡ some (some p.sub)
  pub numbers : (i : ℕ) → env.int_of_text (env.show i) ≡ some (pos i)

-- A right password: the hash stays, if it is one of argon2, or is replaced by one.
verify_and_upgrade-new :
    (h : Hasher) (secret hash : String) (new : Option String)
    → verify_and_upgrade h secret hash ≡ ok (true, new)
    → (new ≡ some (h.argon2_hash secret)) ⊎ ((new ≡ none) × (starts_with hash "$argon2" ≡ true))
unfolding verify_and_upgrade verify_argon2id verify_bcrypt
verify_and_upgrade-new h secret hash new e =
    by_cases (starts_with hash "$argon2") (starts_with hash "$2") e
  where
    argon :
        (v : Verdict) (r : Bool)
        → elim v as (λ _. Result (Bool × Option String)) [
          | matches ↦ ok (true, if r then some (h.argon2_hash secret) else none)
          | mismatch ↦ ok (false, none)
          | invalid_hash ↦ err value_error
        ]
          ≡ ok (true, new)
        → (new ≡ some (h.argon2_hash secret)) ⊎ (new ≡ none)
    argon matches true e = inl (ground arith)
    argon matches false e = inr (ground arith)
    argon mismatch r e = absurd (ground arith)
    argon invalid_hash r e = absurd (ground arith)

    bcrypt :
        (o : Option Bool)
        → elim o as (λ _. Result (Bool × Option String)) [
          | some true ↦ ok (true, some (h.argon2_hash secret))
          | some false ↦ ok (false, none)
          | none ↦ ok (false, none)
        ]
          ≡ ok (true, new)
        → new ≡ some (h.argon2_hash secret)
    bcrypt (some true) e = ground arith
    bcrypt (some false) e = absurd (ground arith)
    bcrypt none e = absurd (ground arith)

    by_cases :
        (x y : Bool)
        → (if x
            then verify_argon2id h secret hash
            else if y
            then verify_bcrypt h secret hash
            else ok (false, none))
          ≡ ok (true, new)
        → (new ≡ some (h.argon2_hash secret)) ⊎ ((new ≡ none) × (x ≡ true))
    by_cases true y e = elim (argon (h.argon2_verify hash secret) (h.check_needs_rehash hash) e) [
      | inl rehashed ↦ inl rehashed
      | inr kept ↦ inr (kept, refl)
    ]
    by_cases false true e = inl (bcrypt (h.bcrypt_checkpw secret hash) e)
    by_cases false false e = absurd (ground arith)

-- The hash that is kept after a right password is one of argon2.
verify_and_upgrade-tagged :
    (h : Hasher) (secret hash : String) (new : Option String)
    → IsSoundHasher h
    → verify_and_upgrade h secret hash ≡ ok (true, new)
    → starts_with (get_or new hash) "$argon2" ≡ true
verify_and_upgrade-tagged h secret hash new sound e =
    elim (verify_and_upgrade-new h secret hash new e) [
      | inl rehashed ↦ rw rehashed (sound.tagged secret)
      | inr (kept, argon) ↦ rw kept argon
    ]

-- The right password of a hash of argon2.
pub verify_and_upgrade-hashed :
    (h : Hasher) (secret : String)
    → IsSoundHasher h
    → (new : Option String) × (verify_and_upgrade h secret (h.argon2_hash secret) ≡ ok (true, new))
unfolding verify_and_upgrade verify_argon2id
verify_and_upgrade-hashed h secret sound = (
  if h.check_needs_rehash (h.argon2_hash secret) then some (h.argon2_hash secret) else none,
  rw (sound.tagged secret) (rw (sound.verifies secret, verify_argon2id) refl),
)

-- The id in a token of the service, until the token expires.
decode_user_id-access_token :
    (env : AuthEnv) (i : ℕ) (a : Account) (t : ℕ)
    → IsSoundJwt env
    → t < env.now + env.jwt.expire_seconds
    → decode_user_id (at env t) (access_token env i a) ≡ ok (pos i)
unfolding decode_user_id
decode_user_id-access_token env i a t sound lt =
    rw (sound.decodes (payload env i a) t lt, decode_user_id)
      (rw (sound.numbers i, user_id_of) refl)

-- With an argon2 and a jose that accept what they made: a login that returns hands out `Bearer` and
-- a token of an account with the email of the request, which is not banned; its hash is one of
-- argon2 now and its last login is the time of the request; and until the token expires, a request
-- with it, in the state that the login left, is one of that account. Where no two accounts have the
-- same id.
pub login-session :
    (env : AuthEnv) (b : LoginRequest) (ip : Option String) (v : Bool) (s : Registry) (t : String)
    (later : ℕ)
    → IsSoundHasher env.hasher
    → IsSoundJwt env
    → IsKeyed s.users
    → (login env b ip v s).0 ≡ ok t
    → later < env.now + env.jwt.expire_seconds
    → (i : ℕ) × (a : Account) × (t ≡ joined "Bearer " (access_token env i a))
      × (a.user.email ≡ b.email)
      × (a.banned ≡ false)
      × (starts_with a.password "$argon2" ≡ true)
      × (a.last_login_at ≡ some env.now)
      × (get_current_user (at env later) (access_token env i a) (login env b ip v s).1
          ≡ (ok (i, a), (login env b ip v s).1))
unfolding enter
login-session env b ip v s t later hashes tokens keyed returned lt =
    let (i, a, h, found, enters, logged) = login-returns env b ip v s t returned in
    let c : Account = logged_in env h a in
    let s' : Registry = record s { users = insert i c s.users } in
    let entered : login env b ip v s ≡ (ok (build_auth_token env i c), s') = logged in
    let there : lookup i s'.users ≡ some c = lookup-insert_self i c s.users in
    let decoded = decode_user_id-access_token env i c later tokens lt in
    (
      i,
      c,
      ground (arith, returned, entered),
      text_eq a.user.email b.email (find-holds (has_email b.email) s.users i a found),
      enters.1,
      verify_and_upgrade-tagged env.hasher b.password a.password h hashes enters.0,
      refl,
      rw entered (
          get_current_user-active (at env later) i c s' there (access_token env i c) decoded
          ∙ active_user-free (at env later) i c s' there enters.1),
    )
