-- ===== src/Accounts/Access.antt =====
-- Who gets in (app/services/auth.py): logins, tokens and banned accounts.
use py_board.Prelude.{
  ℕ, ◌≡◌, ◌≢◌, refl, sym, ap, ◌∙◌, inl, inr, String, Bool, true, false, Option, none, some, arith,
  Bool-cases, Option-cases,
}
use py_board.Prelude.Int.{pos}
use py_board.Prelude.Rows.{lookup, insert, lookup-insert_self, insert-IsKeyed, IsKeyed, lookup-find}
use py_board.Exec.{
  Result, ok, err, Exn, Exec, unauthorized, forbidden, not_found, user_missing, credentials_wrong,
  account_banned, ◌>>=◌, lift, Result-cases, bind-ok, bind-err, bind_returns,
}
use py_board.Accounts.{Account, Registry, AuthEnv, get_by_email, has_email}
use py_board.Accounts.Password.{verify_and_upgrade}
use py_board.Accounts.Checks.Cached.{verify_if_enabled-same}
use py_board.Accounts.Sessions.{
  LoginRequest, get_by_number, decode_user_id, logged_in, enter, check_login, check_form, sign_in,
  login, active_user, as_admin, as_staff, enter_as, get_current_user, build_token_for_user_id,
  require_admin, require_staff,
}
use py_board.Accounts.Profile.{admin_set_banned}

module _ (env : AuthEnv) where
  -- The password of the account that a login may enter.
  abbrev pub Enters : Account → String → Option String → Type 0
  Enters a password new_hash =
      (verify_and_upgrade env.hasher password a.password ≡ ok (true, new_hash)) × (a.banned ≡ false)

  pub check_login-Enters :
      (i : ℕ) (a : Account) (password : String) (h : Option String) (s : Registry)
      → Enters a password h
      → check_login env i a password s ≡ enter env i (logged_in env h a) none s
  unfolding check_login enter
  check_login-Enters i a password h s (right, free) = rw (right, free) refl

  pub check_login-returns :
      (i : ℕ) (a : Account) (password t : String) (s : Registry)
      → (check_login env i a password s).0 ≡ ok t
      → (h : Option String) × Enters a password h
  unfolding check_login
  check_login-returns i a password t s returned =
      elim (Result-cases (verify_and_upgrade env.hasher password a.password)) [
        | inr (x, e) ↦ absurd (ground (arith, rw e at returned))
        | inl ((valid, h), e) ↦ elim (Bool-cases valid) [
          | inr wrong ↦ absurd (ground (arith, rw (e, wrong) at returned))
          | inl right ↦ elim (Bool-cases a.banned) [
            | inl out ↦ absurd (ground (arith, rw (e, right, out) at returned))
            | inr free ↦ (h, (e ∙ ap (λ v. ok (v, h)) right, free))
          ]
        ]
      ]

  check_form-same :
      (b : LoginRequest) (ip : Option String) (v : Bool) (s : Registry)
      → (check_form env b ip v s).1 ≡ s
  check_form-same b ip true s = verify_if_enabled-same env b.recaptcha_data ip s
  check_form-same b ip false s = refl

  pub sign_in-none :
      (b : LoginRequest) (s : Registry)
      → get_by_email b.email s ≡ none
      → (sign_in env b s).0 ≡ err (unauthorized credentials_wrong)
  unfolding sign_in
  sign_in-none b s e = rw e refl

  pub sign_in-some :
      (b : LoginRequest) (s : Registry) (i : ℕ) (a : Account)
      → get_by_email b.email s ≡ some (i, a)
      → sign_in env b s ≡ check_login env i a b.password s
  unfolding sign_in
  sign_in-some b s i a e = rw e refl

  -- A login that returns: the account of the email, and what is written of it.
  pub login-returns :
      (b : LoginRequest) (ip : Option String) (v : Bool) (s : Registry) (t : String)
      → (login env b ip v s).0 ≡ ok t
      → (i : ℕ) × (a : Account) × (h : Option String) × (get_by_email b.email s ≡ some (i, a))
        × Enters a b.password h
        × (login env b ip v s ≡ enter env i (logged_in env h a) none s)
  unfolding login
  login-returns b ip v s t returned =
      let (u, fine, rest) = bind_returns (check_form env b ip v) (λ _. sign_in env b) s returned in
      let here = ap (sign_in env b) (check_form-same b ip v s) in
      let signed : (sign_in env b s).0 ≡ ok t =
        sym (ap (λ (p : Result String × Registry). p.0) (rest ∙ here)) ∙ returned in
      elim (Option-cases (get_by_email b.email s)) [
        | inl missing ↦ absurd (ground (arith, sign_in-none b s missing, signed))
        | inr ((i, a), e) ↦
            let checked = sign_in-some b s i a e in
            let (h, enters) =
              check_login-returns i a b.password t s
                (sym (ap (λ (p : Result String × Registry). p.0) checked) ∙ signed) in
            (
              i,
              a,
              h,
              e,
              enters,
              rest ∙ here ∙ checked ∙ check_login-Enters i a b.password h s enters,
            )
      ]

-- The account with an id, banned or not.
module _ (env : AuthEnv) (i : ℕ) (a : Account) (s : Registry)
    (there : lookup i s.users ≡ some a) where
  found_by_number : get_by_number (pos i) s ≡ some (i, a)
  found_by_number =
      ap
        (λ (o : Option Account). elim o as (λ _. Option (ℕ × Account)) [
          | none ↦ none
          | some v ↦ some (i, v)
        ])
        there

  pub active_user-banned :
      a.banned ≡ true → active_user env (pos i) s ≡ (err (forbidden account_banned), s)
  unfolding active_user
  active_user-banned out = rw (found_by_number, out) refl

  pub active_user-free : a.banned ≡ false → active_user env (pos i) s ≡ (ok (i, a), s)
  unfolding active_user
  active_user-free free = rw (found_by_number, free) refl

  -- The current user of a token with the id.
  pub get_current_user-active :
      (token : String)
      → decode_user_id env token ≡ ok (pos i)
      → get_current_user env token s ≡ active_user env (pos i) s
  unfolding get_current_user
  get_current_user-active token e = bind-ok (lift (decode_user_id env token)) (active_user env) s e

  get_current_user-banned :
      (token : String)
      → decode_user_id env token ≡ ok (pos i)
      → a.banned ≡ true
      → get_current_user env token s ≡ (err (forbidden account_banned), s)
  get_current_user-banned token e out = get_current_user-active token e ∙ active_user-banned out

  login-banned :
      (b : LoginRequest) (ip : Option String) (v : Bool) (t : String)
      → a.banned ≡ true
      → get_by_email b.email s ≡ some (i, a)
      → (login env b ip v s).0 ≢ ok t
  login-banned b ip v t out found returned =
      let (j, a', h, found', enters, _) = login-returns env b ip v s t returned in
      absurd (ground (arith, found, found', enters.1, out))

-- A bind to an exception raises it.
module _ {S A B : Type 0} where
  bind_raises :
      (m : Exec S A) (f : A → Exec S B) (s s' : S) (x : Exn)
      → m s ≡ (err x, s')
      → (m >>= f) s ≡ (err x, s')
  bind_raises m f s s' x e =
      bind-err m f s (ap (λ (p : Result A × S). p.0) e) ∙ ap (λ (p : Result A × S). (err x, p.1)) e

-- What a ban shuts: the logins of the account, and all that a token or an id of it lets somebody do.
pub record IsShut (env : AuthEnv) (i : ℕ) (s : Registry) : Type 0 where
  pub current :
      (token : String)
      → decode_user_id env token ≡ ok (pos i)
      → get_current_user env token s ≡ (err (forbidden account_banned), s)
  pub admin :
      (token : String)
      → decode_user_id env token ≡ ok (pos i)
      → require_admin env token s ≡ (err (forbidden account_banned), s)
  pub staff :
      (token : String)
      → decode_user_id env token ≡ ok (pos i)
      → require_staff env token s ≡ (err (forbidden account_banned), s)
  pub by_id : build_token_for_user_id env (pos i) s ≡ (err (forbidden account_banned), s)
  pub by_email :
      (b : LoginRequest) (ip : Option String) (v : Bool) (a : Account) (t : String)
      → get_by_email b.email s ≡ some (i, a)
      → (login env b ip v s).0 ≢ ok t

admin_set_banned-none :
    (i : ℕ) (b : Bool) (s : Registry)
    → lookup i s.users ≡ none
    → (admin_set_banned i b s).0 ≡ err (not_found user_missing)
unfolding admin_set_banned
admin_set_banned-none i b s e = rw e refl

pub admin_set_banned-some :
    (i : ℕ) (b : Bool) (a : Account) (s : Registry)
    → lookup i s.users ≡ some a
    → admin_set_banned i b s
      ≡ (ok true, record s { users = insert i (record a { banned = b }) s.users })
unfolding admin_set_banned
admin_set_banned-some i b a s e = rw e refl

-- After a ban of an account that returned, in whatever settings and at whatever time: a token with the
-- account's id is refused with `forbidden`, also where an administrator or the staff is asked for, and so is
-- the login by its id, all without a change; and no login with its email returns. Where no two accounts have
-- the same id.
pub admin_set_banned-IsShut :
    (env : AuthEnv) (i : ℕ) (s : Registry) (r : Bool)
    → IsKeyed s.users
    → (admin_set_banned i true s).0 ≡ ok r
    → IsShut env i (admin_set_banned i true s).1
unfolding require_admin require_staff build_token_for_user_id
admin_set_banned-IsShut env i s r keyed returned = elim (Option-cases (lookup i s.users)) [
  | inl missing ↦ absurd (ground (arith, admin_set_banned-none i true s missing, returned))
  | inr (a, there) ↦ rw (admin_set_banned-some i true a s there) (shut a)
]
  where
    shut :
        (a : Account)
        → IsShut env i (record s { users = insert i (record a { banned = true }) s.users })
    shut a =
        let b : Account = record a { banned = true } in
        let s' : Registry = record s { users = insert i b s.users } in
        let there' : lookup i s'.users ≡ some b = lookup-insert_self i b s.users in
        record {
          current = λ token e. get_current_user-banned env i b s' there' token e refl;
          admin = λ token e.
              bind_raises (get_current_user env token) (as_admin env) s' s'
                (forbidden account_banned) (get_current_user-banned env i b s' there' token e refl);
          staff = λ token e.
              bind_raises (get_current_user env token) (as_staff env) s' s'
                (forbidden account_banned) (get_current_user-banned env i b s' there' token e refl);
          by_id =
              bind_raises (active_user env (pos i)) (enter_as env) s' s' (forbidden account_banned)
                (active_user-banned env i b s' there' refl);
          by_email = λ d ip v c t found.
              let c_there =
                lookup-find (has_email d.email) s'.users i c (insert-IsKeyed i b s.users keyed)
                  found in
              let same : b ≡ c = ground (arith, there', c_there) in
              login-banned env i c s' c_there d ip v t (ap (λ (x : Account). x.banned) (sym same))
                found;
        }
