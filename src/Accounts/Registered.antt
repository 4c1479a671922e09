-- ===== src/Accounts/Registered.antt =====
-- From a registration to a login (app/services/auth.py).
use py_board.Prelude.{
  ℕ, ◌+◌, ◌≡◌, refl, sym, ap, ◌∙◌, inl, inr, String, Bool, true, false, not, Option, none, some,
  arith, is_none, if◌then◌else◌,
}
use py_board.Prelude.Rows.{lookup, insert, find}
use py_board.Prelude.Find.{find-insert_first}
use py_board.Prelude.Table.{text_eq_refl}
use py_board.Exec.{Result, ok, err, integrity_error, bind_returns}
use py_board.Accounts.{
  Account, Registry, AuthEnv, get_by_email, has_email, email_exists, create_account, clashes,
}
use py_board.Accounts.Sessions.{build_auth_token, logged_in, enter, login}
use py_board.Accounts.Checks.{use_invite, resolve_invite_user_id}
use py_board.Accounts.Checks.Cached.{check_registration-OnlyCache}
use py_board.Accounts.Register.{
  UserCreate, registered, check_registration, welcome, open_account, admit, register,
}
use py_board.Accounts.Once.{register-cases}
use py_board.Accounts.Access.{sign_in-some, check_login-Enters}
use py_board.Accounts.Tokens.{at, IsSoundHasher, verify_and_upgrade-hashed}

create_account-returns :
    (a : Account) (s : Registry) (i : ℕ)
    → (create_account a s).0 ≡ ok i
    → (i ≡ s.next_user)
      × ((create_account a s).1
          ≡ record s { users = insert s.next_user a s.users; next_user = s.next_user + 1 })
unfolding create_account
create_account-returns a s i e = by_cases (clashes a s) e
  where
    stored : Registry
    stored = record s { users = insert s.next_user a s.users; next_user = s.next_user + 1 }

    created : Bool → Result ℕ × Registry
    created x = if x then (err integrity_error, s) else (ok s.next_user, stored)

    by_cases : (x : Bool) → (created x).0 ≡ ok i → (i ≡ s.next_user) × ((created x).1 ≡ stored)
    by_cases true e = absurd (ground arith)
    by_cases false e = (ground arith, refl)

resolve_invite_user_id-users :
    (env : AuthEnv) (c : Option String) (s : Registry)
    → ((resolve_invite_user_id env c s).1.users ≡ s.users)
      × ((resolve_invite_user_id env c s).1.next_user ≡ s.next_user)
unfolding resolve_invite_user_id use_invite
resolve_invite_user_id-users env c s = (ground arith, ground arith)

-- The accounts after a registration that returned.
register-users :
    (env : AuthEnv) (b : UserCreate) (ip : Option String) (s : Registry) (t : String)
    → (register env b ip s).0 ≡ ok t
    → (u : Option ℕ) × (email_exists b.email s ≡ false)
      × ((register env b ip s).1.users ≡ insert s.next_user (registered env b u) s.users)
unfolding admit open_account welcome
register-users env b ip s t returned = elim (register-cases env b ip s) [
  | inl (x, e) ↦ absurd (ground (arith, rw e at returned))
  | inr (free, e) ↦
      let s1 = (check_registration env b ip s).1 in
      let (c, checked) = (check_registration-OnlyCache env b ip).cached s in
      let admitted : (admit env b s1).0 ≡ ok t =
        sym (ap (λ (p : Result String × Registry). p.0) e) ∙ returned in
      let (u, _, after) =
        bind_returns (resolve_invite_user_id env b.invite_code) (open_account env b) s1 admitted in
      let s2 = (resolve_invite_user_id env b.invite_code s1).1 in
      let opened : (open_account env b u s2).0 ≡ ok t =
        sym (ap (λ (p : Result String × Registry). p.0) after) ∙ admitted in
      let (i, created, welcomed) =
        bind_returns (create_account (registered env b u)) (welcome env b u) s2 opened in
      let (is_next, written) = create_account-returns (registered env b u) s2 i created in
      let (users, next) = resolve_invite_user_id-users env b.invite_code s1 in
      (
        u,
        sym (ap (email_exists b.email) checked) ∙ free,
        ap (λ (p : Result String × Registry). p.1.users) (e ∙ after ∙ welcomed)
            ∙ ap (λ (r : Registry). r.users) written
            ∙ ap (λ n. insert n (registered env b u) s2.users)
                (next ∙ ap (λ (r : Registry). r.next_user) checked)
            ∙ ap (insert s.next_user (registered env b u))
                (users ∙ ap (λ (r : Registry). r.users) checked),
      )
]

-- With an argon2 that accepts its own hashes, and a free next key: after a registration that returned, a
-- login with the same email and password, without the form's check, returns a token at any time; and that
-- is the token of the new account, whose email no account had before.
pub register-login :
    (env : AuthEnv) (b : UserCreate) (ip ip' : Option String) (later : ℕ) (s : Registry)
    (t : String)
    → IsSoundHasher env.hasher
    → lookup s.next_user s.users ≡ none
    → (register env b ip s).0 ≡ ok t
    → (a : Account) × (email_exists b.email s ≡ false)
      × (a.user.email ≡ b.email)
      × ((login
            (at env later)
            (record { email = b.email; password = b.password; recaptcha_data = none })
            ip'
            false
            (register env b ip s).1).0
          ≡ ok (build_auth_token (at env later) s.next_user a))
unfolding login enter
register-login env b ip ip' later s t sound fresh returned =
    let (u, free, users) = register-users env b ip s t returned in
    let s' = (register env b ip s).1 in
    let a = registered env b u in
    let (h, right) = verify_and_upgrade-hashed env.hasher b.password sound in
    let found : get_by_email b.email s' ≡ some (s.next_user, a) =
      ap (find (has_email b.email)) users
      ∙ find-insert_first (has_email b.email) s.next_user a s.users fresh
          (none_of (get_by_email b.email s) free) (text_eq_refl b.email) in
    let signed =
      sign_in-some (at env later)
        (record { email = b.email; password = b.password; recaptcha_data = none }) s' s.next_user a
        found in
    let entered = check_login-Enters (at env later) s.next_user a b.password h s' (right, refl) in
    (
      logged_in (at env later) h a,
      free,
      refl,
      ap (λ (p : Result String × Registry). p.0) (signed ∙ entered),
    )
  where
    none_of : (o : Option (ℕ × Account)) → not (is_none o) ≡ false → o ≡ none
    none_of none e = refl
    none_of (some x) e = absurd (ground arith)
