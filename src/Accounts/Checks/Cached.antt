-- ===== src/Accounts/Checks/Cached.antt =====
-- What the checks of app/services/auth.py before a registration write.
use py_board.Prelude.{
  ℕ, ◌≡◌, refl, ap, ◌∙◌, inl, inr, String, Bool, true, false, Option, none, some, Bool-cases, arith,
  get_or, ◌||◌, not, if◌then◌else◌,
}
use text.Mathlib.Text.{◌==◌ as str_eq}
use py_board.Json.{Json}
use py_board.Cache.{Store, Got, nothing, value, undecodable, get_value}
use py_board.Exec.{
  Result, ok, err, Exn, Exec, ◌>>=◌, Result-cases, bind-ok, bind-err, raise_if, pure, or_raise,
  value_error, forbidden, bad_request, raise, register_stopped, verify_code_empty,
}
use py_board.Accounts.{Registry, AuthEnv, cache_get, cache_incr}
use py_board.Accounts.Checks.{
  is_on, is_blank, code_key, compare_code, verify_if_enabled, check_email_policy,
  check_register_limit, verify_email_code,
}
use py_board.Accounts.Register.{UserCreate, check_registration, check_code}

pub record OnlyCache {A : Type 0} (m : Exec Registry A) : Type 0 where
  pub cached : (s : Registry) → (c : Store) × ((m s).1 ≡ record s { cache = c })

module _ {A B : Type 0} where
  pub bind-OnlyCache :
      (m : Exec Registry A) (f : A → Exec Registry B)
      → OnlyCache m
      → ((a : A) → OnlyCache (f a))
      → OnlyCache (m >>= f)
  bind-OnlyCache m f h g = record {
    cached = λ s. elim (Result-cases (m s).0) [
      | inl (a, e) ↦
          let (c, first) = h.cached s in
          let (c', rest) = (g a).cached (m s).1 in
          (
            c',
            ap (λ (p : Result B × Registry). p.1) (bind-ok m f s e)
                ∙ rest
                ∙ ap (λ (r : Registry). record r { cache = c' }) first,
          )
      | inr (x, e) ↦
          let (c, first) = h.cached s in
          (c, ap (λ (p : Result B × Registry). p.1) (bind-err m f s e) ∙ first)
    ];
  }

module _ {A : Type 0} where
  pub pure-OnlyCache : (a : A) → OnlyCache (pure a)
  pure-OnlyCache a = record { cached = λ s. (s.cache, refl) }

  pub if-OnlyCache :
      (b : Bool) (m n : Exec Registry A)
      → OnlyCache m
      → OnlyCache n
      → OnlyCache (if b then m else n)
  if-OnlyCache true m n h g = h
  if-OnlyCache false m n h g = g

  pub or_raise-OnlyCache : (o : Option A) (e : Exn) → OnlyCache (or_raise o e)
  or_raise-OnlyCache none e = record { cached = λ s. (s.cache, refl) }
  or_raise-OnlyCache (some a) e = record { cached = λ s. (s.cache, refl) }

pub raise_if-OnlyCache : (b : Bool) (e : Exn) → OnlyCache (raise_if b e)
raise_if-OnlyCache b e = record { cached = λ s. (s.cache, refl) }

pub cache_get-OnlyCache : (env : AuthEnv) (key : String) → OnlyCache (cache_get env key)
unfolding cache_get
cache_get-OnlyCache env key = record {
  cached = λ s. (
    (get_value env.driver env.now key s.cache).1,
    by_cases s (get_value env.driver env.now key s.cache).0
        (get_value env.driver env.now key s.cache).1,
  );
}
  where
    answer : Registry → Got → Store → Result (Option Json) × Registry
    answer s got c = elim got [
      | nothing ↦ (ok none, record s { cache = c })
      | value j ↦ (ok (some j), record s { cache = c })
      | undecodable ↦ (err value_error, record s { cache = c })
    ]

    by_cases : (s : Registry) (got : Got) (c : Store) → (answer s got c).1 ≡ record s { cache = c }
    by_cases s nothing c = refl
    by_cases s (value j) c = refl
    by_cases s undecodable c = refl

pub cache_incr-OnlyCache :
    (env : AuthEnv) (key : String) (ex : Option ℕ) → OnlyCache (cache_incr env key ex)
unfolding cache_incr
cache_incr-OnlyCache env key ex = record { cached = λ s. (_, refl) }

module _ (env : AuthEnv) where
  pub verify_if_enabled-same :
      (t ip : Option String) (s : Registry) → (verify_if_enabled env t ip s).1 ≡ s
  unfolding verify_if_enabled
  verify_if_enabled-same t ip s = ground arith

  check_email_policy-same : (email : String) (s : Registry) → (check_email_policy env email s).1 ≡ s
  unfolding check_email_policy
  check_email_policy-same email s = ground arith

  same-OnlyCache : {A : Type 0} (m : Exec Registry A) → ((s : Registry) → (m s).1 ≡ s) → OnlyCache m
  same-OnlyCache m h = record { cached = λ s. (s.cache, h s) }

  check_register_limit-OnlyCache : (ip : Option String) → OnlyCache (check_register_limit env ip)
  unfolding check_register_limit cache_incr
  check_register_limit-OnlyCache none = record { cached = λ s. (s.cache, refl) }
  check_register_limit-OnlyCache (some ip) = record {
    cached = λ s.
        elim (Bool-cases (str_eq ip "" || not (is_on env "register_limit_by_ip_enable"))) [
          | inl off ↦ rw off (s.cache, refl)
          | inr on ↦ rw on (_, refl)
        ];
  }

  verify_email_code-OnlyCache :
      (email : String) (code : Option String) → OnlyCache (verify_email_code env email code)
  unfolding verify_email_code
  verify_email_code-OnlyCache email code = elim (Bool-cases (is_blank code)) [
    | inl blank ↦ rw blank (same-OnlyCache (raise (bad_request verify_code_empty)) (λ s. refl))
    | inr full ↦ rw full (
        bind-OnlyCache (cache_get env (code_key email)) (compare_code env (get_or code "None"))
          (cache_get-OnlyCache env (code_key email)) (λ j. raise_if-OnlyCache _ _))
  ]

  check_code-OnlyCache : (b : UserCreate) → OnlyCache (check_code env b)
  check_code-OnlyCache b = elim (Bool-cases (is_on env "email_verify")) [
    | inl on ↦ rw on (verify_email_code-OnlyCache b.email b.email_code)
    | inr off ↦ rw off (pure-OnlyCache tt)
  ]

  pub check_registration-OnlyCache :
      (b : UserCreate) (ip : Option String) → OnlyCache (check_registration env b ip)
  unfolding check_registration
  check_registration-OnlyCache b ip =
      bind-OnlyCache _ _
        (raise_if-OnlyCache (is_on env "stop_register") (forbidden register_stopped))
        (λ _.
          bind-OnlyCache {A = Unit {0}} _ _
            (same-OnlyCache (check_email_policy env b.email) (check_email_policy-same b.email))
            (λ _. bind-OnlyCache _ _ (check_register_limit-OnlyCache ip) (λ _.
              bind-OnlyCache {A = Unit {0}} _ _
                (same-OnlyCache (verify_if_enabled env b.recaptcha_data ip)
                  (verify_if_enabled-same b.recaptcha_data ip))
                (λ _. check_code-OnlyCache b))))
