-- ===== src/Exec.antt =====
-- A service method: a state that it changes and exceptions (app/core/exceptions.py). What was
-- written before a raise comes back with it: `request` is where it is rolled back.
use py_board.Prelude.{
  Bool, true, false, Option, none, some, ◌≡◌, refl, ◌⊎◌, inl, inr, if◌then◌else◌,
}

-- What an exception says. The texts of the source are names here.
pub data Detail : Type 0 where
  order_missing user_missing plan_missing payment_unavailable order_gone : Detail
  pending_exists user_pending_exists : Detail
  deposit_coupon deposit_not_positive deposit_too_large : Detail
  period_unsupported reset_refused plan_refused sold_out balance_short : Detail
  only_pending_cancel only_pending : Detail
  code_empty code_taken code_exhausted generate_count coupon_missing coupon_invalid coupon_used_up
        coupon_early coupon_late :
      Detail
  coupon_other_plan coupon_other_period coupon_user_limit coupon_unusable coupon_changed : Detail
  coupon_kind coupon_value coupon_dates : Detail
  card_missing card_early card_late card_used_up card_used card_kind card_value card_active_plan :
      Detail
  card_without_plan card_plan_missing card_dates : Detail
  amount_not_positive commission_short gateway_missing config_invalid : Detail
  plan_has_orders plan_has_users : Detail
  ticket_missing ticket_subject_empty ticket_message_empty ticket_open_exists ticket_no_order
        ticket_refused :
      Detail
  ticket_closed ticket_reply_empty ticket_unanswered : Detail
  withdraw_refused withdraw_method_unknown withdraw_short : Detail
  register_stopped email_taken email_suffix_refused gmail_refused register_too_often : Detail
  verify_too_often verify_code_empty verify_code_wrong verify_code_sent email_unknown : Detail
  credentials_wrong account_banned not_logged_in no_permission old_password_wrong : Detail
  invite_code_required invite_code_invalid inviter_invalid : Detail
  invite_limit invite_user_empty invite_missing invite_taken invite_exhausted : Detail
  suffix_malformed generate_users_count : Detail
  config_empty config_malformed config_not_object : Detail
  turnstile_unconfigured turnstile_required turnstile_unavailable turnstile_failed : Detail

-- The last line's are raised by Python and SQLAlchemy, and are no `AppException`.
pub data Exn : Type 0 where
  not_found bad_request conflict unauthorized forbidden : Detail → Exn
  integrity_error overflow_error value_error type_error invalid_operation : Exn

abbrev pub is_app_exception : Exn → Bool
is_app_exception (not_found _) = true
is_app_exception (bad_request _) = true
is_app_exception (conflict _) = true
is_app_exception (unauthorized _) = true
is_app_exception (forbidden _) = true
is_app_exception _ = false

pub data Result (A : Type 0) : Type 0 where
  ok : A → Result A
  err : Exn → Result A

abbrev pub Exec : Type 0 → Type 0 → Type 0
Exec S A = S → Result A × S

module _ {S A : Type 0} where
  abbrev pub pure : A → Exec S A
  pure a s = (ok a, s)

  abbrev pub raise : Exn → Exec S A
  raise e s = (err e, s)

  abbrev pub gets : (S → A) → Exec S A
  gets f s = (ok (f s), s)

  abbrev pub lift : Result A → Exec S A
  lift r s = (r, s)

  -- `if x is None: raise`
  abbrev pub or_raise : Option A → Exn → Exec S A
  or_raise none e = raise e
  or_raise (some a) e = pure a

  -- The session's `commit` on a return and `rollback` on an exception (app/core/database.py).
  unfoldable pub request : Exec S A → Exec S A
  request m s = let (r, s') = m s in elim r [ ok a ↦ (ok a, s') | err e ↦ (err e, s) ]

module _ {S A B : Type 0} where
  infixl 5 ◌>>=◌ ◌>>◌
  abbrev pub ◌>>=◌ : Exec S A → (A → Exec S B) → Exec S B
  ◌>>=◌ m f s = let (r, s') = m s in elim r [ ok a ↦ f a s' | err e ↦ (err e, s') ]

  abbrev pub ◌>>◌ : Exec S A → Exec S B → Exec S B
  m >> k = m >>= λ _. k

module _ {S : Type 0} where
  abbrev pub done : Exec S (Unit {0})
  done s = (ok tt, s)

  abbrev pub raise_if : Bool → Exn → Exec S (Unit {0})
  raise_if c e s = (if c then err e else ok tt, s)

  abbrev pub modify : (S → S) → Exec S (Unit {0})
  modify f s = (ok tt, f s)

pub Result-cases : {A : Type 0} (r : Result A) → ((a : A) × (r ≡ ok a)) ⊎ ((e : Exn) × (r ≡ err e))
Result-cases (ok a) = inl (a, refl)
Result-cases (err e) = inr (e, refl)

-- What a bind of a returned value and of a raised exception comes to.
module _ {S A B : Type 0} (m : Exec S A) (f : A → Exec S B) (s : S) where
  pub bind-ok : {a : A} → (m s).0 ≡ ok a → (m >>= f) s ≡ f a (m s).1
  bind-ok e = rw (e, ◌>>=◌)

  pub bind-err : {e : Exn} → (m s).0 ≡ err e → (m >>= f) s ≡ (err e, (m s).1)
  bind-err e = rw (e, ◌>>=◌)

  -- A bind that returns: its first part returned.
  pub bind_returns :
      {b : B} → ((m >>= f) s).0 ≡ ok b → (a : A) × ((m s).0 ≡ ok a) × ((m >>= f) s ≡ f a (m s).1)
  bind_returns h = elim (Result-cases (m s).0) [
    | inl (a, e) ↦ (a, e, bind-ok e)
    | inr (x, e) ↦ absurd (cc (bind-err e))
  ]

  -- What a bind keeps of a state: what its first part keeps, and its second where the first returns.
  pub bind_keeps :
      (P : S → Type 0)
      → P (m s).1
      → ((a : A) → (m s).0 ≡ ok a → P (f a (m s).1).1)
      → P ((m >>= f) s).1
  bind_keeps P p q = elim (Result-cases (m s).0) [
    | inl (a, e) ↦ rw (bind-ok e) (q a e)
    | inr (x, e) ↦ rw (bind-err e) p
  ]
