-- ===== src/Accounts/Checks.antt =====
-- app/services/turnstile.py and the checks of app/services/auth.py before a registration: the email, the
-- address of the client, the verification code and the invite code.
pub mod Cached
pub mod Sent
use Prim.Native.String.{◌++◌ as joined}
use text.Mathlib.Text.{◌==◌ as str_eq}
use py_board.Prelude.{
  ℕ, zero, suc, ◌+◌, String, Bool, true, false, not, ◌&&◌, ◌||◌, Option, none, some, List, [], ◌∷◌,
  ltb, is_none, get_or, ◌==◌, if◌then◌else◌,
}
use py_board.Prelude.Int.{ℤ, pos, negsuc, ◌+ℤ◌, ltb_ℤ, leb_ℤ, eqb_ℤ}
use py_board.Prelude.Rows.{find}
use py_board.Prelude.Text.{contains, partition, after_last, lstrip}
use py_board.Json
use py_board.Json.{Json}
use py_board.Model.Period.{text_mem}
use py_board.Exec.{
  Exec, bad_request, conflict, not_found, email_taken, email_unknown, email_suffix_refused,
  gmail_refused, register_too_often, verify_too_often, verify_code_empty, verify_code_wrong,
  verify_code_sent, invite_code_required, invite_code_invalid, turnstile_unconfigured,
  turnstile_required, turnstile_unavailable, turnstile_failed, ◌>>=◌, ◌>>◌, pure, done, raise,
  raise_if, or_raise, gets, modify,
}
use py_board.Accounts.{
  Account, InviteCode, Registry, AuthEnv, get_by_email, email_exists, set_invite, cache_get,
  cache_set, cache_incr,
}

-- `if await get_int(key, 0)`
abbrev pub is_on : AuthEnv → String → Bool
is_on env key = not (eqb_ℤ (env.get_int key (pos 0)) (pos 0))

-- `not x` of a text that may be `None`
abbrev pub is_blank : Option String → Bool
is_blank none = true
is_blank (some t) = str_eq t ""

-- Whether a value of the cache counts as true. An object and a fraction are taken to hold something.
abbrev pub truthy : Option Json → Bool
truthy none = false
truthy (some Json.null) = false
truthy (some (Json.boolean b)) = b
truthy (some (Json.number n)) = not (eqb_ℤ n (pos 0))
truthy (some (Json.text t)) = not (str_eq t "")
truthy (some (Json.list Json.end)) = false
truthy (some _) = true

abbrev pub code_key : String → String
code_key email = joined "email_verify_code:" email

abbrev pub last_send_key : String → String
last_send_key email = joined "email_verify_last_send:" email

abbrev pub rate_key : String → String
rate_key client_ip = joined "email_verify_rate:" client_ip

abbrev pub register_key : String → String
register_key client_ip = joined "register_limit:" client_ip

-- `InviteCodeRepository.get_by_code` and `get_active_by_code`
abbrev pub has_code : String → InviteCode → Bool
has_code code v = str_eq v.code code

abbrev pub is_active_code : String → InviteCode → Bool
is_active_code code v = str_eq v.code code && eqb_ℤ v.status (pos 0)

-- The suffixes that are allowed: `str(item).lower().lstrip("@")`.
unfoldable pub suffixes : (String → String) → List String → List String
suffixes lower [] = []
suffixes lower (x ∷ xs) = lstrip 64 (lower x) ∷ suffixes lower xs

-- EmailVerifyRequest, with the email as its validator leaves it.
pub record EmailVerifyRequest : Type 0 where
  pub email : String
  pub isforget : Option ℤ
  pub recaptcha_data : Option String

module _ (env : AuthEnv) where
  -- `TurnstileService.verify_if_enabled`
  unfoldable pub verify_if_enabled : Option String → Option String → Exec Registry (Unit {0})
  verify_if_enabled recaptcha_data client_ip =
      if not (is_on env "recaptcha_enable") then done else do
        let secret = env.get_str "recaptcha_key"
        raise_if (str_eq secret "") (bad_request turnstile_unconfigured)
        let token = env.strip (get_or recaptcha_data "")
        raise_if (str_eq token "" || ltb 2048 (env.length token)) (bad_request turnstile_required)
        success ←
            or_raise (env.siteverify secret token client_ip) (bad_request turnstile_unavailable)
        raise_if (not success) (bad_request turnstile_failed)

  -- `_check_email_policy`
  abbrev pub is_suffix_refused : String → Bool
  is_suffix_refused email =
      is_on env "email_whitelist_enable"
      && not (
          text_mem (env.lower (after_last 64 email))
            (suffixes env.lower env.email_whitelist_suffix))

  abbrev pub is_gmail_refused : String → Bool
  is_gmail_refused email =
      let (local, domain) = partition 64 email in
      is_on env "email_gmail_limit_enable"
      && (str_eq (env.lower domain) "gmail.com" && (contains 43 local || contains 46 local))

  unfoldable pub check_email_policy : String → Exec Registry (Unit {0})
  check_email_policy email = do
    raise_if (is_suffix_refused email) (bad_request email_suffix_refused)
    raise_if (is_gmail_refused email) (bad_request gmail_refused)

  -- `_check_register_limit`
  unfoldable pub check_register_limit : Option String → Exec Registry (Unit {0})
  check_register_limit none = done
  check_register_limit (some client_ip) =
      if str_eq client_ip "" || not (is_on env "register_limit_by_ip_enable") then done else do
        current ← cache_incr env (register_key client_ip) (some env.register_limit_expire)
        raise_if (ltb_ℤ (env.get_int "register_limit_count" (pos 3)) current)
            (bad_request register_too_often)

  -- `_check_email_verify_rate`
  unfoldable pub check_email_verify_rate : Option String → Exec Registry (Unit {0})
  check_email_verify_rate none = done
  check_email_verify_rate (some client_ip) = if str_eq client_ip "" then done else do
    current ← cache_incr env (rate_key client_ip) (some 60)
    raise_if (ltb_ℤ (pos 3) current) (bad_request verify_too_often)

  -- `str(code)` of what the cache returned
  abbrev pub str_of_cached : Option Json → String
  str_of_cached none = "None"
  str_of_cached (some j) = env.str_of j

  -- `_verify_email_code`
  abbrev pub compare_code : String → Option Json → Exec Registry (Unit {0})
  compare_code email_code code =
      raise_if (not (str_eq (str_of_cached code) email_code)) (bad_request verify_code_wrong)

  unfoldable pub verify_email_code : String → Option String → Exec Registry (Unit {0})
  verify_email_code email email_code =
      if is_blank email_code
      then raise (bad_request verify_code_empty)
      else cache_get env (code_key email) >>= compare_code (get_or email_code "None")

  -- `_resolve_invite_user_id`
  unfoldable pub use_invite : ℕ → InviteCode → Exec Registry (Option ℕ)
  use_invite i invite = do
    set_invite i (record invite {
      pv = invite.pv +ℤ pos 1;
      status = if is_on env "invite_never_expire" then invite.status else pos 1;
    })
    pure (some invite.user_id)

  unfoldable pub resolve_invite_user_id : Option String → Exec Registry (Option ℕ)
  resolve_invite_user_id invite_code =
      if is_blank invite_code
      then (do raise_if (is_on env "invite_force") (bad_request invite_code_required); pure none)
      else do
        found ←
            gets (λ s. find (is_active_code (env.strip_upper (get_or invite_code ""))) s.invites)
        (i, invite) ← or_raise found (bad_request invite_code_invalid)
        use_invite i invite

  -- `record_invite_pv`
  unfoldable pub record_invite_pv : Option String → Exec Registry Bool
  record_invite_pv invite_code = if is_blank invite_code then pure true else do
    found ← gets (λ s. find (has_code (env.strip_upper (get_or invite_code ""))) s.invites)
    elim found [
      | none ↦ pure true
      | some (i, invite) ↦ do set_invite i (record invite { pv = invite.pv +ℤ pos 1 }); pure true
    ]

  -- `f"{secrets.randbelow(900000) + 100000}"`
  abbrev pub new_code : String
  new_code = env.show (env.randbelow 900000 + 100000)

  abbrev pub is_forget : Option ℤ → ℤ → Bool
  is_forget none n = false
  is_forget (some m) n = eqb_ℤ m n

  -- `create_email_verify_code`, from the checks of the address and the email on.
  unfoldable pub store_code : String → Option Json → Exec Registry String
  store_code email sent = do
    raise_if (truthy sent) (bad_request verify_code_sent)
    cache_set env (code_key email) (Json.text new_code) 300
    cache_set env (last_send_key email) (Json.number (pos env.now)) 60
    pure new_code

  unfoldable pub send_code : String → Exec Registry String
  send_code email = cache_get env (last_send_key email) >>= store_code email

  unfoldable pub create_email_verify_code :
      EmailVerifyRequest → Option String → Exec Registry String
  create_email_verify_code data_in client_ip = do
    check_email_verify_rate client_ip
    check_email_policy data_in.email
    verify_if_enabled data_in.recaptcha_data client_ip
    exists ← gets (email_exists data_in.email)
    raise_if (is_forget data_in.isforget (pos 0) && exists) (conflict email_taken)
    raise_if (is_forget data_in.isforget (pos 1) && not exists) (not_found email_unknown)
    send_code data_in.email
