-- ===== src/Accounts/Checks/Sent.antt =====
-- The email codes of app/services/auth.py: which texts `_verify_email_code` lets pass.
pub mod Reads
use Prim.Native.Char.{code as number_of_char}
use Prim.Native.String as NativeString
use Prim.Native.String.append
use Prim.Native.String.{◌++◌ as joined}
use text.Mathlib.TextLemmas.{append_assoc, append_cancel_left}
use text.Mathlib.Text.{◌==◌ as str_eq}
use py_board.Prelude.{
  ℕ, ◌+◌, ◌-◌, ◌<◌, ◌≡◌, ◌≢◌, refl, sym, ap, ◌∙◌, inl, inr, String, Bool, true, false, not, Option,
  none, some, arith, Bool-cases, if◌then◌else◌,
}
use py_board.Prelude.Int.{pos}
use py_board.Prelude.Table.{get, put, get-put, text_eq, text_eq_refl}
use py_board.Json.{Json}
use py_board.Cache.{
  Entry, Store, Driver, Got, nothing, value, undecodable, live_at, find_live, read_entry, got,
  decode_jsonb, get_value, set_value,
}
use py_board.Exec.{
  Result, ok, err, bad_request, value_error, verify_code_wrong, verify_code_sent, bind-ok,
  bind_returns,
}
use py_board.Accounts.{Registry, AuthEnv, cache_get}
use py_board.Accounts.Checks.{
  truthy, is_blank, code_key, last_send_key, new_code, store_code, send_code, compare_code,
  str_of_cached, verify_email_code,
}
use py_board.Accounts.Checks.Sent.Reads.{
  keys_apart, result_of, cache_get-result, get_value-live, get_value-none,
}

-- What `_verify_email_code` answers to a text, by what the cache holds.
module _ (env : AuthEnv) (email given : String) (s : Registry)
    (full : is_blank (some given) ≡ false) where
  pub verify_email_code-compares :
      (o : Option Json)
      → (cache_get env (code_key email) s).0 ≡ ok o
      → (verify_email_code env email (some given) s).0 ≡ (
          if str_eq (str_of_cached env o) given then ok tt else err (bad_request verify_code_wrong))
  unfolding verify_email_code
  verify_email_code-compares o e = rw full (
      ap (λ (p : Result (Unit {0}) × Registry). p.0)
        (bind-ok (cache_get env (code_key email)) (compare_code env given) s e)
      ∙ flip (str_eq (str_of_cached env o) given))
    where
      flip :
          (x : Bool)
          → (if not x then err (bad_request verify_code_wrong) else ok tt)
            ≡ (if x then ok tt else err (bad_request verify_code_wrong))
      flip true = refl
      flip false = refl

-- Without a live value in the cache under the key of an email, the text "None" passes for its code, and no
-- other text that is not empty does: `str` of the missing value is compared.
pub verify_email_code-none :
    (env : AuthEnv) (email given : String) (s : Registry)
    → find_live env.now (code_key email) s.cache ≡ none
    → is_blank (some given) ≡ false
    → (verify_email_code env email (some given) s).0
      ≡ (if str_eq "None" given then ok tt else err (bad_request verify_code_wrong))
verify_email_code-none env email given s gone full =
    verify_email_code-compares env email given s full none (
      cache_get-result env (code_key email) s
      ∙ ap result_of (get_value-none env.driver env.now (code_key email) s.cache gone))

-- The driver gives back a text that was stored, and a number that is not 0 as a value that counts as true.
pub record IsFaithful (env : AuthEnv) : Type 0 where
  pub texts :
      (x : String)
      → (j : Json) × (got (decode_jsonb env.driver (env.driver.fetch (Json.text x))) ≡ value j)
        × (env.str_of j ≡ x)
  pub numbers :
      (n : ℕ)
      → (j : Json) × (got (decode_jsonb env.driver (env.driver.fetch (Json.number (pos (n + 1)))))
          ≡ value j)
        × (truthy (some j) ≡ true)

-- The service at another time.
abbrev pub at : AuthEnv → ℕ → AuthEnv
at env t = record env { now = t }

abbrev until : ℕ → Json → Entry
until t j = record { value = j; expires_at = some t }

module _ (env : AuthEnv) (email : String) (s : Registry) where
  -- The cache after a code was written.
  abbrev stored : Store
  stored =
      put (last_send_key email) (until (env.now + 60) (Json.number (pos env.now)))
        (put (code_key email) (until (env.now + 300) (Json.text (new_code env))) s.cache)

  store_code-again :
      (o : Option Json)
      → truthy o ≡ true
      → (store_code env email o s).0 ≡ err (bad_request verify_code_sent)
  unfolding store_code
  store_code-again o e = rw e refl

  store_code-first :
      (o : Option Json)
      → truthy o ≡ false
      → store_code env email o s ≡ (ok (new_code env), record s { cache = stored })
  unfolding store_code set_value
  store_code-first o e = rw e refl

  stored-code :
      get (code_key email) stored ≡ some (until (env.now + 300) (Json.text (new_code env)))
  stored-code =
      let code = until (env.now + 300) (Json.text (new_code env)) in
      let sent = until (env.now + 60) (Json.number (pos env.now)) in
      let own = get-put (code_key email) (code_key email) code s.cache in
      let other =
        get-put (last_send_key email) (code_key email) sent (put (code_key email) code s.cache) in
      ground (arith, own, other, keys_apart email, text_eq_refl (code_key email))

  stored-sent :
      get (last_send_key email) stored ≡ some (until (env.now + 60) (Json.number (pos env.now)))
  stored-sent =
      let code = until (env.now + 300) (Json.text (new_code env)) in
      let sent = until (env.now + 60) (Json.number (pos env.now)) in
      let own =
        get-put (last_send_key email) (last_send_key email) sent
          (put (code_key email) code s.cache) in
      ground (arith, own, text_eq_refl (last_send_key email))

send_code-stored :
    (env : AuthEnv) (email code : String) (s : Registry)
    → (send_code env email s).0 ≡ ok code
    → (c : Registry) × (code ≡ new_code env)
      × ((send_code env email s).1.cache ≡ stored env email c)
unfolding send_code
send_code-stored env email code s returned =
    let (sent, looked, rest) =
      bind_returns (cache_get env (last_send_key email)) (store_code env email) s returned in
    let s1 = (cache_get env (last_send_key email) s).1 in
    let ended : (store_code env email sent s1).0 ≡ ok code =
      sym (ap (λ (p : Result String × Registry). p.0) rest) ∙ returned in
    elim (Bool-cases (truthy sent)) [
      | inl again ↦ absurd (ground (arith, store_code-again env email s1 sent again, ended))
      | inr first ↦
          let written = store_code-first env email s1 sent first in
          (
            s1,
            ground (arith, written, ended),
            ap (λ (p : Result String × Registry). p.1.cache) (rest ∙ written),
          )
    ]

live_until :
    (key : String) (c : Store) (t now : ℕ) (j : Json)
    → get key c ≡ some (until t j)
    → now < t
    → find_live now key c ≡ some (until t j)
live_until key c t now j e lt = ap (live_at now) e ∙ ground arith

-- With a driver that gives back what was stored: after a code was sent for an email, at a time before
-- 300 seconds are over and in the state that the sending left, that code passes for the email, and no other
-- text that is not empty does; and before 60 seconds are over, no second code is sent for it.
pub send_code-verifies :
    (env : AuthEnv) (email code given : String) (s : Registry) (later soon : ℕ)
    → IsFaithful env
    → env.now ≢ 0
    → (send_code env email s).0 ≡ ok code
    → is_blank (some given) ≡ false
    → later < env.now + 300
    → soon < env.now + 60
    → ((verify_email_code (at env later) email (some given) (send_code env email s).1).0
        ≡ (if str_eq code given then ok tt else err (bad_request verify_code_wrong)))
      × ((send_code (at env soon) email (send_code env email s).1).0
          ≡ err (bad_request verify_code_sent))
unfolding send_code
send_code-verifies env email code given s later soon faithful started returned full lt lt' =
    let (c, is_new, written) = send_code-stored env email code s returned in
    let s' = (send_code env email s).1 in
    let (j, read, as_text) = faithful.texts (new_code env) in
    let (k, read', counts) = faithful.numbers (env.now - 1) in
    let code_live =
      live_until (code_key email) s'.cache (env.now + 300) later (Json.text (new_code env))
        (ap (get (code_key email)) written ∙ stored-code env email c) lt in
    let sent_live =
      live_until (last_send_key email) s'.cache (env.now + 60) soon (Json.number (pos env.now))
        (ap (get (last_send_key email)) written ∙ stored-sent env email c) lt' in
    let n : env.now ≡ env.now - 1 + 1 = ground arith in
    let got_code : (cache_get (at env later) (code_key email) s').0 ≡ ok (some j) =
      cache_get-result (at env later) (code_key email) s'
      ∙ ap result_of
          (get_value-live env.driver later (code_key email) s'.cache _ code_live ∙ read) in
    let got_sent : (cache_get (at env soon) (last_send_key email) s').0 ≡ ok (some k) =
      cache_get-result (at env soon) (last_send_key email) s'
      ∙ ap result_of (
          get_value-live env.driver soon (last_send_key email) s'.cache _ sent_live
          ∙ ap (λ m. got (decode_jsonb env.driver (env.driver.fetch (Json.number (pos m))))) n
          ∙ read') in
    (
      verify_email_code-compares (at env later) email given s' full (some j) got_code
          ∙ ap
              (λ x.
                if◌then◌else◌ {A = Result (Unit {0})} (str_eq x given) (ok tt)
                  (err (bad_request verify_code_wrong)))
              (as_text ∙ sym is_new),
      ap (λ (p : Result String × Registry). p.0)
            (bind-ok (cache_get (at env soon) (last_send_key email))
              (store_code (at env soon) email) s' got_sent)
          ∙ store_code-again (at env soon) email
              (cache_get (at env soon) (last_send_key email) s').1 (some k) counts,
    )
