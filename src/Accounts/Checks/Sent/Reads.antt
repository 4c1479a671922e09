-- ===== src/Accounts/Checks/Sent/Reads.antt =====
-- What the services of the accounts read of the runtime cache.
use Prim.Native.Char.{code as number_of_char}
use Prim.Native.String as NativeString
use Prim.Native.String.append
use Prim.Native.String.{◌++◌ as joined}
use text.Mathlib.TextLemmas.{append_assoc, append_cancel_left}
use text.Mathlib.Text.{◌==◌ as str_eq}
use py_board.Prelude.{
  ℕ, ◌≡◌, refl, sym, ap, ◌∙◌, inl, inr, String, false, Option, none, some, arith, Bool-cases,
}
use py_board.Prelude.Table.{text_eq}
use py_board.Json.{Json}
use py_board.Cache.{
  Entry, Store, Driver, Got, nothing, value, undecodable, find_live, read_entry, get_value,
}
use py_board.Exec.{Result, ok, err, value_error}
use py_board.Accounts.{Registry, AuthEnv, cache_get}
use py_board.Accounts.Checks.{code_key, last_send_key}

first_number : String → ℕ
first_number NativeString.[] = 0
first_number (NativeString.◌∷◌ c s) = number_of_char c

-- The two keys of an email differ.
pub keys_apart : (email : String) → str_eq (last_send_key email) (code_key email) ≡ false
unfolding first_number
keys_apart email = elim (Bool-cases (str_eq (last_send_key email) (code_key email))) [
  | inr apart ↦ apart
  | inl same ↦
      let cut : joined "last_send:" email ≡ joined "code:" email =
        append_cancel_left "email_verify_" (joined "last_send:" email) (joined "code:" email) (
          sym (append_assoc "email_verify_" "last_send:" email)
          ∙ text_eq (last_send_key email) (code_key email) same
          ∙ append_assoc "email_verify_" "code:" email) in
      let heads =
        ap first_number
          (sym (append.cons "l" "ast_send:" email) ∙ cut ∙ append.cons "c" "ode:" email) in
      absurd (ground arith)
]

abbrev pub result_of : Got → Result (Option Json)
result_of nothing = ok none
result_of (value j) = ok (some j)
result_of undecodable = err value_error

pub cache_get-result :
    (env : AuthEnv) (key : String) (s : Registry)
    → (cache_get env key s).0 ≡ result_of (get_value env.driver env.now key s.cache).0
unfolding cache_get
cache_get-result env key s =
    by_cases (get_value env.driver env.now key s.cache).0
      (get_value env.driver env.now key s.cache).1
  where
    answer : Got → Store → Result (Option Json) × Registry
    answer g c = elim g [
      | nothing ↦ (ok none, record s { cache = c })
      | value j ↦ (ok (some j), record s { cache = c })
      | undecodable ↦ (err value_error, record s { cache = c })
    ]

    by_cases : (g : Got) (c : Store) → (answer g c).0 ≡ result_of g
    by_cases nothing c = refl
    by_cases (value j) c = refl
    by_cases undecodable c = refl

-- What a read of a live entry and of no live entry returns.
pub get_value-live :
    (d : Driver) (now : ℕ) (key : String) (c : Store) (e : Entry)
    → find_live now key c ≡ some e
    → (get_value d now key c).0 ≡ read_entry d (some e)
unfolding get_value
get_value-live d now key c e found = rw (found, get_value) refl

pub get_value-none :
    (d : Driver) (now : ℕ) (key : String) (c : Store)
    → find_live now key c ≡ none
    → (get_value d now key c).0 ≡ nothing
unfolding get_value
get_value-none d now key c gone = rw (gone, get_value) refl
