-- ===== src/Accounts/Password.antt =====
-- app/utils/password.py
use text.Mathlib.Text.{starts_with}
use py_board.Prelude.{String, Bool, true, false, Option, none, some, if◌then◌else◌}
use py_board.Exec.{Result, ok, err, value_error}
use py_board.Accounts.{Hasher, matches, mismatch, invalid_hash}

module _ (h : Hasher) where
  abbrev pub hash_password : String → String
  hash_password secret = h.argon2_hash secret

  -- `_verify_argon2id`: InvalidHashError is not caught.
  unfoldable pub verify_argon2id : String → String → Result (Bool × Option String)
  verify_argon2id secret hash = elim (h.argon2_verify hash secret) [
    | matches ↦ ok (true, if h.check_needs_rehash hash then some (h.argon2_hash secret) else none)
    | mismatch ↦ ok (false, none)
    | invalid_hash ↦ err value_error
  ]

  -- `_verify_bcrypt`: ValueError and TypeError count as a wrong password.
  unfoldable pub verify_bcrypt : String → String → Result (Bool × Option String)
  verify_bcrypt secret hash = elim (h.bcrypt_checkpw secret hash) [
    | some true ↦ ok (true, some (h.argon2_hash secret))
    | some false ↦ ok (false, none)
    | none ↦ ok (false, none)
  ]

  unfoldable pub verify_and_upgrade : String → String → Result (Bool × Option String)
  verify_and_upgrade secret hash =
      if starts_with hash "$argon2"
      then verify_argon2id secret hash
      else if starts_with hash "$2"
      then verify_bcrypt secret hash
      else ok (false, none)
