-- ===== src/Cache.antt =====
-- app/core/cache.py, `RuntimeCache`: values with an expiry in an unlogged table. A statement runs on
-- the whole table at once; `now` is `int(time.time())` at the call.
pub mod View
pub mod Window
use text.Mathlib.Text.{◌==◌ as str_eq}
use py_board.Prelude.{
  ℕ, zero, suc, ◌+◌, ◌-◌, String, Bool, true, false, Option, none, some, List, [], ◌∷◌, leb,
  is_none, if◌then◌else◌,
}
use py_board.Prelude.Int.{ℤ, pos, ◌+ℤ◌}
use py_board.Prelude.Table.{Table, get, put, drop_where, size}
use py_board.Json
use py_board.Json.{Json}

pub record Entry : Type 0 where
  pub value : Json
  pub expires_at : Option ℕ

abbrev pub Store : Type 0
Store = Table Entry

-- What the database driver hands over for a jsonb column: a text, bytes, or a decoded value.
pub data Cell : Type 0 where
  text_cell : String → Cell
  bytes_cell : String → Cell
  decoded : Json → Cell

-- The driver, `orjson.loads` of bytes (`none` is JSONDecodeError), and the number in a text of the form
-- `^-?[0-9]+$`, which PostgreSQL's cast to bigint reads.
pub record Driver : Type 0 where
  pub fetch : Json → Cell
  pub loads : String → Option Json
  pub bigint : String → Option ℤ

-- `expires_at IS NOT NULL AND expires_at <= :now`
abbrev pub is_expired : ℕ → Entry → Bool
is_expired now e = elim e.expires_at [ none ↦ false | some t ↦ leb t now ]

-- `now + ex if ex else None`
abbrev pub expiry : ℕ → Option ℕ → Option ℕ
expiry now none = none
expiry now (some zero) = none
expiry now (some (suc n)) = some (now + suc n)

-- `WHERE key = :key AND (expires_at IS NULL OR expires_at > :now)`
abbrev pub live_at : ℕ → Option Entry → Option Entry
live_at now none = none
live_at now (some e) = if is_expired now e then none else some e

abbrev pub find_live : ℕ → String → Store → Option Entry
find_live now key s = live_at now (get key s)

-- `_delete_expired_key`
unfoldable pub delete_expired_key : String → ℕ → Store → Store
delete_expired_key key now s =
    drop_where (λ k e. if str_eq k key then is_expired now e else false) s

-- `_decode_jsonb`: `none` is the exception JSONDecodeError.
abbrev pub decode_jsonb : Driver → Cell → Option Json
decode_jsonb d (text_cell t) = some (Json.text t)
decode_jsonb d (bytes_cell b) = d.loads b
decode_jsonb d (decoded j) = some j

-- What a read returns: nothing, a value, or an exception.
pub data Got : Type 0 where
  nothing : Got
  value : Json → Got
  undecodable : Got

abbrev pub got : Option Json → Got
got none = undecodable
got (some Json.null) = nothing
got (some j) = value j

abbrev pub read_entry : Driver → Option Entry → Got
read_entry d none = nothing
read_entry d (some e) = got (decode_jsonb d (d.fetch e.value))

-- `get`: an expired row of the key is deleted on the way.
unfoldable pub get_value : Driver → ℕ → String → Store → Got × Store
get_value d now key s = elim (find_live now key s) [
  | none ↦ (nothing, delete_expired_key key now s)
  | some e ↦ (read_entry d (some e), s)
]

-- `mget`: the rows in the order of the keys; nothing is deleted.
unfoldable pub mget : Driver → ℕ → List String → Store → List Got
mget d now [] s = []
mget d now (key ∷ keys) s = read_entry d (find_live now key s) ∷ mget d now keys s

-- `set` without `nx`
unfoldable pub set_value : ℕ → String → Json → Option ℕ → Store → Store
set_value now key v ex s = put key (record { value = v; expires_at = expiry now ex }) s

-- `set` with `nx`: whether the row was inserted.
unfoldable pub set_nx : ℕ → String → Json → Option ℕ → Store → Bool × Store
set_nx now key v ex s =
    let s' = delete_expired_key key now s in
    elim (get key s') [
      | none ↦ (true, put key (record { value = v; expires_at = expiry now ex }) s')
      | some e ↦ (false, s')
    ]

-- `key IN (…)`
unfoldable pub mem_keys : String → List String → Bool
mem_keys k [] = false
mem_keys k (x ∷ xs) = if str_eq x k then true else mem_keys k xs

-- `delete`: the number of rows that went.
unfoldable pub delete : List String → Store → ℕ × Store
delete keys s = let s' = drop_where (λ k e. mem_keys k keys) s in (size s - size s', s')

-- `(value #>> '{}') ~ '^-?[0-9]+$'`, and the number, or 0.
abbrev pub number_of : Driver → Json → ℤ
number_of d (Json.number n) = n
number_of d (Json.text t) = elim (d.bigint t) [ none ↦ pos 0 | some n ↦ n ]
number_of d _ = pos 0

-- The row after `incr`: it starts again at 1 if it was expired; the expiry of a live row stays, unless
-- it had none.
abbrev pub incremented : Driver → ℕ → Option ℕ → Option Entry → ℤ × Option ℕ
incremented d now expires_at none = (pos 1, expires_at)
incremented d now expires_at (some e) =
    if is_expired now e
    then (pos 1, expires_at)
    else (number_of d e.value +ℤ pos 1, elim e.expires_at [ none ↦ expires_at | some t ↦ some t ])

-- `incr`
unfoldable pub incr : Driver → ℕ → String → Option ℕ → Store → ℤ × Store
incr d now key ex s =
    let (n, t) = incremented d now (expiry now ex) (get key s) in
    (n, put key (record { value = Json.number n; expires_at = t }) s)

-- `expire`: whether there is such a row, expired or not.
unfoldable pub expire : ℕ → String → ℕ → Store → Bool × Store
expire now key ex s = elim (get key s) [
  | none ↦ (false, s)
  | some e ↦ (true, put key (record e { expires_at = some (now + ex) }) s)
]

-- `cleanup_expired`
unfoldable pub cleanup_expired : ℕ → Store → ℕ × Store
cleanup_expired now s = let s' = drop_where (λ k e. is_expired now e) s in (size s - size s', s')
