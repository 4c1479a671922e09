-- ===== src/Settings.antt =====
-- app/services/setting.py: the settings, with a cache in front of the table that may be missing.
pub mod Table
pub mod Writes
pub mod Coherent
pub mod Transparent
pub mod RoundTrip
use Prim.Native.String.{◌++◌ as joined}
use text.Mathlib.Text.{◌==◌ as str_eq}
use py_board.Prelude.{
  ℕ, ◌+◌, String, Bool, true, false, Option, none, some, List, [], ◌∷◌, is_none, if◌then◌else◌,
}
use py_board.Prelude.Int.{ℤ, pos}
use py_board.Prelude.Rows.{Rows, lookup, insert, erase, find}
use py_board.Json
use py_board.Json.{Json}
use py_board.Exec.{Result, ok, err, Exn}
use py_board.Cache.{Store, Driver, Got, nothing, value, undecodable, get_value, set_value, delete}

-- app/models/setting/base.py
pub record Setting : Type 0 where
  pub key : String
  pub value : String
  pub type_name : String
  pub description : Option String

-- The table, whose keys are unique.
pub record SettingTable : Type 0 where
  pub rows : Rows Setting
  pub next_id : ℕ

-- `str(x)` of what the cache returns and of an int, `int(text)` (`none` is ValueError), `orjson.dumps` and
-- `orjson.loads` (`none` is JSONDecodeError), and `val.lower() in ("1", "true", "yes")`.
pub record Texts : Type 0 where
  pub str_of : Json → String
  pub show_int : ℤ → String
  pub read_int : String → Option ℤ
  pub dumps : Json → String
  pub loads : String → Option Json
  pub is_yes : String → Bool

abbrev pub has_key : String → Setting → Bool
has_key k r = str_eq r.key k

-- `SettingRepository.get_by_key`
abbrev pub get_by_key : String → SettingTable → Option (ℕ × Setting)
get_by_key k t = find (has_key k) t.rows

-- f"{_CACHE_PREFIX}{key}"
abbrev pub cache_key : String → String
cache_key k = joined "setting:" k

abbrev pub cache_ttl : ℕ
cache_ttl = 3600

-- What a write does to the cache after the table: nothing, `_cache_set`, or `_cache_delete`.
pub data Touch : Type 0 where
  untouched : Touch
  cache_set : String → String → Touch
  cache_delete : String → Touch

abbrev pub insert_row : Setting → SettingTable → SettingTable
insert_row r t = record { rows = insert t.next_id r t.rows; next_id = t.next_id + 1 }

-- `set`, with the text of the value.
unfoldable pub set_setting : String → String → String → SettingTable → SettingTable × Touch
set_setting k v kind t = (
  elim (get_by_key k t) [
    | none ↦ insert_row (record { key = k; value = v; type_name = kind; description = none }) t
    | some (i, r) ↦ record t { rows = insert i (record r { value = v; type_name = kind }) t.rows }
  ],
  cache_set k v,
)

-- `create_setting`: whether it was created; a key that is taken is a conflict.
unfoldable pub create_setting : Setting → SettingTable → Bool × (SettingTable × Touch)
create_setting r t =
    if is_none (get_by_key r.key t)
    then (true, (insert_row r t, cache_set r.key r.value))
    else (false, (t, untouched))

-- `SettingUpdate`, with the fields that were sent; a value or a type is not null.
pub record SettingUpdate : Type 0 where
  pub value : Option String
  pub type_name : Option String
  pub description : Option (Option String)

abbrev pub sent {ℓ} : {A : Type ℓ} → Option A → A → A
sent none a = a
sent (some b) a = b

abbrev pub updated : SettingUpdate → Setting → Setting
updated u r = record r {
  value = sent u.value r.value;
  type_name = sent u.type_name r.type_name;
  description = sent u.description r.description;
}

-- `update_setting`: whether the row is there.
unfoldable pub update_setting : ℕ → SettingUpdate → SettingTable → Bool × (SettingTable × Touch)
update_setting i u t = elim (lookup i t.rows) [
  | none ↦ (false, (t, untouched))
  | some r ↦ (
    true,
    (record t { rows = insert i (updated u r) t.rows }, cache_set r.key (updated u r).value),
  )
]

-- `delete_setting`
unfoldable pub delete_setting : ℕ → SettingTable → Bool × (SettingTable × Touch)
delete_setting i t = elim (lookup i t.rows) [
  | none ↦ (false, (t, untouched))
  | some r ↦ (true, (record t { rows = erase i t.rows }, cache_delete r.key))
]

-- `_cache_set`, `_cache_delete` on a cache that is there.
abbrev pub touch : ℕ → Touch → Store → Store
touch now untouched c = c
touch now (cache_set k v) c = set_value now (cache_key k) (Json.text v) (some cache_ttl) c
touch now (cache_delete k) c = (delete (cache_key k ∷ []) c).1

-- `_get_cached` without a cache.
abbrev pub get_stored : String → SettingTable → Option String
get_stored k t = elim (get_by_key k t) [ none ↦ none | some (i, r) ↦ some r.value ]

-- After a miss: a row that is there is cached.
abbrev pub refill : ℕ → String → Option (ℕ × Setting) → Store → Store
refill now k none c = c
refill now k (some (i, r)) c = touch now (cache_set k r.value) c

-- `_get_cached` after the read of the cache: the text, or the exception of the cache.
abbrev pub after_read :
    Texts → ℕ → String → SettingTable → Got × Store → Result (Option String) × Store
after_read texts now k t (nothing, c) = (ok (get_stored k t), refill now k (get_by_key k t) c)
after_read texts now k t (value j, c) = (ok (some (texts.str_of j)), c)
after_read texts now k t (undecodable, c) = (err Exn.value_error, c)

-- `_get_cached` with a cache.
unfoldable pub get_cached :
    Driver → Texts → ℕ → String → SettingTable → Store → Result (Option String) × Store
get_cached d texts now k t c = after_read texts now k t (get_value d now (cache_key k) c)

-- A value of `save_config`.
pub data Saved : Type 0 where
  flag : Bool → Saved
  whole : ℤ → Saved
  structure : Json → Saved
  words : String → Saved

-- `get_str`, `get_int`, `get_bool` and `get_json` of what was read.
module _ (texts : Texts) where
  abbrev pub as_str : String → Option String → String
  as_str default o = sent o default

  abbrev pub as_int : ℤ → Option String → Result ℤ
  as_int default none = ok default
  as_int default (some v) = elim (texts.read_int v) [ none ↦ err Exn.value_error | some n ↦ ok n ]

  abbrev pub as_bool : Bool → Option String → Bool
  as_bool default none = default
  as_bool default (some v) = texts.is_yes v

  abbrev pub as_json : Json → Option String → Result Json
  as_json default none = ok default
  as_json default (some v) = elim (texts.loads v) [ none ↦ err Exn.value_error | some j ↦ ok j ]

  unfoldable pub save_config : String → Saved → SettingTable → SettingTable × Touch
  save_config k (flag b) t = set_setting k (texts.show_int (pos (if b then 1 else 0))) "int" t
  save_config k (whole n) t = set_setting k (texts.show_int n) "int" t
  save_config k (structure j) t = set_setting k (texts.dumps j) "json" t
  save_config k (words v) t = set_setting k v "str" t
