-- ===== src/Settings/RoundTrip.antt =====
-- `save_config` of app/services/setting.py, and the getter of the value's kind.
use py_board.Prelude.{ℕ, ◌≤◌, ◌≡◌, refl, ap, ◌∙◌, String, Option, some, arith, if◌then◌else◌}
use py_board.Prelude.Int.{ℤ, pos}
use py_board.Json.{Json}
use py_board.Exec.{ok}
use py_board.Cache.{Store, Driver}
use py_board.Settings.{
  SettingTable, Texts, cache_set, Saved, flag, whole, structure, words, set_setting, touch,
  get_stored, get_cached, save_config, as_str, as_int, as_json,
}
use py_board.Settings.Table.{IsTable, Change, stored}
use py_board.Settings.Writes.{set_setting-Change}
use py_board.Settings.Coherent.{
  IsCoherent, IsCoherent-later, IsFaithful, touch-IsCoherent, get_cached-reads,
}

-- The text that a value is saved as, and what its getter makes of it.
abbrev pub text_of : Texts → Saved → String
text_of texts (flag b) = texts.show_int (pos (if b then 1 else 0))
text_of texts (whole n) = texts.show_int n
text_of texts (structure j) = texts.dumps j
text_of texts (words v) = v

-- The value is printed so that it can be read: `int(str(n))` is n, `orjson.loads(orjson.dumps(j))` is j.
abbrev pub IsPrinted : Texts → Saved → Type 0
IsPrinted texts (flag b) = texts.read_int (text_of texts (flag b)) ≡ some (pos (if b then 1 else 0))
IsPrinted texts (whole n) = texts.read_int (text_of texts (whole n)) ≡ some n
IsPrinted texts (structure j) = texts.loads (text_of texts (structure j)) ≡ some j
IsPrinted texts (words v) = Unit

-- The getter of the value's kind returns the value, whatever its default.
abbrev pub IsReadBack : Texts → Saved → Option String → Type 0
IsReadBack texts (flag b) o = (default : ℤ) → as_int texts default o ≡ ok (pos (if b then 1 else 0))
IsReadBack texts (whole n) o = (default : ℤ) → as_int texts default o ≡ ok n
IsReadBack texts (structure j) o = (default : Json) → as_json texts default o ≡ ok j
IsReadBack texts (words v) o = (default : String) → as_str texts default o ≡ v

saved_as :
    (texts : Texts) (k : String) (x : Saved) (t : SettingTable)
    → (kind : String) × (save_config texts k x t ≡ set_setting k (text_of texts x) kind t)
unfolding save_config
saved_as texts k (flag b) t = ("int", refl)
saved_as texts k (whole n) t = ("int", refl)
saved_as texts k (structure j) t = ("json", refl)
saved_as texts k (words v) t = ("str", refl)

reads_back :
    (texts : Texts) (x : Saved) → IsPrinted texts x → IsReadBack texts x (some (text_of texts x))
reads_back texts (flag b) p = λ default. ground (arith, p)
reads_back texts (whole n) p = λ default. ground (arith, p)
reads_back texts (structure j) p = λ default. ground (arith, p)
reads_back texts (words v) p = λ default. refl

stored-get_stored :
    (t t' : SettingTable) (k v : String) → Change t t' (cache_set k v) → get_stored k t' ≡ some v
stored-get_stored t t' k v (stored _ _ others i r mine says) = ground (arith, mine, says)

set_setting-stored :
    (k v kind : String) (t : SettingTable)
    → IsTable t
    → get_stored k (set_setting k v kind t).0 ≡ some v
unfolding set_setting
set_setting-stored k v kind t h =
    stored-get_stored t (set_setting k v kind t).0 k v (set_setting-Change t h k v kind)

set_setting-read :
    (d : Driver) (texts : Texts) (f : IsFaithful d texts) (now later : ℕ) (k v kind : String)
    (t : SettingTable) (c : Store)
    → IsTable t
    → IsCoherent now t c
    → now ≤ later
    → (get_cached d texts later k
        (set_setting k v kind t).0
        (touch now (set_setting k v kind t).1 c)).0
      ≡ ok (some v)
set_setting-read d texts f now later k v kind t c h co le =
    let change = set_setting-Change t h k v kind in
    let after = IsCoherent-later now later _ _ le (touch-IsCoherent now t _ c co change) in
    (get_cached-reads d texts f later k _ _ after).0 ∙ ap ok (set_setting-stored k v kind t h)

-- Where no two settings have one key or one id and the next id is free, every live entry of the cache for a
-- setting says what the table says, the driver and `str` give a cached text back as it was written,
-- and the value is printed so that it can be read (`int(str(n))`, `orjson.loads(orjson.dumps(j))`): what
-- `save_config` saves under a key, the getter of its kind reads back at any later time, whatever its
-- default: an integer, a Boolean as 0 or 1, a list or an object, or a text.
pub save_config-IsReadBack :
    (d : Driver) (texts : Texts) (now later : ℕ) (k : String) (x : Saved) (t : SettingTable)
    (c : Store)
    → IsFaithful d texts
    → IsTable t
    → IsCoherent now t c
    → now ≤ later
    → IsPrinted texts x
    → (o : Option String) × ((get_cached d texts later k
          (save_config texts k x t).0
          (touch now (save_config texts k x t).1 c)).0
        ≡ ok o)
      × IsReadBack texts x o
save_config-IsReadBack d texts now later k x t c f h co le printed =
    let (kind, same) = saved_as texts k x t in
    (
      some (text_of texts x),
      rw same (set_setting-read d texts f now later k (text_of texts x) kind t c h co le),
      reads_back texts x printed,
    )
