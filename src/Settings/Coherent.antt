-- ===== src/Settings/Coherent.antt =====
-- What the cache says of the settings (app/services/setting.py), and what the table says.
use mathlib.Core.Path.{subst}
use text.Mathlib.TextLemmas.{append_cancel_left}
use text.Mathlib.Text.{◌==◌ as str_eq}
use py_board.Prelude.{
  ℕ, ◌≤◌, ◌≡◌, refl, sym, ap, ◌∙◌, inl, inr, String, Bool, true, false, Option, none, some, [], ◌∷◌,
  arith, Option-cases, Bool-cases, if◌then◌else◌,
}
use py_board.Prelude.Table.{
  get, put, drop_where, IsKeyed, get-put, put-IsKeyed, get-drop_where, drop_where-IsKeyed, spared,
  text_eq, text_eq_refl,
}
use py_board.Json.{Json}
use py_board.Exec.{ok}
use py_board.Cache.{
  Entry, Store, Driver, nothing, value, live_at, find_live, is_expired, expiry, delete_expired_key,
  read_entry, get_value, set_value, delete, mem_keys,
}
use py_board.Settings.{
  Setting, SettingTable, Texts, Touch, cache_set, cache_delete, get_by_key, cache_key, cache_ttl,
  touch, get_stored, refill, after_read, get_cached,
}
use py_board.Settings.Table.{Change, nothing_changed, stored, gone}

-- Two settings have two keys in the cache.
cache_key_apart : (k j : String) → str_eq k j ≡ false → str_eq (cache_key k) (cache_key j) ≡ false
cache_key_apart k j apart = elim (Bool-cases (str_eq (cache_key k) (cache_key j))) [
  | inl same ↦
      let e = append_cancel_left "setting:" k j (text_eq (cache_key k) (cache_key j) same) in
      absurd (ground (arith, apart, ap (λ x. str_eq k x) e, text_eq_refl k))
  | inr other ↦ other
]

-- The keys of the cache are unique, and what is live under the key of a setting is its value in the
-- table.
pub record IsCoherent (now : ℕ) (t : SettingTable) (c : Store) : Type 0 where
  pub keyed : IsKeyed c
  pub told :
      (k : String) (e : Entry)
      → find_live now (cache_key k) c ≡ some e
      → (i : ℕ) × (r : Setting) × (get_by_key k t ≡ some (i, r)) × (e.value ≡ Json.text r.value)

live_before :
    (now later : ℕ) (o : Option Entry) (e : Entry)
    → now ≤ later
    → live_at later o ≡ some e
    → live_at now o ≡ some e
live_before now later none e le h = h
live_before now later (some x) e le h = elim (Option-cases x.expires_at) [
  | inl forever ↦ ground (arith, forever, h)
  | inr (t, limited) ↦ ground (arith, limited, h)
]

-- What is live is the entry.
live_value :
    (now : ℕ) (o : Option Entry) (x e : Entry)
    → o ≡ some x
    → live_at now o ≡ some e
    → e.value ≡ x.value
live_value now o x e here live = elim (Bool-cases (is_expired now x)) [
  | inl expired ↦ absurd (ground (arith, rw here at live, expired))
  | inr young ↦ ground (arith, rw here at live, young)
]

cache_key_same : (k j : String) → str_eq k j ≡ true → str_eq (cache_key k) (cache_key j) ≡ true
cache_key_same k j same =
    subst (λ x. str_eq (cache_key k) (cache_key x) ≡ true) (text_eq k j same)
      (text_eq_refl (cache_key k))

-- As time passes.
pub IsCoherent-later :
    (now later : ℕ) (t : SettingTable) (c : Store)
    → now ≤ later
    → IsCoherent now t c
    → IsCoherent later t c
IsCoherent-later now later t c le h = record {
  keyed = h.keyed;
  told = λ k e live. h.told k e (live_before now later (get (cache_key k) c) e le live);
}

module _ (now : ℕ) (t t' : SettingTable) (c : Store) (h : IsCoherent now t c) where
  same_told :
      (k : String) (e : Entry)
      → get_by_key k t' ≡ get_by_key k t
      → find_live now (cache_key k) c ≡ some e
      → (i : ℕ) × (r : Setting) × (get_by_key k t' ≡ some (i, r)) × (e.value ≡ Json.text r.value)
  same_told k e same live = let (i, r, there, says) = h.told k e live in (i, r, same ∙ there, says)

  -- After a write of the key `k`: another key, and the key itself.
  module _ (k v : String) where
    told_apart :
        (j : String) (e : Entry)
        → str_eq k j ≡ false
        → find_live now (cache_key j) (touch now (cache_set k v) c) ≡ some e
        → find_live now (cache_key j) c ≡ some e
    unfolding set_value
    told_apart j e apart live =
        let x : Entry = record { value = Json.text v; expires_at = expiry now (some cache_ttl) } in
        let there : get (cache_key j) (put (cache_key k) x c) ≡ get (cache_key j) c =
          ground (arith, get-put (cache_key k) (cache_key j) x c, cache_key_apart k j apart) in
        ap (live_at now) (sym there) ∙ live

    told_same :
        (j : String) (e : Entry)
        → str_eq k j ≡ true
        → find_live now (cache_key j) (touch now (cache_set k v) c) ≡ some e
        → e.value ≡ Json.text v
    unfolding set_value
    told_same j e same live =
        let x : Entry = record { value = Json.text v; expires_at = expiry now (some cache_ttl) } in
        let there : get (cache_key j) (put (cache_key k) x c) ≡ some x =
          ground (arith, get-put (cache_key k) (cache_key j) x c, cache_key_same k j same) in
        live_value now (get (cache_key j) (put (cache_key k) x c)) x e there live

  -- After a deletion of the key `k`.
  module _ (k : String) where
    dropped :
        (j : String)
        → get (cache_key j) (drop_where (λ x e. mem_keys x (cache_key k ∷ [])) c)
          ≡ spared (λ x e. mem_keys x (cache_key k ∷ [])) (cache_key j) (get (cache_key j) c)
    dropped j = get-drop_where (λ x e. mem_keys x (cache_key k ∷ [])) (cache_key j) c h.keyed

    spared_apart :
        (j : String) (o : Option Entry)
        → str_eq k j ≡ false
        → spared (λ x e. mem_keys x (cache_key k ∷ [])) (cache_key j) o ≡ o
    unfolding mem_keys
    spared_apart j none apart = refl
    spared_apart j (some e) apart = ground (arith, cache_key_apart k j apart)

    spared_same :
        (j : String) (o : Option Entry)
        → str_eq k j ≡ true
        → spared (λ x e. mem_keys x (cache_key k ∷ [])) (cache_key j) o ≡ none
    unfolding mem_keys
    spared_same j none same = refl
    spared_same j (some e) same = ground (arith, cache_key_same k j same)

  stored-IsCoherent :
      (k v : String) (i : ℕ) (r : Setting)
      → ((j : String) → str_eq k j ≡ false → get_by_key j t' ≡ get_by_key j t)
      → get_by_key k t' ≡ some (i, r)
      → r.value ≡ v
      → IsCoherent now t' (touch now (cache_set k v) c)
  unfolding set_value
  stored-IsCoherent k v i r others mine says = record {
    keyed =
        put-IsKeyed (cache_key k)
          (record { value = Json.text v; expires_at = expiry now (some cache_ttl) }) c h.keyed;
    told = λ j e live. elim (Bool-cases (str_eq k j)) [
      | inl same ↦ (
        i,
        r,
        ap (λ x. get_by_key x t') (sym (text_eq k j same)) ∙ mine,
        told_same k v j e same live ∙ ap Json.text (sym says),
      )
      | inr apart ↦ same_told j e (others j apart) (told_apart k v j e apart live)
    ];
  }

  gone-IsCoherent :
      (k : String)
      → ((j : String) → str_eq k j ≡ false → get_by_key j t' ≡ get_by_key j t)
      → IsCoherent now t' (touch now (cache_delete k) c)
  unfolding delete
  gone-IsCoherent k others = record {
    keyed = drop_where-IsKeyed (λ x e. mem_keys x (cache_key k ∷ [])) c h.keyed;
    told = λ j e live. elim (Bool-cases (str_eq k j)) [
      | inl same ↦ absurd (
          ground (
            arith,
            ap (live_at now) (dropped k j ∙ spared_same k j (get (cache_key j) c) same),
            live,
          ))
      | inr apart ↦ same_told j e (others j apart) (
          ap (live_at now) (sym (dropped k j ∙ spared_apart k j (get (cache_key j) c) apart))
          ∙ live)
    ];
  }

  pub touch-IsCoherent : {x : Touch} → Change t t' x → IsCoherent now t' (touch now x c)
  touch-IsCoherent (nothing_changed same) = rw same h
  touch-IsCoherent (stored k v others i r mine says) = stored-IsCoherent k v i r others mine says
  touch-IsCoherent (gone k others) = gone-IsCoherent k others

live_spared :
    (now : ℕ) (p : String → Entry → Bool) (k : String) (o : Option Entry) (e : Entry)
    → live_at now (spared p k o) ≡ some e
    → live_at now o ≡ some e
live_spared now p k none e h = h
live_spared now p k (some x) e h = elim (Bool-cases (p k x)) [
  | inl drops ↦ absurd (ground (arith, drops, h))
  | inr keeps ↦ ground (arith, keeps, h)
]

-- The cache hands a text back as it was written.
pub record IsFaithful (d : Driver) (texts : Texts) : Type 0 where
  pub read :
      (v : String)
      → read_entry d (some (record { value = Json.text v; expires_at = none }))
        ≡ value (Json.text v)
  pub shown : (v : String) → texts.str_of (Json.text v) ≡ v

module _ (d : Driver) (texts : Texts) (f : IsFaithful d texts) (now : ℕ) (k : String)
    (t : SettingTable) (c : Store) (h : IsCoherent now t c) where
  expired-IsCoherent : IsCoherent now t (delete_expired_key (cache_key k) now c)
  unfolding delete_expired_key
  expired-IsCoherent =
      let p =
        λ (j : String) (e : Entry). if str_eq j (cache_key k) then is_expired now e else false in
      record {
        keyed = drop_where-IsKeyed p c h.keyed;
        told = λ j e live. h.told j e (
            live_spared now p (cache_key j) (get (cache_key j) c) e
              (ap (live_at now) (sym (get-drop_where p (cache_key j) c h.keyed)) ∙ live));
      }

  missed :
      find_live now (cache_key k) c ≡ none
      → get_value d now (cache_key k) c ≡ (nothing, delete_expired_key (cache_key k) now c)
  unfolding get_value
  missed e = ground arith

  hit :
      (e : Entry) (v : String)
      → find_live now (cache_key k) c ≡ some e
      → e.value ≡ Json.text v
      → get_value d now (cache_key k) c ≡ (value (Json.text v), c)
  unfolding get_value
  hit e v live says = ground (arith, live, says, f.read v)

  get_cached-missed :
      find_live now (cache_key k) c ≡ none
      → get_cached d texts now k t c ≡ (
        ok (get_stored k t),
        refill now k (get_by_key k t) (delete_expired_key (cache_key k) now c),
      )
  unfolding get_cached
  get_cached-missed e = ap (after_read texts now k t) (missed e)

  get_cached-hit :
      (e : Entry) (v : String)
      → find_live now (cache_key k) c ≡ some e
      → e.value ≡ Json.text v
      → get_cached d texts now k t c ≡ (ok (some v), c)
  unfolding get_cached
  get_cached-hit e v live says =
      ap (after_read texts now k t) (hit e v live says) ∙ ap (λ x. (ok (some x), c)) (f.shown v)

  refill-IsCoherent :
      (o : Option (ℕ × Setting)) (c' : Store)
      → get_by_key k t ≡ o
      → IsCoherent now t c'
      → IsCoherent now t (refill now k o c')
  refill-IsCoherent none c' e h' = h'
  refill-IsCoherent (some (i, r)) c' e h' =
      stored-IsCoherent now t t c' h' k r.value i r (λ j apart. refl) e refl

  -- A read through the cache returns what the table says, and leaves the cache coherent.
  pub get_cached-reads :
      ((get_cached d texts now k t c).0 ≡ ok (get_stored k t))
      × IsCoherent now t (get_cached d texts now k t c).1
  get_cached-reads = elim (Option-cases (find_live now (cache_key k) c)) [
    | inl dead ↦
        rw (get_cached-missed dead)
          (refl, refill-IsCoherent (get_by_key k t) _ refl expired-IsCoherent)
    | inr (e, live) ↦
        let (i, r, there, says) = h.told k e live in
        rw (get_cached-hit e r.value live says) (ground (arith, there), h)
  ]
