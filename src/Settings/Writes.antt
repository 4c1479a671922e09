-- ===== src/Settings/Writes.antt =====
-- The writes of app/services/setting.py: the keys that they change.
use mathlib.Core.Path.{subst}
use py_board.Prelude.{ℕ, ◌≡◌, refl, inl, inr, String, true, false, none, some, arith, Option-cases}
use py_board.Prelude.Table.{text_eq}
use py_board.Prelude.Rows.{lookup, insert, erase, lookup-find, find-holds}
use py_board.Settings.{
  Setting, SettingTable, SettingUpdate, untouched, cache_set, cache_delete, has_key, get_by_key,
  insert_row, updated, set_setting, create_setting, update_setting, delete_setting,
}
use py_board.Settings.Table.{
  IsTable, Change, nothing_changed, stored, gone, delete-others, delete-IsTable, write-others,
  write-mine, write-IsTable, add-others, add-mine, add-IsTable,
}

module _ (t : SettingTable) (h : IsTable t) where
  -- The writes by id, on a row that is missing and on one that is there.
  module _ (i : ℕ) where
    delete_setting-none : lookup i t.rows ≡ none → delete_setting i t ≡ (false, (t, untouched))
    unfolding delete_setting
    delete_setting-none e = ground arith

    delete_setting-some :
        (r : Setting)
        → lookup i t.rows ≡ some r
        → delete_setting i t ≡ (true, (record t { rows = erase i t.rows }, cache_delete r.key))
    unfolding delete_setting
    delete_setting-some r e = ground arith

    update_setting-none :
        (u : SettingUpdate)
        → lookup i t.rows ≡ none
        → update_setting i u t ≡ (false, (t, untouched))
    unfolding update_setting
    update_setting-none u e = ground arith

    update_setting-some :
        (u : SettingUpdate) (r : Setting)
        → lookup i t.rows ≡ some r
        → update_setting i u t ≡ (
          true,
          (record t { rows = insert i (updated u r) t.rows }, cache_set r.key (updated u r).value),
        )
    unfolding update_setting
    update_setting-some u r e = ground arith

  -- The four writes.
  pub delete_setting-Change : (i : ℕ) → Change t (delete_setting i t).1.0 (delete_setting i t).1.1
  delete_setting-Change i = elim (Option-cases (lookup i t.rows)) [
    | inl e ↦ rw (delete_setting-none i e) (nothing_changed refl)
    | inr (r, e) ↦ rw (delete_setting-some i r e) (gone r.key (delete-others t h i r e))
  ]

  pub delete_setting-IsTable : (i : ℕ) → IsTable (delete_setting i t).1.0
  delete_setting-IsTable i = elim (Option-cases (lookup i t.rows)) [
    | inl e ↦ rw (delete_setting-none i e) h
    | inr (r, e) ↦ rw (delete_setting-some i r e) (delete-IsTable t h i r e)
  ]

  pub update_setting-Change :
      (i : ℕ) (u : SettingUpdate) → Change t (update_setting i u t).1.0 (update_setting i u t).1.1
  update_setting-Change i u = elim (Option-cases (lookup i t.rows)) [
    | inl e ↦ rw (update_setting-none i u e) (nothing_changed refl)
    | inr (r, e) ↦ rw (update_setting-some i u r e) (
        stored r.key (updated u r).value (write-others t h i r (updated u r) e refl) i (updated u r)
          (write-mine t h i r (updated u r) e refl) refl)
  ]

  pub update_setting-IsTable : (i : ℕ) (u : SettingUpdate) → IsTable (update_setting i u t).1.0
  update_setting-IsTable i u = elim (Option-cases (lookup i t.rows)) [
    | inl e ↦ rw (update_setting-none i u e) h
    | inr (r, e) ↦ rw (update_setting-some i u r e) (write-IsTable t h i r (updated u r) e refl)
  ]

  pub create_setting-Change :
      (r : Setting) → Change t (create_setting r t).1.0 (create_setting r t).1.1
  unfolding create_setting
  create_setting-Change r = elim (Option-cases (get_by_key r.key t)) [
    | inl new ↦
        rw new (stored r.key r.value (add-others t h r new) t.next_id r (add-mine t h r new) refl)
    | inr (s, e) ↦ rw e (nothing_changed refl)
  ]

  pub create_setting-IsTable : (r : Setting) → IsTable (create_setting r t).1.0
  unfolding create_setting
  create_setting-IsTable r = elim (Option-cases (get_by_key r.key t)) [
    | inl new ↦ rw new (add-IsTable t h r new)
    | inr (s, e) ↦ rw e h
  ]

  -- `set`, on a key that is new and on one that is there.
  module _ (k v kind : String) where
    set_setting-new :
        get_by_key k t ≡ none
        → set_setting k v kind t ≡ (
          insert_row (record { key = k; value = v; type_name = kind; description = none }) t,
          cache_set k v,
        )
    unfolding set_setting
    set_setting-new e = ground arith

    set_setting-there :
        (i : ℕ) (r : Setting)
        → get_by_key k t ≡ some (i, r)
        → set_setting k v kind t ≡ (
          record t { rows = insert i (record r { value = v; type_name = kind }) t.rows },
          cache_set k v,
        )
    unfolding set_setting
    set_setting-there i r e = ground arith

    pub set_setting-Change : Change t (set_setting k v kind t).0 (set_setting k v kind t).1
    set_setting-Change = elim (Option-cases (get_by_key k t)) [
      | inl new ↦
          let r : Setting = record { key = k; value = v; type_name = kind; description = none } in
          rw (set_setting-new new)
            (stored k v (add-others t h r new) t.next_id r (add-mine t h r new) refl)
      | inr ((i, r), e) ↦
          let r' = record r { value = v; type_name = kind } in
          let here = lookup-find (has_key k) t.rows i r h.keyed e in
          let own_key = text_eq r.key k (find-holds (has_key k) t.rows i r e) in
          rw (set_setting-there i r e) (
            subst (λ x. Change t (record t { rows = insert i r' t.rows }) (cache_set x v)) own_key
              (stored r.key v (write-others t h i r r' here refl) i r'
                (write-mine t h i r r' here refl) refl))
    ]

    pub set_setting-IsTable : IsTable (set_setting k v kind t).0
    set_setting-IsTable = elim (Option-cases (get_by_key k t)) [
      | inl new ↦ rw (set_setting-new new) (
          add-IsTable t h (record { key = k; value = v; type_name = kind; description = none }) new)
      | inr ((i, r), e) ↦ rw (set_setting-there i r e) (
          write-IsTable t h i r (record r { value = v; type_name = kind })
            (lookup-find (has_key k) t.rows i r h.keyed e) refl)
    ]
