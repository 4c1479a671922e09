-- ===== src/Settings/Table.antt =====
-- The table of app/services/setting.py: its keys, and a write to one row.
use mathlib.Core.Path.{subst}
use text.Mathlib.Text.{◌==◌ as str_eq}
use py_board.Prelude.{
  ℕ, ◌≤◌, ◌≡◌, ◌≢◌, sym, ap, ◌∙◌, inl, inr, String, false, none, some, arith, Bool-cases, eq_or_ne,
}
use py_board.Prelude.Table.{text_eq, text_eq_refl}
use py_board.Prelude.Rows.{
  lookup, insert, erase, IsKeyed, lookup-insert, lookup-insert_ne, insert-IsKeyed, lookup-erase,
  erase-IsKeyed, find-insert,
}
use py_board.Prelude.Find.{find-insert_apart, find-insert_new, find-insert_first, find-erase}
use py_board.Settings.{
  Setting, SettingTable, Touch, untouched, cache_set, cache_delete, has_key, get_by_key, insert_row,
}

-- The ids are unique and the next one is free, and no two rows have one key.
pub record IsTable (t : SettingTable) : Type 0 where
  pub keyed : IsKeyed t.rows
  pub fresh : (i : ℕ) → t.next_id ≤ i → lookup i t.rows ≡ none
  pub unique : (i : ℕ) (r : Setting) → lookup i t.rows ≡ some r → get_by_key r.key t ≡ some (i, r)

-- What a write leaves of the other keys, and of its own.
pub data Change (t t' : SettingTable) : Touch → Type 0 where
  nothing_changed : t' ≡ t → Change t t' untouched
  stored :
      (k v : String)
      → ((j : String) → str_eq k j ≡ false → get_by_key j t' ≡ get_by_key j t)
      → (i : ℕ) (r : Setting) → get_by_key k t' ≡ some (i, r)
      → r.value ≡ v
      → Change t t' (cache_set k v)
  gone :
      (k : String)
      → ((j : String) → str_eq k j ≡ false → get_by_key j t' ≡ get_by_key j t)
      → Change t t' (cache_delete k)

module _ (t : SettingTable) (h : IsTable t) where
  keys_apart :
      (i k : ℕ) (r s : Setting)
      → lookup i t.rows ≡ some r
      → lookup k t.rows ≡ some s
      → i ≢ k
      → str_eq r.key s.key ≡ false
  keys_apart i k r s here there ne = elim (Bool-cases (str_eq r.key s.key)) [
    | inl same ↦
        let both : some (i, r) ≡ some (k, s) =
          sym (h.unique i r here)
          ∙ ap (λ j. get_by_key j t) (text_eq r.key s.key same)
          ∙ h.unique k s there in
        absurd (ground (arith, both, ne))
    | inr apart ↦ apart
  ]

  -- A row of the table is written, with its key as it was.
  module _ (i : ℕ) (r r' : Setting) (here : lookup i t.rows ≡ some r)
      (same_key : r'.key ≡ r.key) where
    written : SettingTable
    written = record t { rows = insert i r' t.rows }

    pub write-others :
        (j : String)
        → str_eq r.key j ≡ false
        → get_by_key j (record t { rows = insert i r' t.rows }) ≡ get_by_key j t
    write-others j apart =
        find-insert_apart (has_key j) i r' r t.rows here apart
          (ap (λ x. str_eq x j) same_key ∙ apart)

    pub write-mine : get_by_key r.key (record t { rows = insert i r' t.rows }) ≡ some (i, r')
    write-mine =
        find-insert (has_key r.key) t.rows i r r' h.keyed (h.unique i r here)
          (ap (λ x. str_eq x r.key) same_key ∙ text_eq_refl r.key)

    pub write-IsTable : IsTable (record t { rows = insert i r' t.rows })
    write-IsTable = record {
      keyed = insert-IsKeyed i r' t.rows h.keyed;
      fresh = λ k le.
          let none_there = h.fresh k le in
          elim (eq_or_ne i k) [
            | inl same ↦ absurd (ground (arith, none_there, here, same))
            | inr ne ↦ lookup-insert_ne i k r' t.rows ne ∙ none_there
          ];
      unique = λ k s e. elim (eq_or_ne i k) [
        | inl same ↦
            let is_s : r' ≡ s = ground (arith, lookup-insert i k r' t.rows, e, same) in
            subst (λ x. get_by_key x.key (record t { rows = insert i r' t.rows }) ≡ some (k, x))
              is_s
              (subst (λ j. get_by_key j (record t { rows = insert i r' t.rows }) ≡ some (k, r'))
                (sym same_key)
                (subst
                  (λ m. get_by_key r.key (record t { rows = insert i r' t.rows }) ≡ some (m, r'))
                  same write-mine))
        | inr ne ↦
            let stands : lookup k t.rows ≡ some s = sym (lookup-insert_ne i k r' t.rows ne) ∙ e in
            write-others s.key (keys_apart i k r s here stands ne) ∙ h.unique k s stands
      ];
    }

  -- A row with a new key is added.
  module _ (r : Setting) (new : get_by_key r.key t ≡ none) where
    free : lookup t.next_id t.rows ≡ none
    free = h.fresh t.next_id (ground arith)

    pub add-others :
        (j : String) → str_eq r.key j ≡ false → get_by_key j (insert_row r t) ≡ get_by_key j t
    add-others j apart = find-insert_new (has_key j) t.next_id r t.rows free apart

    pub add-mine : get_by_key r.key (insert_row r t) ≡ some (t.next_id, r)
    add-mine = find-insert_first (has_key r.key) t.next_id r t.rows free new (text_eq_refl r.key)

    new_key :
        (j : String) (k : ℕ) (s : Setting) → get_by_key j t ≡ some (k, s) → str_eq r.key j ≡ false
    new_key j k s e = elim (Bool-cases (str_eq r.key j)) [
      | inl same ↦
          let none_there = sym new ∙ ap (λ x. get_by_key x t) (text_eq r.key j same) ∙ e in
          absurd (ground (arith, none_there))
      | inr apart ↦ apart
    ]

    pub add-IsTable : IsTable (insert_row r t)
    add-IsTable = record {
      keyed = insert-IsKeyed t.next_id r t.rows h.keyed;
      fresh = λ k le. ground (arith, lookup-insert t.next_id k r t.rows, h.fresh k (ground arith));
      unique = λ k s e. elim (eq_or_ne t.next_id k) [
        | inl same ↦
            let is_s : r ≡ s = ground (arith, lookup-insert t.next_id k r t.rows, e, same) in
            subst (λ x. get_by_key x.key (insert_row r t) ≡ some (k, x)) is_s
              (subst (λ m. get_by_key r.key (insert_row r t) ≡ some (m, r)) same add-mine)
        | inr ne ↦
            let stands : lookup k t.rows ≡ some s =
              sym (lookup-insert_ne t.next_id k r t.rows ne) ∙ e in
            add-others s.key (new_key s.key k s (h.unique k s stands)) ∙ h.unique k s stands
      ];
    }

  -- A row is deleted.
  module _ (i : ℕ) (r : Setting) (here : lookup i t.rows ≡ some r) where
    pub delete-others :
        (j : String)
        → str_eq r.key j ≡ false
        → get_by_key j (record t { rows = erase i t.rows }) ≡ get_by_key j t
    delete-others j apart = find-erase (has_key j) i r t.rows here apart

    pub delete-IsTable : IsTable (record t { rows = erase i t.rows })
    delete-IsTable = record {
      keyed = erase-IsKeyed i t.rows h.keyed;
      fresh = λ k le. ground (arith, lookup-erase i k t.rows h.keyed, h.fresh k le);
      unique = λ k s e. elim (eq_or_ne i k) [
        | inl same ↦ absurd (ground (arith, lookup-erase i k t.rows h.keyed, e, same))
        | inr ne ↦
            let stands : lookup k t.rows ≡ some s =
              ground (arith, lookup-erase i k t.rows h.keyed, e, ne) in
            delete-others s.key (keys_apart i k r s here stands ne) ∙ h.unique k s stands
      ];
    }
