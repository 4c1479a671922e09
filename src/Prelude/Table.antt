-- ===== src/Prelude/Table.antt =====
-- A table whose primary key is a text: the runtime cache and the settings.
use text.Mathlib.Text.{◌==◌ as str_eq}
use text.Mathlib.TextEquality.{eq_iff}
use py_board.Prelude.{
  ℕ, suc, ◌≡◌, refl, sym, ap, ◌∙◌, inl, inr, String, Bool, true, Option, none, some, List, [], ◌∷◌,
  arith, Bool-cases, if◌then◌else◌,
}

abbrev pub Table {ℓ} : Type ℓ → Type ℓ
Table A = List (String × A)

pub text_eq : (a b : String) → str_eq a b ≡ true → a ≡ b
text_eq a b h = (eq_iff a b).0 h

pub text_eq_refl : (a : String) → str_eq a a ≡ true
text_eq_refl a = (eq_iff a a).1 refl

pub text_eq_sym : (a b : String) → str_eq a b ≡ str_eq b a
text_eq_sym a b = elim (Bool-cases (str_eq a b)) [
  | inl e ↦ rw (text_eq a b e) refl
  | inr e ↦ elim (Bool-cases (str_eq b a)) [ inl e' ↦ rw (text_eq b a e') refl | inr e' ↦ cc ]
]

module _ {ℓ} {A : Type ℓ} where
  -- SELECT … WHERE key = k
  unfoldable pub get : String → Table A → Option A
  get k [] = none
  get k ((j, v) ∷ t) = if str_eq j k then some v else get k t

  -- INSERT … ON CONFLICT (key) DO UPDATE
  unfoldable pub put : String → A → Table A → Table A
  put k v [] = (k, v) ∷ []
  put k v ((j, w) ∷ t) = if str_eq j k then (j, v) ∷ t else (j, w) ∷ put k v t

  -- DELETE … WHERE p
  unfoldable pub drop_where : (String → A → Bool) → Table A → Table A
  drop_where p [] = []
  drop_where p ((j, w) ∷ t) = let rest = drop_where p t in if p j w then rest else (j, w) ∷ rest

  -- The number of rows.
  unfoldable pub size : Table A → ℕ
  size [] = 0
  size (r ∷ t) = suc (size t)

  -- No key stands twice.
  abbrev pub IsKeyed : Table A → Type ℓ
  IsKeyed [] = Unit
  IsKeyed ((k, v) ∷ t) = (get k t ≡ none) × IsKeyed t

  pub get-put :
      (k j : String) (v : A) (t : Table A)
      → get j (put k v t) ≡ (if str_eq k j then some v else get j t)
  unfolding get put
  get-put k j v [] = refl
  get-put k j v ((i, w) ∷ t) = elim (Bool-cases (str_eq i k)) [
    | inl same ↦
        let q : str_eq i j ≡ str_eq k j = ap (λ x. str_eq x j) (text_eq i k same) in ground arith
    | inr other ↦ elim (Bool-cases (str_eq i j)) [
      | inl same ↦
          let q : str_eq i k ≡ str_eq k j =
            ap (λ x. str_eq x k) (text_eq i j same) ∙ text_eq_sym j k in
          ground arith
      | inr apart ↦ rw (other, apart) (get-put k j v t)
    ]
  ]

  pub put-IsKeyed : (k : String) (v : A) (t : Table A) → IsKeyed t → IsKeyed (put k v t)
  unfolding get put
  put-IsKeyed k v [] h = (refl, tt)
  put-IsKeyed k v ((i, w) ∷ t) h = elim (Bool-cases (str_eq i k)) [
    | inl same ↦ rw same h
    | inr other ↦
        let q = text_eq_sym k i in rw other (ground (arith, get-put k i v t), put-IsKeyed k v t h.1)
  ]

  drop_where-none :
      (p : String → A → Bool) (k : String) (t : Table A)
      → get k t ≡ none
      → get k (drop_where p t) ≡ none
  unfolding get drop_where
  drop_where-none p k [] h = refl
  drop_where-none p k ((i, w) ∷ t) h = ground (arith, drop_where-none p k t)

  pub drop_where-IsKeyed :
      (p : String → A → Bool) (t : Table A) → IsKeyed t → IsKeyed (drop_where p t)
  unfolding drop_where
  drop_where-IsKeyed p [] h = tt
  drop_where-IsKeyed p ((i, w) ∷ t) h = elim (Bool-cases (p i w)) [
    | inl goes ↦ rw goes (drop_where-IsKeyed p t h.1)
    | inr stays ↦ rw stays (drop_where-none p i t h.0, drop_where-IsKeyed p t h.1)
  ]

  -- A row that is found, if the condition spares it.
  abbrev pub spared : (String → A → Bool) → String → Option A → Option A
  spared p k none = none
  spared p k (some v) = if p k v then none else some v

  pub get-drop_where :
      (p : String → A → Bool) (k : String) (t : Table A)
      → IsKeyed t
      → get k (drop_where p t) ≡ spared p k (get k t)
  unfolding get drop_where
  get-drop_where p k [] h = refl
  get-drop_where p k ((i, w) ∷ t) h = elim (Bool-cases (str_eq i k)) [
    | inl same ↦
        let e = text_eq i k same in
        let gone : get k t ≡ none = ap (λ x. get x t) (sym e) ∙ h.0 in
        let q : p i w ≡ p k w = ap (λ x. p x w) e in ground (arith, drop_where-none p k t gone)
    | inr other ↦ ground (arith, get-drop_where p k t h.1)
  ]
