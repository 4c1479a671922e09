-- ===== src/Codes.antt =====
-- The codes of coupons and gift cards (app/services/coupon.py and app/services/giftcard.py): the
-- random code that no row has, and tables in which no code stands twice.
use text.Mathlib.Text.{◌==◌ as str_eq}
use text.Mathlib.TextEquality.{eq_iff}
use py_board.Prelude.{
  ℕ, zero, suc, String, ◌≡◌, refl, Bool, true, false, Option, none, some, [], ◌∷◌, arith,
  Bool-cases, inl, inr, sym,
}
use py_board.Prelude.Rows.{Rows, lookup, insert, find}

-- The loop of `_generate_code`: at most `n` draws, the first code that is not taken.
unfoldable pub first_free : ℕ → (ℕ → String) → (String → Bool) → Option String
first_free zero draw taken = none
first_free (suc n) draw taken =
    let rest = first_free n (λ k. draw (suc k)) taken in
    elim (taken (draw 0)) [ true ↦ rest | false ↦ some (draw 0) ]

pub first_free-free :
    (n : ℕ) (draw : ℕ → String) (taken : String → Bool) (c : String)
    → first_free n draw taken ≡ some c
    → taken c ≡ false
unfolding first_free
first_free-free zero draw taken c e = ground arith
first_free-free (suc n) draw taken c e =
    ground (arith, first_free-free n (λ k. draw (suc k)) taken c)

str_eq_sym : (a b : String) → str_eq a b ≡ false → str_eq b a ≡ false
str_eq_sym a b h = elim (Bool-cases (str_eq b a)) [
  | inl e ↦ absurd (cc (h, (eq_iff a b).1 (sym ((eq_iff b a).0 e))))
  | inr e ↦ e
]

module _ {A : Type 0} (code : A → String) where
  -- `code_exists`
  abbrev pub code_exists : Rows A → String → Bool
  code_exists t c = elim (find (λ v. str_eq (code v) c) t) [ none ↦ false | some _ ↦ true ]

  -- No code stands twice.
  abbrev pub IsDistinct : Rows A → Type 0
  IsDistinct [] = Unit
  IsDistinct ((k, v) ∷ t) = (code_exists t (code v) ≡ false) × IsDistinct t

  still_free :
      (k : ℕ) (v : A) (t : Rows A) (c : String)
      → code_exists t c ≡ false
      → str_eq (code v) c ≡ false
      → code_exists (insert k v t) c ≡ false
  unfolding insert find
  still_free k v [] c h ne = ground arith
  still_free k v ((j, w) ∷ t) c h ne = ground (arith, still_free k v t c)

  -- A new row with a code that is not taken.
  pub insert-IsDistinct :
      (k : ℕ) (v : A) (t : Rows A)
      → lookup k t ≡ none
      → code_exists t (code v) ≡ false
      → IsDistinct t
      → IsDistinct (insert k v t)
  unfolding insert find lookup
  insert-IsDistinct k v [] new free d = (refl, tt)
  insert-IsDistinct k v ((j, w) ∷ t) new free d = elim (Bool-cases (str_eq (code w) (code v))) [
    | inl taken ↦ absurd (ground arith)
    | inr other ↦ ground (
      arith,
      insert-IsDistinct k v t,
      still_free k v t (code w) d.0 (str_eq_sym (code w) (code v) other),
    )
  ]
