-- ===== src/Prelude/Find.antt =====
-- The first row that fits a condition, after a write to another row.
use py_board.Prelude.{ℕ, ◌≡◌, Bool, true, false, none, some, [], ◌∷◌, arith}
use py_board.Prelude.Rows.{Rows, lookup, insert, erase, find}

module _ {ℓ} {A : Type ℓ} (p : A → Bool) where
  pub find-insert_apart :
      (i : ℕ) (v old : A) (t : Rows A)
      → lookup i t ≡ some old
      → p old ≡ false
      → p v ≡ false
      → find p (insert i v t) ≡ find p t
  unfolding lookup find insert
  find-insert_apart i v old [] e po pv = ground arith
  find-insert_apart i v old ((k, w) ∷ t) e po pv = ground (arith, find-insert_apart i v old t)

  pub find-insert_new :
      (i : ℕ) (v : A) (t : Rows A)
      → lookup i t ≡ none
      → p v ≡ false
      → find p (insert i v t) ≡ find p t
  unfolding lookup find insert
  find-insert_new i v [] e pv = ground arith
  find-insert_new i v ((k, w) ∷ t) e pv = ground (arith, find-insert_new i v t)

  pub find-insert_first :
      (i : ℕ) (v : A) (t : Rows A)
      → lookup i t ≡ none
      → find p t ≡ none
      → p v ≡ true
      → find p (insert i v t) ≡ some (i, v)
  unfolding lookup find insert
  find-insert_first i v [] e f pv = ground arith
  find-insert_first i v ((k, w) ∷ t) e f pv = ground (arith, find-insert_first i v t)

  pub find-erase :
      (i : ℕ) (old : A) (t : Rows A)
      → lookup i t ≡ some old
      → p old ≡ false
      → find p (erase i t) ≡ find p t
  unfolding lookup find erase
  find-erase i old [] e po = ground arith
  find-erase i old ((k, w) ∷ t) e po = ground (arith, find-erase i old t)
