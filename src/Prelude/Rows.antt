-- ===== src/Prelude/Rows.antt =====
-- The rows of a database table, keyed by the primary key: lookup, write, insertion and the queries
-- that the repositories make (the first row of a condition, the count of such rows).
use py_board.Prelude.{
  ℕ, ◌+◌, ◌≡◌, refl, ◌≢◌, Bool, true, Option, none, some, List, [], ◌∷◌, arith, ◌==◌, bit,
  if◌then◌else◌,
}

abbrev pub Rows {ℓ} : Type ℓ → Type ℓ
Rows A = List (ℕ × A)

module _ {ℓ} {A : Type ℓ} where
  -- SELECT … WHERE id = k
  unfoldable pub lookup : ℕ → Rows A → Option A
  lookup k [] = none
  lookup k ((j, v) ∷ t) = if j == k then some v else lookup k t

  -- UPDATE of the row with key `k`, or INSERT of a new row under that key.
  unfoldable pub insert : ℕ → A → Rows A → Rows A
  insert k v [] = (k, v) ∷ []
  insert k v ((j, w) ∷ t) = if j == k then (k, v) ∷ t else (j, w) ∷ insert k v t

  -- DELETE … WHERE id = k
  unfoldable pub erase : ℕ → Rows A → Rows A
  erase k [] = []
  erase k ((j, w) ∷ t) = if j == k then t else (j, w) ∷ erase k t

  -- The first row that fits a condition, with its key.
  unfoldable pub find : (A → Bool) → Rows A → Option (ℕ × A)
  find p [] = none
  find p ((j, v) ∷ t) = if p v then some (j, v) else find p t

  -- SELECT count(*) … WHERE p
  unfoldable pub count : (ℕ → A → Bool) → Rows A → ℕ
  count p [] = 0
  count p ((j, v) ∷ t) = bit (p j v) + count p t

  pub lookup-insert :
      (k j : ℕ) (v : A) (t : Rows A)
      → lookup j (insert k v t) ≡ (if k == j then some v else lookup j t)
  unfolding lookup insert
  lookup-insert k j v [] = refl
  lookup-insert k j v ((i, w) ∷ t) = ground (arith, lookup-insert k j v t)

  pub lookup-insert_self : (k : ℕ) (v : A) (t : Rows A) → lookup k (insert k v t) ≡ some v
  lookup-insert_self k v t = ground (arith, lookup-insert k k v t)

  pub lookup-insert_ne :
      (k j : ℕ) (v : A) (t : Rows A) → k ≢ j → lookup j (insert k v t) ≡ lookup j t
  lookup-insert_ne k j v t h = ground (arith, lookup-insert k j v t)

  pub insert-insert : (k : ℕ) (v w : A) (t : Rows A) → insert k w (insert k v t) ≡ insert k w t
  unfolding insert
  insert-insert k v w [] = ground arith
  insert-insert k v w ((i, x) ∷ t) = ground (arith, insert-insert k v w t)

  pub count-insert :
      (p : ℕ → A → Bool) (k : ℕ) (v old : A) (t : Rows A)
      → lookup k t ≡ some old
      → count p (insert k v t) + bit (p k old) ≡ count p t + bit (p k v)
  unfolding lookup insert count
  count-insert p k v old [] e = ground arith
  count-insert p k v old ((i, x) ∷ t) e = ground (arith, count-insert p k v old t)

  pub count-insert_new :
      (p : ℕ → A → Bool) (k : ℕ) (v : A) (t : Rows A)
      → lookup k t ≡ none
      → count p (insert k v t) ≡ count p t + bit (p k v)
  unfolding lookup insert count
  count-insert_new p k v [] e = ground arith
  count-insert_new p k v ((i, x) ∷ t) e = ground (arith, count-insert_new p k v t)

  -- No key stands twice: the primary key.
  abbrev pub IsKeyed : Rows A → Type ℓ
  IsKeyed [] = Unit
  IsKeyed ((k, v) ∷ t) = (lookup k t ≡ none) × IsKeyed t

  pub insert-IsKeyed : (k : ℕ) (v : A) (t : Rows A) → IsKeyed t → IsKeyed (insert k v t)
  unfolding lookup insert
  insert-IsKeyed k v [] h = (refl, tt)
  insert-IsKeyed k v ((i, x) ∷ t) h =
      ground (arith, insert-IsKeyed k v t h.1, lookup-insert k i v t)

  pub lookup-erase :
      (i k : ℕ) (t : Rows A)
      → IsKeyed t
      → lookup k (erase i t) ≡ (if i == k then none else lookup k t)
  unfolding lookup erase
  lookup-erase i k [] h = ground arith
  lookup-erase i k ((a, b) ∷ t) h = ground (arith, lookup-erase i k t h.1)

  pub erase-IsKeyed : (i : ℕ) (t : Rows A) → IsKeyed t → IsKeyed (erase i t)
  unfolding lookup erase
  erase-IsKeyed i [] h = tt
  erase-IsKeyed i ((a, b) ∷ t) h = ground (arith, lookup-erase i a t h.1, erase-IsKeyed i t h.1)

  -- What a query finds is the row of its key.
  pub lookup-find :
      (p : A → Bool) (t : Rows A) (k : ℕ) (v : A)
      → IsKeyed t
      → find p t ≡ some (k, v)
      → lookup k t ≡ some v
  unfolding lookup find
  lookup-find p [] k v h e = ground arith
  lookup-find p ((i, x) ∷ t) k v h e = ground (arith, lookup-find p t k v h.1)

  pub find-holds : (p : A → Bool) (t : Rows A) (k : ℕ) (v : A) → find p t ≡ some (k, v) → p v ≡ true
  unfolding find
  find-holds p [] k v e = ground arith
  find-holds p ((i, x) ∷ t) k v e = ground (arith, find-holds p t k v)

  -- A write to the row found, which leaves the condition true, is found in its place.
  pub find-insert :
      (p : A → Bool) (t : Rows A) (k : ℕ) (v w : A)
      → IsKeyed t
      → find p t ≡ some (k, v)
      → p w ≡ true
      → find p (insert k w t) ≡ some (k, w)
  unfolding lookup find insert
  find-insert p [] k v w h e pw = ground arith
  find-insert p ((i, x) ∷ t) k v w h e pw =
      ground (arith, find-insert p t k v w h.1, lookup-find p t k v h.1)

  -- A row that fits the condition is found, itself or an earlier one.
  pub find-insert_some :
      (p : A → Bool) (k : ℕ) (v : A) (t : Rows A) → p v ≡ true → find p (insert k v t) ≢ none
  unfolding find insert
  find-insert_some p k v [] h = λ e. ground arith
  find-insert_some p k v ((i, x) ∷ t) h = λ e. ground (arith, find-insert_some p k v t h)
