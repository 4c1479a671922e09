-- ===== src/Queue/Picked.antt =====
-- The rows that `claim_jobs` picks: the filter, the order and the limit of its query.
use py_board.Prelude.{
  ℕ, zero, suc, ◌≡◌, refl, sym, ◌∙◌, String, Bool, true, none, some, List, [], ◌∷◌, arith, ◌==◌,
  if◌then◌else◌,
}
use py_board.Prelude.Rows.{Rows, lookup, IsKeyed}
use py_board.Queue.{QueueJob, place, sort, keep, take, is_due, picked}

-- The rows `ps` are rows of `t` that satisfy `p`, each once.
pub record IsPartOf (p : QueueJob → Bool) (ps t : Rows QueueJob) : Type 0 where
  pub keyed : IsKeyed ps
  pub found : (k : ℕ) (j : QueueJob) → lookup k ps ≡ some j → (lookup k t ≡ some j) × (p j ≡ true)

module _ (p : QueueJob → Bool) where
  keep-none : (k : ℕ) (t : Rows QueueJob) → lookup k t ≡ none → lookup k (keep p t) ≡ none
  unfolding lookup keep
  keep-none k [] h = refl
  keep-none k ((i, j) ∷ t) h = ground (arith, keep-none k t)

  lookup-keep :
      (k : ℕ) (v : QueueJob) (t : Rows QueueJob)
      → IsKeyed t
      → lookup k (keep p t) ≡ some v
      → (lookup k t ≡ some v) × (p v ≡ true)
  unfolding lookup keep
  lookup-keep k v [] h e = ground arith
  lookup-keep k v ((i, j) ∷ t) h e = ground (arith, lookup-keep k v t h.1, keep-none k t)

  -- And back: a row that satisfies the condition is kept.
  pub lookup-keep_of :
      (k : ℕ) (v : QueueJob) (t : Rows QueueJob)
      → lookup k t ≡ some v
      → p v ≡ true
      → lookup k (keep p t) ≡ some v
  unfolding lookup keep
  lookup-keep_of k v [] e h = ground arith
  lookup-keep_of k v ((i, j) ∷ t) e h = ground (arith, lookup-keep_of k v t)

  pub keep-IsKeyed : (t : Rows QueueJob) → IsKeyed t → IsKeyed (keep p t)
  unfolding keep
  keep-IsKeyed [] h = tt
  keep-IsKeyed ((i, j) ∷ t) h = ground (arith, keep-IsKeyed t, keep-none i t)

pub lookup-place :
    (i k : ℕ) (j : QueueJob) (t : Rows QueueJob)
    → lookup i t ≡ none
    → lookup k (place i j t) ≡ (if i == k then some j else lookup k t)
unfolding lookup place
lookup-place i k j [] h = refl
lookup-place i k j ((a, b) ∷ t) h = ground (arith, lookup-place i k j t)

place-IsKeyed :
    (i : ℕ) (j : QueueJob) (t : Rows QueueJob)
    → lookup i t ≡ none
    → IsKeyed t
    → IsKeyed (place i j t)
unfolding lookup place
place-IsKeyed i j [] h k = (refl, tt)
place-IsKeyed i j ((a, b) ∷ t) h k = ground (arith, place-IsKeyed i j t, lookup-place i a j t)

-- Sorting keeps every row.
pub lookup-sort : (k : ℕ) (t : Rows QueueJob) → IsKeyed t → lookup k (sort t) ≡ lookup k t
unfolding lookup sort
lookup-sort k [] h = refl
lookup-sort k ((i, j) ∷ t) h =
    ground (arith, lookup-place i k j (sort t), lookup-sort i t, lookup-sort k t)

sort-IsKeyed : (t : Rows QueueJob) → IsKeyed t → IsKeyed (sort t)
unfolding sort
sort-IsKeyed [] h = tt
sort-IsKeyed ((i, j) ∷ t) h =
    place-IsKeyed i j (sort t) (lookup-sort i t h.1 ∙ h.0) (sort-IsKeyed t h.1)

take-none : (n k : ℕ) (t : Rows QueueJob) → lookup k t ≡ none → lookup k (take n t) ≡ none
unfolding lookup take
take-none zero k t h = refl
take-none (suc n) k [] h = refl
take-none (suc n) k ((i, j) ∷ t) h = ground (arith, take-none n k t)

lookup-take :
    (n k : ℕ) (v : QueueJob) (t : Rows QueueJob)
    → lookup k (take n t) ≡ some v
    → lookup k t ≡ some v
unfolding lookup take
lookup-take zero k v t h = ground arith
lookup-take (suc n) k v [] h = ground arith
lookup-take (suc n) k v ((i, j) ∷ t) h = ground (arith, lookup-take n k v t)

take-IsKeyed : (n : ℕ) (t : Rows QueueJob) → IsKeyed t → IsKeyed (take n t)
unfolding take
take-IsKeyed zero t h = tt
take-IsKeyed (suc n) [] h = tt
take-IsKeyed (suc n) ((i, j) ∷ t) h = (take-none n i t h.0, take-IsKeyed n t h.1)

-- What is picked is due, and stands in the table.
pub picked-IsPartOf :
    (now : ℕ) (queues : List String) (limit : ℕ) (t : Rows QueueJob)
    → IsKeyed t
    → IsPartOf (is_due now queues) (picked now queues limit t) t
picked-IsPartOf now queues limit t h =
    let kept = keep (is_due now queues) t in
    let kept_keyed = keep-IsKeyed (is_due now queues) t h in
    record {
      keyed = take-IsKeyed limit (sort kept) (sort-IsKeyed kept kept_keyed);
      found = λ k j e.
          lookup-keep (is_due now queues) k j t h
            (sym (lookup-sort k kept kept_keyed) ∙ lookup-take limit k j (sort kept) e);
    }
