-- ===== src/Queue/Turn.antt =====
-- Whose turn it is: the order and the limit of `claim_jobs`.
use py_board.Prelude.{
  ℕ, zero, suc, ◌≡◌, refl, ◌∙◌, inl, inr, String, true, false, none, some, List, [], ◌∷◌, arith,
  Bool-cases,
}
use py_board.Prelude.Rows.{Rows, lookup, IsKeyed}
use py_board.Queue.{QueueJob, is_before, place, sort, keep, take, is_due, picked}
use py_board.Queue.Picked.{lookup-sort, lookup-keep_of, lookup-place, keep-IsKeyed}

IsSorted : Rows QueueJob → Type 0
IsSorted [] = Unit
IsSorted ((i, j) ∷ t) =
    ((k : ℕ) (l : QueueJob) → lookup k t ≡ some l → is_before i j k l ≡ true) × IsSorted t

is_before_trans :
    (i a k : ℕ) (j b l : QueueJob)
    → is_before i j a b ≡ true
    → is_before a b k l ≡ true
    → is_before i j k l ≡ true
is_before_trans i a k j b l p q = ground arith

is_before_total : (i a : ℕ) (j b : QueueJob) → is_before i j a b ≡ false → is_before a b i j ≡ true
is_before_total i a j b p = ground arith

place-IsSorted :
    (i : ℕ) (j : QueueJob) (t : Rows QueueJob)
    → lookup i t ≡ none
    → IsSorted t
    → IsSorted (place i j t)
unfolding lookup place IsSorted
place-IsSorted i j [] h s = ((λ k l e. ground arith), tt)
place-IsSorted i j ((a, b) ∷ t) h s = elim (Bool-cases (is_before i j a b)) [
  | inl first ↦ rw first ((λ k l e. ground (arith, s.0 k l, is_before_trans i a k j b l first)), s)
  | inr later ↦ rw later (
    (λ k l e. ground (arith, lookup-place i k j t, is_before_total i a j b later, s.0 k l)),
    place-IsSorted i j t (ground arith) s.1,
  )
]

sort-IsSorted : (t : Rows QueueJob) → IsKeyed t → IsSorted (sort t)
unfolding sort IsSorted
sort-IsSorted [] h = tt
sort-IsSorted ((i, j) ∷ t) h =
    place-IsSorted i j (sort t) (lookup-sort i t h.1 ∙ h.0) (sort-IsSorted t h.1)

-- The number of rows.
unfoldable pub size : Rows QueueJob → ℕ
size [] = 0
size (r ∷ t) = suc (size t)

take-before :
    (n i k : ℕ) (j v : QueueJob) (t : Rows QueueJob)
    → IsSorted t
    → lookup k t ≡ some v
    → lookup k (take n t) ≡ none
    → lookup i (take n t) ≡ some j
    → is_before i j k v ≡ true
unfolding lookup take IsSorted
take-before zero i k j v t s e out h = ground arith
take-before (suc n) i k j v [] s e out h = ground arith
take-before (suc n) i k j v ((a, b) ∷ t) s e out h =
    ground (arith, take-before n i k j v t s.1, s.0 k v)

size-take :
    (n k : ℕ) (v : QueueJob) (t : Rows QueueJob)
    → lookup k t ≡ some v
    → lookup k (take n t) ≡ none
    → size (take n t) ≡ n
unfolding lookup take size
size-take zero k v t e out = refl
size-take (suc n) k v [] e out = ground arith
size-take (suc n) k v ((a, b) ∷ t) e out = ground (arith, size-take n k v t)

-- A due job that is not picked waits behind jobs that were scheduled before it (of two scheduled for
-- the same second, the one with the smaller key is before), and the limit of the call is used up.
pub picked_in_turn :
    (now : ℕ) (queues : List String) (limit k : ℕ) (v : QueueJob) (t : Rows QueueJob)
    → IsKeyed t
    → lookup k t ≡ some v
    → is_due now queues v ≡ true
    → lookup k (picked now queues limit t) ≡ none
    → (size (picked now queues limit t) ≡ limit)
      × ((i : ℕ) (j : QueueJob)
          → lookup i (picked now queues limit t) ≡ some j
          → is_before i j k v ≡ true)
picked_in_turn now queues limit k v t h e due out =
    let kept = keep (is_due now queues) t in
    let kept_keyed = keep-IsKeyed (is_due now queues) t h in
    let there : lookup k (sort kept) ≡ some v =
      lookup-sort k kept kept_keyed ∙ lookup-keep_of (is_due now queues) k v t e due in
    (
      size-take limit k v (sort kept) there out,
      λ i j hi. take-before limit i k j v (sort kept) (sort-IsSorted kept kept_keyed) there out hi,
    )
