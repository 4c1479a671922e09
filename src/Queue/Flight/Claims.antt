-- ===== src/Queue/Flight/Claims.antt =====
-- `claim_jobs` of app/queues/worker.py: the rows that one claim writes and returns.
use py_board.Prelude.{ℕ, ◌≡◌, ◌≢◌, refl, Option, none, some, [], ◌∷◌, ◌++◌, arith}
use py_board.Prelude.Rows.{Rows, lookup, IsKeyed, lookup-insert, insert-IsKeyed}
use py_board.Queue.{QueueJob, claimed, claim_rows, returning}

-- `claimed` on what a key holds.
abbrev pub claimed_at : ℕ → Option QueueJob → Option QueueJob
claimed_at now none = none
claimed_at now (some j) = some (claimed now j)

module _ (now : ℕ) where
  pub lookup-returning :
      (k : ℕ) (ps : Rows QueueJob) → lookup k (returning now ps) ≡ claimed_at now (lookup k ps)
  unfolding lookup returning
  lookup-returning k [] = refl
  lookup-returning k ((i, j) ∷ ps) = ground (arith, lookup-returning k ps)

  pub returning-IsKeyed : (ps : Rows QueueJob) → IsKeyed ps → IsKeyed (returning now ps)
  unfolding returning
  returning-IsKeyed [] h = tt
  returning-IsKeyed ((i, j) ∷ ps) h =
      ground (arith, lookup-returning i ps, returning-IsKeyed ps h.1)

  pub claim_rows-in :
      (k : ℕ) (j : QueueJob) (ps t : Rows QueueJob)
      → lookup k ps ≡ some j
      → lookup k (claim_rows now ps t) ≡ some (claimed now j)
  unfolding lookup claim_rows
  claim_rows-in k j [] t e = ground arith
  claim_rows-in k j ((i, l) ∷ ps) t e =
      ground
        (arith, claim_rows-in k j ps t, lookup-insert i k (claimed now l) (claim_rows now ps t))

  pub claim_rows-out :
      (k : ℕ) (ps t : Rows QueueJob)
      → lookup k ps ≡ none
      → lookup k (claim_rows now ps t) ≡ lookup k t
  unfolding lookup claim_rows
  claim_rows-out k [] t e = refl
  claim_rows-out k ((i, l) ∷ ps) t e =
      ground (arith, claim_rows-out k ps t, lookup-insert i k (claimed now l) (claim_rows now ps t))

  pub claim_rows-IsKeyed : (ps t : Rows QueueJob) → IsKeyed t → IsKeyed (claim_rows now ps t)
  unfolding claim_rows
  claim_rows-IsKeyed [] t h = h
  claim_rows-IsKeyed ((i, l) ∷ ps) t h =
      insert-IsKeyed i (claimed now l) (claim_rows now ps t) (claim_rows-IsKeyed ps t h)

pub lookup-append :
    (k : ℕ) (a b : Rows QueueJob)
    → lookup k (a ++ b) ≡ elim (lookup k a) [ none ↦ lookup k b | some j ↦ some j ]
unfolding lookup
lookup-append k [] b = refl
lookup-append k ((i, j) ∷ a) b = ground (arith, lookup-append k a b)

pub append-IsKeyed :
    (a b : Rows QueueJob)
    → IsKeyed a
    → IsKeyed b
    → ((k : ℕ) → lookup k a ≢ none → lookup k b ≡ none)
    → IsKeyed (a ++ b)
unfolding lookup
append-IsKeyed [] b ha hb apart = hb
append-IsKeyed ((i, j) ∷ a) b ha hb apart = (
  rw (lookup-append i a b, ha.0) (apart i (λ e. ground arith)),
  append-IsKeyed a b ha.1 hb (λ k there. apart k (λ gone. there (ground arith))),
)
