-- ===== src/Queue/Scan/Keys.antt =====
-- The job keys of app/core/queue.py through the steps of the workers.
use Prim.Native.Char.{Char}
use Prim.Native.String as NativeString
use Prim.Native.String.append
use Prim.Native.String.{◌++◌ as joined}
use text.Mathlib.Text.{◌==◌ as str_eq}
use py_board.Prelude.{
  ℕ, ◌≡◌, ◌≢◌, refl, sym, ap, ◌∙◌, inl, inr, String, Bool, true, false, Option, none, some, List,
  [], ◌∷◌, arith, Option-cases, Bool-cases, eq_or_ne,
}
use py_board.Prelude.Table.{text_eq, text_eq_refl}
use py_board.Prelude.Rows.{Rows, lookup, find, IsKeyed, lookup-insert, lookup-find, find-holds}
use py_board.Queue.{
  QueueJob, Queue, QueueSettings, is_taken, has_key, key_or_none, claimed, claim_jobs, picked,
  run_job, record_failed_job,
}
use py_board.Queue.Picked.{picked-IsPartOf}
use py_board.Queue.Flight.{
  Workers, Next, enqueued, by_database, claims, ended, reported, died, lost, removed, Later, start,
  step, IsFlight,
}
use py_board.Queue.Flight.Claims.{claim_rows-in, claim_rows-out}
use py_board.Queue.Flight.Steps.{
  Enqueued, run_job-Writes, enqueue_job-Enqueued, enqueue_queue_job-Enqueued,
}
use py_board.Queue.Flight.Keeps.{Later-IsFlight}
use py_board.Queue.Flight.Tries.Ending.{run_job-Ended}
use py_board.Queue.Scan.{order_key}

is_filled : String → Bool
is_filled NativeString.[] = false
is_filled (NativeString.◌∷◌ c s) = true

filled_not_empty : (c : Char) (s : String) → NativeString.◌∷◌ c s ≡ "" → ⊥
unfolding is_filled
filled_not_empty c s e = ground (arith, ap is_filled e)

order_key_filled : (t : String) → str_eq (order_key t) "" ≡ false
order_key_filled t = elim (Bool-cases (str_eq (order_key t) "")) [
  | inl empty ↦ absurd (
      filled_not_empty "o" _
        (sym (append.cons "o" "rder_handle:" t) ∙ text_eq (order_key t) "" empty))
  | inr full ↦ full
]

pub order_key_used : (t : String) → key_or_none (some (order_key t)) ≡ some (order_key t)
order_key_used t = rw (order_key_filled t) refl

-- Some row has the key.
abbrev pub IsSpent : String → Queue → Type 0
IsSpent k q = (i : ℕ) × (j : QueueJob) × (lookup i q.jobs ≡ some j) × (j.job_key ≡ some k)

find-some :
    (k : String) (i : ℕ) (j : QueueJob) (t : Rows QueueJob)
    → lookup i t ≡ some j
    → has_key k j ≡ true
    → find (has_key k) t ≢ none
unfolding lookup find
find-some k i j [] e h = λ f. ground arith
find-some k i j ((a, b) ∷ t) e h = λ f. ground (arith, find-some k i j t)

pub IsSpent-is_taken : (k : String) (q : Queue) → IsSpent k q → is_taken (some k) q.jobs ≡ true
IsSpent-is_taken k q (i, j, here, key) = elim (Option-cases (find (has_key k) q.jobs)) [
  | inl out ↦ absurd (find-some k i j q.jobs here (rw key (text_eq_refl k)) out)
  | inr (r, e) ↦ rw e refl
]

pub is_taken-IsSpent :
    (k : String) (q : Queue) → IsKeyed q.jobs → is_taken (some k) q.jobs ≡ true → IsSpent k q
is_taken-IsSpent k q h e = elim (Option-cases (find (has_key k) q.jobs)) [
  | inl out ↦ absurd (ground (arith, e, out))
  | inr ((i, j), f) ↦
      (i, j, lookup-find (has_key k) q.jobs i j h f, key_of j (find-holds (has_key k) q.jobs i j f))
]
  where
    key_of : (j : QueueJob) → has_key k j ≡ true → j.job_key ≡ some k
    key_of j holds = elim (Option-cases j.job_key) [
      | inl keyless ↦ absurd (ground (arith, keyless, holds))
      | inr (l, some_key) ↦ some_key ∙ ap some (text_eq l k (rw some_key at holds))
    ]

module _ (k : String) (w : Workers) (h : IsFlight w) where
  Enqueued-IsSpent : {q : Queue} → Enqueued w.table q → IsSpent k w.table → IsSpent k q
  Enqueued-IsSpent (inl e) s = rw e s
  Enqueued-IsSpent (inr (v, e, _, _)) (i, j, here, key) =
      let free = h.fresh w.table.next_job (ground arith) in
      rw e (i, j, ground (arith, lookup-insert w.table.next_job i v w.table.jobs, free, here), key)

  claims-IsSpent :
      (now : ℕ) (queues : List String) (limit : ℕ)
      → IsSpent k w.table
      → IsSpent k (claim_jobs now queues limit w.table).1
  unfolding claim_jobs
  claims-IsSpent now queues limit (i, j, here, key) =
      let ps = picked now queues limit w.table.jobs in
      let part = picked-IsPartOf now queues limit w.table.jobs h.keyed in
      elim (Option-cases (lookup i ps)) [
        | inl out ↦ (i, j, claim_rows-out now i ps w.table.jobs out ∙ here, key)
        | inr (v, e) ↦
            let same : j ≡ v = ground (arith, (part.found i v e).0, here) in
            (
              i,
              claimed now v,
              claim_rows-in now i v ps w.table.jobs e,
              ap (λ (x : QueueJob). x.job_key) (sym same) ∙ key,
            )
      ]

  ended-IsSpent :
      (settings : QueueSettings) (now i : ℕ) (v : QueueJob) (outcome : Option String)
      → lookup i w.in_flight ≡ some v
      → IsSpent k w.table
      → IsSpent k (run_job settings now i v outcome w.table).1
  ended-IsSpent settings now i v outcome flying (a, j, here, key) =
      let (there, runs) = h.standing i v flying in
      let end = run_job-Ended settings now i v w.table there outcome in
      elim (eq_or_ne i a) [
        | inl same ↦
            let was : j ≡ v = ground (arith, there, here, same) in
            (i, end.row, end.here, end.job_key ∙ ap (λ (x : QueueJob). x.job_key) (sym was) ∙ key)
        | inr ne ↦
            (a, j, (run_job-Writes settings now i v w.table outcome).elsewhere a ne ∙ here, key)
      ]

  pub Next-IsSpent :
      {settings : QueueSettings} {w' : Workers}
      → Next settings w w'
      → IsSpent k w.table
      → IsSpent k w'.table
  unfolding record_failed_job
  Next-IsSpent {settings} (enqueued now job_name args kwargs name job_key defer) s =
      Enqueued-IsSpent
        (enqueue_job-Enqueued settings now job_name args kwargs name job_key defer w.table) s
  Next-IsSpent (by_database now job_name args kwargs name job_key at) s =
      Enqueued-IsSpent (enqueue_queue_job-Enqueued now job_name args kwargs name job_key at w.table)
        s
  Next-IsSpent (claims now queues limit) s = claims-IsSpent now queues limit s
  Next-IsSpent {settings} (ended now i v outcome flying) s =
      ended-IsSpent settings now i v outcome flying s
  Next-IsSpent (reported fs gs f e) s = s
  Next-IsSpent (died i) s = s
  Next-IsSpent (lost fs gs f e) s = s
  Next-IsSpent (removed fs gs f e) s = s

pub Later-IsSpent :
    {settings : QueueSettings} {w w' : Workers} (k : String)
    → IsFlight w
    → IsSpent k w.table
    → Later settings w w'
    → IsSpent k w'.table
Later-IsSpent k h s start = s
Later-IsSpent k h s (step {w'} before last) =
    Next-IsSpent k w' (Later-IsFlight before h) last (Later-IsSpent k h s before)
