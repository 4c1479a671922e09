-- ===== src/Queue/Flight/Settled.antt =====
-- The rows of app/queues/worker.py that are finished or failed.
use py_board.Prelude.{
  ℕ, ◌≡◌, ◌≢◌, refl, ◌∙◌, inl, inr, String, Bool, true, false, some, List, arith, Option-cases,
  eq_or_ne,
}
use py_board.Prelude.Rows.{lookup, lookup-insert}
use py_board.Queue.{
  QueueJob, Queue, QueueSettings, JobStatus, pending, running, finished, failed, is_pending,
  claim_jobs, picked, record_failed_job,
}
use py_board.Queue.Picked.{picked-IsPartOf}
use py_board.Queue.Flight.{
  Workers, Next, enqueued, by_database, claims, ended, reported, died, lost, removed, Later, start,
  step, IsFlight,
}
use py_board.Queue.Flight.Claims.{claim_rows-out}
use py_board.Queue.Flight.Steps.{
  Enqueued, run_job-Writes, enqueue_job-Enqueued, enqueue_queue_job-Enqueued,
}
use py_board.Queue.Flight.Keeps.{Later-IsFlight}

abbrev pub is_settled : JobStatus → Bool
is_settled finished = true
is_settled failed = true
is_settled _ = false

settled_not_pending : (s : JobStatus) → is_settled s ≡ true → is_pending s ≡ false
settled_not_pending pending e = ground arith
settled_not_pending running e = refl
settled_not_pending finished e = refl
settled_not_pending failed e = refl

module _ (w : Workers) (h : IsFlight w) (k : ℕ) (j : QueueJob)
    (here : lookup k w.table.jobs ≡ some j) (end : is_settled j.status ≡ true) where
  Enqueued-settled : {q : Queue} → Enqueued w.table q → lookup k q.jobs ≡ some j
  Enqueued-settled (inl e) = rw e here
  Enqueued-settled (inr (v, e, _, _)) =
      let free = h.fresh w.table.next_job (ground arith) in
      rw e (ground (arith, lookup-insert w.table.next_job k v w.table.jobs, here, free))

  claims-settled :
      (now : ℕ) (queues : List String) (limit : ℕ)
      → lookup k (claim_jobs now queues limit w.table).1.jobs ≡ some j
  unfolding claim_jobs
  claims-settled now queues limit =
      let ps = picked now queues limit w.table.jobs in
      let part = picked-IsPartOf now queues limit w.table.jobs h.keyed in
      elim (Option-cases (lookup k ps)) [
        | inl out ↦ claim_rows-out now k ps w.table.jobs out ∙ here
        | inr (v, e) ↦
            let (there, due) = part.found k v e in
            let over = settled_not_pending j.status end in
            absurd (ground (arith, there, due, over, here))
      ]

  settled_not_flying : (v : QueueJob) → lookup k w.in_flight ≢ some v
  settled_not_flying v e =
      let (there, runs) = h.standing k v e in
      let same : j.status ≡ v.status = ground (arith, there, here) in
      absurd (ground (arith, same, runs, end))

  Next-settled :
      {settings : QueueSettings} {w' : Workers}
      → Next settings w w'
      → lookup k w'.table.jobs ≡ some j
  unfolding record_failed_job
  Next-settled {settings} (enqueued now job_name args kwargs name job_key defer) =
      Enqueued-settled
        (enqueue_job-Enqueued settings now job_name args kwargs name job_key defer w.table)
  Next-settled (by_database now job_name args kwargs name job_key at) =
      Enqueued-settled (enqueue_queue_job-Enqueued now job_name args kwargs name job_key at w.table)
  Next-settled (claims now queues limit) = claims-settled now queues limit
  Next-settled {settings} (ended now i v outcome flying) = elim (eq_or_ne i k) [
    | inl same ↦ absurd (settled_not_flying v (rw same at flying))
    | inr ne ↦ (run_job-Writes settings now i v w.table outcome).elsewhere k ne ∙ here
  ]
  Next-settled (reported fs gs f e) = here
  Next-settled (died i) = here
  Next-settled (lost fs gs f e) = here
  Next-settled (removed fs gs f e) = here

-- Where the keys of the table are unique and the next one is free, and each job in flight is there
-- once and stands in the table as its claim left it: a job that is finished or failed is so for good,
-- with every column of its row, whatever the workers do, so that it is never run again.
pub Later-settled :
    {settings : QueueSettings} {w w' : Workers} (k : ℕ) (j : QueueJob)
    → IsFlight w
    → lookup k w.table.jobs ≡ some j
    → is_settled j.status ≡ true
    → Later settings w w'
    → lookup k w'.table.jobs ≡ some j
Later-settled k j h here end start = here
Later-settled {settings} k j h here end (step {w'} before last) =
    Next-settled w' (Later-IsFlight before h) k j (Later-settled k j h here end before) end last
