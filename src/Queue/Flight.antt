-- ===== src/Queue/Flight.antt =====
-- The workers of app/queues/worker.py that share the table: which jobs are being run.
pub mod Claims
pub mod Steps
pub mod Keeps
pub mod Tries
pub mod Settled
use py_board.Prelude.{ℕ, ◌≤◌, ◌≡◌, ◌≢◌, String, Bool, Option, none, some, List, [], ◌∷◌, ◌++◌}
use py_board.Prelude.Rows.{Rows, lookup, erase, IsKeyed}
use py_board.Json.{Json}
use py_board.Queue.{
  Queue, QueueJob, QueueSettings, FailedJob, Defer, running, enqueue_job, claim_jobs, run_job,
  record_failed_job,
}
use py_board.Queue.Cron.{enqueue_queue_job}

-- The tables; the jobs that some worker has claimed and still runs, each as its claim returned it; the
-- reports of failed jobs that a worker still has to write; and, which no table shows, the reports that
-- were lost with a worker or deleted since.
pub record Workers : Type 0 where
  pub table : Queue
  pub in_flight : Rows QueueJob
  pub unreported : List FailedJob
  pub gone : List FailedJob

abbrev pub with_report : Option FailedJob → List FailedJob → List FailedJob
with_report none fs = fs
with_report (some f) fs = f ∷ fs

-- What can happen next, in whichever process: a job is enqueued by a request, by a job that runs or by
-- `retry_job` (`enqueued`) or by the database's schedule (`by_database`); a worker claims jobs; a job that a
-- worker runs returns or raises, and its row is written; the report of a job that failed is written; a worker
-- dies with a job or with a report that it had to write; or a report is deleted, by `retry_job` or by
-- an administrator.
pub data Next (settings : QueueSettings) (w : Workers) : Workers → Type 0 where
  enqueued :
      (now : ℕ) (job_name : String) (args kwargs : Json) (name job_key : Option String)
      (defer : Defer)
      → Next settings w (record w {
        table = (enqueue_job settings now job_name args kwargs name job_key defer w.table).1;
      })
  by_database :
      (now : ℕ) (job_name : String) (args kwargs : Option Json) (name : String)
      (job_key : Option String) (at : Option ℕ)
      → Next settings w (record w {
        table = (enqueue_queue_job now job_name args kwargs name job_key at w.table).1;
      })
  claims :
      (now : ℕ) (queues : List String) (limit : ℕ)
      → Next settings w (record w {
        table = (claim_jobs now queues limit w.table).1;
        in_flight = (claim_jobs now queues limit w.table).0 ++ w.in_flight;
      })
  ended :
      (now i : ℕ) (j : QueueJob) (outcome : Option String)
      → lookup i w.in_flight ≡ some j
      → Next settings w (record w {
        table = (run_job settings now i j outcome w.table).1;
        in_flight = erase i w.in_flight;
        unreported = with_report (run_job settings now i j outcome w.table).0 w.unreported;
      })
  reported :
      (fs gs : List FailedJob) (f : FailedJob)
      → w.unreported ≡ fs ++ f ∷ gs
      → Next settings w (record w { table = record_failed_job f w.table; unreported = fs ++ gs })
  died : (i : ℕ) → Next settings w (record w { in_flight = erase i w.in_flight })
  lost :
      (fs gs : List FailedJob) (f : FailedJob)
      → w.unreported ≡ fs ++ f ∷ gs
      → Next settings w (record w { unreported = fs ++ gs; gone = f ∷ w.gone })
  removed :
      (fs gs : List FailedJob) (f : FailedJob)
      → w.table.failed_jobs ≡ fs ++ f ∷ gs
      → Next settings w
          (record w { table = record w.table { failed_jobs = fs ++ gs }; gone = f ∷ w.gone })

pub data Later (settings : QueueSettings) (w : Workers) : Workers → Type 0 where
  start : Later settings w w
  step : {w' w'' : Workers} → Later settings w w' → Next settings w' w'' → Later settings w w''

-- The keys of the table are unique and the next one is free, and no job is in flight twice: each job in
-- flight stands in the table as its claim left it, running.
pub record IsFlight (w : Workers) : Type 0 where
  pub keyed : IsKeyed w.table.jobs
  pub fresh : (k : ℕ) → w.table.next_job ≤ k → lookup k w.table.jobs ≡ none
  pub once : IsKeyed w.in_flight
  pub standing :
      (k : ℕ) (j : QueueJob)
      → lookup k w.in_flight ≡ some j
      → (lookup k w.table.jobs ≡ some j) × (j.status ≡ running)
