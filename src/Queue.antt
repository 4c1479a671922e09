-- ===== src/Queue.antt =====
-- The job queue: app/core/queue.py, app/queues/worker.py and app/queues/failure_handler.py, on the
-- tables of app/models/queue_job and app/models/failed_job. `now` is `int(time.time())` at the call.
pub mod Picked
pub mod Flight
pub mod Turn
pub mod Scan
pub mod Cron
pub mod Worker
use text.Mathlib.Text.{◌==◌ as str_eq}
use py_board.Prelude.{
  ℕ, zero, suc, ◌+◌, ◌*◌, String, Bool, true, false, not, ◌&&◌, ◌||◌, Option, none, some, List, [],
  ◌∷◌, ◌==◌, ltb, leb, min, is_none, if◌then◌else◌,
}
use py_board.Prelude.Rows.{Rows, lookup, insert, find}
use py_board.Model.Period.{text_mem}
use py_board.Json.{Json}

-- The column `status`.
pub data JobStatus : Type 0 where
  pending running finished failed : JobStatus

abbrev pub is_pending : JobStatus → Bool
is_pending pending = true
is_pending _ = false

-- app/models/queue_job/base.py
pub record QueueJob : Type 0 where
  pub queue : String
  pub job_name : String
  pub job_key : Option String
  pub args : Json
  pub kwargs : Json
  pub status : JobStatus
  pub attempts : ℕ
  pub max_tries : ℕ
  pub scheduled_at : ℕ
  pub reserved_at : Option ℕ
  pub finished_at : Option ℕ
  pub failed_at : Option ℕ
  pub last_error : Option String

-- app/models/failed_job/base.py, with the fields of its payload.
pub record FailedJob : Type 0 where
  pub queue : String
  pub job_id : ℕ
  pub job_name : String
  pub args : Json
  pub kwargs : Json
  pub exception : String

-- app/core/config.py, what concerns the queue.
pub record QueueSettings : Type 0 where
  pub queue_default_name : String
  pub queue_max_jobs : ℕ
  pub queue_max_tries : ℕ
  pub queue_retry_jobs : Bool

pub record Queue : Type 0 where
  pub jobs : Rows QueueJob
  pub next_job : ℕ
  pub failed_jobs : List FailedJob

-- `_defer_until` and `_defer_by`, in whole seconds.
pub data Defer : Type 0 where
  at_once : Defer
  defer_until defer_by : ℕ → Defer

-- `_scheduled_at`
abbrev pub scheduled : ℕ → Defer → ℕ
scheduled now at_once = now
scheduled now (defer_until t) = t
scheduled now (defer_by n) = now + n

-- `str(job_key) if job_key else None`
abbrev pub key_or_none : Option String → Option String
key_or_none none = none
key_or_none (some k) = if str_eq k "" then none else some k

abbrev pub has_key : String → QueueJob → Bool
has_key k j = elim j.job_key [ none ↦ false | some k' ↦ str_eq k' k ]

abbrev pub is_taken : Option String → Rows QueueJob → Bool
is_taken none jobs = false
is_taken (some k) jobs = not (is_none (find (has_key k) jobs))

abbrev pub add_job : QueueJob → Queue → Queue
add_job j q = record q { jobs = insert q.next_job j q.jobs; next_job = q.next_job + 1 }

-- `ORDER BY scheduled_at ASC, id ASC`
abbrev pub is_before : ℕ → QueueJob → ℕ → QueueJob → Bool
is_before i j k l =
    ltb j.scheduled_at l.scheduled_at || (j.scheduled_at == l.scheduled_at && leb i k)

unfoldable pub place : ℕ → QueueJob → Rows QueueJob → Rows QueueJob
place i j [] = (i, j) ∷ []
place i j ((k, l) ∷ t) = if is_before i j k l then (i, j) ∷ (k, l) ∷ t else (k, l) ∷ place i j t

unfoldable pub sort : Rows QueueJob → Rows QueueJob
sort [] = []
sort ((i, j) ∷ t) = place i j (sort t)

unfoldable pub keep : (QueueJob → Bool) → Rows QueueJob → Rows QueueJob
keep p [] = []
keep p ((i, j) ∷ t) = let rest = keep p t in if p j then (i, j) ∷ rest else rest

-- `LIMIT`
unfoldable pub take : ℕ → Rows QueueJob → Rows QueueJob
take zero t = []
take (suc n) [] = []
take (suc n) (r ∷ t) = r ∷ take n t

-- `status = 'pending' AND queue = ANY(:queues) AND scheduled_at <= :now`
abbrev pub is_due : ℕ → List String → QueueJob → Bool
is_due now queues j = is_pending j.status && (text_mem j.queue queues && leb j.scheduled_at now)

-- The rows that `claim_jobs` picks.
abbrev pub picked : ℕ → List String → ℕ → Rows QueueJob → Rows QueueJob
picked now queues limit jobs = take limit (sort (keep (is_due now queues) jobs))

abbrev pub claimed : ℕ → QueueJob → QueueJob
claimed now j = record j { status = running; attempts = j.attempts + 1; reserved_at = some now }

-- `UPDATE … FROM picked`
unfoldable pub claim_rows : ℕ → Rows QueueJob → Rows QueueJob → Rows QueueJob
claim_rows now [] jobs = jobs
claim_rows now ((i, j) ∷ ps) jobs = insert i (claimed now j) (claim_rows now ps jobs)

-- `RETURNING`: the rows after the update.
unfoldable pub returning : ℕ → Rows QueueJob → Rows QueueJob
returning now [] = []
returning now ((i, j) ∷ ps) = (i, claimed now j) ∷ returning now ps

-- `claim_jobs`
unfoldable pub claim_jobs : ℕ → List String → ℕ → Queue → Rows QueueJob × Queue
claim_jobs now queues limit q =
    let ps = picked now queues limit q.jobs in
    (returning now ps, record q { jobs = claim_rows now ps q.jobs })

-- `UPDATE queue_job … WHERE id = :job_id`
unfoldable pub update_job : ℕ → (QueueJob → QueueJob) → Queue → Queue
update_job i f q = elim (lookup i q.jobs) [
  | none ↦ q
  | some j ↦ record q { jobs = insert i (f j) q.jobs }
]

-- `finish_job`
abbrev pub with_finished : ℕ → QueueJob → QueueJob
with_finished now j = record j { status = finished; finished_at = some now }

abbrev pub with_retry : ℕ → String → QueueJob → QueueJob
with_retry at error j = record j {
  status = pending;
  reserved_at = none;
  scheduled_at = at;
  last_error = some error;
}

abbrev pub with_failure : ℕ → String → QueueJob → QueueJob
with_failure now error j = record j {
  status = failed;
  failed_at = some now;
  last_error = some error;
}

-- The row of `failed_jobs` of a job that failed.
abbrev pub report_of : ℕ → QueueJob → String → FailedJob
report_of i j error = record {
  queue = j.queue;
  job_id = i;
  job_name = j.job_name;
  args = j.args;
  kwargs = j.kwargs;
  exception = error;
}

-- `record_failed_job`, a transaction of its own.
unfoldable pub record_failed_job : FailedJob → Queue → Queue
record_failed_job f q = record q { failed_jobs = f ∷ q.failed_jobs }

-- `JOB_REGISTRY`
abbrev pub job_registry : List String
job_registry =
    "send_mail" ∷ "send_telegram" ∷ "order_handle" ∷ "calc_commission" ∷ "aggregate_stats"
    ∷ "traffic_update" ∷ "check_order" ∷ "aggregate_yesterday_stats" ∷ "cleanup_log_events"
    ∷ "traffic_fetch" ∷ "stat_user" ∷ "stat_server" ∷ []

-- `int(job.get("max_tries") or settings.queue_max_tries)`
abbrev pub tries_of : QueueSettings → ℕ → ℕ
tries_of settings zero = settings.queue_max_tries
tries_of settings (suc n) = suc n

module _ (settings : QueueSettings) where
  -- `PostgresQueue.enqueue_job`; `name` is the queue's name of the call, or the default one.
  unfoldable pub enqueue_job :
      ℕ → String → Json → Json → Option String → Option String → Defer → Queue → Option ℕ × Queue
  enqueue_job now job_name args kwargs name job_key defer q =
      let key = key_or_none job_key in
      if is_taken key q.jobs then (none, q) else (
        some q.next_job,
        add_job
            (record {
              queue = elim name [ none ↦ settings.queue_default_name | some n ↦ n ];
              job_name = job_name;
              job_key = key;
              args = args;
              kwargs = kwargs;
              status = pending;
              attempts = 0;
              max_tries = settings.queue_max_tries;
              scheduled_at = scheduled now defer;
              reserved_at = none;
              finished_at = none;
              failed_at = none;
              last_error = none;
            })
            q,
      )

  -- `retry and attempts < max_tries`, of the row as it was claimed.
  abbrev pub should_retry : Bool → QueueJob → Bool
  should_retry retry j = retry && ltb j.attempts (tries_of settings j.max_tries)

  -- `fail_job` up to the end of its transaction on `queue_job`: that table, and the report that it writes
  -- by `record_failed_job` next, if the job is not tried again.
  unfoldable pub fail_job : ℕ → ℕ → QueueJob → String → Bool → Queue → Option FailedJob × Queue
  fail_job now i j error retry q =
      if should_retry retry j
      then (none, update_job i (with_retry (now + min 60 (j.attempts * 5)) error) q)
      else (some (report_of i j error), update_job i (with_failure now error) q)

  -- `run_job` up to the end of that transaction, for a job function that returned (`none`) or raised an
  -- exception with a text.
  unfoldable pub run_job : ℕ → ℕ → QueueJob → Option String → Queue → Option FailedJob × Queue
  run_job now i j outcome q =
      if not (text_mem j.job_name job_registry)
      then fail_job now i j "unregistered" false q
      else elim outcome [
        | none ↦ (none, update_job i (with_finished now) q)
        | some error ↦ fail_job now i j error settings.queue_retry_jobs q
      ]
