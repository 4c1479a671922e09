-- ===== src/Queue/Cron.antt =====
-- `pyboard_enqueue_queue_job`, the function of the first migration by which the database's schedule
-- enqueues jobs: the same table, from SQL.
use py_board.Prelude.{ℕ, ◌≡◌, refl, String, Option, none, some, if◌then◌else◌}
use py_board.Json
use py_board.Json.{Json}
use py_board.Queue.{
  Queue, QueueSettings, Defer, at_once, defer_until, pending, key_or_none, is_taken, add_job,
  scheduled, enqueue_job,
}

-- `COALESCE(x, default)`
abbrev pub coalesce {ℓ} : {A : Type ℓ} → Option A → A → A
coalesce none a = a
coalesce (some b) a = b

-- The tries are the literal 3; `now` is the time of the statement.
unfoldable pub enqueue_queue_job :
    ℕ
    → String
    → Option Json
    → Option Json
    → String
    → Option String
    → Option ℕ
    → Queue
    → Option ℕ × Queue
enqueue_queue_job now job_name args kwargs queue job_key scheduled_at q =
    if is_taken job_key q.jobs then (none, q) else (
      some q.next_job,
      add_job
          (record {
            queue = queue;
            job_name = job_name;
            job_key = job_key;
            args = coalesce args (Json.list Json.end);
            kwargs = coalesce kwargs Json.object;
            status = pending;
            attempts = 0;
            max_tries = 3;
            scheduled_at = coalesce scheduled_at now;
            reserved_at = none;
            finished_at = none;
            failed_at = none;
            last_error = none;
          })
          q,
    )

-- The time as a call of `enqueue_job` gives it.
abbrev pub as_defer : Option ℕ → Defer
as_defer none = at_once
as_defer (some t) = defer_until t

as_defer_lem : (now : ℕ) (at : Option ℕ) → scheduled now (as_defer at) ≡ coalesce at now
as_defer_lem now none = refl
as_defer_lem now (some t) = refl

-- Where `queue_max_tries` is 3 and the key is not the empty text, the function of the database does to the
-- table, and returns, what `enqueue_job` of the application does with the same job, queue, key and time, and
-- with the arguments that are missing as an empty list and an empty object.
pub enqueue_queue_job-enqueue_job :
    (settings : QueueSettings) (now : ℕ) (job_name : String) (args kwargs : Option Json)
    (queue : String) (job_key : Option String) (at : Option ℕ) (q : Queue)
    → settings.queue_max_tries ≡ 3
    → key_or_none job_key ≡ job_key
    → enqueue_queue_job now job_name args kwargs queue job_key at q
      ≡ enqueue_job settings now job_name
          (coalesce args (Json.list Json.end))
          (coalesce kwargs Json.object)
          (some queue)
          job_key
          (as_defer at)
          q
unfolding enqueue_queue_job enqueue_job
enqueue_queue_job-enqueue_job settings now job_name args kwargs queue job_key at q three key =
    rw (three, key, as_defer_lem now at) refl
