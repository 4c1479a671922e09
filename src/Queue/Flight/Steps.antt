-- ===== src/Queue/Flight/Steps.antt =====
-- What `run_job` of app/queues/worker.py and `enqueue_job` of app/core/queue.py write.
use py_board.Prelude.{
  ℕ, ◌+◌, ◌*◌, min, not, ◌≡◌, ◌≢◌, refl, ◌⊎◌, inl, inr, String, Bool, true, false, Option, none,
  some, arith, Option-cases, Bool-cases, if◌then◌else◌,
}
use py_board.Prelude.Rows.{lookup, insert, IsKeyed, lookup-insert, insert-IsKeyed}
use py_board.Model.Period.{text_mem}
use py_board.Json.{Json}
use py_board.Queue.{
  QueueJob, Queue, QueueSettings, Defer, update_job, enqueue_job, fail_job, run_job, with_finished,
  with_failure, with_retry, add_job, key_or_none, is_taken, pending, FailedJob, should_retry,
  job_registry,
}
use py_board.Queue.Cron.{enqueue_queue_job}

-- A write to one row of the table, or to none.
pub record Writes (i : ℕ) (q q' : Queue) : Type 0 where
  pub elsewhere : (k : ℕ) → i ≢ k → lookup k q'.jobs ≡ lookup k q.jobs
  pub keyed : IsKeyed q.jobs → IsKeyed q'.jobs
  pub next_job : q'.next_job ≡ q.next_job
  pub absent : lookup i q.jobs ≡ none → lookup i q'.jobs ≡ none

Writes-self : (i : ℕ) (q : Queue) → Writes i q q
Writes-self i q = record {
  elsewhere = λ k ne. refl;
  keyed = λ h. h;
  next_job = refl;
  absent = λ h. h;
}

pub update_job-none :
    (i : ℕ) (f : QueueJob → QueueJob) (q : Queue) → lookup i q.jobs ≡ none → update_job i f q ≡ q
unfolding update_job
update_job-none i f q e = ground arith

pub update_job-some :
    (i : ℕ) (f : QueueJob → QueueJob) (q : Queue) (j : QueueJob)
    → lookup i q.jobs ≡ some j
    → update_job i f q ≡ record q { jobs = insert i (f j) q.jobs }
unfolding update_job
update_job-some i f q j e = ground arith

update_job-Writes : (i : ℕ) (f : QueueJob → QueueJob) (q : Queue) → Writes i q (update_job i f q)
update_job-Writes i f q = elim (Option-cases (lookup i q.jobs)) [
  | inl e ↦ rw (update_job-none i f q e) (Writes-self i q)
  | inr (j, e) ↦ rw (update_job-some i f q j e) (record {
    elsewhere = λ k ne. ground (arith, lookup-insert i k (f j) q.jobs);
    keyed = insert-IsKeyed i (f j) q.jobs;
    next_job = refl;
    absent = λ h. absurd (ground (arith, e, h));
  })
]

Writes-if :
    {i : ℕ} {q : Queue} (c : Bool) (a b : Option FailedJob × Queue)
    → Writes i q a.1
    → Writes i q b.1
    → Writes i q (if c then a else b).1
Writes-if true a b x y = x
Writes-if false a b x y = y

module _ (settings : QueueSettings) (now i : ℕ) (j : QueueJob) (q : Queue) where
  fail_job-Writes :
      (error : String) (retry : Bool) → Writes i q (fail_job settings now i j error retry q).1
  unfolding fail_job
  fail_job-Writes error retry =
      Writes-if (should_retry settings retry j) _ _
        (update_job-Writes i (with_retry (now + min 60 (j.attempts * 5)) error) q)
        (update_job-Writes i (with_failure now error) q)

  pub run_job-Writes : (outcome : Option String) → Writes i q (run_job settings now i j outcome q).1
  unfolding run_job
  run_job-Writes none =
      Writes-if (not (text_mem j.job_name job_registry)) _ _ (fail_job-Writes "unregistered" false)
        (update_job-Writes i (with_finished now) q)
  run_job-Writes (some error) =
      Writes-if (not (text_mem j.job_name job_registry)) _ _ (fail_job-Writes "unregistered" false)
        (fail_job-Writes error settings.queue_retry_jobs)

-- What a call of `enqueue_job` comes to: nothing, or a new row that is pending and was never tried.
abbrev pub Enqueued : Queue → Queue → Type 0
Enqueued q q' =
    (q' ≡ q) ⊎ ((j : QueueJob) × (q' ≡ add_job j q) × (j.status ≡ pending) × (j.attempts ≡ 0))

pub enqueue_job-Enqueued :
    (settings : QueueSettings) (now : ℕ) (job_name : String) (args kwargs : Json)
    (name job_key : Option String) (defer : Defer) (q : Queue)
    → Enqueued q (enqueue_job settings now job_name args kwargs name job_key defer q).1
unfolding enqueue_job
enqueue_job-Enqueued settings now job_name args kwargs name job_key defer q =
    elim (Bool-cases (is_taken (key_or_none job_key) q.jobs)) [
      | inl taken ↦ rw taken (inl refl)
      | inr new ↦ rw new (inr (_, refl, refl, refl))
    ]

pub enqueue_queue_job-Enqueued :
    (now : ℕ) (job_name : String) (args kwargs : Option Json) (name : String)
    (job_key : Option String) (at : Option ℕ) (q : Queue)
    → Enqueued q (enqueue_queue_job now job_name args kwargs name job_key at q).1
unfolding enqueue_queue_job
enqueue_queue_job-Enqueued now job_name args kwargs name job_key at q =
    elim (Bool-cases (is_taken job_key q.jobs)) [
      | inl taken ↦ rw taken (inl refl)
      | inr new ↦ rw new (inr (_, refl, refl, refl))
    ]
