-- ===== src/Queue/Worker.antt =====
-- `run_worker` of app/queues/worker.py with `once`: the loop that ends when nothing is claimed. The jobs'
-- functions are parameters: what each comes to, when it ends, and which jobs are enqueued meanwhile, by the
-- jobs that run (`check_order` enqueues `order_handle`) or by anybody else. `gather` interleaves the jobs of
-- a claim; since an end writes only its own row and neither a key nor `next_job`, and an enqueueing only a
-- new row, a round's calls come first here, and its ends follow one after the other.
pub mod Calls
pub mod Ends
pub mod Once
pub mod Served
use py_board.Prelude.{ℕ, zero, suc, ◌+◌, String, Option, none, some, List, [], ◌∷◌}
use py_board.Prelude.Rows.{Rows}
use py_board.Json.{Json}
use py_board.Queue.{
  Queue, QueueJob, QueueSettings, FailedJob, Defer, enqueue_job, claim_jobs, run_job,
  record_failed_job,
}
use py_board.Queue.Cron.{enqueue_queue_job}

-- A call that enqueues a job: of the application, or of the database's schedule.
pub data Call : Type 0 where
  by_application :
      (now : ℕ) (job_name : String) (args kwargs : Json) (name job_key : Option String)
      (defer : Defer)
      → Call
  by_schedule :
      (now : ℕ) (job_name : String) (args kwargs : Option Json) (name : String)
      (job_key : Option String) (at : Option ℕ)
      → Call

-- In round `n`: the time of the claim; for each key of a job the time at which it ends and the text of the
-- exception that it raises, if it raises one; and the calls from this claim to the next.
pub record Rounds : Type 0 where
  pub clock : ℕ → ℕ
  pub end : ℕ → ℕ → ℕ
  pub outcome : ℕ → ℕ → Option String
  pub calls : ℕ → List Call

-- `queues or [settings.queue_default_name]`
abbrev pub queue_names : QueueSettings → List String → List String
queue_names settings [] = settings.queue_default_name ∷ []
queue_names settings (q ∷ qs) = q ∷ qs

-- The second transaction of `fail_job`, if there is one.
abbrev pub after_report : Option FailedJob × Queue → Queue
after_report (none, q) = q
after_report (some f, q) = record_failed_job f q

module _ (settings : QueueSettings) where
  abbrev pub answer : Call → Queue → Queue
  answer (by_application now job_name args kwargs name job_key defer) q =
      (enqueue_job settings now job_name args kwargs name job_key defer q).1
  answer (by_schedule now job_name args kwargs name job_key at) q =
      (enqueue_queue_job now job_name args kwargs name job_key at q).1

  unfoldable pub answer_all : List Call → Queue → Queue
  answer_all [] q = q
  answer_all (c ∷ cs) q = answer_all cs (answer c q)

module _ (settings : QueueSettings) (rounds : Rounds) where
  -- `gather(*(run_job(job) for job in jobs))`
  unfoldable pub run_jobs : ℕ → Rows QueueJob → Queue → Queue
  run_jobs n [] q = q
  run_jobs n ((i, j) ∷ rs) q =
      run_jobs n rs (after_report (run_job settings (rounds.end n i) i j (rounds.outcome n i) q))

  -- What follows a claim.
  unfoldable pub run_round : ℕ → Rows QueueJob → Queue → Queue
  run_round n rs q = run_jobs n rs (answer_all settings (rounds.calls n) q)

  -- The round of the last claim, and the table after it; `none` when the fuel ran out.
  unfoldable pub run_worker : ℕ → List String → ℕ → Queue → Option (ℕ × Queue)
  run_worker zero queues n q = none
  run_worker (suc fuel) queues n q =
      let claim =
        claim_jobs (rounds.clock n) (queue_names settings queues) settings.queue_max_jobs q in
      let rest = run_worker fuel queues (n + 1) (run_round n claim.0 claim.1) in
      elim claim.0 [ [] ↦ some (n, claim.1) | r ∷ rs ↦ rest ]
