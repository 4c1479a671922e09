-- ===== src/Queue/Flight/Tries/Ending.antt =====
-- `run_job` and `fail_job` of app/queues/worker.py: what the end of one job writes.
use py_board.Prelude.{
  ℕ, ◌+◌, ◌*◌, min, ◌≡◌, refl, inl, inr, String, Bool, true, false, not, ◌&&◌, Option, none, some,
  List, [], ◌∷◌, ◌++◌, arith, ◌==◌, ltb, bit, Bool-cases, if◌then◌else◌,
}
use py_board.Prelude.Rows.{lookup, insert, lookup-insert_self}
use py_board.Model.Period.{text_mem}
use py_board.Queue.{
  QueueJob, Queue, FailedJob, QueueSettings, JobStatus, failed, is_pending, tries_of, should_retry,
  update_job, with_finished, with_retry, with_failure, report_of, fail_job, run_job, job_registry,
}
use py_board.Queue.Flight.{with_report}
use py_board.Queue.Flight.Steps.{update_job-some}

-- The rows of `failed_jobs` of a job.
unfoldable pub failures : ℕ → List FailedJob → ℕ
failures k [] = 0
failures k (f ∷ fs) = bit (f.job_id == k) + failures k fs

abbrev pub is_failed : JobStatus → Bool
is_failed failed = true
is_failed _ = false

abbrev pub failed_bit : Option QueueJob → ℕ
failed_bit none = 0
failed_bit (some j) = bit (is_failed j.status)

-- A report taken out of the middle.
pub failures-split :
    (k : ℕ) (fs gs : List FailedJob) (f : FailedJob)
    → failures k (fs ++ f ∷ gs) ≡ bit (f.job_id == k) + failures k (fs ++ gs)
unfolding failures
failures-split k [] gs f = refl
failures-split k (g ∷ fs) gs f = ground (arith, failures-split k fs gs f)

-- The row `j` of key `i` is tried as often as before, waits again only if it has tries left, and a report
-- of it is to be written if it failed; no report is written yet.
pub record Ended (settings : QueueSettings) (i : ℕ) (j : QueueJob) (q : Queue)
    (r : Option FailedJob × Queue) : Type 0 where
  pub row : QueueJob
  pub here : lookup i r.1.jobs ≡ some row
  pub written : r.1.jobs ≡ insert i row q.jobs
  pub attempts : row.attempts ≡ j.attempts
  pub max_tries : row.max_tries ≡ j.max_tries
  pub job_key : row.job_key ≡ j.job_key
  pub again : is_pending row.status ≡ true → ltb j.attempts (tries_of settings j.max_tries) ≡ true
  pub reports :
      (k : ℕ) (fs : List FailedJob)
      → failures k (with_report r.0 fs) ≡ bit (i == k && is_failed row.status) + failures k fs
  pub unwritten : r.1.failed_jobs ≡ q.failed_jobs

module _ (settings : QueueSettings) (now i : ℕ) (j : QueueJob) (q : Queue)
    (there : lookup i q.jobs ≡ some j) where
  -- One write to the row.
  updated-Ended :
      (f : QueueJob → QueueJob) (report : Option FailedJob)
      → ((f j).attempts ≡ j.attempts)
      → ((f j).max_tries ≡ j.max_tries)
      → ((f j).job_key ≡ j.job_key)
      → (is_pending (f j).status ≡ true → ltb j.attempts (tries_of settings j.max_tries) ≡ true)
      → ((k : ℕ) (fs : List FailedJob)
          → failures k (with_report report fs)
            ≡ bit (i == k && is_failed (f j).status) + failures k fs)
      → Ended settings i j q (report, update_job i f q)
  updated-Ended f report attempts max_tries job_key again reports =
      rw (update_job-some i f q j there) (record {
        row = f j;
        here = lookup-insert_self i (f j) q.jobs;
        written = refl;
        attempts = attempts;
        max_tries = max_tries;
        job_key = job_key;
        again = again;
        reports = reports;
        unwritten = refl;
      })

  finish-Ended : Ended settings i j q (none, update_job i (with_finished now) q)
  finish-Ended =
      updated-Ended (with_finished now) none refl refl refl (λ e. ground arith)
        (λ k fs. ground arith)

  retry-Ended :
      (at : ℕ) (error : String)
      → ltb j.attempts (tries_of settings j.max_tries) ≡ true
      → Ended settings i j q (none, update_job i (with_retry at error) q)
  retry-Ended at error more =
      updated-Ended (with_retry at error) none refl refl refl (λ e. more) (λ k fs. ground arith)

  failure-Ended :
      (error : String)
      → Ended settings i j q (some (report_of i j error), update_job i (with_failure now error) q)
  unfolding failures
  failure-Ended error =
      updated-Ended (with_failure now error) (some (report_of i j error)) refl refl refl
        (λ e. ground arith) (λ k fs. ground arith)

  fail_job-Ended :
      (error : String) (retry : Bool)
      → Ended settings i j q (fail_job settings now i j error retry q)
  unfolding fail_job
  fail_job-Ended error retry = elim (Bool-cases (should_retry settings retry j)) [
    | inl more ↦ rw more (retry-Ended (now + min 60 (j.attempts * 5)) error (ground arith))
    | inr over ↦ rw over (failure-Ended error)
  ]

  run_registered :
      (c : Bool) (outcome : Option String)
      → Ended settings i j q (
          if c then fail_job settings now i j "unregistered" false q else elim outcome [
            | none ↦ (none, update_job i (with_finished now) q)
            | some error ↦ fail_job settings now i j error settings.queue_retry_jobs q
          ])
  run_registered true outcome = fail_job-Ended "unregistered" false
  run_registered false none = finish-Ended
  run_registered false (some error) = fail_job-Ended error settings.queue_retry_jobs

  pub run_job-Ended :
      (outcome : Option String) → Ended settings i j q (run_job settings now i j outcome q)
  unfolding run_job
  run_job-Ended outcome = run_registered (not (text_mem j.job_name job_registry)) outcome
