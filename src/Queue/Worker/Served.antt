-- ===== src/Queue/Worker/Served.antt =====
-- `run_worker` of app/queues/worker.py with `once`: the jobs that it gets round to.
use py_board.Prelude.{ℕ, ◌<◌, ◌≡◌, ◌⊎◌, some}
use py_board.Prelude.Rows.{Rows, lookup}
use py_board.Queue.{Queue, QueueJob}

-- The row `k` is as it was, `j`, or was tried since.
pub record IsServed (k : ℕ) (j : QueueJob) (q : Queue) : Type 0 where
  pub row : QueueJob
  pub here : lookup k q.jobs ≡ some row
  pub tried : (row ≡ j) ⊎ (j.attempts < row.attempts)
