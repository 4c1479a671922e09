-- ===== src/Queue/Flight/Tries.antt =====
-- The column `attempts`, and app/queues/failure_handler.py: how often a job is tried, and what is reported.
pub mod Ending
use py_board.Prelude.{
  ℕ, zero, suc, ◌+◌, ◌≤◌, ◌≡◌, ◌≢◌, refl, sym, ap, ◌∙◌, inl, inr, String, Bool, true, false, Option,
  none, some, List, [], ◌∷◌, ◌++◌, arith, ◌==◌, ltb, bit, max, Option-cases, if◌then◌else◌,
  eq_or_ne,
}
use py_board.Prelude.Rows.{lookup, insert, erase, lookup-insert, lookup-insert_ne}
use py_board.Queue.{
  QueueJob, Queue, QueueSettings, JobStatus, pending, running, finished, failed, claimed,
  is_pending, add_job, tries_of, run_job, claim_jobs, picked, is_due, record_failed_job,
}
use py_board.Queue.Picked.{picked-IsPartOf}
use py_board.Queue.Flight.{
  Workers, Next, with_report, enqueued, by_database, claims, ended, reported, died, lost, removed,
  Later, start, step, IsFlight,
}
use py_board.Queue.Flight.Claims.{claim_rows-in, claim_rows-out}
use py_board.Queue.Flight.Steps.{
  Enqueued, run_job-Writes, enqueue_job-Enqueued, enqueue_queue_job-Enqueued,
}
use py_board.Queue.Flight.Keeps.{Later-IsFlight}
use py_board.Queue.Flight.Tries.Ending.{
  failures, failures-split, is_failed, failed_bit, Ended, run_job-Ended,
}

pending_not_failed : (s : JobStatus) → is_pending s ≡ true → is_failed s ≡ false
pending_not_failed pending e = refl
pending_not_failed running e = refl
pending_not_failed finished e = refl
pending_not_failed failed e = ground arith

running_not_failed : (s : JobStatus) → s ≡ running → is_failed s ≡ false
running_not_failed s e = rw e refl

module _ (settings : QueueSettings) where
  -- The tries that a row allows: its `max_tries` or, where that is 0, those of the settings; a job is run once
  -- even if this is 0 too.
  abbrev pub bound : QueueJob → ℕ
  bound j = max 1 (tries_of settings j.max_tries)

  -- Of a row: its tries are counted, and one that waits has some left.
  pub record IsCounted (j : QueueJob) : Type 0 where
    pub tried : j.attempts ≤ bound j
    pub left : is_pending j.status ≡ true → j.attempts + 1 ≤ bound j

  -- The rows are counted; each failed job has one report, which is in `failed_jobs`, is still to be written, or was
  -- lost or deleted, and no other job has one.
  pub record IsAccount (w : Workers) : Type 0 where
    pub counted : (k : ℕ) (j : QueueJob) → lookup k w.table.jobs ≡ some j → IsCounted j
    pub reports :
        (k : ℕ)
        → failures k w.table.failed_jobs + (failures k w.unreported + failures k w.gone)
          ≡ failed_bit (lookup k w.table.jobs)

  module _ (w : Workers) (h : IsFlight w) (a : IsAccount w) where
    Enqueued-IsAccount : {q : Queue} → Enqueued w.table q → IsAccount (record w { table = q })
    Enqueued-IsAccount (inl e) = rw e a
    Enqueued-IsAccount (inr (v, e, waits, untried)) =
        let free = h.fresh w.table.next_job (ground arith) in
        rw e (record {
          counted = λ k j here. elim (eq_or_ne w.table.next_job k) [
            | inl new ↦
                let is_new : v ≡ j =
                  ground (arith, lookup-insert w.table.next_job k v w.table.jobs, here, new) in
                rw (sym is_new)
                  (record { tried = ground (arith, untried); left = λ p. ground (arith, untried) })
            | inr ne ↦
                a.counted k j
                  (ground (arith, lookup-insert w.table.next_job k v w.table.jobs, here, ne))
          ];
          reports = λ k. a.reports k ∙ elim (eq_or_ne w.table.next_job k) [
            | inl new ↦
                let was = ap failed_bit (rw new at free) in
                let is_new = lookup-insert w.table.next_job k v w.table.jobs in
                ground (arith, was, is_new, waits, new)
            | inr ne ↦ ap failed_bit (sym (lookup-insert_ne w.table.next_job k v w.table.jobs ne))
          ];
        })

    claims-IsAccount :
        (now : ℕ) (queues : List String) (limit : ℕ)
        → IsAccount (record w {
          table = (claim_jobs now queues limit w.table).1;
          in_flight = (claim_jobs now queues limit w.table).0 ++ w.in_flight;
        })
    unfolding claim_jobs
    claims-IsAccount now queues limit =
        let ps = picked now queues limit w.table.jobs in
        let part = picked-IsPartOf now queues limit w.table.jobs h.keyed in
        record {
          counted = λ k j here. elim (Option-cases (lookup k ps)) [
            | inl out ↦ a.counted k j (sym (claim_rows-out now k ps w.table.jobs out) ∙ here)
            | inr (v, e) ↦
                let (there, due) = part.found k v e in
                let was = a.counted k v there in
                let is_claimed : claimed now v ≡ j =
                  ground (arith, claim_rows-in now k v ps w.table.jobs e, here) in
                rw (sym is_claimed)
                  (record { tried = was.left (ground (arith, due)); left = λ p. ground arith })
          ];
          reports = λ k. elim (Option-cases (lookup k ps)) [
            | inl out ↦ rw (claim_rows-out now k ps w.table.jobs out) (a.reports k)
            | inr (v, e) ↦
                let (there, due) = part.found k v e in
                let was = a.reports k ∙ ap failed_bit there in
                let unfailed = pending_not_failed v.status (ground (arith, due)) in
                was
                ∙ ap bit unfailed
                ∙ sym (ap failed_bit (claim_rows-in now k v ps w.table.jobs e))
          ];
        }

    ended-IsAccount :
        (now i : ℕ) (v : QueueJob) (outcome : Option String)
        → lookup i w.in_flight ≡ some v
        → IsAccount (record w {
          table = (run_job settings now i v outcome w.table).1;
          in_flight = erase i w.in_flight;
          unreported = with_report (run_job settings now i v outcome w.table).0 w.unreported;
        })
    ended-IsAccount now i v outcome flying =
        let (there, runs) = h.standing i v flying in
        let was = a.counted i v there in
        let end = run_job-Ended settings now i v w.table there outcome in
        let wr = run_job-Writes settings now i v w.table outcome in
        record {
          counted = λ k j here. elim (eq_or_ne i k) [
            | inl same ↦
                let is_row : end.row ≡ j = ground (arith, end.here, here, same) in
                let allowed : bound end.row ≡ bound v =
                  ap (λ n. max 1 (tries_of settings n)) end.max_tries in
                rw (sym is_row) (record {
                  tried = ground (arith, end.attempts, was.tried, allowed);
                  left = λ p. ground (arith, end.attempts, end.again p, allowed);
                })
            | inr ne ↦ a.counted k j (sym (wr.elsewhere k ne) ∙ here)
          ];
          reports = λ k. elim (eq_or_ne i k) [
            | inl same ↦
                let before = a.reports i ∙ ap failed_bit there in
                let unfailed = running_not_failed v.status runs in
                rw (sym same) (
                  ground (
                    arith,
                    end.here,
                    before,
                    unfailed,
                    end.reports i w.unreported,
                    ap (failures i) end.unwritten,
                  ))
            | inr ne ↦ ground (
              arith,
              wr.elsewhere k ne,
              a.reports k,
              end.reports k w.unreported,
              ap (failures k) end.unwritten,
            )
          ];
        }

    Next-IsAccount : {w' : Workers} → Next settings w w' → IsAccount w'
    unfolding record_failed_job failures
    Next-IsAccount (enqueued now job_name args kwargs name job_key defer) =
        Enqueued-IsAccount
          (enqueue_job-Enqueued settings now job_name args kwargs name job_key defer w.table)
    Next-IsAccount (by_database now job_name args kwargs name job_key at) =
        Enqueued-IsAccount
          (enqueue_queue_job-Enqueued now job_name args kwargs name job_key at w.table)
    Next-IsAccount (claims now queues limit) = claims-IsAccount now queues limit
    Next-IsAccount (ended now i v outcome flying) = ended-IsAccount now i v outcome flying
    Next-IsAccount (reported fs gs f e) = record {
      counted = a.counted;
      reports = λ k. ground (arith, a.reports k, ap (failures k) e, failures-split k fs gs f);
    }
    Next-IsAccount (died i) = record { counted = a.counted; reports = a.reports }
    Next-IsAccount (lost fs gs f e) = record {
      counted = a.counted;
      reports = λ k. ground (arith, a.reports k, ap (failures k) e, failures-split k fs gs f);
    }
    Next-IsAccount (removed fs gs f e) = record {
      counted = a.counted;
      reports = λ k. ground (arith, a.reports k, ap (failures k) e, failures-split k fs gs f);
    }

  -- Where the keys of the table are unique and the next one is free, and each job in flight is there
  -- once and stands in the table as its claim left it: if the tables are an account, they are one after
  -- any number of steps of the workers, as long as the settings stay. In an account every row has been tried
  -- at most as often as its `max_tries` says (as `queue_max_tries` says if that is 0, and once if both
  -- are), a row that waits has a try left, and each failed job of the table has exactly one report, which is
  -- in `failed_jobs`, is still to be written by the worker that ran the job, was lost with that worker, or was
  -- deleted from `failed_jobs`; no other job has one.
  pub Later-IsAccount :
      {w w' : Workers} → Later settings w w' → IsFlight w → IsAccount w → IsAccount w'
  Later-IsAccount start h a = a
  Later-IsAccount (step {w'} before last) h a =
      Next-IsAccount w' (Later-IsFlight before h) (Later-IsAccount before h a) last
