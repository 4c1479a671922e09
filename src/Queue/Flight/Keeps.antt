-- ===== src/Queue/Flight/Keeps.antt =====
-- The steps of the workers of app/queues/worker.py, and the jobs in flight.
use py_board.Prelude.{
  ℕ, ◌≡◌, refl, sym, ap, ◌∙◌, inl, inr, String, true, false, Option, none, some, List, ◌∷◌, ◌++◌,
  arith, Option-cases, eq_or_ne,
}
use py_board.Prelude.Rows.{
  lookup-erase, erase-IsKeyed, lookup, erase, lookup-insert, insert-IsKeyed,
}
use py_board.Queue.{
  Queue, QueueJob, QueueSettings, FailedJob, JobStatus, running, is_pending, claimed, claim_jobs,
  returning, picked, is_due, run_job, record_failed_job,
}
use py_board.Queue.Picked.{picked-IsPartOf}
use py_board.Queue.Flight.{
  Workers, Next, with_report, enqueued, by_database, claims, ended, reported, died, lost, removed,
  Later, start, step, IsFlight,
}
use py_board.Queue.Flight.Claims.{
  claimed_at, lookup-returning, returning-IsKeyed, claim_rows-in, claim_rows-out,
  claim_rows-IsKeyed, lookup-append, append-IsKeyed,
}
use py_board.Queue.Flight.Steps.{
  Enqueued, run_job-Writes, enqueue_job-Enqueued, enqueue_queue_job-Enqueued,
}

running_not_pending : (s : JobStatus) → s ≡ running → is_pending s ≡ false
running_not_pending s e = rw e refl

module _ (w : Workers) (h : IsFlight w) where
  -- A row that is due is not in flight.
  due_not_flying :
      (now : ℕ) (queues : List String) (k : ℕ) (j : QueueJob)
      → lookup k w.table.jobs ≡ some j
      → is_due now queues j ≡ true
      → lookup k w.in_flight ≡ none
  due_not_flying now queues k j e due = elim (Option-cases (lookup k w.in_flight)) [
    | inl out ↦ out
    | inr (l, flying) ↦
        let (there, runs) = h.standing k l flying in
        let idle = running_not_pending l.status runs in absurd (ground (arith, e, there, idle, due))
  ]

  died-IsFlight : (i : ℕ) → IsFlight (record w { in_flight = erase i w.in_flight })
  died-IsFlight i = record {
    keyed = h.keyed;
    fresh = h.fresh;
    once = erase-IsKeyed i w.in_flight h.once;
    standing = λ k j e. h.standing k j (ground (arith, lookup-erase i k w.in_flight h.once));
  }

  ended-IsFlight :
      (settings : QueueSettings) (now i : ℕ) (j : QueueJob) (outcome : Option String)
      → lookup i w.in_flight ≡ some j
      → IsFlight (record w {
        table = (run_job settings now i j outcome w.table).1;
        in_flight = erase i w.in_flight;
        unreported = with_report (run_job settings now i j outcome w.table).0 w.unreported;
      })
  ended-IsFlight settings now i j outcome flying =
      let wr = run_job-Writes settings now i j w.table outcome in
      let (there, runs) = h.standing i j flying in
      record {
        keyed = wr.keyed h.keyed;
        fresh = λ k le.
            let gone = h.fresh k (ground (arith, wr.next_job)) in
            elim (eq_or_ne i k) [
              | inl here ↦ absurd (ground (arith, gone, there, here))
              | inr ne ↦ wr.elsewhere k ne ∙ gone
            ];
        once = erase-IsKeyed i w.in_flight h.once;
        standing = λ k l e.
            let after = lookup-erase i k w.in_flight h.once in
            elim (eq_or_ne i k) [
              | inl here ↦ absurd (ground (arith, after, here, e))
              | inr ne ↦
                  let stands = h.standing k l (ground (arith, after, ne, e)) in
                  (wr.elsewhere k ne ∙ stands.0, stands.1)
            ];
      }

  claims-IsFlight :
      (now : ℕ) (queues : List String) (limit : ℕ)
      → IsFlight (record w {
        table = (claim_jobs now queues limit w.table).1;
        in_flight = (claim_jobs now queues limit w.table).0 ++ w.in_flight;
      })
  unfolding claim_jobs
  claims-IsFlight now queues limit =
      let ps = picked now queues limit w.table.jobs in
      let part = picked-IsPartOf now queues limit w.table.jobs h.keyed in
      record {
        keyed = claim_rows-IsKeyed now ps w.table.jobs h.keyed;
        fresh = λ k le.
            let gone = h.fresh k le in
            elim (Option-cases (lookup k ps)) [
              | inl out ↦ claim_rows-out now k ps w.table.jobs out ∙ gone
              | inr (j, e) ↦ absurd (ground (arith, gone, (part.found k j e).0))
            ];
        once =
            append-IsKeyed (returning now ps) w.in_flight (returning-IsKeyed now ps part.keyed)
              h.once
              (λ k there. elim (Option-cases (lookup k ps)) [
                | inl out ↦ absurd (there (lookup-returning now k ps ∙ ap (claimed_at now) out))
                | inr (j, e) ↦
                    due_not_flying now queues k j (part.found k j e).0 (part.found k j e).1
              ]);
        standing = λ k l e.
            let both = lookup-append k (returning now ps) w.in_flight in
            let back = lookup-returning now k ps in
            elim (Option-cases (lookup k ps)) [
              | inl out ↦
                  let stands = h.standing k l (ground (arith, both, back, out, e)) in
                  (claim_rows-out now k ps w.table.jobs out ∙ stands.0, stands.1)
              | inr (j, picks) ↦
                  let is_claimed : claimed now j ≡ l = ground (arith, both, back, picks, e) in
                  (
                    claim_rows-in now k j ps w.table.jobs picks ∙ ap some is_claimed,
                    sym (ap (λ (x : QueueJob). x.status) is_claimed),
                  )
            ];
      }

  Enqueued-IsFlight : {q : Queue} → Enqueued w.table q → IsFlight (record w { table = q })
  Enqueued-IsFlight (inl e) = rw e h
  Enqueued-IsFlight (inr (j, e, _, _)) = rw e (record {
    keyed = insert-IsKeyed w.table.next_job j w.table.jobs h.keyed;
    fresh = λ k le.
        ground (arith, lookup-insert w.table.next_job k j w.table.jobs, h.fresh k (ground arith));
    once = h.once;
    standing = λ k l flying.
        let stands = h.standing k l flying in
        let free = h.fresh w.table.next_job (ground arith) in
        (ground (arith, lookup-insert w.table.next_job k j w.table.jobs, stands.0, free), stands.1);
  })

  -- The reports are no part of it.
  reports-IsFlight :
      (failed_jobs unreported gone : List FailedJob)
      → IsFlight (record w {
        table = record w.table { failed_jobs = failed_jobs };
        unreported = unreported;
        gone = gone;
      })
  reports-IsFlight failed_jobs unreported gone = record {
    keyed = h.keyed;
    fresh = h.fresh;
    once = h.once;
    standing = h.standing;
  }

pub Next-IsFlight :
    {settings : QueueSettings} {w w' : Workers} → Next settings w w' → IsFlight w → IsFlight w'
unfolding record_failed_job
Next-IsFlight {settings} {w} (enqueued now job_name args kwargs name job_key defer) h =
    Enqueued-IsFlight w h
      (enqueue_job-Enqueued settings now job_name args kwargs name job_key defer w.table)
Next-IsFlight {settings} {w} (by_database now job_name args kwargs name job_key at) h =
    Enqueued-IsFlight w h
      (enqueue_queue_job-Enqueued now job_name args kwargs name job_key at w.table)
Next-IsFlight {settings} {w} (claims now queues limit) h = claims-IsFlight w h now queues limit
Next-IsFlight {settings} {w} (ended now i j outcome flying) h =
    ended-IsFlight w h settings now i j outcome flying
Next-IsFlight {settings} {w} (reported fs gs f e) h =
    reports-IsFlight w h (f ∷ w.table.failed_jobs) (fs ++ gs) w.gone
Next-IsFlight {settings} {w} (died i) h = died-IsFlight w h i
Next-IsFlight {settings} {w} (lost fs gs f e) h =
    reports-IsFlight w h w.table.failed_jobs (fs ++ gs) (f ∷ w.gone)
Next-IsFlight {settings} {w} (removed fs gs f e) h =
    reports-IsFlight w h (fs ++ gs) w.unreported (f ∷ w.gone)

-- Where the keys of the table are unique and the next one is free, and each job in flight is there
-- once and stands in the table as its claim left it, running, this is so after any number of steps
-- of any number of workers: jobs enqueued (also by the database's schedule), claimed, ended by a return or
-- an exception, and dropped by a worker that dies, and reports written, lost and deleted. No job is ever run by two workers at once.
pub Later-IsFlight :
    {settings : QueueSettings} {w w' : Workers} → Later settings w w' → IsFlight w → IsFlight w'
Later-IsFlight start h = h
Later-IsFlight (step before last) h = Next-IsFlight last (Later-IsFlight before h)
