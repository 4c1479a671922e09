-- ===== src/Queue/Worker/Calls.antt =====
-- The jobs that are enqueued while `run_worker` of app/queues/worker.py runs a round.
use py_board.Prelude.{
  ℕ, zero, suc, ◌+◌, ◌-◌, ◌≤◌, ◌≡◌, refl, ◌⊎◌, inl, inr, none, some, List, [], ◌∷◌, arith,
  Bool-cases, if◌then◌else◌,
}
use py_board.Prelude.Rows.{Rows, lookup, insert, IsKeyed, lookup-insert, insert-IsKeyed}
use py_board.Queue.{
  Queue, QueueJob, QueueSettings, is_pending, tries_of, add_job, key_or_none, is_taken, enqueue_job,
}
use py_board.Queue.Cron.{enqueue_queue_job}
use py_board.Queue.Flight.Steps.{Enqueued, enqueue_job-Enqueued, enqueue_queue_job-Enqueued}
use py_board.Queue.Worker.{Call, by_application, by_schedule, answer, answer_all}

-- The keys of the table are unique and the next one is free.
pub record IsOrderly (q : Queue) : Type 0 where
  pub keyed : IsKeyed q.jobs
  pub fresh : (k : ℕ) → q.next_job ≤ k → lookup k q.jobs ≡ none

module _ (q : Queue) (h : IsOrderly q) where
  Enqueued-IsOrderly : {q' : Queue} → Enqueued q q' → IsOrderly q'
  Enqueued-IsOrderly (inl e) = rw e h
  Enqueued-IsOrderly (inr (j, e, _, _)) = rw e (record {
    keyed = insert-IsKeyed q.next_job j q.jobs h.keyed;
    fresh = λ k le. ground (arith, lookup-insert q.next_job k j q.jobs, h.fresh k (ground arith));
  })

  -- A row that is there stays as it is.
  Enqueued-kept :
      {q' : Queue} (k : ℕ) (v : QueueJob)
      → Enqueued q q'
      → lookup k q.jobs ≡ some v
      → lookup k q'.jobs ≡ some v
  Enqueued-kept k v (inl e) there = rw e there
  Enqueued-kept k v (inr (j, e, _, _)) there =
      let free = h.fresh q.next_job (ground arith) in
      rw e (ground (arith, lookup-insert q.next_job k j q.jobs, there, free))

module _ (settings : QueueSettings) where
  -- What is left to do for a row that waits: at most its tries, and one claim.
  abbrev pub weight : QueueJob → ℕ
  weight j = if is_pending j.status then 1 + (tries_of settings j.max_tries - j.attempts) else 0

  unfoldable pub work : Rows QueueJob → ℕ
  work [] = 0
  work ((i, j) ∷ t) = weight j + work t

  -- The work that a call brings at most.
  abbrev pub cost : Call → ℕ
  cost (by_application _ _ _ _ _ _ _) = 1 + settings.queue_max_tries
  cost (by_schedule _ _ _ _ _ _ _) = 4

  unfoldable pub costs : List Call → ℕ
  costs [] = 0
  costs (c ∷ cs) = cost c + costs cs

  work-insert_le :
      (i : ℕ) (v : QueueJob) (t : Rows QueueJob) → work (insert i v t) ≤ work t + weight v
  unfolding insert work
  work-insert_le i v [] = ground arith
  work-insert_le i v ((k, x) ∷ t) = ground (arith, work-insert_le i v t)

  tries_of_le :
      (n : ℕ) → n ≡ settings.queue_max_tries → tries_of settings n ≤ settings.queue_max_tries
  tries_of_le zero e = ground arith
  tries_of_le (suc n) e = ground arith

  -- What a call comes to, with the work that it brings.
  Costs : ℕ → Queue → Queue → Type 0
  Costs n q q' = (q' ≡ q) ⊎ ((v : QueueJob) × (q' ≡ add_job v q) × (weight v ≤ n))

  Costs-work : (n : ℕ) (q q' : Queue) → Costs n q q' → work q'.jobs ≤ work q.jobs + n
  unfolding Costs
  Costs-work n q q' (inl e) = rw e (ground arith)
  Costs-work n q q' (inr (v, e, le)) = rw e (ground (arith, work-insert_le q.next_job v q.jobs, le))

  answer-Costs : (c : Call) (q : Queue) → Costs (cost c) q (answer settings c q)
  unfolding Costs enqueue_job enqueue_queue_job
  answer-Costs (by_application now job_name args kwargs name job_key defer) q =
      elim (Bool-cases (is_taken (key_or_none job_key) q.jobs)) [
        | inl taken ↦ rw (taken, answer, enqueue_job) (inl refl)
        | inr new ↦
            rw (new, answer, enqueue_job)
              (inr (_, refl, ground (arith, tries_of_le settings.queue_max_tries refl)))
      ]
  answer-Costs (by_schedule now job_name args kwargs name job_key at) q =
      elim (Bool-cases (is_taken job_key q.jobs)) [
        | inl taken ↦ rw (taken, answer, enqueue_queue_job) (inl refl)
        | inr new ↦ rw (new, answer, enqueue_queue_job) (inr (_, refl, ground arith))
      ]

  answer-work : (c : Call) (q : Queue) → work (answer settings c q).jobs ≤ work q.jobs + cost c
  answer-work c q = Costs-work (cost c) q (answer settings c q) (answer-Costs c q)

  answer-Enqueued : (c : Call) (q : Queue) → Enqueued q (answer settings c q)
  answer-Enqueued (by_application now job_name args kwargs name job_key defer) q =
      enqueue_job-Enqueued settings now job_name args kwargs name job_key defer q
  answer-Enqueued (by_schedule now job_name args kwargs name job_key at) q =
      enqueue_queue_job-Enqueued now job_name args kwargs name job_key at q

  pub answer_all-work :
      (cs : List Call) (q : Queue) → work (answer_all settings cs q).jobs ≤ work q.jobs + costs cs
  unfolding answer_all costs
  answer_all-work [] q = ground arith
  answer_all-work (c ∷ cs) q =
      ground (arith, answer_all-work cs (answer settings c q), answer-work c q)

  pub answer_all-IsOrderly :
      (cs : List Call) (q : Queue) → IsOrderly q → IsOrderly (answer_all settings cs q)
  unfolding answer_all
  answer_all-IsOrderly [] q h = h
  answer_all-IsOrderly (c ∷ cs) q h =
      answer_all-IsOrderly cs (answer settings c q) (Enqueued-IsOrderly q h (answer-Enqueued c q))

  pub answer_all-kept :
      (cs : List Call) (q : Queue) (k : ℕ) (v : QueueJob)
      → IsOrderly q
      → lookup k q.jobs ≡ some v
      → lookup k (answer_all settings cs q).jobs ≡ some v
  unfolding answer_all
  answer_all-kept [] q k v h there = there
  answer_all-kept (c ∷ cs) q k v h there =
      let added = answer-Enqueued c q in
      answer_all-kept cs (answer settings c q) k v (Enqueued-IsOrderly q h added)
        (Enqueued-kept q h k v added there)
