-- ===== src/Queue/Worker/Once.antt =====
-- The rounds of `run_worker` of app/queues/worker.py with `once`.
use mathlib.Core.Path.{subst}
use py_board.Prelude.{
  ℕ, zero, suc, ◌+◌, ◌≤◌, ◌<◌, ◌≡◌, refl, sym, ap, ◌∙◌, ◌⊎◌, inl, inr, String, false, Option, some,
  List, [], ◌∷◌, arith, Bool-cases,
}
use py_board.Prelude.Rows.{Rows, lookup, IsKeyed}
use py_board.Queue.{
  Queue, QueueJob, QueueSettings, returning, claim_rows, claim_jobs, picked, is_due,
}
use py_board.Queue.Turn.{size, picked_in_turn}
use py_board.Queue.Worker.{Rounds, queue_names, run_round, run_worker}
use py_board.Queue.Worker.Calls.{IsOrderly, work, costs}
use py_board.Queue.Worker.Ends.{round-work}

pub picked-cases :
    (ps : Rows QueueJob) → (ps ≡ []) ⊎ ((r : ℕ × QueueJob) × (rs : Rows QueueJob) × (ps ≡ r ∷ rs))
picked-cases [] = inl refl
picked-cases (r ∷ rs) = inr (r, rs, refl)

-- No job of the queues is due.
abbrev pub IsIdle : ℕ → List String → Queue → Type 0
IsIdle now queues q =
    (k : ℕ) (j : QueueJob) → lookup k q.jobs ≡ some j → is_due now queues j ≡ false

nothing_picked :
    (now : ℕ) (queues : List String) (limit : ℕ) (q : Queue)
    → IsKeyed q.jobs
    → 1 ≤ limit
    → picked now queues limit q.jobs ≡ []
    → IsIdle now queues q
unfolding lookup size
nothing_picked now queues limit q t some_limit e k j here =
    elim (Bool-cases (is_due now queues j)) [
      | inl due ↦
          let full = (picked_in_turn now queues limit k j q.jobs t here due (rw e refl)).0 in
          absurd (ground (arith, some_limit, ap size e, full))
      | inr idle ↦ idle
    ]

module _ (settings : QueueSettings) (rounds : Rounds) (queues : List String) where
  -- The end of a round, by what was claimed.
  after_claim : ℕ → ℕ → Rows QueueJob × Queue → Option (ℕ × Queue)
  after_claim fuel n claim =
      let rest =
        run_worker settings rounds fuel queues (n + 1)
          (run_round settings rounds n claim.0 claim.1) in
      elim claim.0 [ [] ↦ some (n, claim.1) | r ∷ rs ↦ rest ]

  run_worker_round :
      (fuel n : ℕ) (q : Queue)
      → run_worker settings rounds (suc fuel) queues n q
        ≡ after_claim fuel n
            (claim_jobs (rounds.clock n) (queue_names settings queues) settings.queue_max_jobs q)
  unfolding run_worker after_claim
  run_worker_round fuel n q = refl

  pub idle_round :
      (fuel n : ℕ) (q : Queue)
      → picked (rounds.clock n) (queue_names settings queues) settings.queue_max_jobs q.jobs ≡ []
      → run_worker settings rounds (suc fuel) queues n q ≡ some (n, q)
  unfolding after_claim claim_jobs returning claim_rows
  idle_round fuel n q e =
      run_worker_round fuel n q
      ∙ ap
          (λ ps. after_claim fuel n (
            returning (rounds.clock n) ps,
            record q { jobs = claim_rows (rounds.clock n) ps q.jobs },
          ))
          e

  pub busy_round :
      (fuel n : ℕ) (q : Queue) (r : ℕ × QueueJob) (rs : Rows QueueJob)
      → picked (rounds.clock n) (queue_names settings queues) settings.queue_max_jobs q.jobs
        ≡ r ∷ rs
      → let claim =
          claim_jobs (rounds.clock n) (queue_names settings queues) settings.queue_max_jobs q in
        run_worker settings rounds (suc fuel) queues n q
        ≡ run_worker settings rounds fuel queues
            (n + 1)
            (run_round settings rounds n claim.0 claim.1)
  unfolding after_claim claim_jobs returning
  busy_round fuel n q r rs e =
      run_worker_round fuel n q
      ∙ subst
          (λ ps.
            after_claim fuel n (
              returning (rounds.clock n) ps,
              record q { jobs = claim_rows (rounds.clock n) ps q.jobs },
            )
            ≡ run_worker settings rounds fuel queues (n + 1) (
                run_round settings rounds n (returning (rounds.clock n) ps)
                  (record q { jobs = claim_rows (rounds.clock n) ps q.jobs })))
          (sym e) refl

  -- What the loop comes to.
  abbrev pub Ended : ℕ → ℕ → Queue → Type 0
  Ended fuel n q =
      (m : ℕ) × (q' : Queue) × (run_worker settings rounds fuel queues n q ≡ some (m, q'))
      × IsIdle (rounds.clock m) (queue_names settings queues) q'

  -- In each round `n`, the calls cost what `budget` says at most, which is finite in all.
  abbrev pub IsWithin : (ℕ → ℕ) → Type 0
  IsWithin budget = (n : ℕ) → costs settings (rounds.calls n) + budget (n + 1) ≤ budget n

  -- Where the keys of the table are unique and the next one is free, the settings allow at least one job at
  -- once (`queue_max_jobs`), and what is enqueued while the worker runs, by its own jobs too, comes to an end
  -- (`budget` counts for each of these jobs its tries, and one): a worker that is started with `once` stops,
  -- whatever the jobs come to and however long they take. It takes at most as many rounds as the jobs that
  -- wait and those that are enqueued have tries left, each plus one. When it stops, no job of its queues is due.
  pub run_worker-ends :
      (budget : ℕ → ℕ) (fuel n : ℕ) (q : Queue)
      → IsOrderly q
      → 1 ≤ settings.queue_max_jobs
      → IsWithin budget
      → work settings q.jobs + budget n < fuel
      → Ended fuel n q
  unfolding size
  run_worker-ends budget zero n q t limit within enough = absurd (ground arith)
  run_worker-ends budget (suc fuel) n q t limit within enough =
      let now = rounds.clock n in
      let names = queue_names settings queues in
      elim (picked-cases (picked now names settings.queue_max_jobs q.jobs)) [
        | inl e ↦ (
          n,
          q,
          idle_round fuel n q e,
          nothing_picked now names settings.queue_max_jobs q t.keyed limit e,
        )
        | inr (r, rs, e) ↦
            let claim = claim_jobs now names settings.queue_max_jobs q in
            let after = run_round settings rounds n claim.0 claim.1 in
            let (less, orderly) =
              round-work settings rounds now names settings.queue_max_jobs q t n in
            let (m, q', ran, idle) =
              run_worker-ends budget fuel (n + 1) after orderly limit within
                (ground (arith, less, ap size e, enough, within n)) in
            (m, q', busy_round fuel n q r rs e ∙ ran, idle)
      ]
