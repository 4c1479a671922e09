-- ===== src/Queue/Worker/Ends.antt =====
-- The work that is left to `run_worker` of app/queues/worker.py, before and after a round.
use py_board.Prelude.{
  ℕ, ◌+◌, ◌-◌, ◌≤◌, ◌≡◌, ◌≢◌, refl, sym, ap, ◌∙◌, inl, inr, String, true, false, Option, none, some,
  List, [], ◌∷◌, arith, ltb, Option-cases, Bool-cases, if◌then◌else◌, eq_or_ne,
}
use py_board.Prelude.Rows.{Rows, lookup, insert, IsKeyed, lookup-insert_ne, insert-IsKeyed}
use py_board.Queue.{
  Queue, QueueJob, QueueSettings, is_pending, claimed, tries_of, claim_rows, returning, claim_jobs,
  picked, run_job, FailedJob, record_failed_job,
}
use py_board.Queue.Picked.{picked-IsPartOf}
use py_board.Queue.Turn.{size}
use py_board.Queue.Flight.Claims.{
  claim_rows-in, claim_rows-out, claim_rows-IsKeyed, lookup-returning, returning-IsKeyed,
}
use py_board.Queue.Flight.Tries.Ending.{Ended, run_job-Ended}
use py_board.Queue.Flight.Steps.{run_job-Writes}
use py_board.Queue.Worker.{Rounds, after_report, answer_all, run_jobs, run_round}
use py_board.Queue.Worker.Calls.{
  IsOrderly, weight, work, costs, answer_all-work, answer_all-IsOrderly, answer_all-kept,
}

after_report-jobs : (r : Option FailedJob × Queue) → (after_report r).jobs ≡ r.1.jobs
after_report-jobs (none, q) = refl
after_report-jobs (some f, q) = unfold record_failed_job in refl

after_report-next_job : (r : Option FailedJob × Queue) → (after_report r).next_job ≡ r.1.next_job
after_report-next_job (none, q) = refl
after_report-next_job (some f, q) = unfold record_failed_job in refl

module _ (settings : QueueSettings) where
  -- The weight that a row which runs can bring back: it waits again only if it has a try left.
  abbrev pub gain : QueueJob → ℕ
  gain j =
      if ltb j.attempts (tries_of settings j.max_tries)
      then 1 + (tries_of settings j.max_tries - j.attempts)
      else 0

  unfoldable pub gains : Rows QueueJob → ℕ
  gains [] = 0
  gains ((i, j) ∷ t) = gain j + gains t

  work-insert :
      (i : ℕ) (v old : QueueJob) (t : Rows QueueJob)
      → lookup i t ≡ some old
      → work settings (insert i v t) + weight settings old ≡ work settings t + weight settings v
  unfolding lookup insert work
  work-insert i v old [] e = ground arith
  work-insert i v old ((k, x) ∷ t) e = ground (arith, work-insert i v old t)

  -- A claim takes the weight of what it claims from the table, and what runs can bring back less.
  claim_rows-work :
      (now : ℕ) (ps t : Rows QueueJob)
      → IsKeyed ps
      → ((k : ℕ) (j : QueueJob) → lookup k ps ≡ some j → lookup k t ≡ some j)
      → work settings (claim_rows now ps t) + work settings ps ≡ work settings t
  unfolding claim_rows work lookup
  claim_rows-work now [] t h there = ground arith
  claim_rows-work now ((i, j) ∷ ps) t h there =
      let rest = claim_rows-work now ps t h.1 (λ k l e. there k l (ground (arith, h.0, e))) in
      let stands : lookup i (claim_rows now ps t) ≡ some j =
        claim_rows-out now i ps t h.0 ∙ there i j (ground arith) in
      ground (arith, rest, work-insert i (claimed now j) j (claim_rows now ps t) stands)

  returning-gains :
      (now : ℕ) (ps : Rows QueueJob)
      → IsKeyed ps
      → ((k : ℕ) (j : QueueJob) → lookup k ps ≡ some j → is_pending j.status ≡ true)
      → gains (returning now ps) + size ps ≤ work settings ps
  unfolding returning gains work lookup size
  returning-gains now [] h waits = ground arith
  returning-gains now ((i, j) ∷ ps) h waits =
      let rest = returning-gains now ps h.1 (λ k l e. waits k l (ground (arith, h.0, e))) in
      ground (arith, rest, waits i j (ground arith))

  -- The end of one job: the work of the table grows by what the row can bring back.
  module _ (i : ℕ) (j : QueueJob) (q : Queue) (r : Option FailedJob × Queue)
      (end : Ended settings i j q r) where
    less : weight settings end.row ≤ gain j
    less = elim (Bool-cases (is_pending end.row.status)) [
      | inl waits ↦ ground (arith, waits, end.again waits, end.attempts, end.max_tries)
      | inr over ↦ ground (arith, over)
    ]

    pub Ended-written : (after_report r).jobs ≡ insert i end.row q.jobs
    Ended-written = after_report-jobs r ∙ end.written

    Ended-work :
        lookup i q.jobs ≡ some j
        → work settings (after_report r).jobs ≤ work settings q.jobs + gain j
    Ended-work here =
        let wrote = work-insert i end.row j q.jobs here in
        ground (arith, wrote, Ended-written, less)

    pub Ended-elsewhere : (k : ℕ) → i ≢ k → lookup k (after_report r).jobs ≡ lookup k q.jobs
    Ended-elsewhere k ne = rw Ended-written (lookup-insert_ne i k end.row q.jobs ne)

    Ended-IsOrderly :
        lookup i q.jobs ≡ some j
        → r.1.next_job ≡ q.next_job
        → IsOrderly q
        → IsOrderly (after_report r)
    Ended-IsOrderly here same h = record {
      keyed = rw Ended-written (insert-IsKeyed i end.row q.jobs h.keyed);
      fresh = λ k le.
          let gone = h.fresh k (ground (arith, after_report-next_job r, same)) in
          elim (eq_or_ne i k) [
            | inl at ↦ absurd (ground (arith, gone, here, at))
            | inr ne ↦ Ended-elsewhere k ne ∙ gone
          ];
    }

  -- Each row stands in the table, running.
  abbrev pub AreRunning : Rows QueueJob → Queue → Type 0
  AreRunning rs q =
      (k : ℕ) (j : QueueJob)
      → lookup k rs ≡ some j
      → (lookup k q.jobs ≡ some j) × (is_pending j.status ≡ false)

  pub AreRunning-tail :
      (i : ℕ) (j : QueueJob) (rs : Rows QueueJob) (q q' : Queue)
      → lookup i rs ≡ none
      → AreRunning ((i, j) ∷ rs) q
      → ((k : ℕ) → i ≢ k → lookup k q'.jobs ≡ lookup k q.jobs)
      → AreRunning rs q'
  unfolding lookup
  AreRunning-tail i j rs q q' new there elsewhere k l e = elim (eq_or_ne i k) [
    | inl same ↦ absurd (ground (arith, new, e, same))
    | inr ne ↦
        let (stands, runs) = there k l (ground (arith, ne, e)) in (elsewhere k ne ∙ stands, runs)
  ]

  pub AreRunning-head :
      (i : ℕ) (j : QueueJob) (rs : Rows QueueJob) (q : Queue)
      → AreRunning ((i, j) ∷ rs) q
      → lookup i q.jobs ≡ some j
  unfolding lookup
  AreRunning-head i j rs q there = (there i j (ground arith)).0

  module _ (rounds : Rounds) where
    run_jobs-work :
        (n : ℕ) (rs : Rows QueueJob) (q : Queue)
        → IsKeyed rs
        → IsOrderly q
        → AreRunning rs q
        → (work settings (run_jobs settings rounds n rs q).jobs ≤ work settings q.jobs + gains rs)
          × IsOrderly (run_jobs settings rounds n rs q)
    unfolding run_jobs gains
    run_jobs-work n [] q h t there = (ground arith, t)
    run_jobs-work n ((i, j) ∷ rs) q h t there =
        let here = AreRunning-head i j rs q there in
        let r = run_job settings (rounds.end n i) i j (rounds.outcome n i) q in
        let end = run_job-Ended settings (rounds.end n i) i j q here (rounds.outcome n i) in
        let wr = run_job-Writes settings (rounds.end n i) i j q (rounds.outcome n i) in
        let rest =
          run_jobs-work n rs (after_report r) h.1 (Ended-IsOrderly i j q r end here wr.next_job t)
            (AreRunning-tail i j rs q (after_report r) h.0 there (Ended-elsewhere i j q r end)) in
        (ground (arith, rest.0, Ended-work i j q r end here), rest.1)

    module _ (now : ℕ) (queues : List String) (limit : ℕ) (q : Queue) (t : IsOrderly q) where
      claims_running :
          AreRunning (claim_jobs now queues limit q).0 (claim_jobs now queues limit q).1
      unfolding claim_jobs
      claims_running k j e =
          let ps = picked now queues limit q.jobs in
          let back = lookup-returning now k ps in
          elim (Option-cases (lookup k ps)) [
            | inl out ↦ absurd (ground (arith, back, out, e))
            | inr (v, picks) ↦
                let is_claimed : claimed now v ≡ j = ground (arith, back, picks, e) in
                (
                  claim_rows-in now k v ps q.jobs picks ∙ ap some is_claimed,
                  ap (λ (x : QueueJob). is_pending x.status) (sym is_claimed),
                )
          ]

      pub claims-IsOrderly : IsOrderly (claim_jobs now queues limit q).1
      unfolding claim_jobs
      claims-IsOrderly =
          let ps = picked now queues limit q.jobs in
          let part = picked-IsPartOf now queues limit q.jobs t.keyed in
          record {
            keyed = claim_rows-IsKeyed now ps q.jobs t.keyed;
            fresh = λ k le.
                let gone = t.fresh k le in
                elim (Option-cases (lookup k ps)) [
                  | inl out ↦ claim_rows-out now k ps q.jobs out ∙ gone
                  | inr (j, e) ↦ absurd (ground (arith, gone, (part.found k j e).0))
                ];
          }

      -- The table that the claimed jobs end on: the calls of the round are in it.
      abbrev pub called : ℕ → Queue
      called n = answer_all settings (rounds.calls n) (claim_jobs now queues limit q).1

      pub called_running : (n : ℕ) → AreRunning (claim_jobs now queues limit q).0 (called n)
      called_running n k j e =
          let (there, runs) = claims_running k j e in
          (answer_all-kept settings (rounds.calls n) _ k j claims-IsOrderly there, runs)

      claimed_work :
          (work settings (claim_jobs now queues limit q).1.jobs
              + gains (claim_jobs now queues limit q).0
              + size (picked now queues limit q.jobs)
            ≤ work settings q.jobs)
          × IsKeyed (claim_jobs now queues limit q).0
      unfolding claim_jobs
      claimed_work =
          let ps = picked now queues limit q.jobs in
          let part = picked-IsPartOf now queues limit q.jobs t.keyed in
          let took = claim_rows-work now ps q.jobs part.keyed (λ k j e. (part.found k j e).0) in
          let brings =
            returning-gains now ps part.keyed (λ k j e. ground (arith, (part.found k j e).1)) in
          (ground (arith, took, brings), returning-IsKeyed now ps part.keyed)

      -- One round of the loop, with what it claimed and what was called.
      pub round-work :
          (n : ℕ)
          → let after =
              run_round settings rounds n
                (claim_jobs now queues limit q).0
                (claim_jobs now queues limit q).1 in
            (work settings after.jobs + size (picked now queues limit q.jobs)
              ≤ work settings q.jobs + costs settings (rounds.calls n))
            × IsOrderly after
      unfolding run_round
      round-work n =
          let (took, keyed) = claimed_work in
          let added = answer_all-work settings (rounds.calls n) (claim_jobs now queues limit q).1 in
          let ran =
            run_jobs-work n (claim_jobs now queues limit q).0 (called n) keyed
              (answer_all-IsOrderly settings (rounds.calls n) _ claims-IsOrderly)
              (called_running n) in
          (ground (arith, took, added, ran.0), ran.1)
