-- ===== src/Tests/Queue.antt =====
-- A queue with three jobs, its workers, and two scans of the orders.
use py_board.Prelude.{
  ℕ, ◌+◌, ◌*◌, ◌≤◌, ◌≡◌, refl, sym, inl, inr, eq_or_ne, zero, suc, List, true, none, some, [], ◌∷◌,
  ◌++◌, arith,
}
use py_board.Prelude.Rows.{Rows, lookup, insert, erase, IsKeyed}
use py_board.Json
use py_board.Model.Period.{text_mem}
use py_board.Model.Entity.{Order}
use py_board.Queue.{
  Queue, QueueJob, QueueSettings, is_before, FailedJob, report_of, record_failed_job, running,
  pending, finished, at_once, claimed, place, sort, keep, take, picked, claim_rows, returning,
  claim_jobs, update_job, enqueue_job, fail_job, run_job,
}
use py_board.Queue.Flight
use py_board.Queue.Flight.{Workers, Next, Later, IsFlight, with_report}
use py_board.Queue.Flight.Keeps.{Later-IsFlight}
use py_board.Queue.Flight.Settled.{Later-settled}
use py_board.Queue.Flight.Tries.{IsAccount, IsCounted, Later-IsAccount}
use py_board.Queue.Flight.Tries.Ending.{failures}
use py_board.Queue.Scan.{order_key, check_order}
use py_board.Queue.Scan.Keys.{IsSpent}
use py_board.Queue.Scan.Once.{is_open, check_order-once}
use py_board.Queue.Turn.{size, picked_in_turn}
use py_board.Queue.Worker.{Rounds, Call, by_application}
use py_board.Queue.Worker.Calls.{IsOrderly, work, costs}
use py_board.Queue.Worker.Once.{Ended, run_worker-ends}
use py_board.Tests.Data.{waiting}

abbrev settings : QueueSettings
settings = record {
  queue_default_name = "default";
  queue_max_jobs = 1;
  queue_max_tries = 3;
  queue_retry_jobs = true;
}

abbrev job : ℕ → QueueJob
job at = record {
  queue = "default";
  job_name = "send_mail";
  job_key = none;
  args = Json.null;
  kwargs = Json.object;
  status = pending;
  attempts = 0;
  max_tries = 3;
  scheduled_at = at;
  reserved_at = none;
  finished_at = none;
  failed_at = none;
  last_error = none;
}

-- The third is not due before the time 500.
abbrev jobs : Rows QueueJob
jobs = (1, job 20) ∷ (2, job 10) ∷ (3, job 500) ∷ []

abbrev table : Queue
table = record { jobs = jobs; next_job = 4; failed_jobs = [] }

first_turn : picked 100 ("default" ∷ []) 1 jobs ≡ (2, job 10) ∷ []
unfolding keep sort place take text_mem
first_turn = refl

jobs-IsKeyed : IsKeyed jobs
unfolding lookup
jobs-IsKeyed = (refl, (refl, (refl, tt)))

waits : lookup 1 (picked 100 ("default" ∷ []) 1 jobs) ≡ none
unfolding keep sort place take lookup text_mem
waits = refl

picked_in_turn_example :
    (size (picked 100 ("default" ∷ []) 1 jobs) ≡ 1)
    × ((i : ℕ) (j : QueueJob)
        → lookup i (picked 100 ("default" ∷ []) 1 jobs) ≡ some j
        → is_before i j 1 (job 20) ≡ true)
unfolding lookup text_mem
picked_in_turn_example =
    picked_in_turn 100 ("default" ∷ []) 1 1 (job 20) jobs jobs-IsKeyed refl refl waits

-- Nothing is in the table, and nothing in flight.
abbrev rest : Workers
rest = record {
  table = record { jobs = []; next_job = 1; failed_jobs = [] };
  in_flight = [];
  unreported = [];
  gone = [];
}

rest-IsFlight : IsFlight rest
unfolding lookup
rest-IsFlight = record {
  keyed = tt;
  fresh = λ k le. refl;
  once = tt;
  standing = λ k j e. ground arith;
}

rest-IsAccount : IsAccount settings rest
unfolding lookup failures
rest-IsAccount = record { counted = λ k j e. ground arith; reports = λ k. refl }

-- Two mails are enqueued, each is claimed by a worker of its own, and the first one raises.
abbrev mailed : ℕ → Workers → Workers
mailed now w = record w {
  table = (enqueue_job settings now "send_mail" Json.null Json.object none none at_once w.table).1;
}

abbrev worked : ℕ → Workers → Workers
worked now w = record w {
  table = (claim_jobs now ("default" ∷ []) 1 w.table).1;
  in_flight = (claim_jobs now ("default" ∷ []) 1 w.table).0 ++ w.in_flight;
}

abbrev two : Workers
two = worked 101 (worked 100 (mailed 10 (mailed 9 rest)))

-- The first job as it was claimed.
abbrev first : QueueJob
first = claimed 100 (job 9)

first_flies : lookup 1 two.in_flight ≡ some first
unfolding enqueue_job claim_jobs returning claim_rows insert keep sort place take lookup text_mem
first_flies = refl

abbrev three : Workers
three = record two {
  table = (run_job settings 102 1 first (some "timeout") two.table).1;
  in_flight = erase 1 two.in_flight;
  unreported = with_report (run_job settings 102 1 first (some "timeout") two.table).0 [];
}

abbrev mail : (now : ℕ) (w : Workers) → Next settings w (mailed now w)
mail now w = Flight.enqueued now "send_mail" Json.null Json.object none none at_once

story : Later settings rest three
story =
    Flight.step
      (Flight.step
        (Flight.step
          (Flight.step (Flight.step Flight.start (mail 9 rest)) (mail 10 (mailed 9 rest)))
          (Flight.claims 100 ("default" ∷ []) 1))
        (Flight.claims 101 ("default" ∷ []) 1))
      (Flight.ended 102 1 first (some "timeout") first_flies)

-- It waits again, with its error, for five seconds.
retried :
    lookup 1 three.table.jobs
    ≡ some (record first {
      status = pending;
      reserved_at = none;
      scheduled_at = 107;
      last_error = some "timeout";
    })
unfolding enqueue_job run_job fail_job update_job claim_jobs returning claim_rows insert keep sort
    place take lookup text_mem
retried = refl

Later-IsFlight_example : IsFlight three
Later-IsFlight_example = Later-IsFlight story rest-IsFlight

-- The second one raises three times and fails: its report is written by a step of its own, and an
-- administrator deletes it.
abbrev last : QueueJob
last = record (job 10) { attempts = 3; status = running; reserved_at = some 200 }

abbrev failing : Workers
failing = record {
  table = record { jobs = (2, last) ∷ []; next_job = 3; failed_jobs = [] };
  in_flight = (2, last) ∷ [];
  unreported = [];
  gone = [];
}

failing-IsFlight : IsFlight failing
unfolding lookup
failing-IsFlight = record {
  keyed = (refl, tt);
  fresh = λ k le. ground arith;
  once = (refl, tt);
  standing = λ k j e. ground arith;
}

failing-IsAccount : IsAccount settings failing
unfolding lookup failures
failing-IsAccount = record { counted = λ k j e. by_row k j e; reports = λ k. ground arith }
  where
    by_row : (k : ℕ) (j : QueueJob) → lookup k failing.table.jobs ≡ some j → IsCounted settings j
    by_row k j e = elim (eq_or_ne 2 k) [
      | inl same ↦
          let is_last : last ≡ j = ground (arith, e, same) in
          rw (sym is_last) (record { tried = ground arith; left = λ p. ground arith })
      | inr ne ↦ absurd (ground (arith, e, ne))
    ]

abbrev unreported : Workers
unreported = record failing {
  table = (run_job settings 201 2 last (some "timeout") failing.table).1;
  in_flight = erase 2 failing.in_flight;
  unreported = with_report (run_job settings 201 2 last (some "timeout") failing.table).0 [];
}

abbrev report : FailedJob
report = report_of 2 last "timeout"

abbrev written : Workers
written = record unreported { table = record_failed_job report unreported.table; unreported = [] }

awaits : unreported.unreported ≡ report ∷ []
unfolding run_job fail_job text_mem
awaits = refl

last_flies : lookup 2 failing.in_flight ≡ some last
unfolding lookup
last_flies = refl

Later-IsAccount_example : IsAccount settings written
Later-IsAccount_example =
    Later-IsAccount settings
      (Flight.step (Flight.step Flight.start (Flight.ended 201 2 last (some "timeout") last_flies))
        (Flight.reported [] [] report awaits))
      failing-IsFlight failing-IsAccount

-- A job that was finished long ago.
abbrev old : QueueJob
old = record (job 1) { status = finished; attempts = 1; finished_at = some 5 }

abbrev quiet : Workers
quiet = record {
  table = record { jobs = (9, old) ∷ []; next_job = 10; failed_jobs = [] };
  in_flight = [];
  unreported = [];
  gone = [];
}

quiet-IsFlight : IsFlight quiet
unfolding lookup
quiet-IsFlight = record {
  keyed = (refl, tt);
  fresh = λ k le. ground arith;
  once = tt;
  standing = λ k j e. ground arith;
}

abbrev claimed_once_more : Workers
claimed_once_more = record quiet {
  table = (claim_jobs 200 ("default" ∷ []) 5 quiet.table).1;
  in_flight = (claim_jobs 200 ("default" ∷ []) 5 quiet.table).0 ++ [];
}

Later-settled_example : lookup 9 claimed_once_more.table.jobs ≡ some old
Later-settled_example =
    Later-settled {settings = settings} 9 old quiet-IsFlight (unfold lookup in refl) refl
      (Flight.step Flight.start (Flight.claims 200 ("default" ∷ []) 5))

-- An order that waits, with the key 1, is scanned at the time 2000.
abbrev orders : Rows Order
orders = waiting.orders

abbrev scanned : Workers
scanned = record rest { table = check_order settings (λ n. 2000) orders rest.table }

orders-IsKeyed : IsKeyed orders
unfolding lookup
orders-IsKeyed = (refl, tt)

-- The job is run at once, which does nothing for an order that is not two hours old. At the time 20000,
-- when it would be cancelled, the scan enqueues nothing.
abbrev handled : Workers
handled = record scanned {
  table = (claim_jobs 2000 ("order_handle" ∷ []) 1 scanned.table).1;
  in_flight = (claim_jobs 2000 ("order_handle" ∷ []) 1 scanned.table).0 ++ [];
}

check_order-once_example :
    ((j : ℕ) (p : Order)
      → lookup j orders ≡ some p
      → is_open p ≡ true
      → IsSpent (order_key p.trade_no) handled.table)
    × (check_order settings (λ n. 20000) orders handled.table ≡ handled.table)
check_order-once_example =
    check_order-once settings (λ n. 2000) (λ n. 20000) orders orders rest handled rest-IsFlight
      orders-IsKeyed (Flight.step Flight.start (Flight.claims 2000 ("order_handle" ∷ []) 1))
      (λ i o here opened. (i, o, here, opened, refl))

table-IsOrderly : IsOrderly table
unfolding lookup
table-IsOrderly = record { keyed = jobs-IsKeyed; fresh = λ k le. ground arith }

-- In the first round a job enqueues another one.
abbrev calls : ℕ → List Call
calls zero = by_application 1 "send_mail" Json.null Json.object none none at_once ∷ []
calls (suc n) = []

abbrev budget : ℕ → ℕ
budget zero = 4
budget (suc n) = 0

-- Every job raises, and a minute passes with each round.
abbrev rounds : Rounds
rounds = record {
  clock = λ n. n * 60;
  end = λ n i. n * 60;
  outcome = λ n i. some "timeout";
  calls = calls;
}

within : (n : ℕ) → costs settings (calls n) + budget (n + 1) ≤ budget n
unfolding costs
within zero = ground arith
within (suc n) = ground arith

-- There are sixteen rounds of work at most.
run_worker-ends_example : Ended settings rounds [] 20 0 table
unfolding work
run_worker-ends_example =
    run_worker-ends settings rounds [] budget 20 0 table table-IsOrderly (ground arith) within
      (ground arith)

-- The same from the time 100 on, when the jobs 1 and 2 are due.
abbrev from_100 : Rounds
from_100 = record rounds { clock = λ n. 100 + n * 60 }
