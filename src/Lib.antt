-- ===== src/Lib.antt =====
-- PyBoard: the trade of the panel, from an order to its payment, its plan and its commission, and the
-- services beside it: accounts and logins, the job queue, the runtime cache, the settings, tickets and the
-- users' traffic.
--
-- The parts, and where they stand in the repository:
--   Model      the tables' rows (app/models/*/base.py); Model/Period the payment periods
--   Db         the database as a record of tables, the queries and writes of app/repositories
--   Exec       a service method as a function of the state that may raise (app/core/exceptions.py);
--              `request` is one session with commit and rollback (app/core/database.py)
--   Runtime    what the services take from Python and the settings, as a record of operations
--   Coupon     app/services/coupon.py: checks, discount, use on an order, Admin
--   Codes      the codes of coupons and gift cards
--   Order      app/services/order.py: Rules (activity, months, kinds, capacity, deposit bonus),
--              Create, Checkout, Notify (the gateway's callback), Process (`_process_paid_order`),
--              Manage (cancellations, manual payment, and app/queues/jobs/order.py)
--   Commission app/services/commission.py: the commission of an order, its transfer, and
--              app/queues/jobs/commission.py
--   Giftcard   app/services/giftcard.py: the redemption of a gift card, Admin
--   Plan       app/services/plan.py: the deletion of a plan
--   Queue      app/core/queue.py, app/queues/worker.py, app/queues/failure_handler.py: the table of jobs;
--              Turn (the order of a claim), Flight (the workers that share it, as steps), Worker (the loop
--              with `once`, and the jobs that are enqueued while it runs), Scan
--              (`check_order` of app/queues/jobs/maintenance.py), Cron
--              (the function of the first migration in alembic/versions that enqueues from SQL)
--   Cache      app/core/cache.py: the runtime cache; View compares it with a map
--   Settings   app/services/setting.py on its table and the cache: Table (the writes), Coherent (what the
--              cache may say), Transparent (with and without the cache), RoundTrip
--   Ticket     app/services/ticket.py on tables of its own: Threads (what each request writes), History
--   Accounts   app/services/auth.py, app/services/user.py, app/utils/password.py and
--              app/services/turnstile.py on tables of their own and the cache: Password, Checks (before a
--              registration), Sessions (tokens), Register, Invite (the invite codes of
--              app/services/commission.py), Columns and Profile (the writes on an account), Generate
--   Traffic    app/queues/jobs/pg_cache.py: the traffic cache and its flush to the users
--   Payments   the interface of app/payments that the order service uses, and what fills it: Epay
--              (app/payments/epay.py and app/payments/registry.py)
--   Lifecycle  what holds of orders, balances and commissions through the requests
--   Prelude, Json  shared helpers, integers, rows of a table, JSON values
--   Tests      concrete databases and runs
--
-- A service method of the source is a function of the same name. A method takes the row's primary
-- key where the source takes a loaded row, and reads the row from the table: an attribute that is
-- assigned is seen by every later query, since SQLAlchemy flushes before one. Assignments that
-- stand before a raise with no query between are written together after it: an exception rolls the
-- whole request back, which `request` says. A long method is cut at its blocks into functions, one
-- for each block, composed as the blocks follow one another.
--
-- A code of a coupon or a gift card has no constraint in the database: a query by code takes the first
-- row, where the source raises for two rows of one code, and the services keep the codes apart.
-- Random draws are given as a function from the number of the draw.
--
-- MD5, `urlencode` and the reading of a decimal are parameters, and so are `json.loads`,
-- argon2, bcrypt, jose and the request to Cloudflare are parameters; a theorem that needs them to accept
-- what they made says so. A request on the accounts has its email as the validator of app/models/user/dto.py
-- leaves it. The register limit's window and the numbers of traffic and time in an update of an account are
-- taken not to be negative. A code that the services of the accounts send is not mailed.
--
-- What EPay signs is written without `urlencode` and `unquote_plus`, which undo each other. A decimal has at
-- most 28 digits, where Python's products are exact. The values of a callback are texts, as a form
-- sends them, and so are those of a configuration, which is stored as an object of JSON (`PaymentConfig`).
--
-- A statement of the queue or the cache is atomic: PostgreSQL locks the rows it claims (`SKIP LOCKED`).
-- A job of the queue is run by steps: its claim, its end, which writes `queue_job`, and, if it failed, its
-- report in `failed_jobs`, a transaction of its own; anything of the others comes between, and a worker may die
-- before each. A deletion of a report, by `retry_job` or an administrator (app/services/admin_tools.py), is a step
-- too. The functions of the jobs are parameters: whether they raise counts, and which jobs they enqueue. In
-- Queue/Worker the calls of a round stand before its ends; no end reads or writes what a call does.
--
-- Loops are structural: over the draws of a code (at most a hundred, as in the source),
-- the coupons that are generated, the tiers of the deposit bonus, the items of a coupon's lists, the
-- rows of a table. Only `run_worker` takes fuel, one for each round; enough is one for each try that is left to a job that waits or that is
-- enqueued meanwhile, and one more for each such job and for the last round, since a round uses up a try of what
-- it claims. That only finitely many jobs are enqueued meanwhile is a hypothesis there: with jobs that
-- enqueue others for ever the loop does not end. The loop without `once` does not end at all. A worker
-- that stops because its report cannot be written is a step of Queue/Flight, and not in the loop.
--
-- The limits. `Env` gives one clock reading for a request. Floats, the calendar of `datetime`,
-- texts, JSON and the settings' getters are parameters, of which the theorems on orders assume nothing; the
-- theorems on Settings name what they ask of the driver and of `str`, `int` and orjson. Money
-- is a Python integer, keys and Unix times are natural numbers; the widths of the database's
-- integer columns are not modelled. Two requests of a service do not interleave: a request stands for a
-- transaction that holds its row locks. An update of a setting does not send null for a value or a type.
-- A refused insertion of a job takes no number of the sequence. The requests of Lifecycle/History are those of
-- app/services/order.py and of the commission; the deletion of an account (`delete_user`), which deletes its
-- orders, is modelled in Accounts on tables of its own and is not one of them. In Cache/View the counts that
-- `delete` and `cleanup_expired` return and the call `expire` are left out, which see expired rows. Log
-- messages, payloads, read-only lists, rendering, mail and servers are left out. The rate of a node
-- multiplies bytes by a parameter, a function on integers, and reports come normalised.
pub mod Accounts
pub mod Cache
pub mod Codes
pub mod Commission
pub mod Coupon
pub mod Db
pub mod Exec
pub mod Giftcard
pub mod Json
pub mod Lifecycle
pub mod Model
pub mod Order
pub mod Payments
pub mod Plan
pub mod Prelude
pub mod Queue
pub mod Runtime
pub mod Settings
pub mod Tests
pub mod Ticket
pub mod Traffic
