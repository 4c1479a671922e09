-- ===== src/Queue/Scan.antt =====
-- `check_order` of app/queues/jobs/maintenance.py: the scan that enqueues `order_handle` jobs.
pub mod Keys
pub mod Once
use Prim.Native.String.{◌++◌ as joined}
use py_board.Prelude.{
  ℕ, ◌+◌, String, Bool, true, false, ◌||◌, Option, none, some, List, [], ◌∷◌, ◌==◌, leb,
  if◌then◌else◌,
}
use py_board.Prelude.Rows.{Rows}
use py_board.Json
use py_board.Model.Entity.{Order}
use py_board.Queue.{Queue, QueueSettings, at_once, enqueue_job}

-- `ORDER BY created_at ASC`; two orders of the same second stand as in the table.
unfoldable pub place_order : Order → List Order → List Order
place_order o [] = o ∷ []
place_order o (p ∷ os) = if leb o.created_at p.created_at then o ∷ p ∷ os else p ∷ place_order o os

-- `status IN (0, 1)`
unfoldable pub open_orders : Rows Order → List Order
open_orders [] = []
open_orders ((i, o) ∷ t) =
    let rest = open_orders t in if o.status == 0 || o.status == 1 then place_order o rest else rest

-- f"order_handle:{order.trade_no}"
abbrev pub order_key : String → String
order_key t = joined "order_handle:" t

abbrev pub enqueue_order : QueueSettings → ℕ → Order → Queue → Option ℕ × Queue
enqueue_order settings now o q =
    enqueue_job settings now "order_handle" (Json.list (Json.item (Json.text o.trade_no) Json.end))
      Json.object (some "order_handle") (some (order_key o.trade_no)) at_once q

-- `clock n` is the time of the n-th call.
unfoldable pub enqueue_orders : QueueSettings → (ℕ → ℕ) → ℕ → List Order → Queue → Queue
enqueue_orders settings clock n [] q = q
enqueue_orders settings clock n (o ∷ os) q =
    enqueue_orders settings clock (n + 1) os (enqueue_order settings (clock n) o q).1

unfoldable pub check_order : QueueSettings → (ℕ → ℕ) → Rows Order → Queue → Queue
check_order settings clock orders q = enqueue_orders settings clock 0 (open_orders orders) q
