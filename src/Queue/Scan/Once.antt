-- ===== src/Queue/Scan/Once.antt =====
-- `check_order` of app/queues/jobs/maintenance.py: a scan of the orders, and the scans after it.
use py_board.Prelude.{
  ℕ, ◌+◌, ◌≡◌, refl, sym, ap, eq_or_ne, inl, inr, String, Bool, true, ◌||◌, none, some, List, [],
  ◌∷◌, arith, ◌==◌, leb, Bool-cases,
}
use py_board.Prelude.Rows.{Rows, lookup, IsKeyed, lookup-insert_self}
use py_board.Model.Entity.{Order}
use py_board.Queue.{Queue, QueueSettings, at_once, is_taken, enqueue_job}
use py_board.Queue.Flight.{Workers, Next, enqueued, Later, IsFlight}
use py_board.Queue.Flight.Keeps.{Next-IsFlight}
use py_board.Queue.Scan.{
  place_order, open_orders, order_key, enqueue_order, enqueue_orders, check_order,
}
use py_board.Queue.Scan.Keys.{
  IsSpent, Next-IsSpent, Later-IsSpent, order_key_used, IsSpent-is_taken, is_taken-IsSpent,
}

abbrev pub is_open : Order → Bool
is_open o = o.status == 0 || o.status == 1

AreSpent : List Order → Queue → Type 0
AreSpent [] q = Unit
AreSpent (o ∷ os) q = IsSpent (order_key o.trade_no) q × AreSpent os q

module _ (q : Queue) where
  place_order-AreSpent :
      (o : Order) (os : List Order)
      → IsSpent (order_key o.trade_no) q
      → AreSpent os q
      → AreSpent (place_order o os) q
  unfolding place_order AreSpent
  place_order-AreSpent o [] s t = (s, tt)
  place_order-AreSpent o (p ∷ os) s t = elim (Bool-cases (leb o.created_at p.created_at)) [
    | inl first ↦ rw first (s, t)
    | inr later ↦ rw later (t.0, place_order-AreSpent o os s t.1)
  ]

  place_order-IsSpent :
      (o : Order) (os : List Order)
      → AreSpent (place_order o os) q
      → IsSpent (order_key o.trade_no) q × AreSpent os q
  unfolding place_order AreSpent
  place_order-IsSpent o [] s = s
  place_order-IsSpent o (p ∷ os) s = elim (Bool-cases (leb o.created_at p.created_at)) [
    | inl first ↦ rw first at s
    | inr later ↦
        let (p_spent, rest) = (rw later at s) in
        let (o_spent, os_spent) = place_order-IsSpent o os rest in (o_spent, (p_spent, os_spent))
  ]

  open_orders-AreSpent :
      (t : Rows Order)
      → IsKeyed t
      → ((i : ℕ) (o : Order)
          → lookup i t ≡ some o
          → is_open o ≡ true
          → IsSpent (order_key o.trade_no) q)
      → AreSpent (open_orders t) q
  unfolding open_orders lookup AreSpent
  open_orders-AreSpent [] h all = tt
  open_orders-AreSpent ((j, p) ∷ t) h all =
      let rest = open_orders-AreSpent t h.1 (λ i o e. all i o (ground (arith, h.0, e))) in
      elim (Bool-cases (is_open p)) [
        | inl opened ↦
            rw opened (place_order-AreSpent p (open_orders t) (all j p (ground arith) opened) rest)
        | inr closed ↦ rw closed rest
      ]

  open_orders-IsSpent :
      (i : ℕ) (o : Order) (t : Rows Order)
      → AreSpent (open_orders t) q
      → lookup i t ≡ some o
      → is_open o ≡ true
      → IsSpent (order_key o.trade_no) q
  unfolding open_orders lookup AreSpent
  open_orders-IsSpent i o [] s e opened = absurd (ground arith)
  open_orders-IsSpent i o ((j, p) ∷ t) s e opened = elim (Bool-cases (is_open p)) [
    | inl listed ↦
        let (p_spent, rest) = place_order-IsSpent p (open_orders t) (rw listed at s) in
        elim (eq_or_ne j i) [
          | inl same ↦ let is_o : p ≡ o = ground (arith, same, e) in rw (sym is_o) p_spent
          | inr ne ↦ open_orders-IsSpent i o t rest (ground (arith, ne, e)) opened
        ]
    | inr closed ↦
        open_orders-IsSpent i o t (rw closed at s) (ground (arith, e, opened, closed)) opened
  ]

module _ (settings : QueueSettings) where
  enqueue_order-IsSpent :
      (now : ℕ) (o : Order) (q : Queue)
      → IsKeyed q.jobs
      → IsSpent (order_key o.trade_no) (enqueue_order settings now o q).1
  unfolding enqueue_job
  enqueue_order-IsSpent now o q h =
      rw (order_key_used o.trade_no)
        (elim (Bool-cases (is_taken (some (order_key o.trade_no)) q.jobs)) [
          | inl taken ↦ rw taken (is_taken-IsSpent (order_key o.trade_no) q h taken)
          | inr new ↦ rw new (q.next_job, _, lookup-insert_self q.next_job _ q.jobs, refl)
        ])

  spent_again :
      (now : ℕ) (o : Order) (q : Queue)
      → IsSpent (order_key o.trade_no) q
      → enqueue_order settings now o q ≡ (none, q)
  unfolding enqueue_job
  spent_again now o q s =
      rw (order_key_used o.trade_no, IsSpent-is_taken (order_key o.trade_no) q s) refl

  all_spent_again :
      (clock : ℕ → ℕ) (n : ℕ) (os : List Order) (q : Queue)
      → AreSpent os q
      → enqueue_orders settings clock n os q ≡ q
  unfolding enqueue_orders AreSpent
  all_spent_again clock n [] q s = refl
  all_spent_again clock n (o ∷ os) q s =
      rw (spent_again (clock n) o q s.0) (all_spent_again clock (n + 1) os q s.1)

  ordered :
      (now : ℕ) (o : Order) (w : Workers)
      → Next settings w (record w { table = (enqueue_order settings now o w.table).1 })
  ordered now o w = enqueued now "order_handle" _ _ _ _ at_once

  enqueue_orders-IsFlight :
      (clock : ℕ → ℕ) (n : ℕ) (os : List Order) (w : Workers)
      → IsFlight w
      → IsFlight (record w { table = enqueue_orders settings clock n os w.table })
  unfolding enqueue_orders
  enqueue_orders-IsFlight clock n [] w h = h
  enqueue_orders-IsFlight clock n (o ∷ os) w h =
      enqueue_orders-IsFlight clock (n + 1) os _ (Next-IsFlight (ordered (clock n) o w) h)

  keeps-IsSpent :
      (k : String) (clock : ℕ → ℕ) (n : ℕ) (os : List Order) (w : Workers)
      → IsFlight w
      → IsSpent k w.table
      → IsSpent k (enqueue_orders settings clock n os w.table)
  unfolding enqueue_orders
  keeps-IsSpent k clock n [] w h s = s
  keeps-IsSpent k clock n (o ∷ os) w h s =
      let last = ordered (clock n) o w in
      keeps-IsSpent k clock (n + 1) os _ (Next-IsFlight last h) (Next-IsSpent k w h last s)

  enqueue_orders-AreSpent :
      (clock : ℕ → ℕ) (n : ℕ) (os : List Order) (w : Workers)
      → IsFlight w
      → AreSpent os (enqueue_orders settings clock n os w.table)
  unfolding enqueue_orders AreSpent
  enqueue_orders-AreSpent clock n [] w h = tt
  enqueue_orders-AreSpent clock n (o ∷ os) w h =
      let last = ordered (clock n) o w in
      let flight = Next-IsFlight last h in
      (
        keeps-IsSpent (order_key o.trade_no) clock (n + 1) os _ flight
            (enqueue_order-IsSpent (clock n) o w.table h.keyed),
        enqueue_orders-AreSpent clock (n + 1) os _ flight,
      )

-- Where the keys of the jobs are unique and the next one is free, and each job in flight is there once
-- and stands in the table as its claim left it: a scan enqueues an `order_handle` job for every order
-- that is pending or processing (status 0 or 1), unless one was enqueued before: afterwards some job of the
-- table has the key of the order.
pub check_order-covers :
    (settings : QueueSettings) (clock : ℕ → ℕ) (orders : Rows Order) (w : Workers)
    → IsFlight w
    → (i : ℕ) (o : Order) → lookup i orders ≡ some o
    → is_open o ≡ true
    → IsSpent (order_key o.trade_no) (check_order settings clock orders w.table)
unfolding check_order
check_order-covers settings clock orders w h i o here opened =
    open_orders-IsSpent _ i o orders
      (enqueue_orders-AreSpent settings clock 0 (open_orders orders) w h) here opened

-- Where the keys of the jobs and of the orders are unique, the next job key is free, and each job in
-- flight is there once and stands in the table as its claim left it: after a scan and any number of
-- steps of the workers, each order that was pending or processing (status 0 or 1) at the scan has a job with its
-- key in the table, and a scan that meets only such orders (the orders with the same numbers, in whichever of
-- the two states now) enqueues nothing at all.
pub check_order-once :
    (settings : QueueSettings) (clock clock' : ℕ → ℕ) (orders orders' : Rows Order) (w w' : Workers)
    → IsFlight w
    → IsKeyed orders'
    → Later settings (record w { table = check_order settings clock orders w.table }) w'
    → ((i : ℕ) (o : Order)
        → lookup i orders' ≡ some o
        → is_open o ≡ true
        → (j : ℕ) × (p : Order) × (lookup j orders ≡ some p)
          × (is_open p ≡ true)
          × (p.trade_no ≡ o.trade_no))
    → ((j : ℕ) (p : Order)
        → lookup j orders ≡ some p
        → is_open p ≡ true
        → IsSpent (order_key p.trade_no) w'.table)
      × (check_order settings clock' orders' w'.table ≡ w'.table)
unfolding check_order
check_order-once settings clock clock' orders orders' w w' h keyed later known = (
  lasts,
  all_spent_again settings clock' 0 (open_orders orders') w'.table (
      open_orders-AreSpent w'.table orders' keyed (λ i o here opened.
        let (j, p, there, was_open, same) = known i o here opened in
        rw (ap order_key same) at (lasts j p there was_open))),
)
  where
    lasts :
        (j : ℕ) (p : Order)
        → lookup j orders ≡ some p
        → is_open p ≡ true
        → IsSpent (order_key p.trade_no) w'.table
    lasts j p there was_open =
        Later-IsSpent (order_key p.trade_no)
          (enqueue_orders-IsFlight settings clock 0 (open_orders orders) w h)
          (check_order-covers settings clock orders w h j p there was_open) later
