-- ===== src/Lifecycle/Managed.antt =====
-- The requests that find an order and write its row: app/services/order.py and its queue job.
use py_board.Prelude.{
  ℕ, String, ◌≡◌, refl, inl, inr, Bool, true, Option, none, some, arith, Option-cases, Bool-cases,
  ◌==◌, ◌||◌, opt_eq, leb, ◌+◌,
}
use py_board.Prelude.Int.{ℤ, pos, leb_ℤ}
use py_board.Prelude.Rows.{find}
use py_board.Runtime.{Env}
use py_board.Model.Entity.{Order, Payment, LogEvent}
use py_board.Exec.{Result, Result-cases, ok, err, ◌>>◌, pure, is_app_exception}
use py_board.Db.{Db, set_order, get_by_trade_no, has_trade_no, get_pending_by_trade_no, log_event}
use py_board.Payments.{Gateways, Params, PaymentNotifyResult}
use py_board.Order.Process.{process_paid_order, order_event}
use py_board.Order.Checkout.{
  checkout, checkout_paid, request_link, with_fee, free, get_enabled_by_id, handling_fee,
  expected_amount,
}
use py_board.Order.Notify.{
  handle_payment_notify, verify, settle, or_fail, is_paid, open_gateway, get_by_uuid,
}
use py_board.Order.Manage.{
  cancelled, cancel_order, admin_cancel_order, admin_update_order, set_commission_status,
  admin_mark_paid, order_handle,
}
use py_board.Lifecycle.Relation.{Follows, Progress, Progress-refl, Progress-trans}
use py_board.Lifecycle.Keeps.{Keeps, Progress-found, keeps_rules}
use py_board.Lifecycle.Payment.{process_paid_order-Progress}

-- The cancellation of a pending order.
cancelled-Follows : (o : Order) → o.status ≡ 0 → Follows o (cancelled o)
cancelled-Follows o h = ground arith

pub cancel_order-Keeps : (t : String) (u : ℕ) → Keeps (cancel_order t u)
unfolding cancel_order
cancel_order-Keeps t u = record {
  at = λ s. elim (Option-cases (get_by_trade_no t s)) [
    | inl gone ↦ rw gone (Progress-refl s)
    | inr ((i, o), found) ↦ elim (Bool-cases (o.user_id == u)) [
      | inl own ↦ elim (Bool-cases (o.status == 0)) [
        | inl pending ↦
            rw (found, own, pending)
              (Progress-found (has_trade_no t) i o (cancelled o) found
                (cancelled-Follows o (ground arith)) refl refl)
        | inr closed ↦ rw (found, own, closed) (Progress-refl s)
      ]
      | inr other ↦ rw (found, other) (Progress-refl s)
    ]
  ];
}

pub admin_cancel_order-Keeps : (t : String) (a : Option ℕ) → Keeps (admin_cancel_order t a)
unfolding admin_cancel_order
admin_cancel_order-Keeps t a = record {
  at = λ s. elim (Option-cases (get_by_trade_no t s)) [
    | inl gone ↦ rw gone (Progress-refl s)
    | inr ((i, o), found) ↦ elim (Bool-cases (o.status == 0)) [
      | inl pending ↦
          rw (found, pending)
            (Progress-found (has_trade_no t) i o (cancelled o) found
              (cancelled-Follows o (ground arith)) refl refl)
      | inr closed ↦ rw (found, closed) (Progress-refl s)
    ]
  ];
}

commission_status-Follows : (o : Order) (n : ℕ) → Follows o (record o { commission_status = n })
commission_status-Follows o n = ground arith

-- A write of the row's commission status alone, and then a log event.
pub admin_update_order-Keeps :
    (t : String) (n : Option (Option ℕ)) (a : Option ℕ) → Keeps (admin_update_order t n a)
unfolding admin_update_order set_commission_status
admin_update_order-Keeps t none a = search keeps_rules depth 10
admin_update_order-Keeps t (some none) a = record {
  at = λ s. elim (Option-cases (get_by_trade_no t s)) [
    | inl gone ↦ rw gone (Progress-refl s)
    | inr ((i, o), found) ↦ rw found (Progress-refl s)
  ];
}
admin_update_order-Keeps t (some (some n)) a = record {
  at = λ s. elim (Option-cases (get_by_trade_no t s)) [
    | inl gone ↦ rw gone (Progress-refl s)
    | inr ((i, o), found) ↦ rw found (
        Progress-found (has_trade_no t) i o (record o { commission_status = n }) found
          (commission_status-Follows o n) refl refl)
  ];
}

module _ (env : Env) where
  process-Keeps :
      (i : ℕ) (c : Option String) (t : String) (a : Option ℕ)
      → Keeps (process_paid_order env i c t a)
  process-Keeps i c t a = record { at = process_paid_order-Progress env i c t a }

  pub admin_mark_paid-Keeps : (t : String) (a : Option ℕ) → Keeps (admin_mark_paid env t a)
  unfolding admin_mark_paid
  admin_mark_paid-Keeps t a = search (keeps_rules, process-Keeps) depth 14

  pub order_handle-Keeps : (t : String) → Keeps (order_handle env t)
  unfolding order_handle
  order_handle-Keeps t = record {
    at = λ s. elim (Option-cases (get_by_trade_no t s)) [
      | inl gone ↦ rw (gone, order_handle) (Progress-refl s)
      | inr ((i, o), found) ↦ elim (Bool-cases (o.status == 0)) [
        | inl pending ↦ elim (Bool-cases (leb (o.created_at + 7200) env.now)) [
          | inl late ↦
              rw (found, pending, late, order_handle)
                (Progress-found (has_trade_no t) i o (cancelled o) found
                  (cancelled-Follows o (ground arith)) refl refl)
          | inr early ↦ rw (found, pending, early, order_handle) (Progress-refl s)
        ]
        | inr started ↦ elim (Bool-cases (o.status == 1)) [
          | inl opening ↦
              rw (found, started, opening, order_handle)
                (process_paid_order-Progress env i none "system" none s)
          | inr closed ↦ rw (found, started, closed, order_handle) (Progress-refl s)
        ]
      ]
    ];
  }

  with_fee-Follows : (o : Order) (fee : ℤ) (n : ℕ) → Follows o (with_fee o fee n)
  with_fee-Follows o fee n = ground arith

  module _ (g : Gateways) where
    request_link-Keeps : (o : Order) (p : Payment) (u : ℕ) → Keeps (request_link env g o p u)
    unfolding request_link
    request_link-Keeps o p u = search keeps_rules depth 12

    pub checkout_paid-Progress :
        (i : ℕ) (o : Order) (u n : ℕ) (s : Db) (p : Order → Bool)
        → find p s.orders ≡ some (i, o)
        → Progress s (checkout_paid env g i o u n s).1
    unfolding checkout_paid
    checkout_paid-Progress i o u n s p found = elim (Option-cases (get_enabled_by_id n s)) [
      | inl off ↦ rw off (Progress-refl s)
      | inr (m, on) ↦ elim (Result-cases (handling_fee env o m)) [
        | inl (fee, e) ↦
            rw (on, e)
              (Progress-trans
                (Progress-found p i o (with_fee o fee n) {s = s}
                  {s' = (set_order i (with_fee o fee n) s).1} found (with_fee-Follows o fee n) refl
                  refl)
                ((request_link-Keeps (with_fee o fee n) m u).at
                  (set_order i (with_fee o fee n) s).1))
        | inr (x, e) ↦ rw (on, e) (Progress-refl s)
      ]
    ]

    free_checkout-Keeps :
        (i : ℕ) (e : LogEvent) (u : ℕ)
        → Keeps
            (log_event e >> (process_paid_order env i none "user" (some u) >> pure {S = Db} free))
    free_checkout-Keeps i e u = search (keeps_rules, process-Keeps) depth 10

    pub checkout-Keeps : (u : ℕ) (t : String) (n : ℕ) → Keeps (checkout env g u t n)
    unfolding checkout
    checkout-Keeps u t n = record {
      at = λ s. elim (Option-cases (get_pending_by_trade_no t u s)) [
        | inl gone ↦ rw gone (Progress-refl s)
        | inr ((i, o), found) ↦ elim (Bool-cases (leb_ℤ o.total_amount (pos 0))) [
          | inl nothing ↦
              rw (found, nothing)
                ((free_checkout-Keeps i (order_event o "order.checkout" "user" (some u)) u).at s)
          | inr amount ↦ rw (found, amount) (checkout_paid-Progress i o u n s _ found)
        ]
      ];
    }

    or_fail-Progress :
        (r : Result (Unit {0}) × Db) (s : Db) → Progress s r.1 → Progress s (or_fail r s).1
    or_fail-Progress (ok _, s') s h = h
    or_fail-Progress (err e, s') s h = elim (Bool-cases (is_app_exception e)) [
      | inl app ↦ rw app (Progress-refl s)
      | inr crash ↦ rw crash h
    ]

    settle-Progress : (m : ℕ) (n : PaymentNotifyResult) (s : Db) → Progress s (settle env g m n s).1
    unfolding settle
    settle-Progress m n s = elim (Option-cases (get_by_trade_no n.trade_no s)) [
      | inl gone ↦ rw (gone, settle) (Progress-refl s)
      | inr ((i, o), found) ↦ elim (Bool-cases (opt_eq o.payment_id (some m))) [
        | inr other ↦ rw (found, other, settle) (Progress-refl s)
        | inl method ↦ elim (Bool-cases (is_paid n.paid_amount (expected_amount o))) [
          | inr wrong ↦ rw (found, method, wrong, settle) (Progress-refl s)
          | inl right ↦ elim (Bool-cases (o.status == 0 || o.status == 1)) [
            | inr closed ↦ rw (found, method, right, closed, settle) (Progress-refl s)
            | inl waiting ↦
                rw (found, method, right, waiting, settle)
                  (or_fail-Progress (process_paid_order env i (some n.callback_no) "system" none s)
                    s (process_paid_order-Progress env i (some n.callback_no) "system" none s))
          ]
        ]
      ]
    ]

    verify-Progress : (m : ℕ) (c p : Params) (s : Db) → Progress s (verify env g m c p s).1
    unfolding verify settle
    verify-Progress m c p s = elim (Result-cases (g.verify_notify c p)) [
      | inr (x, raised) ↦ rw (raised, verify) (Progress-refl s)
      | inl (notify, checked) ↦ elim (Bool-cases notify.is_success) [
        | inl good ↦ rw (checked, verify) (rw good (settle-Progress m notify s))
        | inr bad ↦ rw (checked, verify) (rw bad (Progress-refl s))
      ]
    ]

    pub handle_payment_notify-Keeps :
        (n u : String) (q : Params) → Keeps (handle_payment_notify env g n u q)
    unfolding handle_payment_notify open_gateway
    handle_payment_notify-Keeps n u q = record {
      at = λ s. elim (Option-cases (get_by_uuid u s)) [
        | inl gone ↦ rw (gone, handle_payment_notify) (Progress-refl s)
        | inr ((m, p), found) ↦ elim (Bool-cases p.enable) [
          | inr off ↦ rw (found, off, handle_payment_notify) (Progress-refl s)
          | inl on ↦ opened m p s found on (open_gateway env g n p) refl
        ]
      ];
    }
      where
        opened :
            (m : ℕ) (p : Payment) (s : Db)
            → get_by_uuid u s ≡ some (m, p)
            → p.enable ≡ true
            → (r : Result (Option Params)) → open_gateway env g n p ≡ r
            → Progress s (handle_payment_notify env g n u q s).1
        opened m p s found on (err e) h = rw (found, on, h, handle_payment_notify) (Progress-refl s)
        opened m p s found on (ok none) h =
            rw (found, on, h, handle_payment_notify) (Progress-refl s)
        opened m p s found on (ok (some c)) h =
            rw (found, on, h, handle_payment_notify) (verify-Progress m c q s)
