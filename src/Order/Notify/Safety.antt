-- ===== src/Order/Notify/Safety.antt =====
-- What an answer to a payment gateway means.
use py_board.Prelude.{
  ℕ, String, ◌≡◌, refl, ◌⊎◌, inl, inr, true, false, ◌||◌, Option, none, some, arith, ◌==◌,
  Option-cases,
}
use py_board.Prelude.Int.{ℤ}
use py_board.Runtime.{Env}
use py_board.Model.Entity.{Order, Payment}
use py_board.Exec.{Result, Result-cases, ok, err}
use py_board.Db.{Db, get_by_trade_no}
use py_board.Payments.{Gateways, Params, PaymentNotifyResult}
use py_board.Order.Process.{process_paid_order}
use py_board.Order.Checkout.{expected_amount}
use py_board.Order.Notify.{
  success, fail, is_paid, or_fail, open_gateway, settle, verify, handle_payment_notify, get_by_uuid,
}

or_fail-fail :
    (p : Result (Unit {0}) × Db) (s : Db) → (or_fail p s).0 ≡ ok fail → (or_fail p s).1 ≡ s
or_fail-fail (ok u, s') s h = cc
or_fail-fail (err e, s') s h = ground arith

or_fail-success : (p : Result (Unit {0}) × Db) (s : Db) → (or_fail p s).0 ≡ ok success → p.0 ≡ ok tt
or_fail-success (ok u, s') s h = refl
or_fail-success (err e, s') s h = ground arith

is_paid_lem : (a : Option ℤ) (n : ℤ) → is_paid a n ≡ true → a ≡ some n
is_paid_lem none n h = cc
is_paid_lem (some m) n h = ground arith

module _ (env : Env) (g : Gateways) where
  settle-fail :
      (m : ℕ) (n : PaymentNotifyResult) (s : Db)
      → (settle env g m n s).0 ≡ ok fail
      → (settle env g m n s).1 ≡ s
  unfolding settle
  settle-fail m n s h = elim (Option-cases (get_by_trade_no n.trade_no s)) [
    | inl gone ↦ rw (gone, settle)
    | inr ((i, o), found) ↦
        ground
          (arith, or_fail-fail (process_paid_order env i (some n.callback_no) "system" none s) s)
  ]

  -- An answer "fail" to a payment gateway leaves the database as it was.
  pub notify-fail :
      (n u : String) (q : Params) (s : Db)
      → (handle_payment_notify env g n u q s).0 ≡ ok fail
      → (handle_payment_notify env g n u q s).1 ≡ s
  unfolding handle_payment_notify verify
  notify-fail n u q s h = elim (Option-cases (get_by_uuid u s)) [
    | inl gone ↦ rw (gone, handle_payment_notify)
    | inr ((m, p), found) ↦ elim (Result-cases (open_gateway env g n p)) [
      | inr (x, e) ↦ ground arith
      | inl (none, e) ↦ ground arith
      | inl (some c, e) ↦ elim (Result-cases (g.verify_notify c q)) [
        | inr (x, e') ↦ ground arith
        | inl (notify, e') ↦ ground (arith, settle-fail m notify s)
      ]
    ]
  ]

  -- What stands behind an answer "success": the order of the notification, which was checked out with
  -- the method `m` and whose total with its fee is the amount paid; it was opened now, or it is
  -- neither waiting nor being opened.
  abbrev pub IsSettled : ℕ → PaymentNotifyResult → Db → Type 0
  IsSettled m n s =
      (i : ℕ) × (o : Order) × (get_by_trade_no n.trade_no s ≡ some (i, o))
      × (o.payment_id ≡ some m)
      × (n.paid_amount ≡ some (expected_amount o))
      × (((o.status == 0 || o.status == 1) ≡ false)
          ⊎ ((process_paid_order env i (some n.callback_no) "system" none s).0 ≡ ok tt))

  settle-success :
      (m : ℕ) (n : PaymentNotifyResult) (s : Db)
      → (settle env g m n s).0 ≡ ok success
      → IsSettled m n s
  unfolding settle
  settle-success m n s h = elim (Option-cases (get_by_trade_no n.trade_no s)) [
    | inl gone ↦ absurd (ground arith)
    | inr ((i, o), found) ↦ (
      i,
      o,
      found,
      ground arith,
      is_paid_lem n.paid_amount (expected_amount o) (ground arith),
      ground (
        arith,
        or_fail-success (process_paid_order env i (some n.callback_no) "system" none s) s,
      ),
    )
  ]

  -- An answer "success" is only given for an enabled payment method whose gateway accepted the
  -- callback's parameters, and for an order that was checked out with this method and whose amount
  -- with its fee is exactly the amount paid; the order was opened, or needed no opening.
  pub notify-success :
      (n u : String) (q : Params) (s : Db)
      → (handle_payment_notify env g n u q s).0 ≡ ok success
      → (m : ℕ) × (p : Payment) × (c : Params) × (get_by_uuid u s ≡ some (m, p))
        × (p.enable ≡ true)
        × (open_gateway env g n p ≡ ok (some c))
        × (notify : PaymentNotifyResult) × (g.verify_notify c q ≡ ok notify)
        × (notify.is_success ≡ true)
        × IsSettled m notify s
  unfolding handle_payment_notify verify
  notify-success n u q s h = elim (Option-cases (get_by_uuid u s)) [
    | inl gone ↦ absurd (ground arith)
    | inr ((m, p), found) ↦ elim (Result-cases (open_gateway env g n p)) [
      | inr (x, e) ↦ absurd (ground arith)
      | inl (none, e) ↦ absurd (ground arith)
      | inl (some c, e) ↦ elim (Result-cases (g.verify_notify c q)) [
        | inr (x, e') ↦ absurd (ground arith)
        | inl (notify, e') ↦ (
          m,
          p,
          c,
          found,
          ground arith,
          e,
          notify,
          e',
          ground arith,
          settle-success m notify s (ground arith),
        )
      ]
    ]
  ]
