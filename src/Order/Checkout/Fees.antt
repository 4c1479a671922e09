-- ===== src/Order/Checkout/Fees.antt =====
-- The amount that a checkout asks a gateway for, and the amount that the callback must report.
use mathlib.Core.Path.{subst}
use py_board.Prelude.{
  ℕ, String, ◌≡◌, refl, inl, inr, some, ap, arith, ◌∙◌, sym, Bool-cases, Option-cases,
}
use py_board.Prelude.Int.{ℤ, pos, leb_ℤ}
use py_board.Prelude.Rows.{lookup, insert, lookup-insert_self}
use py_board.Runtime.{Env}
use py_board.Model.Entity.{Order, Payment}
use py_board.Exec.{Result, Result-cases, ok}
use py_board.Db.{Db, get_pending_by_trade_no}
use py_board.Payments.{Gateways, PaymentRequest, Params}
use py_board.Order.Checkout.{
  Reply, link, expected_amount, get_enabled_by_id, handling_fee, with_fee, payment_request,
  request_link, checkout_paid, checkout,
}

module _ (env : Env) (g : Gateways) where
  open g use {pay}

  -- A link of a gateway: the order was pending, the method is enabled, and the gateway was asked for
  -- the amount that the row of the order stands for after the checkout, under the order's number.
  abbrev pub IsAsked : ℕ → String → ℕ → String → Db → Db → Type 0
  IsAsked u t m url s s' =
      (i : ℕ) × (o o' : Order) × (p : Payment) × (request : PaymentRequest)
      × (get_pending_by_trade_no t u s ≡ some (i, o))
      × (get_enabled_by_id m s ≡ some p)
      × (lookup i s'.orders ≡ some o')
      × (o'.payment_id ≡ some m)
      × (request.total_amount ≡ expected_amount o')
      × (request.trade_no ≡ o'.trade_no)
      × (o'.total_amount ≡ o.total_amount)
      × ((config : Params) × (pay config request ≡ ok url))
      × (s'.users ≡ s.users)

  with_fee_lem :
      (o : Order) (fee : ℤ) (m : ℕ)
      → ((with_fee o fee m).payment_id ≡ some m)
        × ((with_fee o fee m).total_amount ≡ o.total_amount)
        × ((with_fee o fee m).trade_no ≡ o.trade_no)
  with_fee_lem o fee m = ground arith

  request_link_lem :
      (o : Order) (p : Payment) (u : ℕ) (url : String) (s : Db)
      → (request_link env g o p u s).0 ≡ ok (link url)
      → ((request : PaymentRequest) × (request.total_amount ≡ expected_amount o)
          × (request.trade_no ≡ o.trade_no)
          × ((config : Params) × (pay config request ≡ ok url)))
        × ((request_link env g o p u s).1.orders ≡ s.orders)
        × ((request_link env g o p u s).1.users ≡ s.users)
  unfolding request_link
  request_link_lem o p u url s h =
      elim (Result-cases (g.create_payment_gateway p.payment p.config)) [
        | inr (x, e) ↦ absurd (ground arith)
        | inl (config, e) ↦ elim (Result-cases (g.route_gateway_name p.payment)) [
          | inr (x, er) ↦ absurd (ground arith)
          | inl (route, er) ↦ elim (Result-cases (pay config (payment_request env g o p route))) [
            | inr (x, ep) ↦ absurd (ground arith)
            | inl (url', ep) ↦
                let same : url' ≡ url = ground arith in
                (
                  (payment_request env g o p route, refl, refl, (config, ep ∙ ap ok same)),
                  ground arith,
                  ground arith,
                )
          ]
        ]
      ]

  -- A checkout that returns a gateway's link has asked for exactly the amount that a callback must
  -- report for the order as it stands afterwards: its total with its fee, under its number, with the
  -- method that the callback's method is compared with. The order was pending, the method is enabled,
  -- the total is unchanged and no user is.
  pub checkout-IsAsked :
      (u : ℕ) (t : String) (m : ℕ) (url : String) (s : Db)
      → (checkout env g u t m s).0 ≡ ok (link url)
      → IsAsked u t m url s (checkout env g u t m s).1
  unfolding checkout checkout_paid
  checkout-IsAsked u t m url s h = elim (Option-cases (get_pending_by_trade_no t u s)) [
    | inl gone ↦ absurd (ground arith)
    | inr ((i, o), found) ↦ elim (Bool-cases (leb_ℤ o.total_amount (pos 0))) [
      | inl free ↦ absurd (ground arith)
      | inr paid ↦ elim (Option-cases (get_enabled_by_id m s)) [
        | inl off ↦ absurd (ground arith)
        | inr (p, enabled) ↦ elim (Result-cases (handling_fee env o p)) [
          | inr (x, e) ↦ absurd (ground arith)
          | inl (fee, e) ↦
              let s1 : Db = record s { orders = insert i (with_fee o fee m) s.orders } in
              let eq : checkout env g u t m s ≡ request_link env g (with_fee o fee m) p u s1 =
                rw (found, paid, enabled, e) refl in
              let ((request, amount, number, asked), orders, users) =
                request_link_lem (with_fee o fee m) p u url s1
                  (sym (ap (λ (r : Result Reply × Db). r.0) eq) ∙ h) in
              let (method, total, same_number) = with_fee_lem o fee m in
              subst (λ (r : Result Reply × Db). IsAsked u t m url s r.1) (sym eq)
                (
                  i,
                  o,
                  with_fee o fee m,
                  p,
                  request,
                  found,
                  enabled,
                  rw orders (lookup-insert_self i (with_fee o fee m) s.orders),
                  method,
                  amount,
                  number,
                  total,
                  asked,
                  users,
                )
        ]
      ]
    ]
  ]
