-- ===== src/Commission/Grant.antt =====
-- What the commission of an order (`calculate_for_order`) does to the users and to the ledger.
use py_board.Prelude.{
  ℕ, String, ◌≡◌, ◌≢◌, refl, ◌⊎◌, inl, inr, false, none, some, arith, ◌==◌, Bool-cases,
  Option-cases,
}
use py_board.Prelude.Int.{ℤ, pos, ◌+ℤ◌, ◌≤ℤ◌, leb_ℤ}
use py_board.Prelude.Rows.{lookup, insert}
use py_board.Runtime.{Env}
use py_board.Model.Entity.{User, Order, CommissionLog}
use py_board.Exec.{Result-cases}
use py_board.Db.{Db, set_order, get_commission_log, create_commission_log}
use py_board.Commission.{
  or_key, is_skipped, refuse, grant, commission_amount, is_repeat, pay_inviter, pay_for,
  pay_commission, calculate_unskipped, calculate_for_order,
}

-- The ledger row of an order's commission.
abbrev pub ledger_row : Order → ℕ → ℤ → CommissionLog
ledger_row o w amount = record {
  invite_user_id = w;
  user_id = o.user_id;
  trade_no = o.trade_no;
  order_amount = o.total_amount;
  get_amount = amount;
}

-- No user and no ledger row is changed.
pub record Quiet (s s' : Db) : Type 0 where
  pub users : s'.users ≡ s.users
  pub commission_logs : s'.commission_logs ≡ s.commission_logs

-- One inviter, who is not the buyer, is credited a positive amount, and one row of the ledger, the
-- first for the order's number, says so.
pub record Granted (s s' : Db) (u : ℕ) (t : String) (total : ℤ) : Type 0 where
  pub inviter_id : ℕ
  pub inviter : User
  pub amount : ℤ
  pub found : lookup inviter_id s.users ≡ some inviter
  pub other : (inviter_id == u) ≡ false
  pub positive : pos 1 ≤ℤ amount
  pub first : get_commission_log t s ≡ none
  pub users :
      s'.users
      ≡ insert inviter_id
          (record inviter { commission_balance = inviter.commission_balance +ℤ amount })
          s.users
  pub commission_logs :
      s'.commission_logs
      ≡ insert s.next_commission_log
          (record {
            invite_user_id = inviter_id;
            user_id = u;
            trade_no = t;
            order_amount = total;
            get_amount = amount;
          })
          s.commission_logs

abbrev pub Outcome : Db → Db → ℕ → String → ℤ → Type 0
Outcome s s' u t total = Quiet s s' ⊎ Granted s s' u t total

quiet : (s : Db) → Quiet s s
quiet s = record { users = refl; commission_logs = refl }

module _ (env : Env) (i : ℕ) (o : Order) (s : Db)
    (free : get_commission_log o.trade_no s ≡ none) where
  abbrev Of : Db → Type 0
  Of s' = Outcome s s' o.user_id o.trade_no o.total_amount

  refused : Of (refuse i o s).1
  refused = inl (record { users = refl; commission_logs = refl })

  grant-Of :
      (w : ℕ) (inviter : User) (amount : ℤ)
      → lookup w s.users ≡ some inviter
      → (w == o.user_id) ≡ false
      → leb_ℤ amount (pos 0) ≡ false
      → Of (grant i o w inviter amount s).1
  unfolding grant create_commission_log
  grant-Of w inviter amount found other h = inr (record {
    inviter_id = w;
    inviter = inviter;
    amount = amount;
    found = found;
    other = other;
    positive = ground arith;
    first = free;
    users = ground arith;
    commission_logs = ground arith;
  })

  pay_inviter-Of :
      (w : ℕ) (inviter : User)
      → lookup w s.users ≡ some inviter
      → (w == o.user_id) ≡ false
      → Of (pay_inviter env i o w inviter s).1
  unfolding pay_inviter
  pay_inviter-Of w inviter found other = elim (Bool-cases (is_repeat env o s)) [
    | inl again ↦ rw again refused
    | inr first ↦ elim (Result-cases (commission_amount env o inviter)) [
      | inr (x, e) ↦ rw (first, e) (inl (quiet s))
      | inl (amount, e) ↦ elim (Bool-cases (leb_ℤ amount (pos 0))) [
        | inl nothing ↦ rw (first, e, nothing) refused
        | inr positive ↦ rw (first, e, positive) (grant-Of w inviter amount found other positive)
      ]
    ]
  ]

  pay_for-Of : (user : User) → Of (pay_for env i o user s).1
  unfolding pay_for
  pay_for-Of user = elim (Option-cases (or_key o.invite_user_id user.invite_user_id)) [
    | inl nobody ↦ rw (nobody, pay_for) refused
    | inr (w, e) ↦ elim (Bool-cases (w == o.user_id)) [
      | inl self ↦ rw (e, self, pay_for) refused
      | inr other ↦ elim (Option-cases (lookup w s.users)) [
        | inl gone ↦ rw (e, other, gone, pay_for) refused
        | inr (inviter, found) ↦
            rw (e, other, found, pay_for) (pay_inviter-Of w inviter found other)
      ]
    ]
  ]

  pay_commission-Of : Of (pay_commission env i o s).1
  unfolding pay_commission
  pay_commission-Of = elim (Option-cases (lookup o.user_id s.users)) [
    | inl gone ↦ rw (gone, pay_commission) (inl (quiet s))
    | inr (user, found) ↦ rw (found, pay_commission) (pay_for-Of user)
  ]

-- A write of the order alone before it makes no difference.
before_order :
    (i : ℕ) (v : Order) {s s' : Db} {u : ℕ} {t : String} {total : ℤ}
    → Outcome (set_order i v s).1 s' u t total
    → Outcome s s' u t total
before_order i v (inl q) = inl (record { users = q.users; commission_logs = q.commission_logs })
before_order i v (inr g) = inr (record {
  inviter_id = g.inviter_id;
  inviter = g.inviter;
  amount = g.amount;
  found = g.found;
  other = g.other;
  positive = g.positive;
  first = g.first;
  users = g.users;
  commission_logs = g.commission_logs;
})

module _ (env : Env) (i : ℕ) (s : Db) where
  calculate_unskipped-Outcome :
      (o : Order) → Outcome s (calculate_unskipped env i o s).1 o.user_id o.trade_no o.total_amount
  unfolding calculate_unskipped
  calculate_unskipped-Outcome o = elim (Option-cases (get_commission_log o.trade_no s)) [
    | inr (l, logged) ↦ rw logged (inl (record { users = refl; commission_logs = refl }))
    | inl free ↦ rw free (
        before_order i (record o { commission_status = 1 })
          (pay_commission-Of env i (record o { commission_status = 1 })
            (set_order i (record o { commission_status = 1 }) s).1 free))
  ]

  -- The commission of an order that is in the table either changes no user and no row of the ledger,
  -- or credits one inviter, who is not the buyer, a positive amount, with one new row of the ledger
  -- for exactly this amount, where the ledger had none for the order's number.
  pub calculate_for_order-Outcome :
      (o : Order)
      → lookup i s.orders ≡ some o
      → Outcome s (calculate_for_order env i s).1 o.user_id o.trade_no o.total_amount
  unfolding calculate_for_order
  calculate_for_order-Outcome o here = elim (Bool-cases (is_skipped o)) [
    | inl skip ↦ rw (here, skip, calculate_for_order) (inl (quiet s))
    | inr work ↦ rw (here, work, calculate_for_order) (calculate_unskipped-Outcome o)
  ]

  -- Where the ledger has a row for the order's number, the commission of the order changes no user
  -- and no row of the ledger.
  pub logged-Quiet :
      (o : Order)
      → lookup i s.orders ≡ some o
      → get_commission_log o.trade_no s ≢ none
      → Quiet s (calculate_for_order env i s).1
  logged-Quiet o here logged = elim (calculate_for_order-Outcome o here) [
    | inl q ↦ q
    | inr g ↦ absurd (logged g.first)
  ]
