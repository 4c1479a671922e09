-- ===== src/Order/Process/Balance.antt =====
-- What a paid order does to the balances of the users.
use mathlib.Core.Path.{subst}
use py_board.Prelude.{
  ℕ, ◌≡◌, refl, ◌⊎◌, inl, inr, true, false, ap, arith, ◌==◌, ◌||◌, Bool-cases, Option-cases, ◌∙◌,
  sym,
}
use py_board.Prelude.Int.{ℤ, pos, ◌+ℤ◌, ◌-ℤ◌, ◌≤ℤ◌}
use py_board.Prelude.Rows.{lookup, insert}
use py_board.Runtime.{Env}
use py_board.Model.Period.{is_deposit}
use py_board.Model.Entity.{User, Order}
use py_board.Exec.{Result, Result-cases, ok}
use py_board.Db.{Db}
use py_board.Order.Rules.{deposit_bonus}
use py_board.Order.Process.{pay_balance, open_period, open_plan, credit_deposit, fulfil}
use py_board.Order.Process.Fulfil.{
  taken, pay_balance_lem, open_period_keeps, use_coupon-users, take_slot-reads,
}

-- The balance of the order's user before and after.
abbrev pub IsSettledBy : Env → Order → ℤ → ℤ → Type 0
IsSettledBy env o before after =
    (((is_deposit o.period || o.plan_id == 0) ≡ true)
      × ((bonus : ℤ) × (deposit_bonus env o.total_amount ≡ ok bonus)
          × (after ≡ before +ℤ o.total_amount +ℤ bonus)))
    ⊎ (((is_deposit o.period || o.plan_id == 0) ≡ false)
        × (after ≡ before -ℤ taken o)
        × ((taken o ≡ pos 0) ⊎ (taken o ≤ℤ before)))

module _ (env : Env) (i : ℕ) (o : Order) (user : User) (s : Db) where
  -- One user is written: the order's, with its balance settled.
  abbrev pub Written : Db → Type 0
  Written s' =
      (user' : User) × (s'.users ≡ insert o.user_id user' s.users)
      × IsSettledBy env o user.balance user'.balance

  credit_deposit-Written :
      (is_deposit o.period || o.plan_id == 0) ≡ true
      → (credit_deposit env o user s).0 ≡ ok tt
      → Written (credit_deposit env o user s).1
  unfolding credit_deposit
  credit_deposit-Written kind h = elim (Result-cases (deposit_bonus env o.total_amount)) [
    | inr (x, e) ↦ absurd (ground arith)
    | inl (bonus, e) ↦ (
      record user { balance = user.balance +ℤ o.total_amount +ℤ bonus },
      ground arith,
      inl (kind, (bonus, e, refl)),
    )
  ]

  open_plan-Written :
      (is_deposit o.period || o.plan_id == 0) ≡ false
      → (open_plan env i o user s).0 ≡ ok tt
      → Written (open_plan env i o user s).1
  unfolding open_plan
  open_plan-Written kind h = elim (Option-cases (lookup o.plan_id s.plans)) [
    | inl gone ↦ absurd (ground arith)
    | inr (plan, found) ↦ elim (Result-cases (pay_balance o user)) [
      | inr (x, e) ↦ absurd (ground arith)
      | inl (paid, e) ↦ elim (Result-cases (open_period env o o.plan_id plan paid)) [
        | inr (x, ex) ↦ absurd (ground arith)
        | inl (opened, ex) ↦
            let read = take_slot-reads env o o.plan_id plan user s in
            let same = use_coupon-users env i o s in
            let (paid_balance, enough, of_plan, expiry, of_commission) =
              pay_balance_lem o user paid e in
            let (kept, kept') = open_period_keeps env o o.plan_id plan paid opened ex in
            (opened, ground arith, inr (kind, kept ∙ paid_balance, enough))
      ]
    ]
  ]

  pub fulfil-Written : (fulfil env i o user s).0 ≡ ok tt → Written (fulfil env i o user s).1
  unfolding fulfil
  fulfil-Written h = elim (Bool-cases (is_deposit o.period || o.plan_id == 0)) [
    | inl kind ↦
        let eq : fulfil env i o user s ≡ credit_deposit env o user s = rw (kind, fulfil) refl in
        subst (λ (p : Result (Unit {0}) × Db). Written p.1) (sym eq)
          (credit_deposit-Written kind (sym (ap (λ (p : Result (Unit {0}) × Db). p.0) eq) ∙ h))
    | inr kind ↦
        let eq : fulfil env i o user s ≡ open_plan env i o user s = rw (kind, fulfil) refl in
        subst (λ (p : Result (Unit {0}) × Db). Written p.1) (sym eq)
          (open_plan-Written kind (sym (ap (λ (p : Result (Unit {0}) × Db). p.0) eq) ∙ h))
  ]
