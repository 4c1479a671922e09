-- ===== src/Giftcard/Effect.antt =====
-- What a redemption that returns has read and written.
use mathlib.Core.Path.{subst}
use py_board.Prelude.{
  ap, sym, ◌∙◌, ℕ, ◌+◌, ◌≤◌, String, ◌≡◌, inl, inr, false, none, some, arith, Option-cases,
}
use py_board.Prelude.Rows.{lookup, insert}
use py_board.Runtime.{Env}
use py_board.Model.Entity.{User, Giftcard}
use py_board.Exec.{Result, Result-cases, ok}
use py_board.Db.{Db, get_redemption, create_redemption, get_giftcard_by_code}
use py_board.Coupon.{is_used_up}
use py_board.Giftcard.{
  GiftcardRedeemResult, check_card, apply_plan_giftcard, apply_effect, used_by, redemption_of,
  record_use, redeem_card, redeem, normalize_card_code,
}

module _ (env : Env) where
  check_card-reads : (i : ℕ) (c : Giftcard) (u : ℕ) (s : Db) → (check_card env i c u s).1 ≡ s
  unfolding check_card
  check_card-reads i c u s = ground arith

  -- What a card that passes the checks says.
  check_card_lem :
      (i : ℕ) (c : Giftcard) (u : ℕ) (s : Db)
      → (check_card env i c u s).0 ≡ ok tt
      → (get_redemption i u s ≡ none)
        × (is_used_up c.limit_use ≡ false)
        × (c.started_at ≤ env.now)
        × (env.now ≤ c.ended_at)
  unfolding check_card
  check_card_lem i c u s h = elim (Option-cases (get_redemption i u s)) [
    | inl unused ↦ (unused, ground arith, ground arith, ground arith)
    | inr (r, used) ↦ absurd (ground arith)
  ]

  apply_plan_giftcard-reads :
      (c : Giftcard) (u : User) (s : Db) → (apply_plan_giftcard env c u s).1 ≡ s
  unfolding apply_plan_giftcard
  apply_plan_giftcard-reads c u s = ground arith

  apply_effect-reads : (c : Giftcard) (u : User) (s : Db) → (apply_effect env c u s).1 ≡ s
  unfolding apply_effect
  apply_effect-reads c u s = ground (arith, apply_plan_giftcard-reads c u s)

  -- A redemption that returned: what it read, and the three tables that it wrote.
  pub record Redeemed (i : ℕ) (c : Giftcard) (u : ℕ) (s s' : Db) : Type 0 where
    pub user : User
    pub user' : User
    pub found : lookup u s.users ≡ some user
    pub unused : get_redemption i u s ≡ none
    pub not_used_up : is_used_up c.limit_use ≡ false
    pub effect : (apply_effect env c user s).0 ≡ ok user'
    pub users : s'.users ≡ insert u user' s.users
    pub giftcards : s'.giftcards ≡ insert i (used_by env c u) s.giftcards
    pub redemptions : s'.redemptions ≡ insert s.next_redemption (redemption_of i c u) s.redemptions
    pub next_redemption : s'.next_redemption ≡ s.next_redemption + 1

  pub redeem_card-Redeemed :
      (i : ℕ) (c : Giftcard) (u : ℕ) (s : Db) (r : GiftcardRedeemResult)
      → (redeem_card env i c u s).0 ≡ ok r
      → Redeemed i c u s (redeem_card env i c u s).1
  unfolding redeem_card record_use create_redemption
  redeem_card-Redeemed i c u s r h = elim (Option-cases (lookup u s.users)) [
    | inl gone ↦ absurd (ground arith)
    | inr (user, found) ↦ elim (Result-cases (check_card env i c u s).0) [
      | inr (x, e) ↦ absurd (ground (arith, check_card-reads i c u s))
      | inl (t, e) ↦ elim (Result-cases (apply_effect env c user s).0) [
        | inr (x, ex) ↦ absurd (ground (arith, check_card-reads i c u s))
        | inl (user', ex) ↦
            let (unused, limit, started, ended) = check_card_lem i c u s e in
            let read = check_card-reads i c u s in
            let read' = apply_effect-reads c user s in
            record {
              user = user;
              user' = user';
              found = found;
              unused = unused;
              not_used_up = limit;
              effect = ex;
              users = ground arith;
              giftcards = ground arith;
              redemptions = ground arith;
              next_redemption = ground arith;
            }
      ]
    ]
  ]

  -- The card that a redemption which returned has found by its code.
  abbrev pub Found : ℕ → String → Db → Db → Type 0
  Found u code s s' =
      (t : String) × (i : ℕ) × (c : Giftcard) × (normalize_card_code env code ≡ ok t)
      × (get_giftcard_by_code t s ≡ some (i, c))
      × Redeemed i c u s s'

  pub redeem-Found :
      (u : ℕ) (code : String) (s : Db) (r : GiftcardRedeemResult)
      → (redeem env u code s).0 ≡ ok r
      → Found u code s (redeem env u code s).1
  unfolding redeem
  redeem-Found u code s r h = elim (Result-cases (normalize_card_code env code)) [
    | inr (x, e) ↦ absurd (ground arith)
    | inl (t, e) ↦ elim (Option-cases (get_giftcard_by_code t s)) [
      | inl gone ↦ absurd (ground arith)
      | inr ((i, c), found) ↦
          let eq : redeem env u code s ≡ redeem_card env i c u s = rw (e, found, redeem) in
          (
            t,
            i,
            c,
            e,
            found,
            subst (λ (p : Result GiftcardRedeemResult × Db). Redeemed i c u s p.1) (sym eq)
                (redeem_card-Redeemed i c u s r
                  (sym (ap (λ (p : Result GiftcardRedeemResult × Db). p.0) eq) ∙ h)),
          )
    ]
  ]
