-- ===== src/Giftcard/Uses.antt =====
-- The uses of a gift card (`GiftcardService.redeem`): its limit and its redemptions.
use py_board.Prelude.{ℕ, suc, String, ◌≡◌, ◌≢◌, some, none, arith, ◌==◌, ◌∙◌, ap}
use py_board.Prelude.Rows.{lookup, count, lookup-insert_self, lookup-insert_ne, count-insert_new}
use py_board.Runtime.{Env}
use py_board.Model.Entity.{Giftcard, GiftcardRedemption}
use py_board.Exec.{ok}
use py_board.Db.{Db, get_giftcard_by_code}
use py_board.Coupon.Consume.{IsUsedOnce, minus_one-IsUsedOnce}
use py_board.Giftcard.{GiftcardRedeemResult, normalize_card_code, redeem, used_by, redemption_of}
use py_board.Giftcard.Effect.{Redeemed, redeem-Found}

-- The redemptions of a card.
abbrev pub uses : ℕ → Db → ℕ
uses i s = count (λ _ (r : GiftcardRedemption). r.giftcard_id == i) s.redemptions

module _ (env : Env) where
  -- Where the next key of the redemptions is free, a redemption that returns uses the card that
  -- stands under the normalised code of the call once: one more redemption of that card is on record, its limit was positive and
  -- is one less, never below zero, or it has none; the other users are as they were, and so is
  -- every other card.
  pub redeem-uses :
      (u : ℕ) (code : String) (s : Db) (r : GiftcardRedeemResult)
      → lookup s.next_redemption s.redemptions ≡ none
      → (redeem env u code s).0 ≡ ok r
      → (t : String) × (i : ℕ) × (c c' : Giftcard) × (normalize_card_code env code ≡ ok t)
        × (get_giftcard_by_code t s ≡ some (i, c))
        × (lookup i (redeem env u code s).1.giftcards ≡ some c')
        × IsUsedOnce c.limit_use c'.limit_use
        × (uses i (redeem env u code s).1 ≡ suc (uses i s))
        × ((j : ℕ) → u ≢ j → lookup j (redeem env u code s).1.users ≡ lookup j s.users)
        × ((j : ℕ) → i ≢ j → lookup j (redeem env u code s).1.giftcards ≡ lookup j s.giftcards)
  redeem-uses u code s r fresh h =
      let (t, i, c, e, found, d) = redeem-Found env u code s r h in
      (
        t,
        i,
        c,
        used_by env c u,
        e,
        found,
        ap (lookup i) d.giftcards ∙ lookup-insert_self i (used_by env c u) s.giftcards,
        minus_one-IsUsedOnce c.limit_use d.not_used_up,
        one_more i c (redeem env u code s).1 d,
        (λ j ne. ap (lookup j) d.users ∙ lookup-insert_ne u j d.user' s.users ne),
        (λ j ne. ap (lookup j) d.giftcards ∙ lookup-insert_ne i j (used_by env c u) s.giftcards ne),
      )
    where
      one_more :
          (i : ℕ) (c : Giftcard) (s' : Db) → Redeemed env i c u s s' → uses i s' ≡ suc (uses i s)
      one_more i c s' d = rw d.redemptions (
          ground (
            arith,
            count-insert_new (λ _ (r : GiftcardRedemption). r.giftcard_id == i) s.next_redemption
                (redemption_of i c u) s.redemptions fresh,
          ))
