-- ===== src/Tests/Giftcard.antt =====
-- Runs of the redemption of a gift card.
use py_board.Prelude.{ℕ, suc, String, ◌≡◌, ◌≢◌, refl, none, some, [], ◌∷◌}
use py_board.Prelude.Int.{pos, ◌+ℤ◌, ◌-ℤ◌}
use py_board.Prelude.Rows.{lookup, insert, find, count}
use py_board.Model.Entity.{Giftcard}
use py_board.Exec.{Result, ok}
use py_board.Db.{Db, create_redemption, get_giftcard_by_code}
use py_board.Giftcard.{
  GiftcardRedeemResult, mem, parse_used_users, check_card, apply_effect, record_use, redeem_card,
  redeem, ids_items, normalize_card_code, user_ids,
}
use py_board.Giftcard.Once.{redeem_once}
use py_board.Coupon.Consume.{IsUsedOnce}
use py_board.Giftcard.Uses.{uses, redeem-uses}
use py_board.Tests.Data.{env_at, shop}

-- 300 of balance, for two users.
abbrev card : Giftcard
card = record {
  code = "GIFT";
  name = "gift";
  kind = 1;
  value = some (pos 300);
  plan_id = none;
  limit_use = some (pos 2);
  used_user_ids = none;
  started_at = 0;
  ended_at = 9000000;
}

abbrev gifts : Db
gifts = record shop { giftcards = (3, card) ∷ []; next_giftcard = 4 }

abbrev result : GiftcardRedeemResult
result = record { kind = 1; value = some (pos 300); plan_id = none }

abbrev redeemed : Result GiftcardRedeemResult × Db
redeemed = redeem (env_at 2000) 1 "GIFT" gifts

redeemed_returns : redeemed.0 ≡ ok result
unfolding redeem redeem_card normalize_card_code check_card apply_effect record_use
    create_redemption mem parse_used_users user_ids ids_items lookup insert find count ◌+ℤ◌ ◌-ℤ◌
redeemed_returns = refl

redeem_once_example : (redeem (env_at 3000) 1 "GIFT" redeemed.1).0 ≢ ok result
unfolding normalize_card_code lookup
redeem_once_example =
    redeem_once (env_at 2000) 1 "GIFT" gifts result (env_at 3000) "GIFT" (refl, tt) redeemed_returns
      refl result

redeem-uses_example :
    (t : String) × (i : ℕ) × (c c' : Giftcard) × (normalize_card_code (env_at 2000) "GIFT" ≡ ok t)
    × (get_giftcard_by_code t gifts ≡ some (i, c))
    × (lookup i redeemed.1.giftcards ≡ some c')
    × IsUsedOnce c.limit_use c'.limit_use
    × (uses i redeemed.1 ≡ suc (uses i gifts))
    × ((j : ℕ) → 1 ≢ j → lookup j redeemed.1.users ≡ lookup j gifts.users)
    × ((j : ℕ) → i ≢ j → lookup j redeemed.1.giftcards ≡ lookup j gifts.giftcards)
unfolding lookup
redeem-uses_example = redeem-uses (env_at 2000) 1 "GIFT" gifts result refl redeemed_returns
