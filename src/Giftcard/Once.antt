-- ===== src/Giftcard/Once.antt =====
-- A second redemption of a gift card (`GiftcardService.redeem`).
use py_board.Prelude.{ℕ, String, ◌≡◌, ◌≢◌, some, none, arith, ◌∙◌, sym}
use py_board.Prelude.Rows.{IsKeyed, find-insert, find-holds, find-insert_some}
use py_board.Runtime.{Env}
use py_board.Model.Entity.{Giftcard}
use py_board.Exec.{ok}
use py_board.Db.{Db, get_giftcard_by_code, get_redemption, is_redemption_of}
use py_board.Giftcard.{GiftcardRedeemResult, redeem, normalize_card_code, used_by, redemption_of}
use py_board.Giftcard.Effect.{Redeemed, redeem-Found}

module _ (env : Env) (u : ℕ) (code : String) (s : Db) where
  -- The card is found again under its code.
  found_again :
      (s' : Db) (t : String) (i : ℕ) (c : Giftcard)
      → IsKeyed s.giftcards
      → get_giftcard_by_code t s ≡ some (i, c)
      → Redeemed env i c u s s'
      → get_giftcard_by_code t s' ≡ some (i, used_by env c u)
  found_again s' t i c keyed found d = rw d.giftcards (
      find-insert _ s.giftcards i c (used_by env c u) keyed found
        (find-holds _ s.giftcards i c found))

  redemption_found :
      (s' : Db) (i : ℕ) (c : Giftcard) → Redeemed env i c u s s' → get_redemption i u s' ≢ none
  redemption_found s' i c d = rw d.redemptions (
      find-insert_some (is_redemption_of i u) s.next_redemption (redemption_of i c u) s.redemptions
        (ground arith))

  -- Where the keys of the gift cards are unique: right after a user has redeemed a gift card, no
  -- redemption of the same card by the same user returns, with any spelling of the code that is
  -- normalised to the same text, at any time, whatever uses the card has left.
  pub redeem_once :
      (r : GiftcardRedeemResult) (env' : Env) (code' : String)
      → IsKeyed s.giftcards
      → (redeem env u code s).0 ≡ ok r
      → normalize_card_code env' code' ≡ normalize_card_code env code
      → (r' : GiftcardRedeemResult) → (redeem env' u code' (redeem env u code s).1).0 ≢ ok r'
  redeem_once r env' code' keyed h same r' h' =
      let s' = (redeem env u code s).1 in
      let (t, i, c, e, found, d) = redeem-Found env u code s r h in
      let (t', i', c', e', found', d') = redeem-Found env' u code' s' r' h' in
      let again = found_again s' t i c keyed found d in
      let same_text : t' ≡ t = ground (arith, sym e' ∙ same ∙ e) in
      let found'' = rw same_text at found' in
      let same_card : i' ≡ i = ground (arith, sym found'' ∙ again) in
      redemption_found s' i c d (rw same_card at d'.unused)
