-- ===== src/Giftcard.antt =====
-- app/services/giftcard.py: the redemption of a gift card by a user.
pub mod Admin
pub mod Effect
pub mod Once
pub mod Uses
use text.Mathlib.Text.{◌==◌ as str_eq}
use py_board.Prelude.{
  ℕ, ◌+◌, ◌*◌, String, Bool, true, false, not, ◌&&◌, Option, none, some, List, [], ◌∷◌, ◌++◌, ◌==◌,
  ltb, max, is_none, get_or, if◌then◌else◌,
}
use py_board.Prelude.Int.{ℤ, pos, negsuc, ◌+ℤ◌, ◌-ℤ◌, ◌*ℤ◌, leb_ℤ, eqb_ℤ, pos_part}
use py_board.Prelude.Rows.{lookup}
use py_board.Json
use py_board.Json.{Json, Items, list_or_empty}
use py_board.Runtime.{Env}
use py_board.Model.Entity.{User, Plan, Giftcard, GiftcardRedemption, LogEvent}
use py_board.Exec.{
  Result, ok, err, not_found, bad_request, integrity_error, user_missing, code_empty, card_missing,
  card_early, card_late, card_used_up, card_used, card_kind, card_value, card_active_plan,
  card_without_plan, card_plan_missing, ◌>>=◌, ◌>>◌, pure, raise, raise_if, or_raise, gets, lift,
}
use py_board.Db.{
  Db, Service, set_user, set_giftcard, log_event, get_giftcard_by_code, get_redemption,
  create_redemption,
}
use py_board.Coupon.{is_used_up, minus_one}
use py_board.Order.Rules.{never_expires_at}
use py_board.Order.Process.{with_plan, without_traffic}

-- `_GIB`
abbrev pub gib : ℕ
gib = 1073741824

-- `user_id in used_user_ids`
unfoldable pub mem : ℕ → List ℕ → Bool
mem n [] = false
mem n (m ∷ l) = if m == n then true else mem n l

-- A list of keys as a JSON value.
unfoldable pub ids_items : List ℕ → Items
ids_items [] = Json.end
ids_items (n ∷ l) = Json.item (Json.number (pos n)) (ids_items l)

-- `now + (giftcard.value or 0) * 86400`, or the day that never comes. A time before 1970 is 0: every
-- use of an expiry compares it with the clock.
unfoldable pub plan_expiry : Option ℤ → ℕ → ℕ
plan_expiry value now =
    let days = get_or value (pos 0) in
    if not (is_none value) && eqb_ℤ days (pos 0)
    then never_expires_at
    else pos_part (pos now +ℤ days *ℤ pos 86400)

-- `GiftcardRedeemResult`
pub record GiftcardRedeemResult : Type 0 where
  pub kind : ℕ
  pub value : Option ℤ
  pub plan_id : Option ℕ

-- `except IntegrityError`: the unique constraint, for a redemption made meanwhile.
abbrev pub or_used : Result ℕ × Db → Result ℕ × Db
or_used (err integrity_error, s) = (err (bad_request card_used), s)
or_used r = r

abbrev pub redemption_of : ℕ → Giftcard → ℕ → GiftcardRedemption
redemption_of i card user_id = record {
  giftcard_id = i;
  user_id = user_id;
  code = card.code;
  kind = card.kind;
  value = card.value;
  plan_id = card.plan_id;
}

module _ (env : Env) where
  -- `_normalize_code`
  unfoldable pub normalize_card_code : String → Result String
  normalize_card_code code =
      let c = env.strip_upper code in if str_eq c "" then err (bad_request code_empty) else ok c

  -- `isinstance(item, int | str) and str(item).isdigit()`, and the number.
  abbrev pub digits : Json → Option ℕ
  digits (Json.number (pos n)) = some n
  digits (Json.text t) = env.int_of_digits t
  digits _ = none

  unfoldable pub user_ids : List Json → List ℕ
  user_ids [] = []
  user_ids (j ∷ js) = elim (digits j) [ none ↦ user_ids js | some n ↦ n ∷ user_ids js ]

  -- `_parse_used_users`
  unfoldable pub parse_used_users : Option String → List ℕ
  parse_used_users none = []
  parse_used_users (some value) =
      if str_eq value ""
      then []
      else elim (env.loads value) [ none ↦ [] | some parsed ↦ user_ids (list_or_empty parsed) ]

  -- The guards of `redeem` on a card that was found.
  unfoldable pub check_card : ℕ → Giftcard → ℕ → Service (Unit {0})
  check_card i card user_id = do
    raise_if (ltb env.now card.started_at) (bad_request card_early)
    raise_if (ltb card.ended_at env.now) (bad_request card_late)
    raise_if (is_used_up card.limit_use) (bad_request card_used_up)
    redemption ← gets (get_redemption i user_id)
    raise_if (not (is_none redemption)) (bad_request card_used)
    raise_if (mem user_id (parse_used_users card.used_user_ids)) (bad_request card_used)

  -- `_apply_plan_giftcard`
  unfoldable pub apply_plan_giftcard : Giftcard → User → Service User
  apply_plan_giftcard card user = do
    raise_if (not (is_none user.plan_id) && ltb env.now user.expired_at)
        (bad_request card_active_plan)
    plan_id ← or_raise card.plan_id (bad_request card_without_plan)
    found ← gets (λ s. lookup plan_id s.plans)
    plan ← or_raise found (bad_request card_plan_missing)
    pure (with_plan (without_traffic user) plan_id plan (plan_expiry card.value env.now))

  -- What the card's kind does to the user.
  unfoldable pub apply_effect : Giftcard → User → Service User
  apply_effect card user =
      let value = get_or card.value (pos 0) in
      if card.kind == 1
      then pure (record user { balance = user.balance +ℤ value })
      else if card.kind == 2
      then (if leb_ℤ value (pos 0)
          then raise (bad_request card_value)
          else pure
              (record user { expired_at = max user.expired_at env.now + pos_part value * 86400 }))
      else if card.kind == 3
      then (if leb_ℤ value (pos 0)
          then raise (bad_request card_value)
          else pure (record user { transfer_enable = user.transfer_enable + pos_part value * gib }))
      else if card.kind == 4
      then pure (without_traffic user)
      else if card.kind == 5
      then apply_plan_giftcard card user
      else raise (bad_request card_kind)

  -- The card with one use less.
  abbrev pub used_by : Giftcard → ℕ → Giftcard
  used_by card user_id = record card {
    used_user_ids =
        some (
          env.dumps
            (Json.list (ids_items (parse_used_users card.used_user_ids ++ (user_id ∷ [])))));
    limit_use = minus_one card.limit_use;
  }

  abbrev pub redeemed_event : ℕ → ℕ → LogEvent
  redeemed_event i user_id = record {
    category = "audit";
    event = "giftcard.redeemed";
    actor_type = "user";
    actor_id = some user_id;
    target_type = "giftcard";
    target_id = env.str_of (Json.number (pos i));
  }

  -- The writes of `redeem`.
  unfoldable pub record_use : ℕ → Giftcard → ℕ → User → Service (Unit {0})
  record_use i card user_id user = do
    set_user user_id user
    set_giftcard i (used_by card user_id)
    (λ s. or_used (create_redemption (redemption_of i card user_id) s))
    log_event (redeemed_event i user_id)

  -- From the card's row on.
  unfoldable pub redeem_card : ℕ → Giftcard → ℕ → Service GiftcardRedeemResult
  redeem_card i card user_id = do
    found ← gets (λ s. lookup user_id s.users)
    user ← or_raise found (not_found user_missing)
    check_card i card user_id
    user' ← apply_effect card user
    record_use i card user_id user'
    pure (record { kind = card.kind; value = card.value; plan_id = card.plan_id })

  -- `GiftcardService.redeem`
  unfoldable pub redeem : ℕ → String → Service GiftcardRedeemResult
  redeem user_id code = do
    c ← lift (normalize_card_code code)
    found ← gets (get_giftcard_by_code c)
    (i, card) ← or_raise found (bad_request card_missing)
    redeem_card i card user_id
