-- ===== src/Db.antt =====
-- The database that the services work on: a table for each entity, with the number of the next row,
-- and the writes of app/repositories/base.py. A row that is loaded is the row of the table: a
-- changed attribute is seen by every later query of the session, since it is flushed before one.
use text.Mathlib.Text.{◌==◌ as str_eq}
use py_board.Prelude.{
  ℕ, ◌+◌, String, Bool, ◌&&◌, not, Option, some, List, ◌∷◌, ◌==◌, ltb, is_none, opt_eq,
  if◌then◌else◌,
}
use py_board.Prelude.Rows.{Rows, insert, find, count}
use py_board.Model.Entity.{
  User, Plan, Order, Coupon, Payment, CommissionLog, Giftcard, GiftcardRedemption, LogEvent,
}
use py_board.Exec.{Exec, ok, err, integrity_error, modify}

pub record Db : Type 0 where
  pub users : Rows User
  pub plans : Rows Plan
  pub orders : Rows Order
  pub next_order : ℕ
  pub coupons : Rows Coupon
  pub next_coupon : ℕ
  pub payments : Rows Payment
  pub commission_logs : Rows CommissionLog
  pub next_commission_log : ℕ
  pub giftcards : Rows Giftcard
  pub next_giftcard : ℕ
  pub redemptions : Rows GiftcardRedemption
  pub next_redemption : ℕ
  pub log_events : List LogEvent

abbrev pub Service : Type 0 → Type 0
Service A = Exec Db A

-- The writes. `set_order i o` is the effect of attribute assignments on the loaded row `i`.
abbrev pub set_user : ℕ → User → Service (Unit {0})
set_user i v = modify (λ s. record s { users = insert i v s.users })

abbrev pub set_order : ℕ → Order → Service (Unit {0})
set_order i v = modify (λ s. record s { orders = insert i v s.orders })

abbrev pub set_coupon : ℕ → Coupon → Service (Unit {0})
set_coupon i v = modify (λ s. record s { coupons = insert i v s.coupons })

abbrev pub set_giftcard : ℕ → Giftcard → Service (Unit {0})
set_giftcard i v = modify (λ s. record s { giftcards = insert i v s.giftcards })

-- `create_log_event`: one more row in the log.
abbrev pub log_event : LogEvent → Service (Unit {0})
log_event e = modify (λ s. record s { log_events = e ∷ s.log_events })

-- app/repositories/order.py
abbrev pub has_trade_no : String → Order → Bool
has_trade_no t o = str_eq o.trade_no t

abbrev pub get_by_trade_no : String → Db → Option (ℕ × Order)
get_by_trade_no t s = find (has_trade_no t) s.orders

abbrev pub is_pending_of : ℕ → Order → Bool
is_pending_of user_id o = o.user_id == user_id && o.status == 0

abbrev pub has_pending_order : ℕ → Db → Bool
has_pending_order user_id s = not (is_none (find (is_pending_of user_id) s.orders))

abbrev pub get_pending_by_trade_no : String → ℕ → Db → Option (ℕ × Order)
get_pending_by_trade_no t user_id s =
    find (λ o. has_trade_no t o && is_pending_of user_id o) s.orders

abbrev pub count_completed_plan_orders : ℕ → Db → ℕ
count_completed_plan_orders user_id s =
    count (λ _ o. o.user_id == user_id && (ltb 0 o.plan_id && o.status == 3)) s.orders

-- `BaseRepository.create` of an order: the unique constraint on `trade_no` is the database's.
unfoldable pub create_order_row : Order → Service ℕ
create_order_row o s =
    if is_none (get_by_trade_no o.trade_no s)
    then (
      ok s.next_order,
      record s { orders = insert s.next_order o s.orders; next_order = s.next_order + 1 },
    )
    else (err integrity_error, s)

-- app/repositories/user.py
abbrev pub get_by_email : String → Db → Option (ℕ × User)
get_by_email e s = find (λ (u : User). str_eq u.email e) s.users

-- app/repositories/plan.py: the users of a plan that have not expired.
abbrev pub is_active_user_of : ℕ → ℕ → User → Bool
is_active_user_of now plan_id u = opt_eq u.plan_id (some plan_id) && not (ltb u.expired_at now)

abbrev pub count_active_users : ℕ → ℕ → Db → ℕ
count_active_users now plan_id s = count (λ _ u. is_active_user_of now plan_id u) s.users

-- app/repositories/coupon.py
abbrev pub get_coupon_by_code : String → Db → Option (ℕ × Coupon)
get_coupon_by_code c s = find (λ (k : Coupon). str_eq k.code c) s.coupons

abbrev pub is_used_coupon_order : ℕ → ℕ → Option ℕ → ℕ → Order → Bool
is_used_coupon_order coupon_id user_id exclude i o =
    opt_eq o.coupon_id (some coupon_id)
    && (o.user_id == user_id
        && (not (o.status == 0) && (not (o.status == 2) && not (opt_eq exclude (some i)))))

abbrev pub count_user_used : ℕ → ℕ → Option ℕ → Db → ℕ
count_user_used coupon_id user_id exclude s =
    count (is_used_coupon_order coupon_id user_id exclude) s.orders

-- app/repositories/commission_log.py
abbrev pub get_commission_log : String → Db → Option (ℕ × CommissionLog)
get_commission_log t s = find (λ (l : CommissionLog). str_eq l.trade_no t) s.commission_logs

unfoldable pub create_commission_log : CommissionLog → Service ℕ
create_commission_log l s =
    if is_none (get_commission_log l.trade_no s)
    then (
      ok s.next_commission_log,
      record s {
        commission_logs = insert s.next_commission_log l s.commission_logs;
        next_commission_log = s.next_commission_log + 1;
      },
    )
    else (err integrity_error, s)

-- app/repositories/giftcard.py and giftcard_redemption.py
abbrev pub get_giftcard_by_code : String → Db → Option (ℕ × Giftcard)
get_giftcard_by_code c s = find (λ (g : Giftcard). str_eq g.code c) s.giftcards

abbrev pub is_redemption_of : ℕ → ℕ → GiftcardRedemption → Bool
is_redemption_of giftcard_id user_id r = r.giftcard_id == giftcard_id && r.user_id == user_id

abbrev pub get_redemption : ℕ → ℕ → Db → Option (ℕ × GiftcardRedemption)
get_redemption giftcard_id user_id s = find (is_redemption_of giftcard_id user_id) s.redemptions

-- The unique constraint on the card and the user is the database's.
unfoldable pub create_redemption : GiftcardRedemption → Service ℕ
create_redemption r s =
    if is_none (get_redemption r.giftcard_id r.user_id s)
    then (
      ok s.next_redemption,
      record s {
        redemptions = insert s.next_redemption r s.redemptions;
        next_redemption = s.next_redemption + 1;
      },
    )
    else (err integrity_error, s)
