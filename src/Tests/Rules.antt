-- ===== src/Tests/Rules.antt =====
-- Runs of the rules of an order: months, bonus, capacity, fees and the use of a coupon.
use py_board.Prelude.{◌+◌, ◌≤◌, ◌≡◌, refl, some, arith, min}
use py_board.Prelude.Int.{pos, ◌+ℤ◌, ◌-ℤ◌}
use py_board.Prelude.Rows.{lookup, insert, find, count}
use py_board.Json
use py_board.Json.{Json, list_or_empty, to_list}
use py_board.Runtime.{Env, DateTime, truncate}
use py_board.Exec.{ok}
use py_board.Coupon.{
  consume_for_paid_order, validate_coupon, check_plan, check_period, check_user_limit,
  calculate_discount, parse_optional_list,
}
use py_board.Coupon.Consume.{IsConsumed, consume_for_paid_order-IsConsumed}
use py_board.Order.Rules.{
  add_months_to, deposit_bonus, bonus_loop, best_bonus, split_colon, text_cents,
  requires_capacity_slot, is_user_active, ensure_plan_capacity_available, add_months,
}
use py_board.Order.Rules.Months.{months_of, add_months_to_lem}
use py_board.Order.Process.{open_plan, take_slot, use_coupon, pay_balance, open_period}
use py_board.Order.Process.Capacity.{IsWithinCapacity, open_plan-capacity}
use py_board.Order.Checkout.{link, checkout, checkout_paid, handling_fee, percent_fee, request_link}
use py_board.Order.Checkout.Fees.{IsAsked, checkout-IsAsked}
use py_board.Tests.Data.{env_at, gateways, waiting, order, plan, buyer}

-- Three months from the 31st of November.
abbrev november : DateTime
november = record { year = 2025; month = 11; day = 31; seconds = 5 }

add_months_to_lem_example :
    (months_of (add_months_to (env_at 2000) november 3) ≡ months_of november + 3)
    × (1 ≤ (add_months_to (env_at 2000) november 3).month)
    × ((add_months_to (env_at 2000) november 3).month ≤ 12)
    × ((add_months_to (env_at 2000) november 3).day ≡ min 31 31)
    × (1 ≤ (add_months_to (env_at 2000) november 3).day)
    × ((add_months_to (env_at 2000) november 3).seconds ≡ 5)
add_months_to_lem_example =
    add_months_to_lem (env_at 2000) november 3 (omega arith) (omega arith) (λ y m. omega arith)

-- One tier: a deposit of 100.00 or more gets 100.00.
abbrev with_tier : Env
with_tier = record (env_at 2000) {
  get_json = λ _. Json.list (Json.item (Json.text "100:100") Json.end);
  str_of = λ _. "100:100";
  float_of_text = λ _. some ((env_at 2000).float_of_int (pos 100));
}

no_bonus : deposit_bonus with_tier (pos 500) ≡ ok (pos 0)
unfolding deposit_bonus bonus_loop best_bonus split_colon text_cents list_or_empty to_list truncate
    ◌+ℤ◌
no_bonus = refl

a_bonus : deposit_bonus with_tier (pos 10000) ≡ ok (pos 10000)
unfolding deposit_bonus bonus_loop best_bonus split_colon text_cents list_or_empty to_list truncate
    ◌+ℤ◌
a_bonus = refl

opened : (open_plan (env_at 2000) 1 order buyer waiting).0 ≡ ok tt
unfolding open_plan take_slot use_coupon pay_balance open_period requires_capacity_slot
    is_user_active ensure_plan_capacity_available consume_for_paid_order validate_coupon check_plan
    check_period check_user_limit calculate_discount parse_optional_list add_months add_months_to
    lookup insert count ◌+ℤ◌ ◌-ℤ◌
opened = refl

-- The plan takes two users and has none.
open_plan-capacity_example :
    IsWithinCapacity 2000 5 (some (pos 2)) (open_plan (env_at 2000) 1 order buyer waiting).1
unfolding lookup count
open_plan-capacity_example =
    open_plan-capacity (env_at 2000) 1 order plan buyer waiting refl refl (ground arith) opened

asked : (checkout (env_at 2000) gateways 1 "T1" 7 waiting).0 ≡ ok (link "https://pay.example/1")
unfolding checkout checkout_paid handling_fee percent_fee request_link find lookup ◌+ℤ◌
asked = refl

checkout-IsAsked_example :
    IsAsked
      (env_at 2000)
      gateways
      1
      "T1"
      7
      "https://pay.example/1"
      waiting
      (checkout (env_at 2000) gateways 1 "T1" 7 waiting).1
checkout-IsAsked_example =
    checkout-IsAsked (env_at 2000) gateways 1 "T1" 7 "https://pay.example/1" waiting asked

consumed : (consume_for_paid_order (env_at 2000) 1 order waiting).0 ≡ ok tt
unfolding consume_for_paid_order validate_coupon check_plan check_period check_user_limit
    calculate_discount parse_optional_list lookup insert count ◌+ℤ◌ ◌-ℤ◌
consumed = refl

consume_for_paid_order-IsConsumed_example :
    IsConsumed
      (env_at 2000)
      1
      6
      order
      waiting
      (consume_for_paid_order (env_at 2000) 1 order waiting).1
consume_for_paid_order-IsConsumed_example =
    consume_for_paid_order-IsConsumed (env_at 2000) 1 6 order waiting refl consumed
