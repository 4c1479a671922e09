-- ===== src/Tests/Coupon.antt =====
-- A run of the generation of coupons.
use py_board.Prelude.{ℕ, zero, suc, String, ◌≡◌, refl, true, some, none, [], ◌∷◌, arith}
use py_board.Prelude.Int.{pos}
use py_board.Prelude.Rows.{lookup, insert, find}
use py_board.Exec.{ok}
use py_board.Codes.{first_free}
use py_board.Coupon.Admin.{
  CouponCreate, missing, generate, generate_loop, generate_one, generate_code, validate_payload,
  dump_optional_list,
}
use py_board.Coupon.Catalogue.{IsCatalogue, generate-IsCatalogue}
use py_board.Tests.Data.{env_at, shop}

abbrev body : CouponCreate
body = record {
  code = none;
  name = "five";
  kind = 1;
  value = pos 500;
  is_shown = true;
  limit_use = some (pos 1);
  limit_use_with_user = none;
  limit_plan_ids = missing;
  limit_period = missing;
  started_at = 0;
  ended_at = 100;
}

-- Every coupon draws "TEN", which is taken, and then a code of its own, but the second draws what the
-- first took before it finds another.
abbrev draws : ℕ → ℕ → String
draws zero zero = "TEN"
draws zero (suc _) = "A"
draws (suc _) zero = "A"
draws (suc _) (suc _) = "B"

two_codes : (generate (env_at 2000) 2 body draws shop).0 ≡ ok (7 ∷ 8 ∷ [])
unfolding generate generate_loop generate_one generate_code validate_payload dump_optional_list
    first_free lookup insert find
two_codes = refl

shop-IsCatalogue : IsCatalogue shop
unfolding lookup find
shop-IsCatalogue = ((λ j h. ground arith), (refl, tt))

generate-IsCatalogue_example : IsCatalogue (generate (env_at 2000) 2 body draws shop).1
generate-IsCatalogue_example = generate-IsCatalogue (env_at 2000) body 2 draws shop shop-IsCatalogue
