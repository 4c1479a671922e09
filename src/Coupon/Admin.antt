-- ===== src/Coupon/Admin.antt =====
-- `CouponService.create`, `generate`, `toggle_show` and `delete`.
use text.Mathlib.Text.{◌==◌ as str_eq}
use py_board.Prelude.{
  ℕ, zero, suc, ◌+◌, String, Bool, not, ◌||◌, Option, none, some, List, [], ◌∷◌, ◌==◌, ltb, leb,
  if◌then◌else◌,
}
use py_board.Prelude.Int.{ℤ, pos, leb_ℤ}
use py_board.Prelude.Rows.{lookup, insert, erase}
use py_board.Json
use py_board.Json.{Json, Items}
use py_board.Runtime.{Env}
use py_board.Model.Entity.{Coupon}
use py_board.Exec.{
  ok, not_found, bad_request, conflict, code_taken, code_exhausted, generate_count, coupon_missing,
  coupon_kind, coupon_value, coupon_dates, ◌>>=◌, ◌>>◌, pure, raise_if, modify, or_raise, gets,
  lift,
}
use py_board.Db.{Db, Service, set_coupon}
use py_board.Codes.{first_free, code_exists}
use py_board.Coupon.{normalize_code}

-- `list[…] | str | None`
pub data Listed : Type 0 where
  missing : Listed
  plain : String → Listed
  items : Items → Listed

-- `CouponCreate` and `CouponGenerate`, which has no code.
pub record CouponCreate : Type 0 where
  pub code : Option String
  pub name : String
  pub kind : ℕ
  pub value : ℤ
  pub is_shown : Bool
  pub limit_use : Option ℤ
  pub limit_use_with_user : Option ℤ
  pub limit_plan_ids : Listed
  pub limit_period : Listed
  pub started_at : ℕ
  pub ended_at : ℕ

-- `CouponRepository.code_exists`
abbrev pub coupon_code_exists : String → Db → Bool
coupon_code_exists c s = code_exists (λ (k : Coupon). k.code) s.coupons c

-- `BaseRepository.create` of a coupon; the code has no constraint in the database.
abbrev pub create_coupon_row : Coupon → Service ℕ
create_coupon_row c s = (
  ok s.next_coupon,
  record s { coupons = insert s.next_coupon c s.coupons; next_coupon = s.next_coupon + 1 },
)

-- `_generate_code`: a hundred draws at most.
unfoldable pub generate_code : (ℕ → String) → Service String
generate_code draw = do
  found ← gets (λ s. first_free 100 draw (λ c. coupon_code_exists c s))
  or_raise found (conflict code_exhausted)

-- `_ensure_code_available`
unfoldable pub ensure_code_available : String → Service (Unit {0})
ensure_code_available c = do
  taken ← gets (coupon_code_exists c)
  raise_if taken (conflict code_taken)

-- `_validate_payload`
unfoldable pub validate_payload : CouponCreate → Service (Unit {0})
validate_payload body = do
  raise_if (not (body.kind == 1 || body.kind == 2)) (bad_request coupon_kind)
  raise_if (leb_ℤ body.value (pos 0)) (bad_request coupon_value)
  raise_if (leb body.ended_at body.started_at) (bad_request coupon_dates)

-- `toggle_show`
unfoldable pub toggle_show : ℕ → Service (Unit {0})
toggle_show i = do
  found ← gets (λ s. lookup i s.coupons)
  c ← or_raise found (not_found coupon_missing)
  set_coupon i (record c { is_shown = not c.is_shown })

-- `delete`
unfoldable pub delete : ℕ → Service (Unit {0})
delete i = do
  found ← gets (λ s. lookup i s.coupons)
  c ← or_raise found (not_found coupon_missing)
  modify (λ s. record s { coupons = erase i s.coupons })

module _ (env : Env) where
  -- `_dump_optional_list`
  unfoldable pub dump_optional_list : Listed → Option String
  dump_optional_list missing = none
  dump_optional_list (plain t) = if str_eq t "" then none else some t
  dump_optional_list (items Json.end) = none
  dump_optional_list (items (Json.item j r)) = some (env.dumps (Json.list (Json.item j r)))

  -- `Coupon(**payload)`
  abbrev pub coupon_of : CouponCreate → String → Coupon
  coupon_of body code = record {
    code = code;
    name = body.name;
    kind = body.kind;
    value = body.value;
    is_shown = body.is_shown;
    limit_use = body.limit_use;
    limit_use_with_user = body.limit_use_with_user;
    limit_plan_ids = dump_optional_list body.limit_plan_ids;
    limit_period = dump_optional_list body.limit_period;
    started_at = body.started_at;
    ended_at = body.ended_at;
  }

  -- `payload.get("code") or await self._generate_code()`
  unfoldable pub code_or_generated : Option String → (ℕ → String) → Service String
  code_or_generated none draw = generate_code draw
  code_or_generated (some c) draw = if str_eq c "" then generate_code draw else pure c

  unfoldable pub create : CouponCreate → (ℕ → String) → Service ℕ
  create body draw = do
    given ← code_or_generated body.code draw
    c ← lift (normalize_code env given)
    ensure_code_available c
    validate_payload body
    create_coupon_row (coupon_of body c)

  -- One round of the loop of `generate`.
  unfoldable pub generate_one : CouponCreate → (ℕ → String) → Service ℕ
  generate_one body draw = do
    c ← generate_code draw
    validate_payload body
    create_coupon_row (coupon_of body c)

  unfoldable pub generate_loop : ℕ → CouponCreate → (ℕ → ℕ → String) → Service (List ℕ)
  generate_loop zero body draws = pure []
  generate_loop (suc n) body draws = do
    i ← generate_one body (draws 0)
    rest ← generate_loop n body (λ k. draws (suc k))
    pure (i ∷ rest)

  unfoldable pub generate : ℕ → CouponCreate → (ℕ → ℕ → String) → Service (List ℕ)
  generate n body draws = do
    raise_if (ltb n 1 || ltb 500 n) (bad_request generate_count)
    generate_loop n body draws
