-- ===== src/Giftcard/Admin.antt =====
-- `GiftcardService.create`, `generate` and `delete`.
use text.Mathlib.Text.{◌==◌ as str_eq}
use py_board.Prelude.{
  ℕ, zero, suc, ◌+◌, String, Bool, ◌&&◌, ◌||◌, Option, none, some, List, [], ◌∷◌, ◌==◌, ltb, leb,
  is_none, if◌then◌else◌,
}
use py_board.Prelude.Int.{ℤ}
use py_board.Prelude.Rows.{lookup, insert, erase}
use py_board.Runtime.{Env}
use py_board.Model.Entity.{Giftcard}
use py_board.Exec.{
  ok, not_found, bad_request, conflict, code_taken, code_exhausted, generate_count, card_missing,
  card_kind, card_dates, card_without_plan, ◌>>=◌, ◌>>◌, pure, raise_if, modify, or_raise, gets,
  lift,
}
use py_board.Db.{Db, Service}
use py_board.Codes.{first_free, code_exists}
use py_board.Giftcard.{normalize_card_code}

-- `GiftcardCreate`, and `GiftcardGenerate`, which has no code.
pub record GiftcardCreate : Type 0 where
  pub code : Option String
  pub name : String
  pub kind : ℕ
  pub value : Option ℤ
  pub plan_id : Option ℕ
  pub limit_use : Option ℤ
  pub started_at : ℕ
  pub ended_at : ℕ

-- `GiftcardRepository.code_exists`
abbrev pub card_code_exists : String → Db → Bool
card_code_exists c s = code_exists (λ (g : Giftcard). g.code) s.giftcards c

-- `BaseRepository.create` of a card.
abbrev pub create_card_row : Giftcard → Service ℕ
create_card_row c s = (
  ok s.next_giftcard,
  record s {
    giftcards = insert s.next_giftcard c s.giftcards;
    next_giftcard = s.next_giftcard + 1;
  },
)

-- `_generate_code`
unfoldable pub generate_card_code : (ℕ → String) → Service String
generate_card_code draw = do
  found ← gets (λ s. first_free 100 draw (λ c. card_code_exists c s))
  or_raise found (conflict code_exhausted)

-- `_validate_payload`
unfoldable pub validate_card : GiftcardCreate → Service (Unit {0})
validate_card body = do
  raise_if (ltb body.kind 1 || ltb 5 body.kind) (bad_request card_kind)
  raise_if (leb body.ended_at body.started_at) (bad_request card_dates)
  raise_if (body.kind == 5 && is_none body.plan_id) (bad_request card_without_plan)

-- `Giftcard(**payload)`
abbrev pub card_of : GiftcardCreate → String → Giftcard
card_of body code = record {
  code = code;
  name = body.name;
  kind = body.kind;
  value = body.value;
  plan_id = body.plan_id;
  limit_use = body.limit_use;
  used_user_ids = none;
  started_at = body.started_at;
  ended_at = body.ended_at;
}

-- `payload.get("code") or await self._generate_code()`
unfoldable pub card_code_or_generated : Option String → (ℕ → String) → Service String
card_code_or_generated none draw = generate_card_code draw
card_code_or_generated (some c) draw = if str_eq c "" then generate_card_code draw else pure c

unfoldable pub create_card : Env → GiftcardCreate → (ℕ → String) → Service ℕ
create_card env body draw = do
  given ← card_code_or_generated body.code draw
  c ← lift (normalize_card_code env given)
  taken ← gets (card_code_exists c)
  raise_if taken (conflict code_taken)
  validate_card body
  create_card_row (card_of body c)

-- One round of the loop of `generate`.
unfoldable pub generate_one_card : GiftcardCreate → (ℕ → String) → Service ℕ
generate_one_card body draw = do
  c ← generate_card_code draw
  validate_card body
  create_card_row (card_of body c)

unfoldable pub generate_cards_loop : ℕ → GiftcardCreate → (ℕ → ℕ → String) → Service (List ℕ)
generate_cards_loop zero body draws = pure []
generate_cards_loop (suc n) body draws = do
  i ← generate_one_card body (draws 0)
  rest ← generate_cards_loop n body (λ k. draws (suc k))
  pure (i ∷ rest)

unfoldable pub generate_cards : ℕ → GiftcardCreate → (ℕ → ℕ → String) → Service (List ℕ)
generate_cards n body draws = do
  raise_if (ltb n 1 || ltb 500 n) (bad_request generate_count)
  generate_cards_loop n body draws

-- `delete`
unfoldable pub delete_card : ℕ → Service (Unit {0})
delete_card i = do
  found ← gets (λ s. lookup i s.giftcards)
  c ← or_raise found (not_found card_missing)
  modify (λ s. record s { giftcards = erase i s.giftcards })
