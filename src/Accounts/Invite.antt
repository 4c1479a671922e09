-- ===== src/Accounts/Invite.antt =====
-- app/services/commission.py, the invite codes of `InviteService`.
use py_board.Prelude.{ℕ, ◌+◌, String, Bool, ◌&&◌, Option, ◌==◌, is_none, get_or, if◌then◌else◌}
use py_board.Prelude.Int.{ℤ, pos, leb_ℤ, eqb_ℤ}
use py_board.Prelude.Rows.{lookup, insert, erase, count}
use py_board.Codes.{first_free, code_exists}
use py_board.Exec.{
  Exec, ok, bad_request, conflict, not_found, user_missing, invite_limit, invite_user_empty,
  invite_missing, invite_taken, invite_exhausted, ◌>>=◌, ◌>>◌, pure, raise_if, or_raise, gets,
  modify,
}
use py_board.Accounts.{InviteCode, Registry, AuthEnv, set_invite}
use py_board.Accounts.Checks.{is_blank}

pub record InviteCodeCreate : Type 0 where
  pub user_id : Option ℕ
  pub code : Option String
  pub status : ℤ

-- InviteCodeUpdate: a field is absent, or a value; a null is refused by the column.
pub record InviteCodeUpdate : Type 0 where
  pub status : Option ℤ
  pub pv : Option ℤ

abbrev pub invite_code_of : InviteCode → String
invite_code_of v = v.code

-- `code_exists`
abbrev pub invite_exists : String → Registry → Bool
invite_exists code s = code_exists invite_code_of s.invites code

-- `count_active_by_user`
abbrev pub is_active_of : ℕ → ℕ → InviteCode → Bool
is_active_of user_id i v = v.user_id == user_id && eqb_ℤ v.status (pos 0)

abbrev pub count_active_by_user : ℕ → Registry → ℕ
count_active_by_user user_id s = count (is_active_of user_id) s.invites

unfoldable pub create_invite : InviteCode → Exec Registry (ℕ × InviteCode)
create_invite v s = (
  ok (s.next_invite, v),
  record s { invites = insert s.next_invite v s.invites; next_invite = s.next_invite + 1 },
)

module _ (env : AuthEnv) where
  -- `_generate_code`
  unfoldable pub generate_code : Exec Registry String
  generate_code s =
      let found = first_free 100 env.draw_code (λ c. invite_exists c s) in
      or_raise found (conflict invite_exhausted) s

  unfoldable pub create_for_user : ℕ → Exec Registry (ℕ × InviteCode)
  create_for_user user_id = do
    active ← gets (count_active_by_user user_id)
    raise_if (leb_ℤ (env.get_int "invite_gen_limit" (pos 5)) (pos active))
        (bad_request invite_limit)
    code ← generate_code
    create_invite (record { user_id = user_id; code = code; status = pos 0; pv = pos 0 })

  -- `data.code.strip().upper() if data.code else await self._generate_code()`
  unfoldable pub chosen_code : Option String → Exec Registry String
  chosen_code code =
      if is_blank code then generate_code else pure (env.strip_upper (get_or code ""))

  unfoldable pub admin_create_invite_code : InviteCodeCreate → Exec Registry (ℕ × InviteCode)
  admin_create_invite_code data_in = do
    user_id ← or_raise data_in.user_id (bad_request invite_user_empty)
    found ← gets (λ s. lookup user_id s.users)
    raise_if (is_none found) (not_found user_missing)
    code ← chosen_code data_in.code
    taken ← gets (invite_exists code)
    raise_if taken (conflict invite_taken)
    create_invite (record { user_id = user_id; code = code; status = data_in.status; pv = pos 0 })

unfoldable pub admin_update_invite_code : ℕ → InviteCodeUpdate → Exec Registry (ℕ × InviteCode)
admin_update_invite_code i data_in = do
  found ← gets (λ s. lookup i s.invites)
  v ← or_raise found (not_found invite_missing)
  let w : InviteCode = record v {
    status = get_or data_in.status v.status;
    pv = get_or data_in.pv v.pv;
  }
  set_invite i w
  pure (i, w)

unfoldable pub admin_delete_invite_code : ℕ → Exec Registry (Unit {0})
admin_delete_invite_code i = do
  found ← gets (λ s. lookup i s.invites)
  v ← or_raise found (not_found invite_missing)
  modify (λ s. record s { invites = erase i s.invites })
