-- ===== src/Accounts/Profile.antt =====
-- app/services/user.py: what an account and the administration write on the accounts.
use text.Mathlib.Text.{◌==◌ as str_eq}
use py_board.Prelude.{
  ℕ, String, Bool, true, false, not, ◌&&◌, Option, none, some, [], ◌∷◌, ◌==◌, opt_eq, is_none,
  get_or, if◌then◌else◌,
}
use py_board.Prelude.Rows.{Rows, lookup, erase}
use py_board.Model.Entity.{Order}
use py_board.Ticket.{Ticket, TicketMessage}
use py_board.Exec.{
  Exec, err, bad_request, conflict, not_found, integrity_error, user_missing, email_taken,
  old_password_wrong, inviter_invalid, ◌>>=◌, ◌>>◌, pure, raise_if, or_raise, gets, lift, modify,
}
use py_board.Accounts.{
  Account, InviteCode, Registry, AuthEnv, get_by_email, email_exists, create_account, set_account,
}
use py_board.Accounts.Password.{hash_password, verify_and_upgrade}
use py_board.Accounts.Checks.{is_blank}
use py_board.Accounts.Columns.{Unset, UserSelfUpdate, UserUpdate, set_preferences, set_columns}
use py_board.Accounts.Register.{UserCreate, blank_user, new_account}

abbrev pub write : ℕ → Option Account → Exec Registry (Unit {0})
write i none s = (err integrity_error, s)
write i (some a) s = set_account i a s

-- The email of an update: a null counts as left out.
abbrev pub new_email : Unset String → String → String
new_email (some (some email)) old = email
new_email _ old = old

module _ (env : AuthEnv) where
  -- A password that is null is left out.
  abbrev pub new_password : Unset String → String → String
  new_password (some (some password)) old = hash_password env.hasher password
  new_password _ old = old

  unfoldable pub create_user : UserCreate → Exec Registry ℕ
  create_user data_in = do
    exists ← gets (email_exists data_in.email)
    raise_if exists (conflict email_taken)
    create_account (
        new_account (blank_user data_in.email none) (hash_password env.hasher data_in.password)
          (env.token_hex 0) (env.token_hex 1) none)

  unfoldable pub update_user : ℕ → UserUpdate → Exec Registry Account
  update_user i b = do
    found ← gets (λ s. lookup i s.users)
    a ← or_raise found (not_found user_missing)
    let email = new_email b.email a.user.email
    exists ← gets (email_exists email)
    raise_if (not (str_eq email a.user.email) && exists) (conflict email_taken)
    let changed : Account = record a {
      user = record a.user { email = email };
      password = new_password b.password a.password;
    }
    let updated = set_columns b changed
    write i updated
    pure (get_or updated changed)

  unfoldable pub change_password : ℕ → String → String → Exec Registry Bool
  change_password i old_password new = do
    found ← gets (λ s. lookup i s.users)
    a ← or_raise found (not_found user_missing)
    (valid, new_hash) ← lift (verify_and_upgrade env.hasher old_password a.password)
    raise_if (not valid) (bad_request old_password_wrong)
    set_account i (record a { password = hash_password env.hasher new })
    pure true

  unfoldable pub reset_security : ℕ → Exec Registry (String × String)
  reset_security i = do
    found ← gets (λ s. lookup i s.users)
    a ← or_raise found (not_found user_missing)
    set_account i (record a { uuid = env.uuid4 0; token = env.token_hex 0 })
    pure (env.uuid4 0, env.token_hex 0)

  -- `invite_user is None or invite_user.id == user.id`
  abbrev pub other_than : ℕ → Option (ℕ × Account) → Option ℕ
  other_than i none = none
  other_than i (some (j, b)) = if j == i then none else some j

  unfoldable pub admin_set_invite_user : ℕ → Option String → Exec Registry Bool
  admin_set_invite_user i invite_user_email = do
    found ← gets (λ s. lookup i s.users)
    a ← or_raise found (not_found user_missing)
    inviting ← gets (get_by_email (env.lower (env.strip (get_or invite_user_email ""))))
    raise_if (not (is_blank invite_user_email) && is_none (other_than i inviting))
        (bad_request inviter_invalid)
    let inviter = if is_blank invite_user_email then none else other_than i inviting
    set_account i (record a { user = record a.user { invite_user_id = inviter } })
    pure true

unfoldable pub update_profile : ℕ → UserSelfUpdate → Exec Registry Bool
update_profile i b = do
  found ← gets (λ s. lookup i s.users)
  a ← or_raise found (not_found user_missing)
  write i (set_preferences b a)
  pure true

unfoldable pub admin_set_banned : ℕ → Bool → Exec Registry Bool
admin_set_banned i banned = do
  found ← gets (λ s. lookup i s.users)
  a ← or_raise found (not_found user_missing)
  set_account i (record a { banned = banned })
  pure true

unfoldable pub unbind_telegram : ℕ → Exec Registry Bool
unbind_telegram i = do
  found ← gets (λ s. lookup i s.users)
  a ← or_raise found (not_found user_missing)
  set_account i (record a { telegram_id = none })
  pure true

-- DELETE … WHERE user_id = …, and the UPDATE of the invited accounts.
unfoldable pub drop_rows : {A : Type 0} → (ℕ → A → Bool) → Rows A → Rows A
drop_rows p [] = []
drop_rows p ((i, a) ∷ t) = let rest = drop_rows p t in if p i a then rest else (i, a) ∷ rest

abbrev pub without_inviter : ℕ → Account → Account
without_inviter i a =
    if opt_eq a.user.invite_user_id (some i)
    then record a { user = record a.user { invite_user_id = none } }
    else a

unfoldable pub forget_inviter : ℕ → Rows Account → Rows Account
forget_inviter i [] = []
forget_inviter i ((j, a) ∷ t) = (j, without_inviter i a) ∷ forget_inviter i t

-- `ticket_id.in_(ticket_ids)`, of the tickets of the user
abbrev pub is_ticket_of : ℕ → Rows Ticket → ℕ → Bool
is_ticket_of i tickets k = elim (lookup k tickets) [ none ↦ false | some v ↦ v.user_id == i ]

-- `_delete_user_related_data`
unfoldable pub delete_user_related_data : ℕ → Exec Registry (Unit {0})
delete_user_related_data i = modify (λ s. record s {
  messages = drop_rows (λ _ (m : TicketMessage). is_ticket_of i s.tickets m.ticket_id) s.messages;
  tickets = drop_rows (λ _ (v : Ticket). v.user_id == i) s.tickets;
  orders = drop_rows (λ _ (o : Order). o.user_id == i) s.orders;
  invites = drop_rows (λ _ (v : InviteCode). v.user_id == i) s.invites;
  users = forget_inviter i s.users;
})

unfoldable pub delete_user : ℕ → Exec Registry (Unit {0})
delete_user i = do
  found ← gets (λ s. lookup i s.users)
  a ← or_raise found (not_found user_missing)
  delete_user_related_data i
  modify (λ s. record s { users = erase i s.users })
