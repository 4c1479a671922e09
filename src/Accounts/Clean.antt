-- ===== src/Accounts/Clean.antt =====
-- What is left of an account that app/services/user.py deletes, `delete_user`.
use py_board.Prelude.{
  ℕ, ◌≡◌, ◌≢◌, refl, sym, ap, ◌∙◌, inl, inr, Bool, true, false, Option, none, some, [], ◌∷◌, arith,
  ◌==◌, opt_eq, Bool-cases, Option-cases, if◌then◌else◌,
}
use py_board.Prelude.Rows.{Rows, lookup, erase, IsKeyed, lookup-erase}
use py_board.Model.Entity.{Order}
use py_board.Ticket.{Ticket, TicketMessage}
use py_board.Exec.{ok, err, not_found, user_missing}
use py_board.Accounts.{Account, InviteCode, Registry}
use py_board.Accounts.Profile.{
  drop_rows, without_inviter, forget_inviter, is_ticket_of, delete_user_related_data, delete_user,
}

module _ {A : Type 0} (p : ℕ → A → Bool) where
  -- A row that is left does not fit the condition, and is the row that was there.
  lookup-drop_rows :
      (k : ℕ) (a : A) (t : Rows A) → lookup k (drop_rows p t) ≡ some a → p k a ≡ false
  unfolding lookup drop_rows
  lookup-drop_rows k a [] e = ground arith
  lookup-drop_rows k a ((j, b) ∷ t) e = ground (arith, lookup-drop_rows k a t)

  lookup-drop_rows_kept :
      (k : ℕ) (a : A) (t : Rows A)
      → lookup k t ≡ some a
      → p k a ≡ false
      → lookup k (drop_rows p t) ≡ some a
  unfolding lookup drop_rows
  lookup-drop_rows_kept k a [] e h = ground arith
  lookup-drop_rows_kept k a ((j, b) ∷ t) e h = ground (arith, lookup-drop_rows_kept k a t)

lookup-forget_inviter :
    (i k : ℕ) (t : Rows Account)
    → lookup k (forget_inviter i t) ≡ elim (lookup k t) as (λ _. Option Account) [
      | none ↦ none
      | some a ↦ some (without_inviter i a)
    ]
unfolding lookup forget_inviter
lookup-forget_inviter i k [] = refl
lookup-forget_inviter i k ((j, a) ∷ t) = elim (Bool-cases (j == k)) [
  | inl found ↦ ground arith
  | inr later ↦ ground (arith, lookup-forget_inviter i k t)
]

forget_inviter-IsKeyed : (i : ℕ) (t : Rows Account) → IsKeyed t → IsKeyed (forget_inviter i t)
unfolding lookup forget_inviter
forget_inviter-IsKeyed i [] h = tt
forget_inviter-IsKeyed i ((j, a) ∷ t) h =
    (lookup-forget_inviter i j t ∙ ground (arith, h.0), forget_inviter-IsKeyed i t h.1)

without_inviter-other :
    (i : ℕ) (a : Account) → opt_eq (without_inviter i a).user.invite_user_id (some i) ≡ false
without_inviter-other i a = elim (Bool-cases (opt_eq a.user.invite_user_id (some i))) [
  | inl invited ↦ rw invited refl
  | inr other ↦ rw other other
]

-- The account `i` of `s`, its orders, tickets and invite codes and the messages on its tickets are not
-- in `s'`; the other orders, tickets and invite codes and the messages on other tickets, whoever wrote
-- them, are as they were, and so are the other accounts, but for who invited them, if it was `i`.
pub record IsForgotten (i : ℕ) (s s' : Registry) : Type 0 where
  pub account : lookup i s'.users ≡ none
  pub order : (k : ℕ) (o : Order) → lookup k s'.orders ≡ some o → (o.user_id == i) ≡ false
  pub ticket : (k : ℕ) (v : Ticket) → lookup k s'.tickets ≡ some v → (v.user_id == i) ≡ false
  pub message :
      (k : ℕ) (m : TicketMessage)
      → lookup k s'.messages ≡ some m
      → is_ticket_of i s.tickets m.ticket_id ≡ false
  pub invite : (k : ℕ) (v : InviteCode) → lookup k s'.invites ≡ some v → (v.user_id == i) ≡ false
  pub invited :
      (k : ℕ) (a : Account)
      → lookup k s'.users ≡ some a
      → opt_eq a.user.invite_user_id (some i) ≡ false
  pub other_order :
      (k : ℕ) (o : Order)
      → lookup k s.orders ≡ some o
      → (o.user_id == i) ≡ false
      → lookup k s'.orders ≡ some o
  pub other_ticket :
      (k : ℕ) (v : Ticket)
      → lookup k s.tickets ≡ some v
      → (v.user_id == i) ≡ false
      → lookup k s'.tickets ≡ some v
  pub other_message :
      (k : ℕ) (m : TicketMessage)
      → lookup k s.messages ≡ some m
      → is_ticket_of i s.tickets m.ticket_id ≡ false
      → lookup k s'.messages ≡ some m
  pub other_invite :
      (k : ℕ) (v : InviteCode)
      → lookup k s.invites ≡ some v
      → (v.user_id == i) ≡ false
      → lookup k s'.invites ≡ some v
  pub other_account :
      (k : ℕ) (a : Account)
      → lookup k s.users ≡ some a
      → k ≢ i
      → lookup k s'.users ≡ some (without_inviter i a)

-- The state that `delete_user` leaves of an account that is there.
abbrev deleted : ℕ → Registry → Registry
deleted i s = record s {
  messages = drop_rows (λ _ (m : TicketMessage). is_ticket_of i s.tickets m.ticket_id) s.messages;
  tickets = drop_rows (λ _ (v : Ticket). v.user_id == i) s.tickets;
  orders = drop_rows (λ _ (o : Order). o.user_id == i) s.orders;
  invites = drop_rows (λ _ (v : InviteCode). v.user_id == i) s.invites;
  users = erase i (forget_inviter i s.users);
}

delete_user-some :
    (i : ℕ) (a : Account) (s : Registry)
    → lookup i s.users ≡ some a
    → delete_user i s ≡ (ok tt, deleted i s)
unfolding delete_user delete_user_related_data
delete_user-some i a s e = rw e refl

delete_user-none :
    (i : ℕ) (s : Registry)
    → lookup i s.users ≡ none
    → (delete_user i s).0 ≡ err (not_found user_missing)
unfolding delete_user
delete_user-none i s e = rw e refl

users_after :
    (i k : ℕ) (s : Registry)
    → IsKeyed s.users
    → lookup k (deleted i s).users ≡ (
        if i == k then none else elim (lookup k s.users) as (λ _. Option Account) [
          | none ↦ none
          | some a ↦ some (without_inviter i a)
        ])
users_after i k s keyed =
    lookup-erase i k (forget_inviter i s.users) (forget_inviter-IsKeyed i s.users keyed)
    ∙ ap (λ o. if i == k then none else o) (lookup-forget_inviter i k s.users)

deleted-IsForgotten : (i : ℕ) (s : Registry) → IsKeyed s.users → IsForgotten i s (deleted i s)
deleted-IsForgotten i s keyed = record {
  account = users_after i i s keyed ∙ ground arith;
  order = λ k o. lookup-drop_rows _ k o s.orders;
  ticket = λ k v. lookup-drop_rows _ k v s.tickets;
  message = λ k m. lookup-drop_rows _ k m s.messages;
  invite = λ k v. lookup-drop_rows _ k v s.invites;
  invited = λ k a e. uninvited (i == k) (lookup k s.users) a (sym (users_after i k s keyed) ∙ e);
  other_order = λ k o. lookup-drop_rows_kept _ k o s.orders;
  other_ticket = λ k v. lookup-drop_rows_kept _ k v s.tickets;
  other_message = λ k m. lookup-drop_rows_kept _ k m s.messages;
  other_invite = λ k v. lookup-drop_rows_kept _ k v s.invites;
  other_account = λ k a e ne. users_after i k s keyed ∙ ground arith;
}
  where
    left : Bool → Option Account → Option Account
    left x o = if x then none else elim o [ none ↦ none | some b ↦ some (without_inviter i b) ]

    uninvited :
        (x : Bool) (o : Option Account) (a : Account)
        → left x o ≡ some a
        → opt_eq a.user.invite_user_id (some i) ≡ false
    uninvited true o a e = absurd (ground arith)
    uninvited false none a e = absurd (ground arith)
    uninvited false (some b) a e =
        let same : without_inviter i b ≡ a = ground arith in
        ap (λ (c : Account). opt_eq c.user.invite_user_id (some i)) (sym same)
        ∙ without_inviter-other i b

-- Where no two accounts have the same id: after `delete_user` returned, there is no account with the id, no
-- order, ticket or invite code of it, no message of a ticket that it had, and no account that it invited;
-- the orders, tickets and invite codes of the others and the messages of their tickets, also those that
-- the account wrote, are as they were, and so are their accounts, but for who invited them.
pub delete_user-IsForgotten :
    (i : ℕ) (s : Registry)
    → IsKeyed s.users
    → (delete_user i s).0 ≡ ok tt
    → IsForgotten i s (delete_user i s).1
delete_user-IsForgotten i s keyed returned = elim (Option-cases (lookup i s.users)) [
  | inl missing ↦ absurd (ground (arith, delete_user-none i s missing, returned))
  | inr (a, there) ↦ rw (delete_user-some i a s there) (deleted-IsForgotten i s keyed)
]
