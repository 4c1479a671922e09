-- ===== src/Ticket.antt =====
-- app/services/ticket.py, on the tables of app/models/ticket and app/models/ticket_message and the queries
-- of their repositories.
pub mod Threads
pub mod History
use Prim.Native.String.{◌++◌ as joined}
use text.Mathlib.Text.{◌==◌ as str_eq}
use py_board.Prelude.{
  ℕ, ◌+◌, String, Bool, true, false, not, ◌&&◌, ◌||◌, Option, none, some, List, [], ◌∷◌, ◌==◌, ltb,
  is_none, if◌then◌else◌,
}
use py_board.Prelude.Int.{ℤ, pos, ◌*ℤ◌, ltb_ℤ, eqb_ℤ}
use py_board.Prelude.Rows.{Rows, lookup, insert, find, count}
use py_board.Model.Entity.{User, Order}
use py_board.Model.Period.{text_mem}
use py_board.Exec.{
  Exec, not_found, bad_request, ticket_missing, ticket_subject_empty, ticket_message_empty,
  ticket_open_exists, ticket_no_order, ticket_refused, ticket_closed, ticket_reply_empty,
  ticket_unanswered, withdraw_refused, withdraw_method_unknown, withdraw_short, user_missing, ◌>>=◌,
  ◌>>◌, pure, raise_if, or_raise, gets, modify,
}

-- app/models/ticket/base.py
pub record Ticket : Type 0 where
  pub user_id : ℕ
  pub subject : String
  pub level : ℤ
  pub status : ℕ
  pub reply_status : ℕ

-- app/models/ticket_message/base.py
pub record TicketMessage : Type 0 where
  pub user_id : ℕ
  pub ticket_id : ℕ
  pub message : String

-- The tables that the service reads and writes.
pub record Desk : Type 0 where
  pub tickets : Rows Ticket
  pub next_ticket : ℕ
  pub messages : Rows TicketMessage
  pub next_message : ℕ
  pub orders : Rows Order
  pub users : Rows User

-- `str.strip()`, and the settings that the service reads; the withdrawal methods are a list of texts.
pub record DeskEnv : Type 0 where
  pub strip : String → String
  pub ticket_status : ℤ
  pub withdraw_close_enable : ℤ
  pub commission_withdraw_method : List String
  pub commission_withdraw_limit : ℤ

pub record TicketCreate : Type 0 where
  pub subject : String
  pub level : ℤ
  pub message : String

pub record TicketWithdraw : Type 0 where
  pub withdraw_method : String
  pub withdraw_account : String

-- What `_ticket_detail` returns: the ticket, and its messages, each with `is_me`.
abbrev pub Detail : Type 0
Detail = Ticket × List (ℕ × (TicketMessage × Bool))

-- `not x` of a text
abbrev pub is_empty : String → Bool
is_empty t = str_eq t ""

-- `TicketRepository.count_open_by_user`
abbrev pub is_open_of : ℕ → ℕ → Ticket → Bool
is_open_of user_id i v = v.user_id == user_id && v.status == 0

abbrev pub count_open_by_user : ℕ → Desk → ℕ
count_open_by_user user_id s = count (is_open_of user_id) s.tickets

-- `OrderRepository.has_paid_order`
abbrev pub has_paid_order : ℕ → Desk → Bool
has_paid_order user_id s = not (
    is_none
      (find (λ (o : Order). o.user_id == user_id && (o.status == 3 || o.status == 4)) s.orders))

-- `get_last_by_ticket`: the message of the ticket with the largest key, with its key.
abbrev pub later_of : ℕ × TicketMessage → Option (ℕ × TicketMessage) → ℕ × TicketMessage
later_of (i, m) none = (i, m)
later_of (i, m) (some (k, n)) = if ltb i k then (k, n) else (i, m)

unfoldable pub last_by_ticket : ℕ → Rows TicketMessage → Option (ℕ × TicketMessage)
last_by_ticket t [] = none
last_by_ticket t ((i, m) ∷ ms) =
    let rest = last_by_ticket t ms in if m.ticket_id == t then some (later_of (i, m) rest) else rest

-- `list_by_ticket`, in the order of the table, which is the order of the keys.
unfoldable pub list_by_ticket : ℕ → Rows TicketMessage → Rows TicketMessage
list_by_ticket t [] = []
list_by_ticket t ((i, m) ∷ ms) =
    let rest = list_by_ticket t ms in if m.ticket_id == t then (i, m) ∷ rest else rest

-- `is_me`: on the side of the staff, every message that is not the owner's.
abbrev pub is_me : Option ℕ → Ticket → TicketMessage → Bool
is_me none v m = not (m.user_id == v.user_id)
is_me (some viewer) v m = m.user_id == viewer

unfoldable pub with_is_me :
    Option ℕ → Ticket → Rows TicketMessage → List (ℕ × (TicketMessage × Bool))
with_is_me viewer v [] = []
with_is_me viewer v ((i, m) ∷ ms) = (i, (m, is_me viewer v m)) ∷ with_is_me viewer v ms

-- `_ticket_detail` of the ticket as it stands; `none` for `staff_view`.
abbrev pub ticket_detail : Option ℕ → ℕ → Ticket → Desk → Detail
ticket_detail viewer i v s = (v, with_is_me viewer v (list_by_ticket i s.messages))

-- `ticket is None or ticket.user_id != user_id`
abbrev pub owned_by : ℕ → Option Ticket → Option Ticket
owned_by user_id none = none
owned_by user_id (some v) = if v.user_id == user_id then some v else none

-- `last_message is not None and last_message.user_id == user_id`
abbrev pub is_last_of : ℕ → Option (ℕ × TicketMessage) → Bool
is_last_of user_id none = false
is_last_of user_id (some (k, m)) = m.user_id == user_id

abbrev pub set_ticket : ℕ → Ticket → Exec Desk (Unit {0})
set_ticket i v = modify (λ s. record s { tickets = insert i v s.tickets })

abbrev pub create_ticket_row : Ticket → Exec Desk ℕ
create_ticket_row v = do
  i ← gets (λ s. s.next_ticket)
  modify (λ s. record s {
    tickets = insert s.next_ticket v s.tickets;
    next_ticket = s.next_ticket + 1;
  })
  pure i

abbrev pub create_message : TicketMessage → Exec Desk (Unit {0})
create_message m = modify (λ s. record s {
  messages = insert s.next_message m s.messages;
  next_message = s.next_message + 1;
})

-- `_reply`
unfoldable pub reply : ℕ → Ticket → ℕ → String → Exec Desk Ticket
reply i v user_id message = do
  create_message (record { user_id = user_id; ticket_id = i; message = message })
  let v' = record v { reply_status = if user_id == v.user_id then 0 else 1 }
  set_ticket i v'
  pure v'

module _ (env : DeskEnv) where
  unfoldable pub create_ticket : ℕ → TicketCreate → Exec Desk Detail
  create_ticket user_id data_in = do
    raise_if (is_empty (env.strip data_in.subject)) (bad_request ticket_subject_empty)
    raise_if (is_empty (env.strip data_in.message)) (bad_request ticket_message_empty)
    opened ← gets (count_open_by_user user_id)
    raise_if (ltb 0 opened) (bad_request ticket_open_exists)
    paid ← gets (has_paid_order user_id)
    raise_if (eqb_ℤ env.ticket_status (pos 1) && not paid) (bad_request ticket_no_order)
    raise_if (eqb_ℤ env.ticket_status (pos 2)) (bad_request ticket_refused)
    let v : Ticket = record {
      user_id = user_id;
      subject = env.strip data_in.subject;
      level = data_in.level;
      status = 0;
      reply_status = 0;
    }
    i ← create_ticket_row v
    create_message
        (record { user_id = user_id; ticket_id = i; message = env.strip data_in.message })
    gets (ticket_detail (some user_id) i v)

  unfoldable pub get_user_ticket : ℕ → ℕ → Exec Desk Detail
  get_user_ticket user_id i = do
    found ← gets (λ s. owned_by user_id (lookup i s.tickets))
    v ← or_raise found (not_found ticket_missing)
    gets (ticket_detail (some user_id) i v)

  unfoldable pub reply_user_ticket : ℕ → ℕ → String → Exec Desk Detail
  reply_user_ticket user_id i message = do
    found ← gets (λ s. owned_by user_id (lookup i s.tickets))
    v ← or_raise found (not_found ticket_missing)
    raise_if (not (v.status == 0)) (bad_request ticket_closed)
    raise_if (is_empty (env.strip message)) (bad_request ticket_reply_empty)
    last_message ← gets (λ s. last_by_ticket i s.messages)
    raise_if (is_last_of user_id last_message) (bad_request ticket_unanswered)
    v' ← reply i v user_id (env.strip message)
    gets (ticket_detail (some user_id) i v')

  unfoldable pub close_user_ticket : ℕ → ℕ → Exec Desk Bool
  close_user_ticket user_id i = do
    found ← gets (λ s. owned_by user_id (lookup i s.tickets))
    v ← or_raise found (not_found ticket_missing)
    set_ticket i (record v { status = 1 })
    pure true

  unfoldable pub create_withdraw_ticket : ℕ → TicketWithdraw → Exec Desk Detail
  create_withdraw_ticket user_id data_in = do
    raise_if (not (eqb_ℤ env.withdraw_close_enable (pos 0))) (bad_request withdraw_refused)
    raise_if (not (text_mem data_in.withdraw_method env.commission_withdraw_method))
        (bad_request withdraw_method_unknown)
    found ← gets (λ s. lookup user_id s.users)
    user ← or_raise found (not_found user_missing)
    raise_if (ltb_ℤ user.commission_balance (env.commission_withdraw_limit *ℤ pos 100))
        (bad_request withdraw_short)
    create_ticket user_id (record {
      subject = "佣金提现申请";
      level = pos 2;
      message =
          joined "提现方式："
            (joined data_in.withdraw_method (joined "\n提现账号：" data_in.withdraw_account));
    })

  unfoldable pub get_admin_ticket : ℕ → Exec Desk Detail
  get_admin_ticket i = do
    found ← gets (λ s. lookup i s.tickets)
    v ← or_raise found (not_found ticket_missing)
    gets (ticket_detail none i v)

  -- A closed ticket is opened again.
  unfoldable pub reply_admin_ticket : ℕ → ℕ → String → Exec Desk Detail
  reply_admin_ticket admin_user_id i message = do
    found ← gets (λ s. lookup i s.tickets)
    v ← or_raise found (not_found ticket_missing)
    raise_if (is_empty (env.strip message)) (bad_request ticket_reply_empty)
    v' ← reply i (record v { status = 0 }) admin_user_id (env.strip message)
    gets (ticket_detail none i v')

  unfoldable pub close_admin_ticket : ℕ → Exec Desk Bool
  close_admin_ticket i = do
    found ← gets (λ s. lookup i s.tickets)
    v ← or_raise found (not_found ticket_missing)
    set_ticket i (record v { status = 1 })
    pure true
