-- ===== src/Tests/Ticket.antt =====
-- A ticket that is opened, answered by the staff, and answered by its owner.
use py_board.Prelude.{◌≡◌, refl, true, false, [], ◌∷◌, arith}
use py_board.Prelude.Int.{pos}
use py_board.Prelude.Rows.{lookup, insert, find, count}
use py_board.Exec.{ok}
use py_board.Ticket.{
  Ticket, Desk, DeskEnv, TicketCreate, Detail, create_ticket, reply_user_ticket, reply_admin_ticket,
  reply, last_by_ticket, list_by_ticket, with_is_me,
}
use py_board.Ticket.History
use py_board.Ticket.History.{Reach, IsDesk, Reach-IsDesk}
use py_board.Tests.Data.{shop}

abbrev env : DeskEnv
env = record {
  strip = λ t. t;
  ticket_status = pos 0;
  withdraw_close_enable = pos 0;
  commission_withdraw_method = "alipay" ∷ [];
  commission_withdraw_limit = pos 100;
}

-- No ticket yet.
abbrev quiet : Desk
quiet = record {
  tickets = [];
  next_ticket = 1;
  messages = [];
  next_message = 1;
  orders = shop.orders;
  users = shop.users;
}

quiet-IsDesk : IsDesk quiet
unfolding lookup last_by_ticket
quiet-IsDesk = record {
  tickets = tt;
  messages = tt;
  silent = λ i e. refl;
  says = λ i v e. ground arith;
}

abbrev help : TicketCreate
help = record { subject = "help"; level = pos 0; message = "it is slow" }

-- The user 1 opens a ticket, which the user 2, of the staff, answers.
abbrev asked : Desk
asked = (create_ticket env 1 help quiet).1

abbrev served : Desk
served = (reply_admin_ticket env 2 1 "we look" asked).1

abbrev story : Reach quiet served
story =
    History.next (History.next History.here (History.created env 1 help))
      (History.admin_replied env 2 1 "we look")

Reach-IsDesk_example : IsDesk served
Reach-IsDesk_example = Reach-IsDesk story quiet-IsDesk

abbrev ticket : Ticket
ticket = record { user_id = 1; subject = "help"; level = pos 0; status = 0; reply_status = 0 }

abbrev thanked : Detail
thanked = (
  ticket,
  (1, (record { user_id = 1; ticket_id = 1; message = "it is slow" }, true))
      ∷ (2, (record { user_id = 2; ticket_id = 1; message = "we look" }, false))
      ∷ (3, (record { user_id = 1; ticket_id = 1; message = "thanks" }, true))
      ∷ [],
)

thanks : (reply_user_ticket env 1 1 "thanks" served).0 ≡ ok thanked
unfolding create_ticket reply_admin_ticket reply_user_ticket reply lookup insert find count
    last_by_ticket list_by_ticket with_is_me
thanks = refl
