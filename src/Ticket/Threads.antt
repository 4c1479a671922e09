-- ===== src/Ticket/Threads.antt =====
-- What each operation of app/services/ticket.py writes.
use py_board.Prelude.{
  ℕ, ◌+◌, ◌≡◌, refl, inl, inr, String, not, ◌&&◌, Option, none, some, arith, ◌==◌, ltb,
  Option-cases, Bool-cases, if◌then◌else◌,
}
use py_board.Prelude.Int.{pos, eqb_ℤ, ltb_ℤ, ◌*ℤ◌}
use py_board.Prelude.Rows.{lookup, insert}
use py_board.Model.Period.{text_mem}
use py_board.Ticket.{
  Ticket, TicketMessage, Desk, DeskEnv, TicketCreate, TicketWithdraw, is_empty, is_last_of,
  owned_by, last_by_ticket, has_paid_order, count_open_by_user, reply, create_ticket,
  create_withdraw_ticket, reply_user_ticket, reply_admin_ticket, close_user_ticket,
  close_admin_ticket,
}

-- A new message, and the ticket that it belongs to as it is written.
abbrev pub spoken : ℕ → Ticket → TicketMessage → Desk → Desk
spoken i v m s = record s {
  tickets = insert i v s.tickets;
  messages = insert s.next_message m s.messages;
  next_message = s.next_message + 1;
}

abbrev pub answered : ℕ → Ticket → Ticket
answered user_id v = record v { reply_status = if user_id == v.user_id then 0 else 1 }

-- The tables after an operation: as they were; a new ticket with its first message; a message on a
-- ticket that is there; or a ticket closed.
pub data Outcome (s : Desk) : Desk → Type 0 where
  kept : Outcome s s
  opened :
      (u : ℕ) (v : Ticket) (t : String)
      → v.user_id ≡ u
      → v.reply_status ≡ 0
      → Outcome s
          (record (spoken s.next_ticket v
            (record { user_id = u; ticket_id = s.next_ticket; message = t })
            s) { next_ticket = s.next_ticket + 1 })
  replied :
      (u i n : ℕ) (v : Ticket) (t : String)
      → lookup i s.tickets ≡ some v
      → Outcome s (
          spoken i
            (answered u (record v { status = n }))
            (record { user_id = u; ticket_id = i; message = t })
            s)
  closed :
      (i : ℕ) (v : Ticket)
      → lookup i s.tickets ≡ some v
      → Outcome s (record s { tickets = insert i (record v { status = 1 }) s.tickets })

-- The ticket of a user that was found.
pub owned_by-some :
    (u : ℕ) (o : Option Ticket) (v : Ticket)
    → owned_by u o ≡ some v
    → (o ≡ some v) × (v.user_id ≡ u)
owned_by-some u none v e = ground arith
owned_by-some u (some w) v e = ground arith

module _ (env : DeskEnv) where
  pub close_admin_ticket-Outcome : (i : ℕ) (s : Desk) → Outcome s (close_admin_ticket env i s).1
  unfolding close_admin_ticket
  close_admin_ticket-Outcome i s = elim (Option-cases (lookup i s.tickets)) [
    | inl e ↦ rw e kept
    | inr (v, e) ↦ rw e (closed i v e)
  ]

  pub close_user_ticket-Outcome : (u i : ℕ) (s : Desk) → Outcome s (close_user_ticket env u i s).1
  unfolding close_user_ticket
  close_user_ticket-Outcome u i s = elim (Option-cases (owned_by u (lookup i s.tickets))) [
    | inl e ↦ rw e kept
    | inr (v, e) ↦ rw e (closed i v (owned_by-some u (lookup i s.tickets) v e).0)
  ]

  pub reply_admin_ticket-Outcome :
      (u i : ℕ) (t : String) (s : Desk) → Outcome s (reply_admin_ticket env u i t s).1
  unfolding reply_admin_ticket reply
  reply_admin_ticket-Outcome u i t s = elim (Option-cases (lookup i s.tickets)) [
    | inl e ↦ rw e kept
    | inr (v, e) ↦ elim (Bool-cases (is_empty (env.strip t))) [
      | inl empty ↦ rw (e, empty) kept
      | inr text ↦ rw (e, text) (replied u i 0 v (env.strip t) e)
    ]
  ]

  pub reply_user_ticket-Outcome :
      (u i : ℕ) (t : String) (s : Desk) → Outcome s (reply_user_ticket env u i t s).1
  unfolding reply_user_ticket reply
  reply_user_ticket-Outcome u i t s = elim (Option-cases (owned_by u (lookup i s.tickets))) [
    | inl e ↦ rw e kept
    | inr (v, e) ↦ elim (Bool-cases (not (v.status == 0))) [
      | inl shut ↦ rw (e, shut) kept
      | inr still ↦ elim (Bool-cases (is_empty (env.strip t))) [
        | inl empty ↦ rw (e, still, empty) kept
        | inr text ↦ elim (Bool-cases (is_last_of u (last_by_ticket i s.messages))) [
          | inl last ↦ rw (e, still, text, last) kept
          | inr free ↦
              rw (e, still, text, free)
                (replied u i v.status v (env.strip t) (owned_by-some u (lookup i s.tickets) v e).0)
        ]
      ]
    ]
  ]

  pub create_ticket-Outcome :
      (u : ℕ) (b : TicketCreate) (s : Desk) → Outcome s (create_ticket env u b s).1
  unfolding create_ticket
  create_ticket-Outcome u b s = elim (Bool-cases (is_empty (env.strip b.subject))) [
    | inl bare ↦ rw bare kept
    | inr subject ↦ elim (Bool-cases (is_empty (env.strip b.message))) [
      | inl empty ↦ rw (subject, empty) kept
      | inr message ↦ elim (Bool-cases (ltb 0 (count_open_by_user u s))) [
        | inl more ↦ rw (subject, message, more) kept
        | inr first ↦
            elim (Bool-cases (eqb_ℤ env.ticket_status (pos 1) && not (has_paid_order u s))) [
              | inl unpaid ↦ rw (subject, message, first, unpaid) kept
              | inr paid ↦ elim (Bool-cases (eqb_ℤ env.ticket_status (pos 2))) [
                | inl off ↦ rw (subject, message, first, paid, off) kept
                | inr on ↦
                    rw (subject, message, first, paid, on)
                      (opened u _ (env.strip b.message) refl refl)
              ]
            ]
      ]
    ]
  ]

  pub create_withdraw_ticket-Outcome :
      (u : ℕ) (b : TicketWithdraw) (s : Desk) → Outcome s (create_withdraw_ticket env u b s).1
  unfolding create_withdraw_ticket
  create_withdraw_ticket-Outcome u b s =
      elim (Bool-cases (not (eqb_ℤ env.withdraw_close_enable (pos 0)))) [
        | inl off ↦ rw off kept
        | inr on ↦
            elim (Bool-cases (not (text_mem b.withdraw_method env.commission_withdraw_method))) [
              | inl unknown ↦ rw (on, unknown) kept
              | inr method ↦ elim (Option-cases (lookup u s.users)) [
                | inl gone ↦ rw (on, method, gone) kept
                | inr (user, here) ↦
                    elim (Bool-cases
                      (ltb_ℤ user.commission_balance (env.commission_withdraw_limit *ℤ pos 100))) [
                        | inl short ↦ rw (on, method, here, short) kept
                        | inr enough ↦ rw (on, method, here, enough) (create_ticket-Outcome u _ s)
                      ]
              ]
            ]
      ]
