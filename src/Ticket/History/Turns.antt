-- ===== src/Ticket/History/Turns.antt =====
-- `reply_user_ticket` of app/services/ticket.py: a user's answers and the staff's.
use py_board.Prelude.{
  ℕ, ◌≡◌, ◌≢◌, inl, inr, String, false, not, some, arith, ◌==◌, Option-cases, Bool-cases,
}
use py_board.Prelude.Rows.{lookup, lookup-insert_self}
use py_board.Exec.{ok}
use py_board.Ticket.{
  Ticket, Desk, DeskEnv, Detail, is_empty, is_last_of, owned_by, last_by_ticket, reply,
  reply_user_ticket,
}
use py_board.Ticket.Threads.{answered, owned_by-some}
use py_board.Ticket.History.{IsDesk, Step-IsDesk, user_replied}

-- What a reply that returned has found.
record Accepted (u i : ℕ) (s s' : Desk) : Type 0 where
  ticket : Ticket
  found : lookup i s.tickets ≡ some ticket
  owned : ticket.user_id ≡ u
  still_open : ticket.status ≡ 0
  free : is_last_of u (last_by_ticket i s.messages) ≡ false
  written : lookup i s'.tickets ≡ some (answered u ticket)

module _ (env : DeskEnv) (u i : ℕ) (t : String) (s : Desk) where
  reply_user_ticket-Accepted :
      (d : Detail)
      → (reply_user_ticket env u i t s).0 ≡ ok d
      → Accepted u i s (reply_user_ticket env u i t s).1
  unfolding reply_user_ticket reply
  reply_user_ticket-Accepted d h = elim (Option-cases (owned_by u (lookup i s.tickets))) [
    | inl e ↦ absurd (ground (arith, e, h))
    | inr (v, e) ↦ elim (Bool-cases (not (v.status == 0))) [
      | inl shut ↦ absurd (ground (arith, e, shut, h))
      | inr still ↦ elim (Bool-cases (is_empty (env.strip t))) [
        | inl empty ↦ absurd (ground (arith, e, still, empty, h))
        | inr text ↦ elim (Bool-cases (is_last_of u (last_by_ticket i s.messages))) [
          | inl last ↦ absurd (ground (arith, e, still, text, last, h))
          | inr free ↦
              rw (e, still, text, free)
                (record {
                  ticket = v;
                  found = (owned_by-some u (lookup i s.tickets) v e).0;
                  owned = (owned_by-some u (lookup i s.tickets) v e).1;
                  still_open = ground arith;
                  free = free;
                  written = lookup-insert_self i (answered u v) s.tickets;
                })
        ]
      ]
    ]
  ]

-- The ticket was answered by someone else.
was_answered :
    (u i : ℕ) (s s' : Desk) (h : IsDesk s) (a : Accepted u i s s') → a.ticket.reply_status ≡ 1
was_answered u i s s' h a =
    let (k, m, last, says) = h.says i a.ticket a.found in
    ground (arith, a.free, a.owned, last, says)

-- Where the next keys are larger than every key in use, and every ticket has a message and a
-- `reply_status` that says who wrote the last one: a user's answer to a ticket that returns met an open
-- ticket of that user which the staff had answered last (`reply_status` 1), and left it waiting
-- (`reply_status` 0) and otherwise the same; until another request on the ticket, no further answer of the
-- user returns, in any settings.
pub reply_user_ticket-turn :
    (env : DeskEnv) (u i : ℕ) (t : String) (s : Desk)
    → IsDesk s
    → (d : Detail) → (reply_user_ticket env u i t s).0 ≡ ok d
    → (v : Ticket) × (lookup i s.tickets ≡ some v)
      × (v.user_id ≡ u)
      × (v.status ≡ 0)
      × (v.reply_status ≡ 1)
      × (lookup i (reply_user_ticket env u i t s).1.tickets ≡ some (record v { reply_status = 0 }))
      × ((env' : DeskEnv) (t' : String) (d' : Detail)
          → (reply_user_ticket env' u i t' (reply_user_ticket env u i t s).1).0 ≢ ok d')
reply_user_ticket-turn env u i t s h d e =
    let s' = (reply_user_ticket env u i t s).1 in
    let a = reply_user_ticket-Accepted env u i t s d e in
    let waits : lookup i s'.tickets ≡ some (record a.ticket { reply_status = 0 }) =
      ground (arith, a.written, a.owned) in
    (
      a.ticket,
      a.found,
      a.owned,
      a.still_open,
      was_answered u i s s' h a,
      waits,
      λ env' t' d' e'.
          let b = reply_user_ticket-Accepted env' u i t' s' d' e' in
          let once_more = was_answered u i s' _ (Step-IsDesk (user_replied env u i t) h) b in
          ground (arith, once_more, b.found, waits),
    )
