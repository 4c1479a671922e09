-- ===== src/Ticket/History.antt =====
-- The requests of app/services/ticket.py in any order: who spoke last, and what `reply_status` says.
pub mod Turns
use py_board.Prelude.{
  ℕ, ◌+◌, ◌≤◌, ◌<◌, ◌≡◌, ◌≢◌, refl, sym, ap, ◌∙◌, inl, inr, String, Bool, true, false, Option, none,
  some, List, [], ◌∷◌, arith, ◌==◌, ltb, if◌then◌else◌, eq_or_ne, Bool-cases,
}
use py_board.Prelude.Rows.{Rows, lookup, insert, lookup-insert}
use py_board.Ticket.{
  Ticket, TicketMessage, Desk, DeskEnv, TicketCreate, TicketWithdraw, last_by_ticket, create_ticket,
  create_withdraw_ticket, reply_user_ticket, reply_admin_ticket, close_user_ticket,
  close_admin_ticket,
}
use py_board.Ticket.Threads.{
  Outcome, kept, opened, replied, closed, spoken, answered, create_ticket-Outcome,
  create_withdraw_ticket-Outcome, reply_user_ticket-Outcome, reply_admin_ticket-Outcome,
  close_user_ticket-Outcome, close_admin_ticket-Outcome,
}

module _ {A : Type 0} where
  -- Every key is smaller.
  abbrev pub IsBelow : ℕ → Rows A → Type 0
  IsBelow n [] = Unit
  IsBelow n ((i, a) ∷ t) = (i < n) × IsBelow n t

  lookup-IsBelow : (n k : ℕ) (t : Rows A) → IsBelow n t → n ≤ k → lookup k t ≡ none
  unfolding lookup
  lookup-IsBelow n k [] h le = refl
  lookup-IsBelow n k ((i, a) ∷ t) h le = ground (arith, lookup-IsBelow n k t h.1 le)

  IsBelow-mono : (n m : ℕ) (t : Rows A) → n ≤ m → IsBelow n t → IsBelow m t
  IsBelow-mono n m [] le h = tt
  IsBelow-mono n m ((i, a) ∷ t) le h = (ground arith, IsBelow-mono n m t le h.1)

  insert-IsBelow : (n k : ℕ) (a : A) (t : Rows A) → k < n → IsBelow n t → IsBelow n (insert k a t)
  unfolding insert
  insert-IsBelow n k a [] lt h = (lt, tt)
  insert-IsBelow n k a ((i, b) ∷ t) lt h = ground (arith, insert-IsBelow n k a t lt h.1)

-- A message with a new key is the last one of its ticket.
last-insert :
    (t k : ℕ) (m : TicketMessage) (ms : Rows TicketMessage)
    → IsBelow k ms
    → last_by_ticket t (insert k m ms)
      ≡ (if m.ticket_id == t then some (k, m) else last_by_ticket t ms)
unfolding last_by_ticket insert
last-insert t k m [] h = ground arith
last-insert t k m ((i, n) ∷ ms) h = ground (arith, last-insert t k m ms h.1, h.0)

-- The column says who spoke last: 0 for the owner of the ticket, 1 for anyone else.
abbrev pub Says : Rows TicketMessage → ℕ → Ticket → Type 0
Says ms i v =
    (k : ℕ) × (m : TicketMessage) × (last_by_ticket i ms ≡ some (k, m))
    × (v.reply_status ≡ (if m.user_id == v.user_id then 0 else 1))

-- The next keys are free, a ticket that is not there has no message, and each ticket has one and says
-- who spoke last.
pub record IsDesk (s : Desk) : Type 0 where
  pub tickets : IsBelow s.next_ticket s.tickets
  pub messages : IsBelow s.next_message s.messages
  pub silent : (i : ℕ) → lookup i s.tickets ≡ none → last_by_ticket i s.messages ≡ none
  pub says : (i : ℕ) (v : Ticket) → lookup i s.tickets ≡ some v → Says s.messages i v

module _ (s : Desk) (h : IsDesk s) where
  -- A message of `u` on the ticket `i`, which is written as it says.
  module _ (i u : ℕ) (v : Ticket) (t : String)
      (right : v.reply_status ≡ (if u == v.user_id then 0 else 1)) where
    abbrev message : TicketMessage
    message = record { user_id = u; ticket_id = i; message = t }

    spoken-Says :
        (k : ℕ) (w : Ticket)
        → lookup k (insert i v s.tickets) ≡ some w
        → Says
            (insert s.next_message (record { user_id = u; ticket_id = i; message = t }) s.messages)
            k
            w
    spoken-Says k w e =
        let last = last-insert k s.next_message (message) s.messages h.messages in
        elim (eq_or_ne i k) [
          | inl same ↦
              let is_w : v ≡ w = ground (arith, lookup-insert i k v s.tickets, same, e) in
              (s.next_message, message, ground (arith, last, same), rw (sym is_w) right)
          | inr ne ↦
              let (j, m, was, says) =
                h.says k w (ground (arith, lookup-insert i k v s.tickets, ne, e)) in
              (j, m, ground (arith, last, ne, was), says)
        ]

    spoken-silent :
        (k : ℕ)
        → lookup k (insert i v s.tickets) ≡ none
        → last_by_ticket k
            (insert s.next_message (record { user_id = u; ticket_id = i; message = t }) s.messages)
          ≡ none
    spoken-silent k e =
        let last = last-insert k s.next_message message s.messages h.messages in
        let was = h.silent k in ground (arith, last, lookup-insert i k v s.tickets, e, was)

  there : (i : ℕ) (v : Ticket) → lookup i s.tickets ≡ some v → i < s.next_ticket
  there i v here = elim (Bool-cases (ltb i s.next_ticket)) [
    | inl lt ↦ ground arith
    | inr ge ↦
        absurd
          (ground (arith, lookup-IsBelow s.next_ticket i s.tickets h.tickets (ground arith), here))
  ]

  more : (m : TicketMessage) → IsBelow (s.next_message + 1) (insert s.next_message m s.messages)
  more m =
      insert-IsBelow (s.next_message + 1) s.next_message m s.messages (ground arith)
        (IsBelow-mono s.next_message (s.next_message + 1) s.messages (ground arith) h.messages)

  own :
      (u : ℕ) (v : Ticket)
      → v.user_id ≡ u
      → v.reply_status ≡ 0
      → v.reply_status ≡ (if u == v.user_id then 0 else 1)
  own u v same answer = ground arith

  pub Outcome-IsDesk : {s' : Desk} → Outcome s s' → IsDesk s'
  Outcome-IsDesk kept = h
  Outcome-IsDesk (opened u v t same answer) = record {
    tickets =
        insert-IsBelow (s.next_ticket + 1) s.next_ticket v s.tickets (ground arith)
          (IsBelow-mono s.next_ticket (s.next_ticket + 1) s.tickets (ground arith) h.tickets);
    messages = more (record { user_id = u; ticket_id = s.next_ticket; message = t });
    silent = spoken-silent s.next_ticket u v t (own u v same answer);
    says = spoken-Says s.next_ticket u v t (own u v same answer);
  }
  Outcome-IsDesk (replied u i n v t here) =
      let w = answered u (record v { status = n }) in
      record {
        tickets = insert-IsBelow s.next_ticket i w s.tickets (there i v here) h.tickets;
        messages = more (record { user_id = u; ticket_id = i; message = t });
        silent = spoken-silent i u w t refl;
        says = spoken-Says i u w t refl;
      }
  Outcome-IsDesk (closed i v here) = record {
    tickets =
        insert-IsBelow s.next_ticket i (record v { status = 1 }) s.tickets (there i v here)
          h.tickets;
    messages = h.messages;
    silent = λ k e.
        h.silent k (ground (arith, lookup-insert i k (record v { status = 1 }) s.tickets, e));
    says = λ k w e. elim (eq_or_ne i k) [
      | inl same ↦
          let (j, m, last, says) = h.says i v here in
          let is_w : record v { status = 1 } ≡ w =
            ground (arith, lookup-insert i k (record v { status = 1 }) s.tickets, same, e) in
          (j, m, ap (λ x. last_by_ticket x s.messages) (sym same) ∙ last, rw (sym is_w) says)
      | inr ne ↦
          h.says k w (ground (arith, lookup-insert i k (record v { status = 1 }) s.tickets, ne, e))
    ];
  }

-- A request on tickets, by anyone, in any settings.
pub data Step (s : Desk) : Desk → Type 0 where
  created : (env : DeskEnv) (u : ℕ) (b : TicketCreate) → Step s (create_ticket env u b s).1
  withdrawn :
      (env : DeskEnv) (u : ℕ) (b : TicketWithdraw) → Step s (create_withdraw_ticket env u b s).1
  user_replied : (env : DeskEnv) (u i : ℕ) (t : String) → Step s (reply_user_ticket env u i t s).1
  admin_replied : (env : DeskEnv) (u i : ℕ) (t : String) → Step s (reply_admin_ticket env u i t s).1
  user_closed : (env : DeskEnv) (u i : ℕ) → Step s (close_user_ticket env u i s).1
  admin_closed : (env : DeskEnv) (i : ℕ) → Step s (close_admin_ticket env i s).1

pub data Reach (s : Desk) : Desk → Type 0 where
  here : Reach s s
  next : {t u : Desk} → Reach s t → Step t u → Reach s u

pub Step-IsDesk : {s t : Desk} → Step s t → IsDesk s → IsDesk t
Step-IsDesk {s} (created env u b) h = Outcome-IsDesk s h (create_ticket-Outcome env u b s)
Step-IsDesk {s} (withdrawn env u b) h =
    Outcome-IsDesk s h (create_withdraw_ticket-Outcome env u b s)
Step-IsDesk {s} (user_replied env u i t) h =
    Outcome-IsDesk s h (reply_user_ticket-Outcome env u i t s)
Step-IsDesk {s} (admin_replied env u i t) h =
    Outcome-IsDesk s h (reply_admin_ticket-Outcome env u i t s)
Step-IsDesk {s} (user_closed env u i) h = Outcome-IsDesk s h (close_user_ticket-Outcome env u i s)
Step-IsDesk {s} (admin_closed env i) h = Outcome-IsDesk s h (close_admin_ticket-Outcome env i s)

-- Where the next keys are larger than every key in use, a ticket that is not there has no message, and
-- every ticket has a message and a `reply_status` that says who wrote the last one (0 for the owner of the
-- ticket, 1 for anyone else), this is so after any sequence of requests on tickets: created, for a
-- withdrawal, answered or closed by their owner or by the staff, whether they return or raise.
pub Reach-IsDesk : {s t : Desk} → Reach s t → IsDesk s → IsDesk t
Reach-IsDesk here h = h
Reach-IsDesk (next before last) h = Step-IsDesk last (Reach-IsDesk before h)
