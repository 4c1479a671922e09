-- ===== src/Lifecycle/Keeps.antt =====
-- Methods that move orders forward from every state, with a rule for each way to build a method.
use py_board.Prelude.{ℕ, ◌≡◌, refl, inl, inr, Bool, true, false, Option, none, some, if◌then◌else◌}
use py_board.Prelude.Rows.{find, insert, lookup-find}
use py_board.Model.Entity.{User, Order, LogEvent}
use py_board.Exec.{
  Exn, Result, Result-cases, request, ◌>>=◌, ◌>>◌, pure, lift, gets, or_raise, raise_if,
}
use py_board.Db.{Db, Service, create_order_row, log_event, set_user}
use py_board.Lifecycle.Relation.{
  Follows, Progress, Progress-same, Progress-write, Progress-assuming, Progress-refl, Progress-bind,
  Progress-log_event, Progress-create_order_row,
}

-- A method that moves orders forward from every state.
pub record Keeps {A : Type 0} (m : Service A) : Type 0 where
  pub at : (s : Db) → Progress s (m s).1

module _ {A : Type 0} where
  pub Keeps-pure : (a : A) → Keeps (pure {S = Db} a)
  Keeps-pure a = record { at = λ s. Progress-refl s }

  pub Keeps-lift : (r : Result A) → Keeps (lift {S = Db} r)
  Keeps-lift r = record { at = λ s. Progress-refl s }

  pub Keeps-gets : (f : Db → A) → Keeps (gets f)
  Keeps-gets f = record { at = λ s. Progress-refl s }

  pub Keeps-or_raise : (o : Option A) (e : Exn) → Keeps (or_raise {S = Db} o e)
  Keeps-or_raise none e = record { at = λ s. Progress-refl s }
  Keeps-or_raise (some a) e = record { at = λ s. Progress-refl s }

  -- A method that changes nothing.
  pub Keeps-reads : (m : Service A) → ((s : Db) → (m s).1 ≡ s) → Keeps m
  Keeps-reads m e = record { at = λ s. rw (e s) (Progress-refl s) }

pub Keeps-raise_if : (c : Bool) (e : Exn) → Keeps (raise_if {S = Db} c e)
Keeps-raise_if c e = record { at = λ s. Progress-refl s }

pub Keeps-log_event : (e : LogEvent) → Keeps (log_event e)
Keeps-log_event e = record { at = Progress-log_event e }

pub Keeps-create_order_row : (o : Order) → Keeps (create_order_row o)
Keeps-create_order_row o = record { at = Progress-create_order_row o }

pub Keeps-set_user : (i : ℕ) (u : User) → Keeps (set_user i u)
Keeps-set_user i u = record { at = λ s. Progress-same {s = s} {s' = (set_user i u s).1} refl refl }

pub Keeps-if :
    {A : Type 0} (b : Bool) (m n : Service A) → Keeps m → Keeps n → Keeps (if b then m else n)
Keeps-if true m n h k = h
Keeps-if false m n h k = k

-- A request is rolled back or committed.
pub Keeps-request : {A : Type 0} (m : Service A) → Keeps m → Keeps (request m)
unfolding request
Keeps-request m h = record {
  at = λ s. elim (Result-cases (m s).0) [
    | inl (a, e) ↦ rw (e, request) (h.at s)
    | inr (x, e) ↦ rw (e, request) (Progress-refl s)
  ];
}

-- A write to the order that a query by its number found.
pub Progress-found :
    (p : Order → Bool) (i : ℕ) (o o' : Order) {s s' : Db}
    → find p s.orders ≡ some (i, o)
    → Follows o o'
    → s'.orders ≡ insert i o' s.orders
    → s'.next_order ≡ s.next_order
    → Progress s s'
Progress-found p i o o' {s} {s'} e k eo en =
    Progress-assuming λ f. Progress-write i o o' (lookup-find p s.orders i o f.1 e) k eo en

module _ {A B : Type 0} where
  pub Keeps-bind :
      (m : Service A) (f : A → Service B) → Keeps m → ((a : A) → Keeps (f a)) → Keeps (m >>= f)
  Keeps-bind m f h k = record { at = λ s. Progress-bind m f s (h.at s) (λ a _. (k a).at (m s).1) }

  pub Keeps-then : (m : Service A) (k : Service B) → Keeps m → Keeps k → Keeps (m >> k)
  Keeps-then m k h g = Keeps-bind m (λ _. k) h (λ _. g)

pub ruleset keeps_rules = (
  Keeps-pure, Keeps-lift, Keeps-gets, Keeps-or_raise, Keeps-raise_if, Keeps-log_event,
  Keeps-create_order_row, Keeps-bind, Keeps-then, Keeps-set_user, Keeps-if,
)
