-- ===== src/Lifecycle/Relation.antt =====
-- Two states of the database, a later one and an earlier one: every order is still there, its
-- status has only moved forward, and what was agreed when it was created is unchanged.
use py_board.Prelude.{
  ℕ, ◌+◌, ◌≤◌, ◌≡◌, refl, ◌≢◌, ◌⊎◌, inl, inr, none, some, arith, ◌∙◌, eq_or_ne, Bool-cases, is_none,
}
use mathlib.Core.Path.{subst}
use py_board.Prelude.Rows.{lookup, insert, IsKeyed, insert-IsKeyed, lookup-insert, lookup-insert_ne}
use py_board.Model.Entity.{Order, LogEvent}
use py_board.Exec.{Result-cases, ok, ◌>>=◌, bind-ok, bind-err}
use py_board.Db.{Db, Service, create_order_row, get_by_trade_no, log_event}

-- 0 may become 1, 2 or 3, and 1 may become 3; every other status is final.
abbrev pub Later : ℕ → ℕ → Type 0
Later a b = (a ≡ b) ⊎ (((a ≡ 0) × (b ≤ 3)) ⊎ ((a ≡ 1) × (b ≡ 3)))

pub record Follows (o o' : Order) : Type 0 where
  pub status : Later o.status o'.status
  pub user_id : o'.user_id ≡ o.user_id
  pub plan_id : o'.plan_id ≡ o.plan_id
  pub period : o'.period ≡ o.period
  pub trade_no : o'.trade_no ≡ o.trade_no
  pub total_amount : o'.total_amount ≡ o.total_amount
  pub balance_amount : o'.balance_amount ≡ o.balance_amount
  pub coupon_id : o'.coupon_id ≡ o.coupon_id
  pub discount_amount : o'.discount_amount ≡ o.discount_amount

pub Follows-refl : (o : Order) → Follows o o
Follows-refl o = ground arith

pub Follows-trans : {a b c : Order} → Follows a b → Follows b c → Follows a c
Follows-trans h k = record {
  status = Later-trans _ _ _ h.status k.status;
  user_id = cc (h.user_id, k.user_id);
  plan_id = cc (h.plan_id, k.plan_id);
  period = cc (h.period, k.period);
  trade_no = cc (h.trade_no, k.trade_no);
  total_amount = cc (h.total_amount, k.total_amount);
  balance_amount = cc (h.balance_amount, k.balance_amount);
  coupon_id = cc (h.coupon_id, k.coupon_id);
  discount_amount = cc (h.discount_amount, k.discount_amount);
}
  where
    Later-trans : (a b c : ℕ) → Later a b → Later b c → Later a c
    Later-trans a b c p q = ground arith

-- No row has the number of the next order or one above it.
abbrev pub IsFresh : Db → Type 0
IsFresh s = (j : ℕ) → s.next_order ≤ j → lookup j s.orders ≡ none

-- The primary keys of the orders are unique, and the next one is free.
abbrev pub IsSound : Db → Type 0
IsSound s = IsFresh s × IsKeyed s.orders

pub record Progress (s s' : Db) : Type 0 where
  pub fresh : IsSound s → IsSound s'
  pub row :
      IsSound s
      → (j : ℕ) (o : Order) → lookup j s.orders ≡ some o
      → (o' : Order) × (lookup j s'.orders ≡ some o') × Follows o o'

pub Progress-same :
    {s s' : Db} → s'.orders ≡ s.orders → s'.next_order ≡ s.next_order → Progress s s'
Progress-same {s} {s'} eo en = record {
  fresh = λ f. (λ j h. rw eo (f.0 j (ground arith)), rw eo f.1);
  row = λ f j o e. (o, rw eo e, Follows-refl o);
}

pub Progress-refl : (s : Db) → Progress s s
Progress-refl s = Progress-same {s = s} {s' = s} refl refl

pub Progress-trans : {s t u : Db} → Progress s t → Progress t u → Progress s u
Progress-trans p q = record {
  fresh = λ f. q.fresh (p.fresh f);
  row = λ f j o e.
      let (o', e', k) = p.row f j o e in
      let (o'', e'', k') = q.row (p.fresh f) j o' e' in (o'', e'', Follows-trans k k');
}

-- A write to the row `i` that follows what stands there.
pub Progress-set_order :
    (i : ℕ) (o o' : Order) (s : Db)
    → lookup i s.orders ≡ some o
    → Follows o o'
    → Progress s (record s { orders = insert i o' s.orders })
Progress-set_order i o o' s e k = record {
  fresh = λ f. (
    λ j h. ground (arith, lookup-insert i j o' s.orders, f.0 j h, f.0 i),
    insert-IsKeyed i o' s.orders f.1,
  );
  row = λ f j x ex. elim (eq_or_ne i j) [
    | inl same ↦
        let p : o ≡ x = cc in
        (o', ground (arith, lookup-insert i j o' s.orders), subst (λ z. Follows z o') p k)
    | inr ne ↦ (x, lookup-insert_ne i j o' s.orders ne ∙ ex, Follows-refl x)
  ];
}

-- A row under the next number.
Progress-insert_new :
    (o : Order) (s : Db)
    → Progress s
        (record s { orders = insert s.next_order o s.orders; next_order = s.next_order + 1 })
Progress-insert_new o s = record {
  fresh = λ f. (
    λ j h. ground (arith, lookup-insert s.next_order j o s.orders, f.0 j),
    insert-IsKeyed s.next_order o s.orders f.1,
  );
  row = λ f j x ex.
      let ne : s.next_order ≢ j = λ same. ground (arith, f.0 j) in
      (x, lookup-insert_ne s.next_order j o s.orders ne ∙ ex, Follows-refl x);
}

pub Progress-create_order_row : (o : Order) (s : Db) → Progress s (create_order_row o s).1
unfolding create_order_row
Progress-create_order_row o s = elim (Bool-cases (is_none (get_by_trade_no o.trade_no s))) [
  | inl new ↦ rw new (Progress-insert_new o s)
  | inr taken ↦ rw taken (Progress-refl s)
]

-- The same, of a later state that is known by its orders alone.
pub Progress-write :
    (i : ℕ) (o o' : Order) {s s' : Db}
    → lookup i s.orders ≡ some o
    → Follows o o'
    → s'.orders ≡ insert i o' s.orders
    → s'.next_order ≡ s.next_order
    → Progress s s'
Progress-write i o o' {s} {s'} e k eo en =
    Progress-trans (Progress-set_order i o o' s e k) (Progress-same eo en)

-- A later part of a method may use that the earlier part returned.
pub Progress-bind :
    {A B : Type 0} (m : Service A) (f : A → Service B) (s : Db)
    → Progress s (m s).1
    → ((a : A) → (m s).0 ≡ ok a → Progress (m s).1 (f a (m s).1).1)
    → Progress s ((m >>= f) s).1
Progress-bind m f s p q = elim (Result-cases (m s).0) [
  | inl (a, e) ↦ rw (bind-ok m f s e) (Progress-trans p (q a e))
  | inr (x, e) ↦ rw (bind-err m f s e) p
]

pub Progress-log_event : (e : LogEvent) (s : Db) → Progress s (log_event e s).1
Progress-log_event e s = Progress-same {s = s} {s' = (log_event e s).1} refl refl

-- What is to be shown may use that the earlier state is sound.
pub Progress-assuming : {s s' : Db} → (IsSound s → Progress s s') → Progress s s'
Progress-assuming p = record { fresh = λ f. (p f).fresh f; row = λ f. (p f).row f }
