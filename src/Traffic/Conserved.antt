-- ===== src/Traffic/Conserved.antt =====
-- The bytes that app/queues/jobs/pg_cache.py moves, user by user.
use mathlib.Core.Path.{subst}
use py_board.Prelude.{
  ℕ, ◌≡◌, ◌≢◌, refl, sym, ap, ◌∙◌, inl, inr, Option, none, some, [], ◌∷◌, arith, ◌==◌, Option-cases,
  if◌then◌else◌, eq_or_ne,
}
use py_board.Prelude.Int.{ℤ, pos, ◌+ℤ◌, +ℤ_parts, eq_of_parts}
use py_board.Prelude.Rows.{
  Rows, lookup, insert, IsKeyed, lookup-insert, lookup-insert_self, lookup-insert_ne,
  insert-IsKeyed,
}
use py_board.Traffic.{Amount, Meter, Report, plus, increment, add_to, apply_processing_traffic}

abbrev pub zero_amount : Amount
zero_amount = record { u = pos 0; d = pos 0 }

abbrev pub or_zero : Option Amount → Amount
or_zero none = zero_amount
or_zero (some a) = a

infixl 65 ◌⊕◌
abbrev pub ◌⊕◌ : Amount → Amount → Amount
a ⊕ b = record { u = a.u +ℤ b.u; d = a.d +ℤ b.d }

abbrev pub measured : Meter → Amount
measured v = record { u = v.u; d = v.d }

-- What a table holds for a user.
abbrev pub of_user : ℕ → Rows Amount → Amount
of_user k t = or_zero (lookup k t)

-- What a report says of a user.
abbrev pub reported : (ℤ → ℤ) → ℕ → Report → Amount
reported rated k [] = zero_amount
reported rated k ((i, a) ∷ r) =
    if i == k
    then record { u = rated a.u; d = rated a.d } ⊕ reported rated k r
    else reported rated k r

module _ (a b c : ℤ) where
  +ℤ_assoc : a +ℤ b +ℤ c ≡ a +ℤ (b +ℤ c)
  +ℤ_assoc =
      eq_of_parts (a +ℤ b +ℤ c) (a +ℤ (b +ℤ c))
        (ground (arith, +ℤ_parts (a +ℤ b) c, +ℤ_parts a b, +ℤ_parts a (b +ℤ c), +ℤ_parts b c))

  +ℤ_comm : a +ℤ b ≡ b +ℤ a
  +ℤ_comm = eq_of_parts (a +ℤ b) (b +ℤ a) (ground (arith, +ℤ_parts a b, +ℤ_parts b a))

+ℤ_zero : (a : ℤ) → a +ℤ pos 0 ≡ a
+ℤ_zero a = eq_of_parts (a +ℤ pos 0) a (ground (arith, +ℤ_parts a (pos 0)))

pub ⊕_assoc : (a b c : Amount) → a ⊕ b ⊕ c ≡ a ⊕ (b ⊕ c)
⊕_assoc a b c = λ i. record { u = +ℤ_assoc a.u b.u c.u i; d = +ℤ_assoc a.d b.d c.d i }

pub ⊕_comm : (a b : Amount) → a ⊕ b ≡ b ⊕ a
⊕_comm a b = λ i. record { u = +ℤ_comm a.u b.u a.u i; d = +ℤ_comm a.d b.d a.d i }

pub ⊕_zero : (a : Amount) → a ⊕ zero_amount ≡ a
⊕_zero a = λ i. record { u = +ℤ_zero a.u i; d = +ℤ_zero a.d i }

plus-or_zero : (o : Option Amount) (a : Amount) → plus o a ≡ or_zero o ⊕ a
plus-or_zero none a = sym (⊕_comm zero_amount a ∙ ⊕_zero a)
plus-or_zero (some b) a = refl

insert-plus :
    (i k : ℕ) (a : Amount) (t : Rows Amount)
    → i ≡ k
    → of_user k (insert i (plus (lookup i t) a) t) ≡ of_user k t ⊕ a
insert-plus i k a t same =
    subst (λ j. of_user j (insert i (plus (lookup i t) a) t) ≡ of_user j t ⊕ a) same
      (ap or_zero (lookup-insert_self i (plus (lookup i t) a) t) ∙ plus-or_zero (lookup i t) a)

reported_here :
    (rated : ℤ → ℤ) (i k : ℕ) (a : Amount) (r : Report)
    → i ≡ k
    → reported rated k ((i, a) ∷ r) ≡ record { u = rated a.u; d = rated a.d } ⊕ reported rated k r
reported_here rated i k a r same = ground (arith, same)

reported_there :
    (rated : ℤ → ℤ) (i k : ℕ) (a : Amount) (r : Report)
    → i ≢ k
    → reported rated k ((i, a) ∷ r) ≡ reported rated k r
reported_there rated i k a r ne = ground (arith, ne)

-- An increment adds what the report says.
pub increment-adds :
    (rated : ℤ → ℤ) (k : ℕ) (r : Report) (t : Rows Amount)
    → of_user k (increment rated r t) ≡ of_user k t ⊕ reported rated k r
unfolding increment
increment-adds rated k [] t = sym (⊕_zero (of_user k t))
increment-adds rated k ((i, a) ∷ r) t =
    let x : Amount = record { u = rated a.u; d = rated a.d } in
    let t' = insert i (plus (lookup i t) x) t in
    let rest = increment-adds rated k r t' in
    elim (eq_or_ne i k) [
      | inl same ↦
          rest
          ∙ ap (λ y. y ⊕ reported rated k r) (insert-plus i k x t same)
          ∙ ⊕_assoc (of_user k t) x (reported rated k r)
          ∙ ap (λ y. of_user k t ⊕ y) (sym (reported_here rated i k a r same))
      | inr ne ↦
          rest
          ∙ ap (λ o. or_zero o ⊕ reported rated k r)
              (lookup-insert_ne i k (plus (lookup i t) x) t ne)
          ∙ ap (λ y. of_user k t ⊕ y) (sym (reported_there rated i k a r ne))
    ]

pub increment-IsKeyed :
    (rated : ℤ → ℤ) (r : Report) (t : Rows Amount) → IsKeyed t → IsKeyed (increment rated r t)
unfolding increment
increment-IsKeyed rated [] t h = h
increment-IsKeyed rated ((i, a) ∷ r) t h = increment-IsKeyed rated r _ (insert-IsKeyed i _ t h)

of_user_here : (i k : ℕ) (a : Amount) (r : Rows Amount) → i ≡ k → of_user k ((i, a) ∷ r) ≡ a
unfolding lookup
of_user_here i k a r same = ground (arith, same)

of_user_there :
    (i k : ℕ) (a : Amount) (r : Rows Amount) → i ≢ k → of_user k ((i, a) ∷ r) ≡ of_user k r
unfolding lookup
of_user_there i k a r ne = ground (arith, ne)

-- The flush adds its rows to the users that are there.
pub apply-adds :
    (now k : ℕ) (v : Meter) (r : Rows Amount) (us : Rows Meter)
    → IsKeyed r
    → lookup k us ≡ some v
    → (v' : Meter) × (lookup k (apply_processing_traffic now r us) ≡ some v')
      × (measured v' ≡ measured v ⊕ of_user k r)
unfolding apply_processing_traffic lookup
apply-adds now k v [] us h here = (v, here, sym (⊕_zero (measured v)))
apply-adds now k v ((i, a) ∷ r) us h here = elim (eq_or_ne i k) [
  | inl same ↦
      let here_i = subst (λ j. lookup j us ≡ some v) (sym same) here in
      let w = add_to now a v in
      let after : lookup k (insert i w us) ≡ some w =
        ground (arith, lookup-insert i k w us, same) in
      let (v', e, m) = apply-adds now k w r (insert i w us) h.1 after in
      let gone : of_user k r ≡ zero_amount = ap or_zero (subst (λ j. lookup j r ≡ none) same h.0) in
      let all : measured v' ≡ measured v ⊕ a =
        m ∙ ap (λ y. measured w ⊕ y) gone ∙ ⊕_zero (measured w) in
      let mine : of_user k ((i, a) ∷ r) ≡ a = of_user_here i k a r same in
      rw here_i (v', e, all ∙ ap (λ y. measured v ⊕ y) (sym mine))
  | inr ne ↦ elim (Option-cases (lookup i us)) [
    | inl gone ↦
        let (v', e, m) = apply-adds now k v r us h.1 here in
        rw gone (v', e, m ∙ ap (λ y. measured v ⊕ y) (sym (of_user_there i k a r ne)))
    | inr (o, there) ↦
        let w = add_to now a o in
        let (v', e, m) =
          apply-adds now k v r (insert i w us) h.1 (lookup-insert_ne i k w us ne ∙ here) in
        rw there (v', e, m ∙ ap (λ y. measured v ⊕ y) (sym (of_user_there i k a r ne)))
  ]
]
