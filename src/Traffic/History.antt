-- ===== src/Traffic/History.antt =====
-- The reports and flushes of app/queues/jobs/pg_cache.py in any order.
use py_board.Prelude.{
  ℕ, ◌≡◌, refl, sym, ap, ◌∙◌, inl, inr, Bool, true, false, some, List, [], ◌∷◌, Bool-cases,
  if◌then◌else◌,
}
use py_board.Prelude.Int.{ℤ}
use py_board.Prelude.Rows.{Rows, lookup, IsKeyed}
use py_board.Cache.{Store}
use py_board.Traffic.{
  Amount, Meter, Traffic, Report, increment_traffic_cache, apply_processing_traffic, cache_exists,
  staged, flush_traffic_cache_to_users,
}
use py_board.Traffic.Conserved.{
  zero_amount, ◌⊕◌, measured, of_user, reported, increment-adds, increment-IsKeyed, apply-adds,
  ⊕_assoc, ⊕_comm, ⊕_zero,
}

-- A report, with the rate of its node, or a flush, with its time, whether it gets the lock, and the cache
-- that it meets.
pub data Event : Type 0 where
  reports : (ℤ → ℤ) → Report → Event
  flushes : ℕ → Bool → Store → Event

abbrev pub after : Event → Traffic → Traffic
after (reports rated r) s = increment_traffic_cache rated r s
after (flushes now locked cache) s = (flush_traffic_cache_to_users now locked cache s).1

unfoldable pub run : List Event → Traffic → Traffic
run [] s = s
run (e ∷ es) s = run es (after e s)

-- What waits for a user, in both stages.
abbrev pub waiting : ℕ → Traffic → Amount
waiting k s = of_user k s.active ⊕ of_user k s.processing

abbrev pub said : ℕ → Event → Amount
said k (reports rated r) = reported rated k r
said k (flushes now locked cache) = zero_amount

unfoldable pub said_by : ℕ → List Event → Amount
said_by k [] = zero_amount
said_by k (e ∷ es) = said k e ⊕ said_by k es

pub record IsCounting (s : Traffic) : Type 0 where
  pub active : IsKeyed s.active
  pub processing : IsKeyed s.processing

-- The user `k`, who had the meter `v`, has with what waits as much more as `a`.
abbrev pub Gains : ℕ → Meter → Amount → Traffic → Traffic → Type 0
Gains k v a s s' =
    (v' : Meter) × (lookup k s'.users ≡ some v')
    × (measured v' ⊕ waiting k s' ≡ measured v ⊕ waiting k s ⊕ a)

with_last : (m x r p : Amount) → m ⊕ (x ⊕ r ⊕ p) ≡ m ⊕ (x ⊕ p) ⊕ r
with_last m x r p =
    ap (λ y. m ⊕ y) (⊕_assoc x r p ∙ ap (λ y. x ⊕ y) (⊕_comm r p) ∙ sym (⊕_assoc x p r))
    ∙ sym (⊕_assoc m (x ⊕ p) r)

delivered : (m' m a p : Amount) → m' ≡ m ⊕ p → m' ⊕ (a ⊕ zero_amount) ≡ m ⊕ (a ⊕ p)
delivered m' m a p e =
    ap (λ y. m' ⊕ y) (⊕_zero a) ∙ ap (λ y. y ⊕ a) e ∙ ⊕_assoc m p a ∙ ap (λ y. m ⊕ y) (⊕_comm p a)

staged-of_user :
    (k : ℕ) (a p : Rows Amount)
    → of_user k (staged a p).0 ⊕ of_user k (staged a p).1 ≡ of_user k a ⊕ of_user k p
unfolding lookup
staged-of_user k a [] = ⊕_comm zero_amount (of_user k a)
staged-of_user k a (r ∷ rs) = refl

staged-IsKeyed : (a p : Rows Amount) → IsKeyed a → IsKeyed p → IsKeyed (staged a p).1
staged-IsKeyed a [] ha hp = ha
staged-IsKeyed a (r ∷ rs) ha hp = hp

staged_active-IsKeyed : (a p : Rows Amount) → IsKeyed a → IsKeyed (staged a p).0
staged_active-IsKeyed a [] ha = tt
staged_active-IsKeyed a (r ∷ rs) ha = ha

module _ (k : ℕ) (v : Meter) (s : Traffic) (h : IsCounting s)
    (here : lookup k s.users ≡ some v) where
  kept : Gains k v zero_amount s s
  kept = (v, here, sym (⊕_zero (measured v ⊕ waiting k s)))

  reports-Gains :
      (rated : ℤ → ℤ) (r : Report)
      → Gains k v (reported rated k r) s (increment_traffic_cache rated r s)
  unfolding increment_traffic_cache
  reports-Gains rated r = (
    v,
    here,
    ap (λ y. measured v ⊕ (y ⊕ of_user k s.processing)) (increment-adds rated k r s.active)
        ∙ with_last (measured v) (of_user k s.active) (reported rated k r) (of_user k s.processing),
  )

  applied :
      (now : ℕ) (active processing : Rows Amount)
      → IsKeyed processing
      → of_user k active ⊕ of_user k processing ≡ waiting k s
      → Gains k v zero_amount s (record {
        users = apply_processing_traffic now processing s.users;
        active = active;
        processing = [];
      })
  unfolding lookup
  applied now active processing keyed same =
      let (v', e, m) = apply-adds now k v processing s.users keyed here in
      (
        v',
        e,
        delivered (measured v') (measured v) (of_user k active) (of_user k processing) m
            ∙ ap (λ y. measured v ⊕ y) same
            ∙ sym (⊕_zero (measured v ⊕ waiting k s)),
      )

  flushes-Gains :
      (now : ℕ) (locked : Bool) (cache : Store)
      → Gains k v zero_amount s (flush_traffic_cache_to_users now locked cache s).1
  unfolding flush_traffic_cache_to_users
  flushes-Gains now false cache = kept
  flushes-Gains now true cache = elim (Bool-cases (cache_exists now "traffic_reset_lock" cache)) [
    | inl reset ↦ rw reset kept
    | inr free ↦ rw free (
        applied now (staged s.active s.processing).0 (staged s.active s.processing).1
          (staged-IsKeyed s.active s.processing h.active h.processing)
          (staged-of_user k s.active s.processing))
  ]

  after-Gains : (e : Event) → Gains k v (said k e) s (after e s)
  after-Gains (reports rated r) = reports-Gains rated r
  after-Gains (flushes now locked cache) = flushes-Gains now locked cache

IsCounting-if :
    (c : Bool) (s s' : Traffic)
    → IsCounting s
    → IsCounting s'
    → IsCounting (if◌then◌else◌ {A = Bool × Traffic} c (false, s) (true, s')).1
IsCounting-if true s s' h h' = h
IsCounting-if false s s' h h' = h'

after-IsCounting : (e : Event) (s : Traffic) → IsCounting s → IsCounting (after e s)
unfolding increment_traffic_cache flush_traffic_cache_to_users
after-IsCounting (reports rated r) s h = record {
  active = increment-IsKeyed rated r s.active h.active;
  processing = h.processing;
}
after-IsCounting (flushes now false cache) s h = h
after-IsCounting (flushes now true cache) s h =
    IsCounting-if (cache_exists now "traffic_reset_lock" cache) s _ h
      (record { active = staged_active-IsKeyed s.active s.processing h.active; processing = tt })

-- Where `traffic_cache` has one row for a stage and a user, and the user is in the table: after any sequence of
-- reports and flushes, at any rates, with the lock or without it, the bytes on the user's meter and
-- those that wait for the user in the cache add up to what they were before and what the reports in between
-- say of the user, each at its rate, upload and download apart. No byte is lost or counted twice.
pub run-Gains :
    (es : List Event) (k : ℕ) (v : Meter) (s : Traffic)
    → IsCounting s
    → lookup k s.users ≡ some v
    → Gains k v (said_by k es) s (run es s)
unfolding run said_by
run-Gains [] k v s h here = kept k v s h here
run-Gains (e ∷ es) k v s h here =
    let (w, there, first) = after-Gains k v s h here e in
    let (v', last, rest) = run-Gains es k w (after e s) (after-IsCounting e s h) there in
    (
      v',
      last,
      rest
          ∙ ap (λ y. y ⊕ said_by k es) first
          ∙ ⊕_assoc (measured v ⊕ waiting k s) (said k e) (said_by k es),
    )

-- Where `traffic_cache` has one row for a stage and a user and none that a flush left behind, and the user is in
-- the table: a flush that gets the lock, while no reset of the traffic is on, puts all that waits for the
-- user on the meter, and leaves nothing waiting.
pub flush-delivers :
    (now : ℕ) (cache : Store) (k : ℕ) (v : Meter) (s : Traffic)
    → IsCounting s
    → lookup k s.users ≡ some v
    → s.processing ≡ []
    → cache_exists now "traffic_reset_lock" cache ≡ false
    → (v' : Meter) × (lookup k (flush_traffic_cache_to_users now true cache s).1.users ≡ some v')
      × (measured v' ≡ measured v ⊕ of_user k s.active)
      × ((flush_traffic_cache_to_users now true cache s).1.active ≡ [])
      × ((flush_traffic_cache_to_users now true cache s).1.processing ≡ [])
unfolding flush_traffic_cache_to_users
flush-delivers now cache k v s h here clean free =
    let (v', there, m) = apply-adds now k v s.active s.users h.active here in
    rw (free, clean) (v', there, m, refl, refl)
