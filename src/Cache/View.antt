-- ===== src/Cache/View.antt =====
-- The cache of app/core/cache.py as a function from keys to entries with an expiry, in which an expired entry is no entry.
use mathlib.Core.Path.{subst}
use text.Mathlib.Text.{◌==◌ as str_eq}
use py_board.Prelude.{
  ℕ, ◌≤◌, ◌≡◌, refl, inl, inr, sym, ap, ◌∙◌, String, Bool, true, false, Option, none, some, List,
  [], ◌∷◌, arith, Bool-cases, Option-cases, if◌then◌else◌,
}
use py_board.Prelude.Int.{ℤ}
use py_board.Prelude.Table.{
  get, put, IsKeyed, get-put, put-IsKeyed, get-drop_where, drop_where-IsKeyed, spared, text_eq_refl,
}
use py_board.Json.{Json}
use py_board.Cache.{
  Entry, Store, Driver, Got, is_expired, expiry, live_at, find_live, read_entry, delete_expired_key,
  get_value, mget, set_value, set_nx, delete, mem_keys, incr, incremented, cleanup_expired,
}

-- The calls; `expire` is none of them, since it finds rows that have expired and are still stored.
pub data Op : Type 0 where
  gets : String → Op
  mgets : List String → Op
  sets sets_nx : String → Json → Option ℕ → Op
  deletes : List String → Op
  incrs : String → Option ℕ → Op
  cleans : Op

-- What a caller sees of a call; of a deletion and a cleanup, whose counts depend on the expired rows that are
-- still stored, nothing (`done`).
pub data Reply : Type 0 where
  read : Got → Reply
  reads : List Got → Reply
  flag : Bool → Reply
  count : ℤ → Reply
  done : Reply

abbrev pub step : Driver → ℕ → Op → Store → Reply × Store
step d now (gets k) s = let (r, s') = get_value d now k s in (read r, s')
step d now (mgets ks) s = (reads (mget d now ks s), s)
step d now (sets k v ex) s = (flag true, set_value now k v ex s)
step d now (sets_nx k v ex) s = let (b, s') = set_nx now k v ex s in (flag b, s')
step d now (deletes ks) s = (done, (delete ks s).1)
step d now (incrs k ex) s = let (n, s') = incr d now k ex s in (count n, s')
step d now cleans s = (done, (cleanup_expired now s).1)

-- The specification: a map, and its reads at a time.
abbrev pub Spec : Type 0
Spec = String → Option Entry

abbrev pub update : Spec → String → Option Entry → Spec
update m k o j = if str_eq k j then o else m j

abbrev pub entry_of : ℕ → Json → Option ℕ → Entry
entry_of now v ex = record { value = v; expires_at = expiry now ex }

-- The reads of several keys, in their order.
unfoldable pub looked_up : Driver → ℕ → List String → Spec → List Got
looked_up d now [] m = []
looked_up d now (k ∷ ks) m = read_entry d (live_at now (m k)) ∷ looked_up d now ks m

abbrev pub spec_step : Driver → ℕ → Op → Spec → Reply × Spec
spec_step d now (gets k) m = (read (read_entry d (live_at now (m k))), m)
spec_step d now (mgets ks) m = (reads (looked_up d now ks m), m)
spec_step d now (sets k v ex) m = (flag true, update m k (some (entry_of now v ex)))
spec_step d now (sets_nx k v ex) m = elim (live_at now (m k)) [
  | none ↦ (flag true, update m k (some (entry_of now v ex)))
  | some e ↦ (flag false, m)
]
spec_step d now (deletes ks) m = (done, λ j. if mem_keys j ks then none else m j)
spec_step d now (incrs k ex) m =
    let (n, t) = incremented d now (expiry now ex) (live_at now (m k)) in
    (count n, update m k (some (record { value = Json.number n; expires_at = t })))
spec_step d now cleans m = (done, m)

-- Calls with their times, which do not go back.
abbrev pub IsTimely : ℕ → List (ℕ × Op) → Type 0
IsTimely now [] = Unit
IsTimely now ((t, op) ∷ ops) = (now ≤ t) × IsTimely t ops

unfoldable pub run : Driver → List (ℕ × Op) → Store → List Reply
run d [] s = []
run d ((t, op) ∷ ops) s = (step d t op s).0 ∷ run d ops (step d t op s).1

unfoldable pub replay : Driver → List (ℕ × Op) → Spec → List Reply
replay d [] m = []
replay d ((t, op) ∷ ops) m = (spec_step d t op m).0 ∷ replay d ops (spec_step d t op m).1

-- From `now` on, the table and the map read the same.
pub record Agrees (now : ℕ) (s : Store) (m : Spec) : Type 0 where
  pub keyed : IsKeyed s
  pub live : (k : String) → find_live now k s ≡ live_at now (m k)

live_at_later : (now t : ℕ) (o : Option Entry) → now ≤ t → live_at t (live_at now o) ≡ live_at t o
live_at_later now t none h = refl
live_at_later now t (some e) h = elim (Option-cases e.expires_at) [
  | inl never ↦ rw never refl
  | inr (x, ex) ↦ ground arith
]

Agrees-later : (now t : ℕ) (s : Store) (m : Spec) → now ≤ t → Agrees now s m → Agrees t s m
Agrees-later now t s m h a = record {
  keyed = a.keyed;
  live = λ k.
      sym (live_at_later now t (get k s) h)
      ∙ ap (live_at t) (a.live k)
      ∙ live_at_later now t (m k) h;
}

find_live-delete_expired_key :
    (now : ℕ) (key k : String) (s : Store)
    → IsKeyed s
    → find_live now k (delete_expired_key key now s) ≡ find_live now k s
unfolding delete_expired_key
find_live-delete_expired_key now key k s h =
    ap (live_at now) (get-drop_where _ k s h) ∙ by_cases (str_eq k key) (get k s)
  where
    by_cases :
        (b : Bool) (o : Option Entry)
        → live_at now (spared (λ _ e. if b then is_expired now e else false) k o) ≡ live_at now o
    by_cases b none = refl
    by_cases true (some e) = ground arith
    by_cases false (some e) = ground arith

delete_expired_key-Agrees :
    (now : ℕ) (key : String) (s : Store) (m : Spec)
    → Agrees now s m
    → Agrees now (delete_expired_key key now s) m
delete_expired_key-Agrees now key s m a = record {
  keyed = unfold delete_expired_key in drop_where-IsKeyed _ s a.keyed;
  live = λ k. find_live-delete_expired_key now key k s a.keyed ∙ a.live k;
}

put-Agrees :
    (now : ℕ) (key : String) (e : Entry) (s : Store) (m : Spec)
    → Agrees now s m
    → Agrees now (put key e s) (update m key (some e))
put-Agrees now key e s m a = record {
  keyed = put-IsKeyed key e s a.keyed;
  live = λ k. ap (live_at now) (get-put key k e s) ∙ at_key k (str_eq key k);
}
  where
    at_key :
        (k : String) (b : Bool)
        → live_at now (if b then some e else get k s) ≡ live_at now (if b then some e else m k)
    at_key k true = refl
    at_key k false = a.live k

delete-Agrees :
    (now : ℕ) (keys : List String) (s : Store) (m : Spec)
    → Agrees now s m
    → Agrees now (delete keys s).1 (λ j. if mem_keys j keys then none else m j)
unfolding delete
delete-Agrees now keys s m a = record {
  keyed = drop_where-IsKeyed _ s a.keyed;
  live = λ k.
      ap (live_at now) (get-drop_where (λ k e. mem_keys k keys) k s a.keyed)
      ∙ at_key k (mem_keys k keys) (get k s) (a.live k);
}
  where
    at_key :
        (k : String) (b : Bool) (o : Option Entry)
        → live_at now o ≡ live_at now (m k)
        → live_at now (spared (λ _ _. b) k o) ≡ live_at now (if b then none else m k)
    at_key k true none h = refl
    at_key k true (some e) h = refl
    at_key k false none h = h
    at_key k false (some e) h = h

cleanup_expired-Agrees :
    (now : ℕ) (s : Store) (m : Spec) → Agrees now s m → Agrees now (cleanup_expired now s).1 m
unfolding cleanup_expired
cleanup_expired-Agrees now s m a = record {
  keyed = drop_where-IsKeyed _ s a.keyed;
  live = λ k.
      ap (live_at now) (get-drop_where (λ k e. is_expired now e) k s a.keyed)
      ∙ swept k (get k s)
      ∙ a.live k;
}
  where
    swept :
        (k : String) (o : Option Entry)
        → live_at now (spared (λ _ e. is_expired now e) k o) ≡ live_at now o
    swept k none = refl
    swept k (some e) = elim (Bool-cases (is_expired now e)) [
      | inl old ↦ rw old refl
      | inr young ↦ rw young (rw young refl)
    ]

incremented-live :
    (d : Driver) (now : ℕ) (t : Option ℕ) (o : Option Entry)
    → incremented d now t o ≡ incremented d now t (live_at now o)
incremented-live d now t none = refl
incremented-live d now t (some e) = elim (Bool-cases (is_expired now e)) [
  | inl old ↦ rw old refl
  | inr young ↦ rw young (rw young refl)
]

-- Of the key itself an expired row is gone.
deleted_key :
    (now : ℕ) (k : String) (s : Store)
    → IsKeyed s
    → get k (delete_expired_key k now s) ≡ find_live now k s
unfolding delete_expired_key
deleted_key now k s h = get-drop_where _ k s h ∙ by_cases (str_eq k k) (text_eq_refl k) (get k s)
  where
    by_cases :
        (b : Bool)
        → b ≡ true
        → (o : Option Entry)
        → spared (λ _ e. if b then is_expired now e else false) k o ≡ live_at now o
    by_cases true h none = refl
    by_cases true h (some e) = refl
    by_cases false h o = cc

module _ (d : Driver) (now : ℕ) (k : String) (s : Store) (m : Spec) (a : Agrees now s m) where
  get_value-Agrees :
      ((get_value d now k s).0 ≡ read_entry d (live_at now (m k)))
      × Agrees now (get_value d now k s).1 m
  unfolding get_value
  get_value-Agrees = elim (Option-cases (find_live now k s)) [
    | inl gone ↦
        let e : live_at now (m k) ≡ none = sym (a.live k) ∙ gone in
        rw (gone, e, get_value) (refl, delete_expired_key-Agrees now k s m a)
    | inr (x, found) ↦
        let e : live_at now (m k) ≡ some x = sym (a.live k) ∙ found in
        rw (found, e, get_value) (refl, a)
  ]

  set_nx-Agrees :
      (v : Json) (ex : Option ℕ)
      → (Reply.flag (set_nx now k v ex s).0 ≡ (spec_step d now (sets_nx k v ex) m).0)
        × Agrees now (set_nx now k v ex s).1 (spec_step d now (sets_nx k v ex) m).1
  unfolding set_nx
  set_nx-Agrees v ex = elim (Option-cases (live_at now (m k))) [
    | inl gone ↦
        let e : get k (delete_expired_key k now s) ≡ none =
          deleted_key now k s a.keyed ∙ a.live k ∙ gone in
        rw (gone, e, set_nx, spec_step)
          (
            refl,
            put-Agrees now k (entry_of now v ex) (delete_expired_key k now s) m
                (delete_expired_key-Agrees now k s m a),
          )
    | inr (x, found) ↦
        let e : get k (delete_expired_key k now s) ≡ some x =
          deleted_key now k s a.keyed ∙ a.live k ∙ found in
        rw (found, e, set_nx, spec_step) (refl, delete_expired_key-Agrees now k s m a)
  ]

  incr-Agrees :
      (ex : Option ℕ)
      → (Reply.count (incr d now k ex s).0 ≡ (spec_step d now (incrs k ex) m).0)
        × Agrees now (incr d now k ex s).1 (spec_step d now (incrs k ex) m).1
  unfolding incr
  incr-Agrees ex =
      let e : incremented d now (expiry now ex) (get k s)
          ≡ incremented d now (expiry now ex) (live_at now (m k)) =
        incremented-live d now (expiry now ex) (get k s)
        ∙ ap (incremented d now (expiry now ex)) (a.live k) in
      (
        ap (λ (p : ℤ × Option ℕ). Reply.count p.0) e,
        subst
            (λ (p : ℤ × Option ℕ).
              Agrees now (incr d now k ex s).1
                (update m k (some (record { value = Json.number p.0; expires_at = p.1 }))))
            e (put-Agrees now k _ s m a),
      )

mget-Agrees :
    (d : Driver) (now : ℕ) (ks : List String) (s : Store) (m : Spec)
    → Agrees now s m
    → mget d now ks s ≡ looked_up d now ks m
unfolding mget looked_up
mget-Agrees d now [] s m a = refl
mget-Agrees d now (k ∷ ks) s m a = rw (a.live k, mget-Agrees d now ks s m a) refl

-- One call: the same reply, and agreement afterwards.
step-Agrees :
    (d : Driver) (now : ℕ) (op : Op) (s : Store) (m : Spec)
    → Agrees now s m
    → ((step d now op s).0 ≡ (spec_step d now op m).0)
      × Agrees now (step d now op s).1 (spec_step d now op m).1
unfolding set_value
step-Agrees d now (gets k) s m a =
    let (reply, after) = get_value-Agrees d now k s m a in (ap Reply.read reply, after)
step-Agrees d now (mgets ks) s m a = (ap Reply.reads (mget-Agrees d now ks s m a), a)
step-Agrees d now (sets k v ex) s m a = (refl, put-Agrees now k (entry_of now v ex) s m a)
step-Agrees d now (sets_nx k v ex) s m a = set_nx-Agrees d now k s m a v ex
step-Agrees d now (deletes ks) s m a = (refl, delete-Agrees now ks s m a)
step-Agrees d now (incrs k ex) s m a = incr-Agrees d now k s m a ex
step-Agrees d now cleans s m a = (refl, cleanup_expired-Agrees now s m a)

-- Over any sequence of calls of `get`, `mget`, `set` (also with `nx`), `delete`, `incr` and
-- `cleanup_expired`, at times that do not go back, what `get`, `mget`, `set` and `incr` return, on a cache whose keys
-- are unique, is what the map of its rows returns, in which an expired entry is no entry. The counts that
-- `delete` and `cleanup_expired` return are not compared, since they depend on which expired rows are still
-- stored, and `expire` is not among the calls.
pub run_refines :
    (d : Driver) (now : ℕ) (ops : List (ℕ × Op)) (s : Store)
    → IsKeyed s
    → IsTimely now ops
    → run d ops s ≡ replay d ops (λ k. get k s)
unfolding run replay
run_refines d now ops s h timely =
    go ops now s (λ k. get k s) (record { keyed = h; live = λ k. refl }) timely
  where
    go :
        (ops : List (ℕ × Op)) (now : ℕ) (s : Store) (m : Spec)
        → Agrees now s m
        → IsTimely now ops
        → run d ops s ≡ replay d ops m
    go [] now s m a timely = refl
    go ((t, op) ∷ ops) now s m a timely =
        let (reply, after) = step-Agrees d t op s m (Agrees-later now t s m timely.0 a) in
        rw reply (
          ap (λ rest. (spec_step d t op m).0 ∷ rest)
            (go ops t (step d t op s).1 (spec_step d t op m).1 after timely.1))
