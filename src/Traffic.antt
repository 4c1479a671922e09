-- ===== src/Traffic.antt =====
-- The traffic that nodes report, on its way to the users: app/queues/jobs/pg_cache.py, and
-- `traffic_fetch` of app/queues/jobs/traffic.py and `traffic_update` of app/queues/jobs/maintenance.py.
pub mod Conserved
pub mod History
use py_board.Prelude.{
  ℕ, ◌+◌, String, Bool, true, false, not, Option, none, some, List, [], ◌∷◌, is_none, if◌then◌else◌,
}
use py_board.Prelude.Int.{ℤ, ◌+ℤ◌}
use py_board.Prelude.Rows.{Rows, lookup, insert}
use py_board.Cache.{Store, find_live}

-- Bytes up and down.
pub record Amount : Type 0 where
  pub u : ℤ
  pub d : ℤ

-- The columns of `users` that the flush writes.
pub record Meter : Type 0 where
  pub u : ℤ
  pub d : ℤ
  pub t : ℕ

-- `users`, and `traffic_cache`, whose key is a stage and a user: a table for each stage.
pub record Traffic : Type 0 where
  pub users : Rows Meter
  pub active : Rows Amount
  pub processing : Rows Amount

-- The normalised report of a node: a dict from users to bytes.
abbrev pub Report : Type 0
Report = Rows Amount

abbrev pub plus : Option Amount → Amount → Amount
plus none a = a
plus (some b) a = record { u = b.u +ℤ a.u; d = b.d +ℤ a.d }

-- `INSERT … ON CONFLICT (stage, user_id) DO UPDATE`; `rated` is `int(Decimal(x) * rate)`.
unfoldable pub increment : (ℤ → ℤ) → Report → Rows Amount → Rows Amount
increment rated [] t = t
increment rated ((i, a) ∷ r) t =
    increment rated r (insert i (plus (lookup i t) (record { u = rated a.u; d = rated a.d })) t)

-- `increment_traffic_cache`
unfoldable pub increment_traffic_cache : (ℤ → ℤ) → Report → Traffic → Traffic
increment_traffic_cache rated r s = record s { active = increment rated r s.active }

-- `cache_exists`
abbrev pub cache_exists : ℕ → String → Store → Bool
cache_exists now key cache = not (is_none (find_live now key cache))

-- `UPDATE users … FROM traffic WHERE users.id = traffic.user_id`: users that are gone have no row.
abbrev pub add_to : ℕ → Amount → Meter → Meter
add_to now a v = record { u = v.u +ℤ a.u; d = v.d +ℤ a.d; t = now }

-- `_apply_processing_traffic`
unfoldable pub apply_processing_traffic : ℕ → Rows Amount → Rows Meter → Rows Meter
apply_processing_traffic now [] us = us
apply_processing_traffic now ((i, a) ∷ r) us =
    apply_processing_traffic now r
      (elim (lookup i us) [ none ↦ us | some v ↦ insert i (add_to now a v) us ])

-- The active rows become the processing ones if there are none of a flush before.
abbrev pub staged : Rows Amount → Rows Amount → Rows Amount × Rows Amount
staged active [] = ([], active)
staged active (r ∷ rs) = (active, r ∷ rs)

-- `flush_traffic_cache_to_users`, in one transaction; `locked` is the advisory lock of PostgreSQL.
unfoldable pub flush_traffic_cache_to_users : ℕ → Bool → Store → Traffic → Bool × Traffic
flush_traffic_cache_to_users now locked cache s =
    if not locked
    then (false, s)
    else if cache_exists now "traffic_reset_lock" cache
    then (false, s)
    else let (active, processing) = staged s.active s.processing in
      (
        true,
        record {
          users = apply_processing_traffic now processing s.users;
          active = active;
          processing = [];
        },
      )
