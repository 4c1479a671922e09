-- ===== src/Tests/Cache.antt =====
-- Runs of the cache.
use py_board.Prelude.{ℕ, ◌≡◌, refl, none, some, List, [], ◌∷◌, arith}
use py_board.Prelude.Table.{get, IsKeyed}
use py_board.Json
use py_board.Cache.{Driver, Store, Cell}
use py_board.Cache.View
use py_board.Cache.View.{Op, IsTimely, run, replay, run_refines}

abbrev driver : Driver
driver = record { fetch = λ j. Cell.decoded j; loads = λ b. none; bigint = λ t. none }

-- A code of ten seconds, and a value that stays.
abbrev store : Store
store =
    ("code", record { value = Json.text "123456"; expires_at = some 110 })
    ∷ ("name", record { value = Json.text "board"; expires_at = none })
    ∷ []

-- The code is read before and at its end; the same key is free again then.
abbrev ops : List (ℕ × Op)
ops =
    (109, View.gets "code")
    ∷ (109, View.sets_nx "code" Json.null none)
    ∷ (109, View.mgets ("name" ∷ "code" ∷ "none" ∷ []))
    ∷ (110, View.gets "code")
    ∷ (110, View.sets_nx "code" (Json.text "654321") (some 10))
    ∷ (115, View.cleans)
    ∷ (119, View.gets "code")
    ∷ (120, View.incrs "hits" (some 60))
    ∷ []

store-IsKeyed : IsKeyed store
unfolding get
store-IsKeyed = (refl, (refl, tt))

run_refines_example : run driver ops store ≡ replay driver ops (λ k. get k store)
run_refines_example = run_refines driver 100 ops store store-IsKeyed (ground arith)
