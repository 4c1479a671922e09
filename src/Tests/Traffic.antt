-- ===== src/Tests/Traffic.antt =====
-- Two reports and a flush.
use py_board.Prelude.{ℕ, ◌≡◌, refl, List, some, true, [], ◌∷◌}
use py_board.Prelude.Int.{ℤ, pos, ◌+ℤ◌}
use py_board.Prelude.Rows.{lookup, insert}
use py_board.Prelude.Table.{get}
use py_board.Traffic.{
  Amount, Meter, Traffic, increment, increment_traffic_cache, apply_processing_traffic,
  flush_traffic_cache_to_users,
}
use py_board.Traffic.History
use py_board.Traffic.History.{Event, Gains, IsCounting, run, said_by, run-Gains, flush-delivers}

abbrev meter : Meter
meter = record { u = pos 5; d = pos 7; t = 0 }

-- The user 1 is there, the user 2 is not.
abbrev idle : Traffic
idle = record { users = (1, meter) ∷ []; active = []; processing = [] }

abbrev bytes : ℕ → ℕ → Amount
bytes u d = record { u = pos u; d = pos d }

abbrev twice : ℤ → ℤ
twice x = x +ℤ x

abbrev events : List Event
events =
    History.reports twice ((1, bytes 10 20) ∷ (2, bytes 3 4) ∷ [])
    ∷ History.reports (λ x. x) ((1, bytes 1 1) ∷ [])
    ∷ History.flushes 900 true []
    ∷ []

idle-IsCounting : IsCounting idle
idle-IsCounting = record { active = tt; processing = tt }

flushed : lookup 1 (run events idle).users ≡ some (record { u = pos 26; d = pos 48; t = 900 })
unfolding run increment_traffic_cache increment flush_traffic_cache_to_users
    apply_processing_traffic lookup insert get ◌+ℤ◌
flushed = refl

run-Gains_example : Gains 1 meter (said_by 1 events) idle (run events idle)
run-Gains_example = run-Gains events 1 meter idle idle-IsCounting (unfold lookup in refl)

abbrev counted : Traffic
counted = record idle { active = (1, bytes 10 20) ∷ [] }
