-- ===== src/Scenarios/Money.antt =====
-- The arithmetic and the statements, in units.
use hexagonal_queue.Prelude.{◌≡◌, true, false}
use hexagonal_queue.Prelude.Int.{pos}
use hexagonal_queue.Platform.Exact.{units}
use hexagonal_queue.Service.{
  Stamp, create_deposit_statement, create_withdraw_statement, calculate_new_balance,
}
use hexagonal_queue.Service.Laws.{calculate_new_balance-eq-after, after}
use hexagonal_queue.Scenarios.Fixture.{ann, request_of}

abbrev at : Stamp
at = record { object_id = 7; time = 8 }

calculate_new_balance-eq-after_example :
    (calculate_new_balance units (pos 500) (pos 30) true
      ≡ after units (create_deposit_statement units at (request_of (pos 30)) (pos 500) ann))
    × (calculate_new_balance units (pos 500) (pos 30) false
        ≡ after units (create_withdraw_statement units at (request_of (pos 30)) (pos 500) ann))
calculate_new_balance-eq-after_example =
    calculate_new_balance-eq-after units at (request_of (pos 30)) (pos 500) ann
