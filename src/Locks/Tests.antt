-- ===== src/Locks/Tests.antt =====
-- Two threads that lock the same two objects in opposite orders, one of which holds the first lock.
use diode_server.Base.{◌≡◌, refl, List, [], ◌∷◌, All}
use diode_server.Locks.{
  Thread, lock_order, begin, begin_all, idle, taken, Step, locked, Run, here, next,
}
use diode_server.Locks.Progress.{Run-finish}

program : Unit {0}
unfolding lock_order begin begin_all taken
program = tt

abbrev started : List Thread
started = record { held = 3 ∷ []; wanted = 5 ∷ [] } ∷ record { held = []; wanted = 3 ∷ 5 ∷ [] } ∷ []

first_step : Step (begin_all ((3, 5) ∷ (5, 3) ∷ [])) started
unfolding program
first_step = locked 0 3 [] (5 ∷ []) refl refl

Run-finish_example : (us : List Thread) × Run started us × All (λ t. t ≡ idle) us
Run-finish_example = Run-finish ((3, 5) ∷ (5, 3) ∷ []) started (next first_step here)
