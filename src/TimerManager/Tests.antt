-- ===== src/TimerManager/Tests.antt =====
-- Timers at concrete inputs.
use my_net_lib.Common.{[], arith, if◌then◌else◌, pos, refl, some, ◌==◌, ◌∷◌, ◌≡◌}
use my_net_lib.Timer.{Timer}
use my_net_lib.TimerManager.{TimerManager, remove_timer, check_and_handle}
use my_net_lib.TimerManager.Order.{IsSorted}
use my_net_lib.TimerManager.Check.{handled, check_and_handle_lem}
use my_net_lib.TimerManager.Remove.{remove_timer_lem}
use my_net_lib.TimerManager.Removing.{
  Callbacks, check_removing, returns, uses_freed, removes_itself,
}
use my_net_lib.TimerManager.Removing.Ends.{EndsWell, check_ends}
use my_net_lib.TimerManager.Repeats.{checks, quiet, checks_lem}

-- Every 10 ms, three more times; once; and once, later.
abbrev ticking : Timer
ticking = record {
  id = 1;
  expired_time = 100;
  repeated_times = pos 3;
  interval = pos 10;
  callback = 7;
}

abbrev once : Timer
once = record { id = 2; expired_time = 105; repeated_times = pos 0; interval = pos 5; callback = 8 }

abbrev later : Timer
later = record {
  id = 3;
  expired_time = 200;
  repeated_times = pos 0;
  interval = pos 99;
  callback = 9;
}

abbrev three : TimerManager
three = ticking ∷ once ∷ later ∷ []

three-IsSorted : IsSorted three
three-IsSorted = ((refl, (refl, tt)), ((refl, tt), (tt, tt)))

check_and_handle_lem_example :
    check_and_handle quiet 110 three
    ≡ some (7 ∷ 8 ∷ [], handled quiet 110 (ticking ∷ once ∷ []) (later ∷ []))
check_and_handle_lem_example = check_and_handle_lem quiet 110 (λ c. tt) three (omega arith)

-- The timer that repeats is next due at 120.
check_and_handle_run :
    check_and_handle quiet 110 three
    ≡ some (7 ∷ 8 ∷ [], record ticking { expired_time = 120; repeated_times = pos 2 } ∷ later ∷ [])
unfolding check_and_handle
check_and_handle_run = refl

-- The first timer removes the second one, which is then not run.
abbrev removing : Callbacks
removing = record { adds = λ c. []; removes = λ c. if c == 7 then 2 ∷ [] else [] }

check_ends_example : EndsWell 110 2 (check_removing removing 4 110 three)
check_ends_example =
    check_ends removing 110 (λ c. tt) three three-IsSorted
      ((refl, omega arith), ((refl, omega arith), tt))

check_removing_run :
    check_removing removing 4 110 three
    ≡ returns (7 ∷ []) (record ticking { expired_time = 120; repeated_times = pos 2 } ∷ later ∷ [])
unfolding check_removing
check_removing_run = refl

-- A timer that takes itself off.
removes_own : check_removing (record removing { removes = λ c. 1 ∷ [] }) 4 110 three ≡ uses_freed
removes_own =
    removes_itself (record removing { removes = λ c. 1 ∷ [] }) 110 ticking (once ∷ later ∷ [])
      (omega arith) refl

remove_timer_lem_example : remove_timer 2 three ≡ ticking ∷ later ∷ []
remove_timer_lem_example = remove_timer_lem 2 three three-IsSorted

checks_lem_example :
    checks quiet (100 ∷ 110 ∷ 125 ∷ 135 ∷ []) (ticking ∷ []) ≡ some (7 ∷ 7 ∷ 7 ∷ 7 ∷ [], [])
checks_lem_example =
    checks_lem 3 10 ticking (100 ∷ 110 ∷ 125 ∷ 135 ∷ []) (omega arith) refl refl refl (omega arith)
