-- ===== src/EventLoop.antt =====
-- include/event_loop.h, src/event_loop.cc: the loop of a thread, and the functors that any thread
-- hands to it.
pub mod System
pub mod Inv
pub mod Life
pub mod Pass
pub mod Timeout
pub mod OneLoop
mod Tests
use my_net_lib.Common.{
  Bool, List, [], false, if◌then◌else◌, ltb, negsuc, not, pos, true, ℕ, ℤ, ◌%◌, ◌++◌, ◌+◌, ◌-◌,
  ◌==◌, ◌^◌, ◌||◌, ◌∷◌,
}
use my_net_lib.TimerManager.{TimerManager, get_recent_timeout}

-- A functor is a number. `wake` is the counter of the eventfd behind `wake_fd_`.
pub record EventLoop : Type 0 where
  pub looping : Bool
  pub quit_flag : Bool
  pub calling_pending_functors : Bool
  pub pending_functors : List ℕ
  pub wake : ℕ

abbrev pub new_loop : EventLoop
new_loop = record {
  looping = false;
  quit_flag = false;
  calling_pending_functors = false;
  pending_functors = [];
  wake = 0;
}

-- eventfd(2): a write adds to the counter.
unfoldable pub wakeup : EventLoop → EventLoop
wakeup l = record l { wake = l.wake + 1 }

-- The callback of `wakeup_channel_`; eventfd(2): a read sets the counter to 0.
unfoldable pub handle_read : EventLoop → EventLoop
handle_read l = record l { wake = 0 }

-- `QueueInLoop` under the mutex.
unfoldable pub emplace : ℕ → EventLoop → EventLoop
emplace cb l = record l { pending_functors = l.pending_functors ++ cb ∷ [] }

unfoldable pub queue_in_loop : (in_loop_thread : Bool) → ℕ → EventLoop → EventLoop
unfolding emplace wakeup
queue_in_loop in_loop_thread cb l =
    if not in_loop_thread || l.calling_pending_functors then wakeup (emplace cb l) else emplace cb l

-- With the functors that run at once.
unfoldable pub run_in_loop : (in_loop_thread : Bool) → ℕ → EventLoop → EventLoop × List ℕ
unfolding queue_in_loop
run_in_loop in_loop_thread cb l =
    if in_loop_thread then (l, cb ∷ []) else (queue_in_loop in_loop_thread cb l, [])

unfoldable pub quit : (in_loop_thread : Bool) → EventLoop → EventLoop
unfolding wakeup
quit in_loop_thread l =
    let l' = record l { quit_flag = true } in if not in_loop_thread then wakeup l' else l'

-- `Loop` up to the first test.
unfoldable pub begin_loop : EventLoop → EventLoop
begin_loop l = record l { looping = true; quit_flag = false }

unfoldable pub end_loop : EventLoop → EventLoop
end_loop l = record l { looping = false }

-- `DoPendingFunctors`: the flag, then the swap under the mutex, then the functors, then the flag.
unfoldable pub set_calling : Bool → EventLoop → EventLoop
set_calling b l = record l { calling_pending_functors = b }

unfoldable pub swap_functors : EventLoop → EventLoop × List ℕ
swap_functors l = (record l { pending_functors = [] }, l.pending_functors)

abbrev pub poll_time_ms : ℕ
poll_time_ms = 10000

-- An `unsigned long long` converted to `int`: 32 bits, two's complement.
abbrev pub to_int : ℕ → ℤ
to_int n = let m = n % 2 ^ 32 in if ltb m (2 ^ 31) then pos m else negsuc (2 ^ 32 - 1 - m)

-- `timeout_ms`; `GetRecentTimeout` is called twice, at times `now` and `later`.
unfoldable pub poll_timeout : (now later : ℕ) → TimerManager → ℤ
poll_timeout now later q =
    if get_recent_timeout now q == 2 ^ 64 - 1
    then pos poll_time_ms
    else to_int (get_recent_timeout later q)
