-- ===== src/EventLoopThread.antt =====
-- include/event_loop_thread.h, src/event_loop_thread.cc, src/thread.cc: a thread with a loop of its
-- own, from `StartLoop` to the destructor. What the thread that owns the object does and what the new
-- thread does are interleaved steps; a section under the mutex is one step.
pub mod Handover
pub mod Quit
mod Tests
use my_net_lib.Common.{Bool, Option, false, if◌then◌else◌, none, not, some, true, ◌&&◌}

-- Where the owner stands: before `StartLoop`; at `sem_wait` in `Thread::Start`; at the test of
-- `loop_` under the mutex; in `cond_.wait`; behind `StartLoop`; at the test of `loop_` in the
-- destructor; before `loop_->Quit()`; in it, between `quit_ = true` and `Wakeup()`; in
-- `thread_.Join()`; behind the destructor. `faulted`: it called a loop that is gone.
pub data Owner : Type 0 where
  created starting checking waiting returned destroying quitting waking joining gone faulted : Owner

-- Where the thread stands: not there yet; before `sem_post`; before the mutex of `ThreadFunc`; before
-- `loop.Loop()`; at the test of `quit_`; in the poll; before the last mutex; at its end.
pub data Runner : Type 0 where
  absent spawned ready published looping polling left exited : Runner

-- `has_loop`: `loop_` is not null. `quit_flag`: `quit_` of the loop. `woken`: its
-- eventfd is readable.
pub record System : Type 0 where
  pub owner : Owner
  pub runner : Runner
  pub sem : Bool
  pub has_loop : Bool
  pub exiting : Bool
  pub quit_flag : Bool
  pub woken : Bool

abbrev pub initial : System
initial = record {
  owner = created;
  runner = absent;
  sem = false;
  has_loop = false;
  exiting = false;
  quit_flag = false;
  woken = false;
}

-- `cond_.notify_one()`
abbrev pub notified : Owner → Owner
notified waiting = checking
notified o = o

-- `loop` of `ThreadFunc` is destroyed at its end.
abbrev pub is_exited : Runner → Bool
is_exited exited = true
is_exited _ = false

-- The owner's next step; `none` while it is blocked, and at the end.
unfoldable pub owner_step : Owner → System → Option System
owner_step created s = some (record s { owner = starting; runner = spawned })
owner_step starting s = if s.sem then some (record s { owner = checking }) else none
owner_step checking s =
    if s.has_loop then some (record s { owner = returned }) else some (record s { owner = waiting })
owner_step returned s = some (record s { owner = destroying; exiting = true })
owner_step destroying s =
    if s.has_loop then some (record s { owner = quitting }) else some (record s { owner = gone })
owner_step quitting s =
    if is_exited s.runner
    then some (record s { owner = faulted })
    else some (record s { owner = waking; quit_flag = true })
owner_step waking s =
    if is_exited s.runner
    then some (record s { owner = faulted })
    else some (record s { owner = joining; woken = true })
owner_step joining s = if is_exited s.runner then some (record s { owner = gone }) else none
owner_step _ s = none

-- The thread's next step; `none` while it is blocked in the poll, and at the end. What a pass does
-- behind the poll is part of that step.
unfoldable pub runner_step : Runner → System → Option System
runner_step spawned s = some (record s { runner = ready; sem = true })
runner_step ready s =
    some (record s { runner = published; has_loop = true; owner = notified s.owner })
runner_step published s = some (record s { runner = looping; quit_flag = false })
runner_step looping s =
    if s.quit_flag then some (record s { runner = left }) else some (record s { runner = polling })
runner_step polling s =
    if s.woken then some (record s { runner = looping; woken = false }) else none
runner_step left s = some (record s { runner = exited; has_loop = false })
runner_step _ s = none

-- `wakes_up`: `cond_.wait` returns without a notification. `poll_returns`: the poll returns for
-- something else, or at its timeout. `user_quits` and `user_wakes`: who got the loop from `StartLoop`
-- calls its `Quit`, in two steps, or something else that wakes it.
pub data Act : Type 0 where
  owner_goes runner_goes wakes_up poll_returns user_quits user_wakes : Act

abbrev pub wake_step : Owner → System → Option System
wake_step waiting s = some (record s { owner = checking })
wake_step _ s = none

abbrev pub poll_step : Runner → System → Option System
poll_step polling s = some (record s { runner = looping })
poll_step _ s = none

abbrev pub has_returned : Owner → Bool
has_returned created = false
has_returned starting = false
has_returned checking = false
has_returned waiting = false
has_returned _ = true

-- `none`: the step cannot be taken there.
unfoldable pub act : Act → System → Option System
unfolding owner_step runner_step
act owner_goes s = owner_step s.owner s
act runner_goes s = runner_step s.runner s
act wakes_up s = wake_step s.owner s
act poll_returns s = poll_step s.runner s
act user_quits s =
    if has_returned s.owner && not (is_exited s.runner)
    then some (record s { quit_flag = true })
    else none
act user_wakes s =
    if has_returned s.owner && not (is_exited s.runner)
    then some (record s { woken = true })
    else none
