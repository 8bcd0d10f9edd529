-- ===== src/EventLoopThread/Tests.antt =====
-- Runs of the two threads.
use my_net_lib.Common.{[], refl, true, ◌∷◌, ◌≡◌}
use my_net_lib.EventLoopThread.{
  joining, gone, faulted, System, initial, owner_goes, runner_goes, poll_returns, user_quits, act,
  owner_step, runner_step, has_returned,
}
use my_net_lib.EventLoopThread.Handover.{Reach, start, next, rounds, run, start_loop_ends}
use my_net_lib.EventLoopThread.Quit.{join_ends, quit_lost}

-- The owner is in `cond_.wait`.
abbrev sleeping : System
sleeping = run (owner_goes ∷ runner_goes ∷ owner_goes ∷ owner_goes ∷ []) initial

sleeping-Reach : Reach sleeping
unfolding act owner_step runner_step
sleeping-Reach =
    next owner_goes (next owner_goes (next runner_goes (next owner_goes start refl) refl) refl) refl

start_loop_ends_example : has_returned (rounds 3 sleeping).owner ≡ true
start_loop_ends_example = start_loop_ends sleeping-Reach

-- The owner gets the loop and destroys the object before the thread has entered the loop.
abbrev early : System
early =
    run (runner_goes ∷ owner_goes ∷ owner_goes ∷ owner_goes ∷ owner_goes ∷ owner_goes ∷ []) sleeping

quit_lost_example :
    (run
      (runner_goes ∷ runner_goes ∷ runner_goes ∷ poll_returns ∷ runner_goes ∷ owner_goes ∷ [])
      early).owner
    ≡ joining
unfolding act owner_step runner_step
quit_lost_example =
    quit_lost
      (runner_goes ∷ runner_goes ∷ runner_goes ∷ poll_returns ∷ runner_goes ∷ owner_goes ∷ []) early
      refl refl refl

-- The thread enters the loop first, and is in its poll.
abbrev late : System
late =
    run (runner_goes ∷ runner_goes ∷ runner_goes ∷ owner_goes ∷ owner_goes ∷ owner_goes ∷ [])
      sleeping

late-Reach : Reach late
unfolding act owner_step runner_step
late-Reach =
    next owner_goes
      (next owner_goes
        (next owner_goes
          (next runner_goes (next runner_goes (next runner_goes sleeping-Reach refl) refl) refl)
          refl)
        refl)
      refl

join_ends_example : (rounds 5 late).owner ≡ gone
unfolding act owner_step runner_step
join_ends_example = join_ends late refl refl refl

-- Without the wakeup the loop stays in its poll.
sleeps_on : (rounds 9 (record late { owner = joining; quit_flag = true })).owner ≡ joining
unfolding act owner_step runner_step
sleeps_on = refl

-- Another thread's `Quit` ends the loop between the destructor's test of `loop_` and its `Quit`.
calls_dead_loop :
    (run
      (runner_goes ∷ runner_goes ∷ owner_goes ∷ owner_goes ∷ owner_goes ∷ user_quits ∷ runner_goes
        ∷ runner_goes ∷ owner_goes ∷ [])
      sleeping).owner
    ≡ faulted
unfolding act owner_step runner_step
calls_dead_loop = refl

-- The loop sees `quit_` and ends before the destructor's `Quit` calls `Wakeup`.
wakes_dead_loop :
    (run
      (runner_goes ∷ runner_goes ∷ owner_goes ∷ owner_goes ∷ owner_goes ∷ owner_goes ∷ runner_goes
        ∷ runner_goes ∷ owner_goes ∷ [])
      sleeping).owner
    ≡ faulted
unfolding act owner_step runner_step
wakes_dead_loop = refl
