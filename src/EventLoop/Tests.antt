-- ===== src/EventLoop/Tests.antt =====
-- A loop at concrete inputs.
use my_net_lib.Common.{
  List, [], arith, false, inl, negsuc, none, pos, refl, some, true, ℕ, ◌++◌, ◌+◌, ◌<◌, ◌∷◌, ◌≡◌,
}
use my_net_lib.EventLoop.OneLoop.{construct}
use my_net_lib.Timer.{Timer}
use my_net_lib.EventLoop.{
  new_loop, wakeup, handle_read, emplace, queue_in_loop, begin_loop, set_calling, swap_functors,
  poll_timeout,
}
use my_net_lib.EventLoop.System.{
  testing, polling, running, System, other_queues, other_wakes, begins, tests, timers_done,
  poll_returns, reads_wakeup, io_done, swaps, runs_functor, queues, loop_step, act,
}
use my_net_lib.EventLoop.Life.{Reach, start, next, functors_in_order, blocked-woken}
use my_net_lib.EventLoop.Pass.{acts, pass, pass_lem}
use my_net_lib.EventLoop.Timeout.{poll_timeout_lem}

-- Another thread queues the functors 5 and 6 and is not yet at the first `Wakeup`.
abbrev two_pending : System
two_pending = record {
  loop = record new_loop { looping = true; pending_functors = 5 ∷ 6 ∷ [] };
  pc = polling;
  wakers = 2;
  ran = [];
  queued = 5 ∷ 6 ∷ [];
}

two_pending-Reach : Reach two_pending
unfolding act loop_step begin_loop emplace
two_pending-Reach =
    next (other_queues 6)
      (next timers_done
        (next tests (next (other_queues 5) (next begins start refl refl) refl refl) refl refl) refl
        refl)
      refl refl

-- A functor that queues another while it runs wakes its own loop.
requeued-Reach : Reach (record {
  loop = record {
    looping = true;
    quit_flag = false;
    calling_pending_functors = true;
    pending_functors = 7 ∷ [];
    wake = 1;
  };
  pc = running (6 ∷ []);
  wakers = 1;
  ran = 5 ∷ [];
  queued = 5 ∷ 6 ∷ 7 ∷ [];
})
unfolding act loop_step wakeup handle_read emplace set_calling swap_functors queue_in_loop
requeued-Reach =
    next (queues 7)
      (next runs_functor
        (next swaps
          (next io_done
            (next reads_wakeup
              (next poll_returns (next other_wakes two_pending-Reach refl refl) refl refl) refl
              refl)
            refl refl)
          refl refl)
        refl refl)
      refl refl

functors_in_order_example : ◌≡◌ {A = List ℕ} ((5 ∷ []) ++ ((6 ∷ []) ++ 7 ∷ [])) (5 ∷ 6 ∷ 7 ∷ [])
functors_in_order_example = functors_in_order requeued-Reach

blocked-woken_example : 0 < 0 + 2
blocked-woken_example = blocked-woken two_pending-Reach refl (inl (λ e. absurd (cc)))

abbrev woken_up : System
woken_up = record two_pending { loop = record (two_pending.loop) { wake = 1 } }

pass_lem_example :
    acts (pass 2) woken_up
    ≡ some (record woken_up {
      loop = record new_loop { looping = true };
      pc = testing;
      ran = 5 ∷ 6 ∷ [];
    })
pass_lem_example = pass_lem woken_up refl (omega arith)

abbrev due_at_100 : Timer
due_at_100 = record {
  id = 1;
  expired_time = 100;
  interval = pos 10;
  repeated_times = pos 1;
  callback = 0;
}

poll_timeout_lem_example :
    (poll_timeout 103 103 [] ≡ pos 10000) × (poll_timeout 103 103 (due_at_100 ∷ []) ≡ negsuc 2)
poll_timeout_lem_example =
    poll_timeout_lem 103 due_at_100 [] (omega arith) (omega arith) (omega arith) (omega arith)

-- Of two loops in one thread the second one ends the program.
second_loop : construct 2 (record { loop_in_this_thread = some 1; alive = 1 ∷ [] }) ≡ none
unfolding construct
second_loop = refl
