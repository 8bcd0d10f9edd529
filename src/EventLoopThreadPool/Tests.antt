-- ===== src/EventLoopThreadPool/Tests.antt =====
-- A pool at concrete inputs.
use my_net_lib.Common.{[], arith, false, refl, some, true, ◌+◌, ◌∷◌, ◌≡◌}
use my_net_lib.EventLoopThreadPool.{
  EventLoopThreadPool, start, start_threads, set_thread_num, new_pool,
}
use my_net_lib.EventLoopThreadPool.Rounds.{next_loops, round_robin}

-- A pool of three threads, after two connections.
abbrev three : EventLoopThreadPool
three = record {
  base_loop = 9;
  started = true;
  num_threads = 3;
  next_index = 2;
  loops = 10 ∷ 11 ∷ 12 ∷ [];
}

three_started :
    (start false (λ i. 10 + i) (set_thread_num 3 (new_pool 9))).0 ≡ record three { next_index = 0 }
unfolding start start_threads set_thread_num new_pool
three_started = refl

round_robin_example : next_loops 3 three ≡ some (12 ∷ 10 ∷ 11 ∷ [], three)
round_robin_example = round_robin three (omega arith)
