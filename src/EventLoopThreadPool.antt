-- ===== src/EventLoopThreadPool.antt =====
-- include/event_loop_thread_pool.h, src/event_loop_thread_poll.cc: the loops of a server, handed out
-- in turn. An `EventLoop*` is a number.
pub mod Rounds
mod Tests
use my_net_lib.Common.{
  Bool, List, Option, [], false, get_elem?, if◌then◌else◌, leb, length, some, suc, true, zero, ℕ,
  ◌&&◌, ◌++◌, ◌+◌, ◌==◌, ◌>>=◌, ◌∷◌,
}

-- `num_threads_` and `next_` stay at 0 or above.
pub record EventLoopThreadPool : Type 0 where
  pub base_loop : ℕ
  pub started : Bool
  pub num_threads : ℕ
  pub next_index : ℕ
  pub loops : List ℕ

-- The constructor.
unfoldable pub new_pool : ℕ → EventLoopThreadPool
new_pool base_loop = record {
  base_loop = base_loop;
  started = false;
  num_threads = 0;
  next_index = 0;
  loops = [];
}

unfoldable pub set_thread_num : ℕ → EventLoopThreadPool → EventLoopThreadPool
set_thread_num num_thread p = record p { num_threads = num_thread }

-- The threads from number `i` on; `start_loop` says which loop a thread hands over.
unfoldable pub start_threads : (start_loop : ℕ → ℕ) → (i left : ℕ) → List ℕ
start_threads start_loop i zero = []
start_threads start_loop i (suc left) = start_loop i ∷ start_threads start_loop (i + 1) left

-- With the calls of `cb` that `Start` itself makes, if it is set.
unfoldable pub start :
    (has_cb : Bool) → (start_loop : ℕ → ℕ) → EventLoopThreadPool → EventLoopThreadPool × List ℕ
unfolding start_threads
start has_cb start_loop p = (
  record p { started = true; loops = p.loops ++ start_threads start_loop 0 p.num_threads },
  if p.num_threads == 1 && has_cb then p.base_loop ∷ [] else [],
)

-- `none`: an access of `loops_` out of range.
unfoldable pub get_next_loop : EventLoopThreadPool → Option (ℕ × EventLoopThreadPool)
get_next_loop p =
    let next = p.next_index + 1 in
    if length p.loops == 0
    then some (p.base_loop, p)
    else (get_elem? p.loops p.next_index >>= λ loop.
        some (loop, record p { next_index = if leb (length p.loops) next then 0 else next }))

unfoldable pub get_all_loops : EventLoopThreadPool → List ℕ
get_all_loops p = if length p.loops == 0 then p.base_loop ∷ [] else p.loops
