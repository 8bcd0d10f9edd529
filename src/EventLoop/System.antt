-- ===== src/EventLoop/System.antt =====
-- The loop's thread and the threads that call it, interleaved: where `Loop` stands, and what one
-- step of a thread does.
use my_net_lib.Common.{
  Bool, List, Option, [], false, if◌then◌else◌, ltb, none, some, true, ℕ, ◌++◌, ◌+◌, ◌-◌, ◌==◌, ◌∷◌,
}
use my_net_lib.EventLoop.{
  EventLoop, new_loop, wakeup, handle_read, emplace, queue_in_loop, quit, begin_loop, end_loop,
  set_calling, swap_functors,
}

-- `io true`: `wakeup_channel_` is active and its callback did not run yet.
pub data Pc : Type 0 where
  idle testing timers polling : Pc
  io : Bool → Pc
  swapping : Pc
  running : List ℕ → Pc
  stopped : Pc

-- `wakers`: the other threads that stand before the `Wakeup` of `QueueInLoop` or `Quit`. `ran` and
-- `queued` record what ran and what was queued, in order.
pub record System : Type 0 where
  pub loop : EventLoop
  pub pc : Pc
  pub wakers : ℕ
  pub ran : List ℕ
  pub queued : List ℕ

abbrev pub initial : System
initial = record { loop = new_loop; pc = idle; wakers = 0; ran = []; queued = [] }

pub data Act : Type 0 where
  -- another thread
  other_queues : ℕ → Act
  other_quits other_wakes : Act
  -- the loop's thread, between callbacks
  begins tests timers_done poll_returns reads_wakeup io_done swaps runs_functor functors_done : Act
  -- a callback of the loop's thread
  queues : ℕ → Act
  quits : Act

-- Where callbacks run.
abbrev pub in_callback : Pc → Bool
in_callback timers = true
in_callback (io w) = true
in_callback (running fs) = true
in_callback _ = false

-- The functors that were swapped out and did not run yet.
abbrev pub taken : Pc → List ℕ
taken (running fs) = fs
taken _ = []

-- The steps of the loop's thread, by where it stands.
unfoldable pub loop_step : Act → Pc → System → Option System
loop_step begins idle s = some (record s { loop = begin_loop s.loop; pc = testing })
loop_step tests testing s =
    if s.loop.quit_flag
    then some (record s { loop = end_loop s.loop; pc = stopped })
    else some (record s { pc = timers })
loop_step timers_done timers s = some (record s { pc = polling })
loop_step poll_returns polling s = some (record s { pc = io (ltb 0 s.loop.wake) })
loop_step reads_wakeup (io true) s = some (record s { loop = handle_read s.loop; pc = io false })
loop_step io_done (io false) s = some (record s { loop = set_calling true s.loop; pc = swapping })
loop_step swaps swapping s =
    let r = swap_functors s.loop in some (record s { loop = r.0; pc = running r.1 })
loop_step runs_functor (running (f ∷ fs)) s =
    some (record s { pc = running fs; ran = s.ran ++ f ∷ [] })
loop_step functors_done (running []) s =
    some (record s { loop = set_calling false s.loop; pc = testing })
loop_step _ _ s = none

-- `none`: the step cannot be taken there.
unfoldable pub act : Act → System → Option System
act (other_queues cb) s =
    some
      (record s { loop = emplace cb s.loop; wakers = s.wakers + 1; queued = s.queued ++ cb ∷ [] })
act other_quits s =
    some (record s { loop = record (s.loop) { quit_flag = true }; wakers = s.wakers + 1 })
act other_wakes s =
    if s.wakers == 0 then none else some (record s { loop = wakeup s.loop; wakers = s.wakers - 1 })
act (queues cb) s =
    if in_callback s.pc
    then some (record s { loop = queue_in_loop true cb s.loop; queued = s.queued ++ cb ∷ [] })
    else none
act quits s = if in_callback s.pc then some (record s { loop = quit true s.loop }) else none
act a s = loop_step a s.pc s
