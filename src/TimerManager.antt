-- ===== src/TimerManager.antt =====
-- include/timer_manager.h, src/timer_manager.cc: the timers of an event loop. The clock is an
-- argument of each call. `std::priority_queue` is a list, its top first; of two timers that `cmp`
-- does not tell apart the one pushed first is nearer the top, which the standard leaves open.
pub mod Order
pub mod Check
pub mod Remove
pub mod Removing
pub mod Repeats
pub mod Timeout
mod Tests
use my_net_lib.Common.{
  Bool, List, Option, [], add_size, if◌then◌else◌, is_zero, leb, length, ltb, ltb_ℤ, none, pos,
  some, sub_size, suc, to_size, zero, ℕ, ℤ, ◌+◌, ◌-◌, ◌==◌, ◌>>=◌, ◌>>◌, ◌^◌, ◌∷◌,
}
use my_net_lib.Timer.{Timer, new_timer, set_expired_time, dec_repeat_times}

-- `cmp`: whether `t1` has the lower priority.
abbrev pub cmp : Timer → Timer → Bool
cmp t1 t2 =
    if t1.expired_time == t2.expired_time
    then ltb_ℤ t2.repeated_times t1.repeated_times
    else ltb t2.expired_time t1.expired_time

abbrev pub TimerManager : Type 0
TimerManager = List Timer

pub push : Timer → TimerManager → TimerManager
push t [] = t ∷ []
push t (x ∷ q) = if cmp x t then t ∷ x ∷ q else x ∷ push t q

abbrev pub pop : TimerManager → TimerManager
pop [] = []
pop (x ∷ q) = q

-- Pushes in the order of the list.
pub pushes : List Timer → TimerManager → TimerManager
unfolding push
pushes [] q = q
pushes (t ∷ ts) q = pushes ts (push t q)

-- The result, `initial_id_` behind, and the manager behind.
pub add_timer : ℕ → ℕ → TimerManager → ℤ → ℤ → ℕ → Option Timer × ℕ × TimerManager
unfolding push new_timer
add_timer now initial_id q repeated_times interval callback =
    if ltb_ℤ (pos 0) interval
    then (let (t, next_id) =
          new_timer initial_id (add_size now (to_size interval)) repeated_times interval callback in
        (some t, next_id, push t q))
    else (none, initial_id, q)

-- The loop of `RemoveTimer`: what is left of `timers_que_`, and `newqueue`.
pub remove_loop : ℕ → TimerManager → TimerManager → TimerManager
unfolding push
remove_loop timer [] newqueue = newqueue
remove_loop timer (top ∷ q) newqueue =
    remove_loop timer q (if top.id == timer then newqueue else push top newqueue)

pub remove_timer : ℕ → TimerManager → TimerManager
unfolding remove_loop
remove_timer timer q = remove_loop timer q []

-- A timer set for the next time.
pub rearmed : ℕ → Timer → Timer
unfolding set_expired_time dec_repeat_times
rearmed now t = dec_repeat_times (set_expired_time t (add_size now (to_size t.interval)))

-- A timer behind its run, when it is off the queue: deleted, or queued for the next time.
pub rearm : ℕ → Timer → TimerManager → TimerManager
unfolding push rearmed
rearm now t q = if is_zero t.repeated_times then q else push (rearmed now t) q

-- `CheckAndHandle` at time `now`, with fuel for the rounds: the callbacks run, in order, and the
-- manager behind. `adds` says which timers a callback adds while it runs; `pop` takes the top of the
-- queue as it is then. Callbacks that remove timers are in Removing.
pub check_loop : (adds : ℕ → List Timer) → ℕ → ℕ → TimerManager → Option (List ℕ × TimerManager)
unfolding rearm pushes
check_loop adds zero now q = none
check_loop adds (suc fuel) now [] = some ([], [])
check_loop adds (suc fuel) now (t ∷ q) =
    let rest = check_loop adds fuel now (rearm now t (pop (pushes (adds t.callback) (t ∷ q)))) in
    if leb t.expired_time now
    then (do (ran, q') ← rest; some (t.callback ∷ ran, q'))
    else some ([], t ∷ q)

-- One round for each timer is enough.
pub check_and_handle : (adds : ℕ → List Timer) → ℕ → TimerManager → Option (List ℕ × TimerManager)
unfolding check_loop
check_and_handle adds now q = check_loop adds (length q + 1) now q

-- `timeout < 0` is a test of an unsigned number.
unfoldable pub get_recent_timeout : ℕ → TimerManager → ℕ
get_recent_timeout now [] = 2 ^ 64 - 1
get_recent_timeout now (top ∷ q) =
    let timeout = sub_size top.expired_time now in if ltb timeout 0 then 0 else timeout
