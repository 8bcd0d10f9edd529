-- ===== src/TimerManager/Timeout.antt =====
-- `AddTimer` and `GetRecentTimeout`.
use my_net_lib.Common.{
  add_size, arith, if◌then◌else◌, leb, none, pos_part, refl, some, to_size, ℕ, ℤ, ◌+◌, ◌-◌, ◌<◌,
  ◌^◌, ◌∷◌, ◌≡◌,
}
use my_net_lib.Timer.{Timer, new_timer}
use my_net_lib.TimerManager.{TimerManager, push, add_timer, get_recent_timeout}
use my_net_lib.TimerManager.Order.{IsSorted, push-IsSorted}

-- Before the time of the top, `GetRecentTimeout` is the time left, so that no timer of an ordered
-- queue is due sooner. From one millisecond past it on it wraps to a number near 2 ^ 64: the clamp
-- to 0 is never taken.
pub get_recent_timeout_lem :
    (now : ℕ) (top : Timer) (q : TimerManager)
    → now < 2 ^ 64
    → top.expired_time < 2 ^ 64
    → get_recent_timeout now (top ∷ q) ≡ (
        if leb now top.expired_time
        then top.expired_time - now
        else 2 ^ 64 - (now - top.expired_time))
unfolding get_recent_timeout
get_recent_timeout_lem now top q hn ht = ground arith

-- `AddTimer` with an interval that is not positive changes nothing and returns null.
add_timer_refused :
    (now initial_id : ℕ) (q : TimerManager) (repeated_times interval : ℤ) (callback : ℕ)
    → pos_part interval ≡ 0
    → add_timer now initial_id q repeated_times interval callback ≡ (none, initial_id, q)
unfolding add_timer
add_timer_refused now initial_id q repeated_times interval callback e = ground arith

-- `AddTimer` with a positive interval returns a timer with a new id, due after the interval, and
-- queues it in order.
pub add_timer_lem :
    (now initial_id : ℕ) (q : TimerManager) (repeated_times interval : ℤ) (callback : ℕ)
    → IsSorted q
    → 0 < pos_part interval
    → now + pos_part interval < 2 ^ 64
    → (t : Timer) × (add_timer now initial_id q repeated_times interval callback
        ≡ (some t, initial_id + 1, push t q))
      × (t.id ≡ initial_id + 1)
      × (t.expired_time ≡ now + pos_part interval)
      × (t.repeated_times ≡ repeated_times)
      × IsSorted (push t q)
unfolding add_timer new_timer
add_timer_lem now initial_id q repeated_times interval callback s positive h =
    (t, ground arith, refl, ground arith, refl, push-IsSorted t q s)
  where
    t : Timer
    t = (new_timer initial_id (add_size now (to_size interval)) repeated_times interval callback).0
