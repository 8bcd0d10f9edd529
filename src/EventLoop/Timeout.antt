-- ===== src/EventLoop/Timeout.antt =====
-- The timeout that `PollAndHandleIoEvent` gives to the poll.
use my_net_lib.Common.{
  [], arith, if◌then◌else◌, leb, negsuc, pos, ℕ, ◌+◌, ◌-◌, ◌<◌, ◌==◌, ◌^◌, ◌∷◌, ◌≡◌, ◌≤◌,
}
use my_net_lib.Timer.{Timer}
use my_net_lib.TimerManager.{TimerManager, get_recent_timeout}
use my_net_lib.EventLoop.{poll_timeout, poll_time_ms}

-- At one time for both calls of `GetRecentTimeout`: with no timer the poll waits ten seconds. With a
-- timer less than 2 ^ 31 milliseconds ahead it waits for as long as the soonest timer has left. For a
-- timer that is overdue by `k` milliseconds, at most 2 ^ 31, it gets the timeout -k, which is forever
-- to `epoll_wait`, except that for k = 1 it waits ten seconds.
pub poll_timeout_lem :
    (now : ℕ) (top : Timer) (q : TimerManager)
    → now < 2 ^ 64
    → top.expired_time < now + 2 ^ 31
    → now ≤ top.expired_time + 2 ^ 31
    → top.expired_time < 2 ^ 64
    → (poll_timeout now now [] ≡ pos poll_time_ms)
      × (poll_timeout now now (top ∷ q) ≡ (
          if leb now top.expired_time
          then pos (top.expired_time - now)
          else (if now - top.expired_time == 1
              then pos poll_time_ms
              else negsuc (now - top.expired_time - 1))))
unfolding poll_timeout get_recent_timeout
poll_timeout_lem now top q h1 h2 h3 h4 = (ground arith, ground arith)
