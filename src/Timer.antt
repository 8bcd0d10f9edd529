-- ===== src/Timer.antt =====
-- include/timer.h, src/timer.cc: one timer. A `Timer*` is the timer's id, since ids are not reused.
use my_net_lib.Common.{pred_ℤ, ℕ, ℤ, ◌+◌}

pub record Timer : Type 0 where
  pub id : ℕ
  pub expired_time : ℕ
  pub repeated_times : ℤ
  pub interval : ℤ
  pub callback : ℕ

-- The constructor, with the counter `initial_id_` before and behind.
unfoldable pub new_timer : ℕ → ℕ → ℤ → ℤ → ℕ → Timer × ℕ
new_timer initial_id expired_time_ms repeated_times interval callback = (
  record {
    id = initial_id + 1;
    expired_time = expired_time_ms;
    repeated_times = repeated_times;
    interval = interval;
    callback = callback;
  },
  initial_id + 1,
)

unfoldable pub set_expired_time : Timer → ℕ → Timer
set_expired_time t expired_time = record t { expired_time = expired_time }

unfoldable pub dec_repeat_times : Timer → Timer
dec_repeat_times t = record t { repeated_times = pred_ℤ t.repeated_times }
