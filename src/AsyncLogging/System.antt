-- ===== src/AsyncLogging/System.antt =====
-- The threads that log and the back end, interleaved.
use my_net_lib.Common.{List, Option, [], if◌then◌else◌, length, ltb, none, some, ℕ, ◌++◌, ◌>>=◌}
use my_net_lib.LogStream.{FixedBuffer, big_buffer_size, new_buffer}
use my_net_lib.AsyncLogging.{AsyncLogging, new_logging, append, Batch, collect, finish}

-- Before the mutex with two spare buffers, or behind it with a batch.
pub data Back : Type 0 where
  waits : FixedBuffer → FixedBuffer → Back
  writes : Batch → Back

-- `written`: the bytes that `log_file_` got. `accepted`: the messages that were logged, in the order
-- in which they got the mutex, less those that are as large as a buffer.
pub record System : Type 0 where
  pub logging : AsyncLogging
  pub back : Back
  pub written : List ℕ
  pub accepted : List ℕ

abbrev pub initial : System
initial = record {
  logging = new_logging;
  back = waits (new_buffer big_buffer_size) (new_buffer big_buffer_size);
  written = [];
  accepted = [];
}

pub data Act : Type 0 where
  appends : List ℕ → Act
  collects finishes : Act

abbrev pub accepts : List ℕ → List ℕ
accepts msg = if ltb (length msg) big_buffer_size then msg else []

abbrev pub finished : System → List ℕ × FixedBuffer × FixedBuffer → System
finished s r = record s { back = waits r.1 r.2; written = s.written ++ r.0 }

-- `collects` may come whenever the back end waits: a full buffer, the timeout of five seconds or a
-- spurious wakeup ends the wait.
unfoldable pub back_step : Act → Back → System → Option System
back_step collects (waits new_buffer1 new_buffer2) s =
    let r = collect new_buffer1 new_buffer2 s.logging in
    some (record s { logging = r.0; back = writes r.1 })
back_step finishes (writes batch) s =
    finish (length s.logging.buffer_to_write) batch >>= λ r. some (finished s r)
back_step _ _ s = none

unfoldable pub act : Act → System → Option System
act (appends msg) s =
    some (record s { logging = append msg s.logging; accepted = s.accepted ++ accepts msg })
act a s = back_step a s.back s
