-- ===== src/AsyncLogging.antt =====
-- include/async_logging.h, src/async_logging.cc: the threads that log fill buffers, and the back end
-- writes them to the file.
pub mod System
pub mod Recycle
pub mod Front
pub mod Inv
pub mod Stopping
pub mod OnDisk
mod Tests
use my_net_lib.Common.{
  List, Option, [], if◌then◌else◌, leb, length, ltb, map, none, some, ℕ, ◌++◌, ◌>>=◌, ◌>>◌, ◌∷◌,
}
use my_net_lib.LogStream.{FixedBuffer, big_buffer_size, new_buffer, avail, reset, append_fixed}

-- What the mutex protects. `next_buffer_` may be null.
pub record AsyncLogging : Type 0 where
  pub cur_buffer : FixedBuffer
  pub next_buffer : Option FixedBuffer
  pub buffer_to_write : List FixedBuffer

abbrev pub new_logging : AsyncLogging
new_logging = record {
  cur_buffer = new_buffer big_buffer_size;
  next_buffer = some (new_buffer big_buffer_size);
  buffer_to_write = [];
}

-- The new current buffer: the spare one if it is there, else one that is allocated.
abbrev pub next_or_new : Option FixedBuffer → FixedBuffer
next_or_new none = new_buffer big_buffer_size
next_or_new (some b) = b

unfoldable pub append : List ℕ → AsyncLogging → AsyncLogging
unfolding append_fixed
append msg l =
    if ltb (length msg) (avail l.cur_buffer)
    then record l { cur_buffer = append_fixed msg l.cur_buffer }
    else record l {
      buffer_to_write = l.buffer_to_write ++ l.cur_buffer ∷ [];
      cur_buffer = append_fixed msg (next_or_new l.next_buffer);
      next_buffer = none;
    }

-- What the back end has out of the mutex: `temp_buffer_vec` and what is left of `new_buffer2`.
-- (`new_buffer1` became the current buffer.)
pub record Batch : Type 0 where
  pub temp_buffer_vec : List FixedBuffer
  pub new_buffer2 : Option FixedBuffer

-- `if (!next_buffer_) next_buffer_ = std::move(new_buffer2)`
abbrev pub refill_next : Option FixedBuffer → FixedBuffer → Option FixedBuffer × Option FixedBuffer
refill_next none new_buffer2 = (some new_buffer2, none)
refill_next (some b) new_buffer2 = (some b, some new_buffer2)

-- `ThreadFunc` under the mutex, behind the wait.
unfoldable pub collect : FixedBuffer → FixedBuffer → AsyncLogging → AsyncLogging × Batch
collect new_buffer1 new_buffer2 l =
    let r = refill_next l.next_buffer new_buffer2 in
    (
      record { cur_buffer = new_buffer1; next_buffer = r.0; buffer_to_write = [] },
      record { temp_buffer_vec = l.buffer_to_write ++ l.cur_buffer ∷ []; new_buffer2 = r.1 },
    )

-- The calls of `log_file_.Append`.
unfoldable pub write_out : List FixedBuffer → List ℕ
write_out [] = []
write_out (b ∷ bs) = b.bytes ++ write_out bs

-- `temp_buffer_vec.resize(2)`: a vector that is shorter gets null pointers.
unfoldable pub resize_2 : List (Option FixedBuffer) → List (Option FixedBuffer)
resize_2 [] = none ∷ none ∷ []
resize_2 (a ∷ []) = a ∷ none ∷ []
resize_2 (a ∷ b ∷ rest) = a ∷ b ∷ []

-- `back`, `pop_back` and `Reset`; `none` on an empty vector or a null pointer.
unfoldable pub take_back :
    List (Option FixedBuffer) → Option (FixedBuffer × List (Option FixedBuffer))
unfolding reset
take_back [] = none
take_back (none ∷ []) = none
take_back (some b ∷ []) = some (reset b, [])
take_back (a ∷ b ∷ rest) = do (last, init) ← take_back (b ∷ rest); some (last, a ∷ init)

-- The two spare buffers of the next pass.
unfoldable pub refill :
    Option FixedBuffer
    → FixedBuffer
    → List (Option FixedBuffer)
    → Option (FixedBuffer × FixedBuffer)
unfolding take_back
refill none new_buffer1 rest = take_back rest >>= λ p. some (new_buffer1, p.0)
refill (some new_buffer2) new_buffer1 rest = some (new_buffer1, new_buffer2)

unfoldable pub recycle :
    Option FixedBuffer → List (Option FixedBuffer) → Option (FixedBuffer × FixedBuffer)
unfolding take_back refill
recycle new_buffer2 vec = take_back vec >>= λ p. refill new_buffer2 p.0 p.1

-- `ThreadFunc` from the test of `size() > 25` to the end of the pass: what is written to the file,
-- and the spare buffers. `none` is undefined behaviour. `waiting` is the size of `buffer_to_write_`,
-- which is read without the mutex.
unfoldable pub finish : ℕ → Batch → Option (List ℕ × FixedBuffer × FixedBuffer)
unfolding write_out resize_2 recycle
finish waiting batch =
    let vec = map some batch.temp_buffer_vec in
    -- `erase` would be given an iterator of another vector
    if leb (length batch.temp_buffer_vec) 25
    then (recycle batch.new_buffer2 (if ltb 2 waiting then resize_2 vec else vec) >>= λ p.
        some (write_out batch.temp_buffer_vec, p.0, p.1))
    else none
