-- ===== src/Buffer.antt =====
-- include/buffer.h and src/buffer.cc: the growing byte buffer of a connection. A pointer into the
-- vector is an index; an access out of range, and a size past `vector<char>::max_size()`, is a
-- fault (`none`).
mod Memory
pub mod Valid
pub mod Space
pub mod Fd
pub mod Queue
mod Tests
pub mod Retrive
use my_net_lib.Common.{
  List, Option, [], add_size, drop, guard, if◌then◌else◌, leb, length, ltb, none, not, overwrite,
  replicate, resized, slice, some, sub_size, take, ℕ, ◌&&◌, ◌+◌, ◌-◌, ◌>>=◌, ◌>>◌, ◌^◌, ◌∷◌,
}
use my_net_lib.Os.{Transfer, failed, done, Readv, Write}

abbrev pub cheap_prepend : ℕ
cheap_prepend = 8

abbrev pub initial_size : ℕ
initial_size = 1024

-- `vector<char>::max_size()`
abbrev pub max_size : ℕ
max_size = 2 ^ 63 - 1

pub record Buffer : Type 0 where
  pub buffer : List ℕ
  pub read_index : ℕ
  pub write_index : ℕ

-- The constructor.
unfoldable pub init : ℕ → Buffer
init size = record {
  buffer = replicate (cheap_prepend + size) 0;
  read_index = cheap_prepend;
  write_index = cheap_prepend;
}

abbrev pub readable_bytes : Buffer → ℕ
readable_bytes b = sub_size b.write_index b.read_index

abbrev pub writeable_bytes : Buffer → ℕ
writeable_bytes b = sub_size (length b.buffer) b.write_index

abbrev pub prependable_bytes : Buffer → ℕ
prependable_bytes b = b.read_index

unfoldable pub retrive_all : Buffer → Buffer
retrive_all b = record b { read_index = cheap_prepend; write_index = cheap_prepend }

unfoldable pub retrive : Buffer → ℕ → Buffer
unfolding retrive_all
retrive b len =
    if ltb len (readable_bytes b)
    then record b { read_index = add_size b.read_index len }
    else retrive_all b

-- The `n` bytes at index `i`, read through a pointer.
pub read_range : List ℕ → ℕ → ℕ → Option (List ℕ)
read_range xs i n = if leb (i + n) (length xs) then some (slice xs i n) else none

-- Bytes written through a pointer to index `i`.
pub write_range : List ℕ → ℕ → List ℕ → Option (List ℕ)
write_range xs i ys = if leb (i + length ys) (length xs) then some (overwrite xs i ys) else none

-- The string is copied first: with `len` past the readable bytes, what lies behind them is read.
unfoldable pub retrive_as_string : Buffer → ℕ → Option (List ℕ × Buffer)
unfolding read_range
retrive_as_string b len = do
  result ← read_range b.buffer b.read_index len
  some (result, retrive b len)

unfoldable pub retrive_all_as_string : Buffer → Option (List ℕ × Buffer)
unfolding retrive_as_string
retrive_all_as_string b = retrive_as_string b (readable_bytes b)

-- `vector::resize`, which throws above `max_size()`.
pub resize : List ℕ → ℕ → Option (List ℕ)
resize xs n = if leb n max_size then some (resized xs n) else none

-- `std::copy` inside the vector, of the range from `first` up to `last`; its destination must not
-- lie in that range.
pub copy_within : List ℕ → ℕ → ℕ → ℕ → Option (List ℕ)
unfolding read_range write_range
copy_within xs first last dest = do
  guard (leb first last && not (leb first dest && ltb dest last))
  bytes ← read_range xs first (last - first)
  write_range xs dest bytes

unfoldable pub make_space : Buffer → ℕ → Option Buffer
unfolding resize copy_within
make_space b len =
    if ltb (add_size (writeable_bytes b) (prependable_bytes b)) (add_size len cheap_prepend)
    then (do
      grown ← resize b.buffer (add_size b.write_index len)
      some (record b { buffer = grown }))
    else (do
      let readable = readable_bytes b
      moved ← copy_within b.buffer b.read_index b.write_index cheap_prepend
      some (record {
        buffer = moved;
        read_index = cheap_prepend;
        write_index = add_size cheap_prepend readable;
      }))

unfoldable pub ensure_writeable_bytes : Buffer → ℕ → Option Buffer
unfolding make_space
ensure_writeable_bytes b len = if ltb (writeable_bytes b) len then make_space b len else some b

-- `Append(data, len)`, where the list holds the `len` bytes at `data`.
unfoldable pub append : Buffer → List ℕ → Option Buffer
unfolding ensure_writeable_bytes write_range
append b bytes = do
  roomy ← ensure_writeable_bytes b (length bytes)
  written ← write_range roomy.buffer roomy.write_index bytes
  some (record roomy { buffer = written; write_index = add_size roomy.write_index (length bytes) })

-- `sizeof extrabuf`
abbrev pub extra_size : ℕ
extra_size = 65535

-- The `iov_len` of the buffers that `ReadFd` passes to `readv`.
unfoldable pub iov_lens : ℕ → List ℕ
iov_lens writeable =
    if ltb writeable extra_size then writeable ∷ extra_size ∷ [] else writeable ∷ []

-- What `readv` stored: up to `writeable` bytes behind the readable ones, the others in `extrabuf`.
unfoldable pub take_in : Buffer → ℕ → List ℕ → Option Buffer
unfolding write_range
take_in b writeable bytes = do
  stored ← write_range b.buffer b.write_index (take writeable bytes)
  if leb (length bytes) writeable
      then some (record b { buffer = stored; write_index = add_size b.write_index (length bytes) })
      else append (record b { buffer = stored; write_index = length stored }) (drop writeable bytes)

-- Returns what `readv` did, with `errno` in the place of `*saveErrno`.
unfoldable pub read_fd : Readv → Buffer → Option (Transfer (List ℕ) × Buffer)
unfolding take_in iov_lens
read_fd readv b =
    let writeable = writeable_bytes b in
    elim (readv (iov_lens writeable)) [
      | failed errno ↦ some (failed errno, b)
      | done bytes ↦ do b' ← take_in b writeable bytes; some (done bytes, b')
    ]

-- The bytes offered to `write`, and what it did with them. The buffer stays as it is: the caller
-- retrieves what was written.
unfoldable pub write_fd : Write → Buffer → Option (List ℕ × Transfer ℕ)
unfolding read_range
write_fd write b = do
  bytes ← read_range b.buffer b.read_index (readable_bytes b)
  some (bytes, write bytes)
