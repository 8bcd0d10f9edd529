-- ===== src/Buffer/Fd.antt =====
-- `ReadFd` and `WriteFd`: the bytes that the kernel moves are those of the buffer, in order.
use my_net_lib.Common.{
  List, Option, add_size, ap, append_assoc, arith, drop, length, length-drop, length-overwrite,
  length-take, le→leb, lt→leb, overwrite, slice, some, sym, take, take-append-drop, take_all, ℕ,
  ◌++◌, ◌+◌, ◌-◌, ◌<◌, ◌>>=◌, ◌∙◌, ◌≡◌, ◌≤◌,
}
use native.Mathlib.Decide.{dec_le}
use my_net_lib.Os.{Transfer, failed, done, Readv, IsReadv, Write, sum}
use my_net_lib.Buffer.{
  Buffer, max_size, extra_size, readable_bytes, writeable_bytes, append, iov_lens, take_in, read_fd,
  write_fd,
}
use my_net_lib.Buffer.Memory.{read_range_ok, write_range_ok}
use my_net_lib.Buffer.Valid.{IsValid, contents}
use my_net_lib.Buffer.Space.{Appended, filled, filled-IsValid, contents-filled, append-Appended}

take_in_part :
    {b : Buffer} (bytes : List ℕ)
    → IsValid b
    → length bytes ≤ writeable_bytes b
    → take_in b (writeable_bytes b) bytes ≡ some (filled b bytes)
unfolding take_in filled
take_in_part {b} bytes v h =
    rw
      (
        take_all (writeable_bytes b) bytes h,
        write_range_ok b.buffer b.write_index bytes (omega arith),
        le→leb (length bytes) (writeable_bytes b) h,
      )
      (ap
        (λ n. some (record b { buffer = overwrite b.buffer b.write_index bytes; write_index = n }))
        no_wrap)
  where
    no_wrap : add_size b.write_index (length bytes) ≡ b.write_index + length bytes
    no_wrap = omega (arith, v)

module _ {b : Buffer} (bytes : List ℕ) (v : IsValid b) (more : writeable_bytes b < length bytes)
    (fits : b.write_index + length bytes ≤ max_size) where
  first : List ℕ
  first = take (writeable_bytes b) bytes

  first_room : b.write_index + length first ≡ length b.buffer
  unfolding first
  first_room = omega (arith, length-take (writeable_bytes b) bytes, v)

  full : Buffer
  full = filled b first

  full_eq : full ≡ record b {
    buffer = overwrite b.buffer b.write_index first;
    write_index = length (overwrite b.buffer b.write_index first);
  }
  unfolding full filled
  full_eq =
      ap
        (λ n. record {
          buffer = overwrite b.buffer b.write_index first;
          read_index = b.read_index;
          write_index = n;
        })
        (first_room ∙ sym (length-overwrite b.buffer b.write_index first))

  take_in_spill : take_in b (writeable_bytes b) bytes ≡ append full (drop (writeable_bytes b) bytes)
  unfolding take_in first
  take_in_spill =
      rw
        (
          write_range_ok b.buffer b.write_index first (omega (arith, first_room)),
          lt→leb (length bytes) (writeable_bytes b) more,
        )
        (ap (λ t. append t (drop (writeable_bytes b) bytes)) (sym full_eq))

  spill-Appended : Appended b bytes (take_in b (writeable_bytes b) bytes)
  unfolding full first filled
  spill-Appended = record {
    result = a.result;
    returns = take_in_spill ∙ a.returns;
    valid = a.valid;
    extended =
        a.extended
        ∙ ap (λ t. t ++ drop (writeable_bytes b) bytes)
            (contents-filled first v (omega (arith, first_room)))
        ∙ append_assoc (contents b) first (drop (writeable_bytes b) bytes)
        ∙ ap (λ t. contents b ++ t) (take-append-drop (writeable_bytes b) bytes);
    low = omega (arith, a.low, first_room, length-drop (writeable_bytes b) bytes, v, more);
  }
    where
      a :
          Appended full
            (drop (writeable_bytes b) bytes)
            (append full (drop (writeable_bytes b) bytes))
      a =
          append-Appended (drop (writeable_bytes b) bytes)
            (filled-IsValid first v (omega (arith, first_room)))
            (omega (arith, first_room, length-drop (writeable_bytes b) bytes))

sum-iov_lens : (w : ℕ) → sum (iov_lens w) ≤ w + extra_size
unfolding iov_lens
sum-iov_lens w = ground arith

-- What `ReadFd` leaves when `readv` did `outcome`.
abbrev pub Received : Buffer → Transfer (List ℕ) → Option (Transfer (List ℕ) × Buffer) → Type 0
Received b (failed errno) r = r ≡ some (failed errno, b)
Received b (done bytes) r =
    (b' : Buffer) × (r ≡ some (done bytes, b')) × IsValid b' × (contents b' ≡ contents b ++ bytes)

take_in-Appended :
    {b : Buffer} (bytes : List ℕ)
    → IsValid b
    → b.write_index + length bytes ≤ max_size
    → Appended b bytes (take_in b (writeable_bytes b) bytes)
unfolding filled
take_in-Appended {b} bytes v fits = elim (dec_le (length bytes) (writeable_bytes b)) [
  | yes part ↦ record {
    result = filled b bytes;
    returns = take_in_part bytes v part;
    valid = filled-IsValid bytes v (omega (arith, v));
    extended = contents-filled bytes v (omega (arith, v));
    low = omega arith;
  }
  | no more ↦ spill-Appended bytes v (omega arith) fits
]

-- `ReadFd` does not fault. If `readv` fails the buffer is as it was; otherwise exactly the bytes
-- read stand behind those that were readable, also when they went partly to the stack buffer. The
-- vector must have room to grow by that buffer's size.
pub read_fd-Received :
    {readv : Readv} {b : Buffer} (outcome : Transfer (List ℕ))
    → IsReadv readv
    → IsValid b
    → length b.buffer + extra_size ≤ max_size
    → readv (iov_lens (writeable_bytes b)) ≡ outcome
    → Received b outcome (read_fd readv b)
unfolding read_fd
read_fd-Received (failed errno) law v fits e = rw (e, read_fd)
read_fd-Received {readv} {b} (done bytes) law v fits e = (
  a.result,
  rw (e, read_fd) (ap (λ r. r >>= λ b'. some (done bytes, b')) a.returns),
  a.valid,
  a.extended,
)
  where
    a : Appended b bytes (take_in b (writeable_bytes b) bytes)
    a = take_in-Appended bytes v (
        omega (arith, law (iov_lens (writeable_bytes b)) bytes e, sum-iov_lens (writeable_bytes b)))

-- `WriteFd` does not fault, and offers the kernel exactly the readable bytes.
pub write_fd_lem :
    (write : Write) {b : Buffer}
    → IsValid b
    → write_fd write b ≡ some (contents b, write (contents b))
unfolding write_fd
write_fd_lem write {b} v =
    rw (read_range_ok b.buffer b.read_index (readable_bytes b) (omega arith)) (
      ap (λ n. some (slice b.buffer b.read_index n, write (slice b.buffer b.read_index n)))
        {x = readable_bytes b} {y = b.write_index - b.read_index} (omega arith))
