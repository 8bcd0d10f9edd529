-- ===== src/TcpConnection/Reading.antt =====
-- `HandleRead` by what `readv` did: a message, the end of the stream, or an error.
use my_net_lib.Common.{
  List, [], append-nil, arith, false, length, refl, some, true, ℕ, ◌++◌, ◌+◌, ◌==◌, ◌∙◌, ◌∷◌, ◌≡◌,
  ◌≢◌, ◌≤◌,
}
use my_net_lib.Os.{Readv, IsReadv, Write, Transfer, failed, done}
use my_net_lib.Buffer.{max_size, extra_size, Buffer, writeable_bytes, iov_lens, read_fd}
use my_net_lib.Buffer.Valid.{contents, IsValid}
use my_net_lib.Buffer.Fd.{Received, read_fd-Received}
use my_net_lib.TcpConnection.{
  connected, is_state, TcpConnection, Outcome, handle_close, handle_error, handle_read, logs_error,
  updates_channel, calls_connection, calls_message, calls_close, first_attempt, epipe, econnreset,
}
use my_net_lib.TcpConnection.Stream.{shut}
use my_net_lib.TcpConnection.Sending.{accepted}

-- What `readv` does when the connection calls it.
abbrev pub arrival : Readv → TcpConnection → Transfer (List ℕ)
arrival readv c = readv (iov_lens (writeable_bytes c.input_buffer))

abbrev pub Read : TcpConnection → Transfer (List ℕ) → Outcome → Type 0
Read c (failed errno) r = r ≡ some (c, logs_error ∷ logs_error ∷ [])
Read c (done []) r =
    (b : Buffer) × (r
      ≡ some (
        shut (record c { input_buffer = b }),
        updates_channel ∷ calls_connection ∷ calls_close ∷ [],
      ))
    × IsValid b
    × (contents b ≡ contents c.input_buffer)
Read c (done (x ∷ xs)) r =
    (b : Buffer) × (r ≡ some (record c { input_buffer = b }, calls_message ∷ []))
    × IsValid b
    × (contents b ≡ contents c.input_buffer ++ (x ∷ xs))

pub handle_read-Read :
    {readv : Readv} (c : TcpConnection) (outcome : Transfer (List ℕ))
    → IsReadv readv
    → IsValid c.input_buffer
    → length c.input_buffer.buffer + extra_size ≤ max_size
    → arrival readv c ≡ outcome
    → Read c outcome (handle_read readv c)
unfolding handle_read handle_error handle_close shut
handle_read-Read {readv} c (failed errno) law v room e =
    let r : Received c.input_buffer (failed errno) (read_fd readv c.input_buffer) =
      read_fd-Received (failed errno) law v room e in
    rw (r, handle_read) refl
handle_read-Read c (done []) law v room e =
    let (b, e', valid, kept) = read_fd-Received (done []) law v room e in
    (b, rw (e', handle_read) refl, valid, kept ∙ append-nil _)
handle_read-Read c (done (x ∷ xs)) law v room e =
    let (b, e', valid, more) = read_fd-Received (done (x ∷ xs)) law v room e in
    let nonempty : (length (x ∷ xs) == 0) ≡ false = ground arith in
    (b, rw (e', handle_read, nonempty) refl, valid, more)

-- The peer has not reset the connection: a write fails neither with EPIPE nor with ECONNRESET.
abbrev pub IsUp : Write → Type 0
IsUp write =
    (bytes : List ℕ) (errno : ℕ)
    → write bytes ≡ failed errno
    → (errno ≢ epipe) × (errno ≢ econnreset)

first_attempt-IsUp :
    (write : Write) (c : TcpConnection) (bytes : List ℕ)
    → IsUp write
    → (first_attempt write c bytes).fault_error ≡ false
unfolding first_attempt
first_attempt-IsUp write c bytes up = go (write bytes) refl
  where
    go : (r : Transfer ℕ) → write bytes ≡ r → (first_attempt write c bytes).fault_error ≡ false
    go (failed errno) e = ground (arith, up bytes errno e)
    go (done n) e = ground arith

pub accepted-IsUp :
    (write : Write) (c : TcpConnection) (bytes : List ℕ)
    → IsUp write
    → is_state c.state connected ≡ true
    → accepted write c bytes ≡ bytes
accepted-IsUp write c bytes up open_ = ground (arith, first_attempt-IsUp write c bytes up)
