-- ===== src/TcpConnection/Dispatch/Twice.antt =====
-- The event that closes a connection twice.
use my_net_lib.Common.{
  Bool, List, [], arith, false, length, refl, some, true, ◌++◌, ◌+◌, ◌∷◌, ◌≡◌, ◌≤◌,
}
use my_net_lib.Os.{Readv, IsReadv, Write, done}
use my_net_lib.Buffer.{max_size, extra_size}
use my_net_lib.Channel.{
  Channel, close_call, error_call, read_call, write_call, handle_event, disable_all, call_if,
}
use my_net_lib.TcpConnection.{
  TcpConnection, Effect, Outcome, handle_close, handle_error, handle_read, logs_error,
  updates_channel, calls_connection, calls_close,
}
use my_net_lib.TcpConnection.Inv.{Inv}
use my_net_lib.TcpConnection.Watching.{closings}
use my_net_lib.TcpConnection.Stream.{shut}
use my_net_lib.TcpConnection.Reading.{arrival, Read, handle_read-Read}
use my_net_lib.TcpConnection.Dispatch.{receive, run_calls, handle_poll_event, HasCallbacks}
use my_net_lib.TcpConnection.Dispatch.Once.{log_if, closed_writes, closings-log_if}

abbrev closing : List Effect
closing = updates_channel ∷ calls_connection ∷ calls_close ∷ []

-- A read that meets the end of the stream, behind the close.
again :
    (readv : Readv) (write : Write) (message_callback : TcpConnection → Outcome)
    → IsReadv readv
    → (c : TcpConnection) → Inv c
    → length c.input_buffer.buffer + extra_size ≤ max_size
    → arrival readv c ≡ done []
    → (e w : Bool)
    → (d : TcpConnection) × (es : List Effect) × (run_calls readv write message_callback
          (close_call ∷ (call_if e error_call ++ (read_call ∷ call_if w write_call)))
          c
        ≡ some (d, es))
      × (closings es ≡ 2)
unfolding run_calls receive handle_close handle_error shut disable_all
again readv write message_callback law c inv room end false w =
    let (b, r, v, same) : Read (shut c) (done []) (handle_read readv (shut c)) =
      handle_read-Read (shut c) (done []) law inv.input room end in
    let d = shut (record (shut c) { input_buffer = b }) in
    (
      d,
      closing ++ (closing ++ log_if w),
      rw (r, closed_writes readv write message_callback w d refl),
      omega (arith, closings-log_if w),
    )
again readv write message_callback law c inv room end true w =
    let (b, r, v, same) : Read (shut c) (done []) (handle_read readv (shut c)) =
      handle_read-Read (shut c) (done []) law inv.input room end in
    let d = shut (record (shut c) { input_buffer = b }) in
    (
      d,
      closing ++ (logs_error ∷ (closing ++ log_if w)),
      rw (r, closed_writes readv write message_callback w d refl),
      omega (arith, closings-log_if w),
    )

-- The callbacks of POLLHUP and POLLPRI without POLLIN.
urgent_calls :
    (c : Channel)
    → HasCallbacks c
    → c.revents.pollhup ≡ true
    → c.revents.pollpri ≡ true
    → c.revents.pollin ≡ false
    → handle_event c true
      ≡ close_call
        ∷ (call_if c.revents.pollerr error_call
            ++ (read_call ∷ call_if c.revents.pollout write_call))
unfolding handle_event
urgent_calls c has hup pri in_ = ground arith

-- An event with POLLHUP and POLLPRI set and POLLIN clear, on a valid connection with its callbacks,
-- whose read meets the end of the stream: the close callback runs twice. The input buffer is taken to
-- have room for what a read can bring.
pub closes_twice :
    (readv : Readv) (write : Write) (message_callback : TcpConnection → Outcome)
    → IsReadv readv
    → (c : TcpConnection) → Inv c
    → length c.input_buffer.buffer + extra_size ≤ max_size
    → HasCallbacks c.channel
    → c.channel.revents.pollhup ≡ true
    → c.channel.revents.pollpri ≡ true
    → c.channel.revents.pollin ≡ false
    → arrival readv c ≡ done []
    → (d : TcpConnection) × (es : List Effect) × (handle_poll_event readv write message_callback c
        ≡ some (d, es))
      × (closings es ≡ 2)
unfolding handle_poll_event handle_event
closes_twice readv write message_callback law c inv room has hup pri in_ end =
    rw (urgent_calls c.channel has hup pri in_) (
      again readv write message_callback law c inv room end c.channel.revents.pollerr
        c.channel.revents.pollout)
