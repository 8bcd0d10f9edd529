-- ===== src/TcpConnection/Dispatch.antt =====
-- One event of the poller on a connection: `HandleEvent` of its channel, whose callbacks are those of
-- the connection, with the message callback that `HandleRead` calls.
pub mod Once
pub mod Twice
mod Tests
use my_net_lib.Common.{
  Bool, List, [], false, if◌then◌else◌, some, true, ◌++◌, ◌>>=◌, ◌>>◌, ◌∷◌, ◌≡◌,
}
use my_net_lib.Os.{Readv, IsReadv, Write, Transfer, failed, done}
use my_net_lib.Buffer.{Buffer, max_size, extra_size}
use my_net_lib.Buffer.Valid.{IsValid}
use my_net_lib.Channel.{
  Channel, Call, close_call, error_call, read_call, write_call, handle_event,
  handle_event_with_guard, is_writing, disable_all, call_if, is_none_event, is_reading,
}
use my_net_lib.TcpConnection.{
  TcpConnection, Effect, Outcome, calls_message, handle_close, handle_error, handle_read,
  handle_write, logs_error, updates_channel, calls_connection, calls_close, disconnected,
}
use my_net_lib.TcpConnection.Inv.{Inv, Stepped, writing-disable_all}
use my_net_lib.TcpConnection.Same.{handle_write-Same}
use my_net_lib.TcpConnection.Writing.{handle_write-Stepped}
use my_net_lib.TcpConnection.Watching.{closings, handle_write-Quiet, closings-append}
use my_net_lib.TcpConnection.Stream.{shut}
use my_net_lib.TcpConnection.Reading.{arrival, Read, handle_read-Read}
use my_net_lib.TcpConnection.Closing.{is_open, is_closed, Closes, Same-Closes}

abbrev pub has_message : List Effect → Bool
has_message [] = false
has_message (calls_message ∷ es) = true
has_message (_ ∷ es) = has_message es

-- `HandleRead` with the message callback.
unfoldable pub receive : Readv → (TcpConnection → Outcome) → TcpConnection → Outcome
receive readv message_callback c = do
  (c', effects) ← handle_read readv c
  if has_message effects
      then (do (c'', more) ← message_callback c'; some (c'', effects ++ more))
      else some (c', effects)

unfoldable pub run_call : Readv → Write → (TcpConnection → Outcome) → Call → TcpConnection → Outcome
unfolding receive handle_close handle_error
run_call readv write message_callback close_call c = handle_close c
run_call readv write message_callback error_call c = handle_error c
run_call readv write message_callback read_call c = receive readv message_callback c
run_call readv write message_callback write_call c = handle_write write c

unfoldable pub run_calls :
    Readv → Write → (TcpConnection → Outcome) → List Call → TcpConnection → Outcome
unfolding run_call
run_calls readv write message_callback [] c = some (c, [])
run_calls readv write message_callback (k ∷ ks) c = do
  (c', effects) ← run_call readv write message_callback k c
  (c'', more) ← run_calls readv write message_callback ks c'
  some (c'', effects ++ more)

-- The owner is alive: the connection is held by whoever asks.
unfoldable pub handle_poll_event :
    Readv → Write → (TcpConnection → Outcome) → TcpConnection → Outcome
unfolding run_calls handle_event
handle_poll_event readv write message_callback c =
    run_calls readv write message_callback (handle_event c.channel true) c

-- A call that leaves an open connection open, or closes it with one call of the close callback.
pub record Answer (r : Outcome) : Type 0 where
  pub conn : TcpConnection
  pub effects : List Effect
  pub returns : r ≡ some (conn, effects)
  pub inv : Inv conn
  pub closes_once : Closes conn effects

-- What a message callback may do, through calls of an open connection.
abbrev pub IsCallback : (TcpConnection → Outcome) → Type 0
IsCallback message_callback =
    (c : TcpConnection) → Inv c → is_open c ≡ true → Answer (message_callback c)

-- As the constructor of the connection sets them.
abbrev pub HasCallbacks : Channel → Type 0
HasCallbacks c =
    (c.has_read ≡ true) × (c.has_write ≡ true) × (c.has_close ≡ true) × (c.has_error ≡ true)
