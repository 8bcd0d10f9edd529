-- ===== src/TcpConnection.antt =====
-- include/tcp_connection.h, src/tcp_connection.cc: one TCP connection, as its loop's thread runs it.
-- A method returns the connection behind it and what it did, in order; `none` is a fault. System
-- calls are arguments. What the callbacks do is the caller's: each is the last thing that the
-- connection does with its own state.
pub mod Inv
pub mod Stream
pub mod Life
pub mod Same
pub mod Reading
pub mod Quiet
pub mod Watching
pub mod Closing
pub mod Dispatch
pub mod States
pub mod SendBuffer
pub mod Sending
pub mod Writing
mod Tests
use my_net_lib.Common.{
  Bool, List, Option, [], drop, false, if◌then◌else◌, length, ltb, not, some, take, true, ℕ, ◌&&◌,
  ◌++◌, ◌-◌, ◌==◌, ◌>>=◌, ◌>>◌, ◌||◌, ◌∷◌,
}
use my_net_lib.Os.{Transfer, failed, done, Readv, Write}
use my_net_lib.Buffer.{
  Buffer, init, initial_size, readable_bytes, append, retrive, read_fd, write_fd,
}
use my_net_lib.Channel.{
  Channel, new_channel, is_writing, enable_read, enable_write, disable_write, disable_all, tie,
}

pub data State : Type 0 where
  connecting connected disconnecting disconnected : State

abbrev pub is_state : State → State → Bool
is_state connecting connecting = true
is_state connected connected = true
is_state disconnecting disconnecting = true
is_state disconnected disconnected = true
is_state _ _ = false

-- Of the callbacks, `write_complete_callback_` is tested before it is called.
pub record TcpConnection : Type 0 where
  pub state : State
  pub channel : Channel
  pub input_buffer : Buffer
  pub output_buffer : Buffer
  pub has_write_complete : Bool

-- What a method does besides changing the connection.
pub data Effect : Type 0 where
  writes : List ℕ → Effect
  updates_channel : Effect
  removes_channel : Effect
  shuts_down_write : Effect
  calls_connection : Effect
  calls_message : Effect
  calls_close : Effect
  runs_write_complete : Effect
  queues_write_complete : Effect
  queues_send : List ℕ → Effect
  queues_shutdown : Effect
  logs_error : Effect

abbrev pub Outcome : Type 0
Outcome = Option (TcpConnection × List Effect)

-- errno(3)
abbrev pub ewouldblock : ℕ
ewouldblock = 11

abbrev pub epipe : ℕ
epipe = 32

abbrev pub econnreset : ℕ
econnreset = 104

abbrev pub effect_if : Bool → Effect → List Effect
effect_if b e = if b then e ∷ [] else []

-- The constructor.
unfoldable pub new_connection : ℕ → TcpConnection
new_connection fd = record {
  state = connecting;
  channel = record (new_channel fd) {
    has_read = true;
    has_write = true;
    has_close = true;
    has_error = true;
  };
  input_buffer = init initial_size;
  output_buffer = init initial_size;
  has_write_complete = false;
}

-- What a direct write leaves for later: the bytes written, the error that loses the rest, and what
-- is done.
pub record Attempt : Type 0 where
  pub nwrote : ℕ
  pub fault_error : Bool
  pub effects : List Effect

abbrev pub attempt : Bool → List ℕ → Transfer ℕ → Attempt
attempt has_write_complete bytes (done n) = record {
  nwrote = n;
  fault_error = false;
  effects =
      writes (take n bytes)
      ∷ effect_if (length bytes - n == 0 && has_write_complete) runs_write_complete;
}
attempt has_write_complete bytes (failed errno) = record {
  nwrote = 0;
  fault_error = not (errno == ewouldblock) && (errno == epipe || errno == econnreset);
  effects = effect_if (not (errno == ewouldblock)) logs_error;
}

-- `!channel_->IsWriting() && output_buffer_.ReadableBytes() == 0`
abbrev pub writes_directly : TcpConnection → Bool
writes_directly c = not (is_writing c.channel) && readable_bytes c.output_buffer == 0

-- The first part of `SendInLoop`: nothing is tried while output waits.
pub first_attempt : Write → TcpConnection → List ℕ → Attempt
first_attempt write c bytes =
    if writes_directly c
    then attempt c.has_write_complete bytes (write bytes)
    else record { nwrote = 0; fault_error = false; effects = [] }

-- The second part: the rest is buffered, and the channel waits until it can write.
pub buffer_rest : TcpConnection → List ℕ → Attempt → Outcome
unfolding enable_write
buffer_rest c bytes a =
    if not a.fault_error && ltb 0 (length bytes - a.nwrote)
    then (do
      output ← append c.output_buffer (drop a.nwrote bytes)
      some (
        record c {
          output_buffer = output;
          channel = if is_writing c.channel then c.channel else enable_write c.channel;
        },
        a.effects ++ effect_if (not (is_writing c.channel)) updates_channel,
      ))
    else some (c, a.effects)

pub send_in_loop : Write → TcpConnection → List ℕ → Outcome
unfolding first_attempt buffer_rest
send_in_loop write c bytes =
    if is_state c.state disconnected
    then some (c, logs_error ∷ [])
    else buffer_rest c bytes (first_attempt write c bytes)

-- `Send(buf)`, on the loop's thread or on another.
unfoldable pub send : Bool → Write → TcpConnection → List ℕ → Outcome
unfolding send_in_loop
send in_loop_thread write c bytes =
    if is_state c.state connected
    then (if in_loop_thread then send_in_loop write c bytes else some (c, queues_send bytes ∷ []))
    else some (c, [])

pub shutdown_in_loop : TcpConnection → Outcome
shutdown_in_loop c = some (c, effect_if (not (is_writing c.channel)) shuts_down_write)

pub shut_down : Bool → TcpConnection → Outcome
unfolding shutdown_in_loop
shut_down in_loop_thread c =
    if is_state c.state connected
    then (let c' = record c { state = disconnecting } in
        if in_loop_thread then shutdown_in_loop c' else some (c', queues_shutdown ∷ []))
    else some (c, [])

unfoldable pub connection_established : TcpConnection → Outcome
unfolding enable_read tie
connection_established c = some (
  record c { state = connected; channel = enable_read (tie c.channel) },
  updates_channel ∷ calls_connection ∷ [],
)

unfoldable pub connection_destroyed : TcpConnection → Outcome
unfolding disable_all
connection_destroyed c =
    if is_state c.state connected
    then some (
      record c { state = disconnected; channel = disable_all c.channel },
      updates_channel ∷ calls_connection ∷ removes_channel ∷ [],
    )
    else some (c, removes_channel ∷ [])

pub handle_close : TcpConnection → Outcome
unfolding disable_all
handle_close c = some (
  record c { state = disconnected; channel = disable_all c.channel },
  updates_channel ∷ calls_connection ∷ calls_close ∷ [],
)

pub handle_error : TcpConnection → Outcome
handle_error c = some (c, logs_error ∷ [])

unfoldable pub handle_read : Readv → TcpConnection → Outcome
unfolding handle_close handle_error
handle_read readv c = do
  (outcome, input) ← read_fd readv c.input_buffer
  let c' = record c { input_buffer = input }
  elim outcome [
    | failed errno ↦ do (c'', effects) ← handle_error c'; some (c'', logs_error ∷ effects)
    | done bytes ↦ if length bytes == 0 then handle_close c' else some (c', calls_message ∷ [])
  ]

-- The output is written: nothing waits any more.
pub all_written : TcpConnection → Outcome
unfolding disable_write shutdown_in_loop
all_written c =
    let c' = record c { channel = disable_write c.channel } in
    let queued = updates_channel ∷ effect_if c.has_write_complete queues_write_complete in
    if is_state c.state disconnecting
    then (do (c'', effects) ← shutdown_in_loop c'; some (c'', queued ++ effects))
    else some (c', queued)

-- The kernel took `n` of the bytes that were offered, more than none.
pub some_written : TcpConnection → ℕ → List ℕ → Outcome
unfolding all_written
some_written c n offered = do
  let c' = record c { output_buffer = retrive c.output_buffer n }
  (c'', effects) ← if readable_bytes c'.output_buffer == 0 then all_written c' else some (c', [])
  some (c'', writes (take n offered) ∷ effects)

pub handle_write : Write → TcpConnection → Outcome
unfolding some_written
handle_write write c =
    if is_writing c.channel
    then (do
      (offered, outcome) ← write_fd write c.output_buffer
      elim outcome [
        | failed errno ↦ some (c, logs_error ∷ [])
        | done n ↦ if ltb 0 n then some_written c n offered else some (c, logs_error ∷ [])
      ])
    else some (c, logs_error ∷ [])
