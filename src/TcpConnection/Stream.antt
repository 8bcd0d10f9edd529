-- ===== src/TcpConnection/Stream.antt =====
-- The life of a connection as a sequence of calls, and the stream of bytes that the peer gets.
use my_net_lib.Common.{
  Bool-cases, List, [], ap, append-nil, arith, false, if◌then◌else◌, inl, inr, length, not, refl,
  some, sym, true, ℕ, ◌++◌, ◌+◌, ◌==◌, ◌∙◌, ◌∷◌, ◌≡◌, ◌≤◌,
}
use native.Mathlib.Decide.{ℕ_discrete}
use my_net_lib.Os.{Readv, IsReadv, Write, IsWrite, Transfer, failed, done}
use my_net_lib.Buffer.{
  max_size, extra_size, readable_bytes, Buffer, writeable_bytes, iov_lens, read_fd,
}
use my_net_lib.Buffer.Valid.{contents, IsValid}
use my_net_lib.Channel.{is_writing, disable_all}
use my_net_lib.TcpConnection.{
  connected, disconnected, is_state, TcpConnection, Effect, Outcome, shuts_down_write, send_in_loop,
  send, shutdown_in_loop, shut_down, connection_destroyed, handle_close, handle_error, handle_read,
  handle_write, disconnecting, logs_error, updates_channel, removes_channel, calls_connection,
  calls_message, calls_close,
}
use my_net_lib.TcpConnection.Inv.{Inv, wire, shuts, Stepped, writing-disable_all, contents_of_zero}
use my_net_lib.TcpConnection.Sending.{accepted}
use my_net_lib.TcpConnection.Writing.{unchanged}
use my_net_lib.Buffer.Fd.{Received, read_fd-Received}

-- The calls that a connection gets in its loop's thread: the user's, the channel's, and those that
-- were queued.
pub data Event : Type 0 where
  sends : Write → List ℕ → Event
  runs_send : Write → List ℕ → Event
  writable : Write → Event
  readable : Readv → Event
  shuts_down : Event
  runs_shutdown : Event
  closes : Event
  errs : Event
  destroys : Event

unfoldable pub step : TcpConnection → Event → Outcome
unfolding send handle_write handle_read shut_down handle_close handle_error connection_destroyed
step c (sends write bytes) = send true write c bytes
step c (runs_send write bytes) = send_in_loop write c bytes
step c (writable write) = handle_write write c
step c (readable readv) = handle_read readv c
step c shuts_down = shut_down true c
step c runs_shutdown = shutdown_in_loop c
step c closes = handle_close c
step c errs = handle_error c
step c destroys = connection_destroyed c

-- The bytes that a call takes on.
abbrev pub taken : TcpConnection → Event → List ℕ
taken c (sends write bytes) = if is_state c.state connected then accepted write c bytes else []
taken c (runs_send write bytes) = accepted write c bytes
taken c _ = []

-- The system calls keep their contract, and the buffers can grow.
abbrev pub IsLawful : TcpConnection → Event → Type 0
IsLawful c (sends write bytes) =
    IsWrite write × (c.output_buffer.write_index + length bytes ≤ max_size)
IsLawful c (runs_send write bytes) =
    IsWrite write × (c.output_buffer.write_index + length bytes ≤ max_size)
IsLawful c (readable readv) = IsReadv readv × (length c.input_buffer.buffer + extra_size ≤ max_size)
IsLawful c _ = Unit {0}

pub shutdown_in_loop-Stepped : {c : TcpConnection} → Inv c → Stepped c [] (shutdown_in_loop c)
unfolding shutdown_in_loop
shutdown_in_loop-Stepped {c} inv = elim (Bool-cases (is_writing c.channel)) [
  | inl busy ↦ rw busy (unchanged [] refl refl inv)
  | inr idle ↦ rw idle (record {
    conn = c;
    effects = shuts_down_write ∷ [];
    returns = refl;
    inv = inv;
    stream = sym (append-nil (contents c.output_buffer));
    drained = λ open_state _.
        let e : is_writing c.channel ≡ not (readable_bytes c.output_buffer == 0) =
          inv.armed open_state in
        contents_of_zero inv.output (ground arith);
  })
]

-- A connection that is closed: its channel watches nothing.
unfoldable pub shut : TcpConnection → TcpConnection
shut c = record c { state = disconnected; channel = disable_all c.channel }

pub shut-Stepped :
    {c : TcpConnection} (es : List Effect)
    → wire es ≡ []
    → shuts es ≡ false
    → Inv c
    → Stepped c [] (some (shut c, es))
unfolding shut
shut-Stepped {c} es quiet still inv = record {
  conn = shut c;
  effects = es;
  returns = refl;
  inv = record {
    input = inv.input;
    output = inv.output;
    armed = λ e. cc;
    closed = λ _. writing-disable_all c.channel;
  };
  stream =
      ap (λ t. t ++ contents c.output_buffer) quiet ∙ sym (append-nil (contents c.output_buffer));
  drained = λ _ s. let never : false ≡ true = sym still ∙ s in absurd (cc);
}

-- `ShutDown` of a connected one.
pub shut_down-Stepped : {c : TcpConnection} → Inv c → Stepped c [] (shut_down true c)
unfolding shut_down
shut_down-Stepped {c} inv = elim (Bool-cases (is_state c.state connected)) [
  | inl e ↦
      let c' : TcpConnection = record c { state = disconnecting } in
      let open_state : is_state c.state disconnected ≡ false = ground arith in
      let inv' : Inv c' = record {
        input = inv.input;
        output = inv.output;
        armed = λ _. inv.armed open_state;
        closed = λ h. cc;
      } in
      let st : Stepped c' [] (shutdown_in_loop c') = shutdown_in_loop-Stepped inv' in
      rw e (record {
        conn = st.conn;
        effects = st.effects;
        returns = st.returns;
        inv = st.inv;
        stream = st.stream;
        drained = λ _ s. st.drained refl s;
      })
  | inr e ↦ rw e (unchanged [] refl refl inv)
]

pub connection_destroyed-Stepped :
    {c : TcpConnection} → Inv c → Stepped c [] (connection_destroyed c)
unfolding connection_destroyed shut
connection_destroyed-Stepped {c} inv = elim (Bool-cases (is_state c.state connected)) [
  | inl e ↦
      rw e (shut-Stepped (updates_channel ∷ calls_connection ∷ removes_channel ∷ []) refl refl inv)
  | inr e ↦ rw e (unchanged (removes_channel ∷ []) refl refl inv)
]

same_output :
    (c : TcpConnection) (b' : Buffer) {r : Outcome}
    → Stepped (record c { input_buffer = b' }) [] r
    → Stepped c [] r
same_output c b' st = record {
  conn = st.conn;
  effects = st.effects;
  returns = st.returns;
  inv = st.inv;
  stream = st.stream;
  drained = st.drained;
}

-- The message that `HandleRead` took in stays in the input buffer; the stream to the peer is as it
-- was.
pub handle_read-Stepped :
    {readv : Readv} {c : TcpConnection} (outcome : Transfer (List ℕ))
    → IsReadv readv
    → length c.input_buffer.buffer + extra_size ≤ max_size
    → readv (iov_lens (writeable_bytes c.input_buffer)) ≡ outcome
    → Inv c
    → Stepped c [] (handle_read readv c)
unfolding handle_read handle_error handle_close shut
handle_read-Stepped {readv} {c} (failed errno) law room e inv =
    let r : Received c.input_buffer (failed errno) (read_fd readv c.input_buffer) =
      read_fd-Received (failed errno) law inv.input room e in
    rw (r, handle_read) (unchanged (logs_error ∷ logs_error ∷ []) refl refl inv)
handle_read-Stepped {readv} {c} (done bytes) law room e inv =
    let (b', e', valid, _) = received in
    rw e' (elim (ℕ_discrete (length bytes) 0) [
      | yes end ↦ rw end (
          same_output c b' (
            shut-Stepped (updates_channel ∷ calls_connection ∷ calls_close ∷ []) refl refl
              (with_input b' valid)))
      | no more ↦
          let e2 : (length bytes == 0) ≡ false = ground arith in
          rw e2 (same_output c b' (unchanged (calls_message ∷ []) refl refl (with_input b' valid)))
    ])
  where
    received : Received c.input_buffer (done bytes) (read_fd readv c.input_buffer)
    received = read_fd-Received (done bytes) law inv.input room e

    with_input : (b' : Buffer) → IsValid b' → Inv (record c { input_buffer = b' })
    with_input b' valid = record {
      input = valid;
      output = inv.output;
      armed = inv.armed;
      closed = inv.closed;
    }
