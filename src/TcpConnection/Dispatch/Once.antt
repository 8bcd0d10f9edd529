-- ===== src/TcpConnection/Dispatch/Once.antt =====
-- One event closes a connection at most once.
use my_net_lib.Common.{
  Bool, List, [], append-nil, arith, false, if◌then◌else◌, inl, inr, length, not, refl, some, true,
  ℕ, ◌&&◌, ◌++◌, ◌+◌, ◌>>=◌, ◌||◌, ◌∷◌, ◌≡◌, ◌≤◌,
}
use my_net_lib.Os.{Readv, IsReadv, Write, Transfer, failed, done}
use my_net_lib.Buffer.{Buffer, max_size, extra_size}
use my_net_lib.Buffer.Valid.{IsValid}
use my_net_lib.Channel.{
  Channel, close_call, error_call, read_call, write_call, handle_event, is_writing, disable_all,
  call_if,
}
use my_net_lib.TcpConnection.{
  TcpConnection, Effect, Outcome, calls_message, handle_close, handle_error, handle_read,
  handle_write, logs_error, updates_channel, calls_connection, calls_close,
}
use my_net_lib.TcpConnection.Inv.{Inv, writing-disable_all}
use my_net_lib.TcpConnection.Same.{handle_write-Same}
use my_net_lib.TcpConnection.Writing.{handle_write-Stepped}
use my_net_lib.TcpConnection.Watching.{closings, handle_write-Quiet, closings-append}
use my_net_lib.TcpConnection.Stream.{shut}
use my_net_lib.TcpConnection.Reading.{arrival, Read, handle_read-Read}
use my_net_lib.TcpConnection.Closing.{is_open, is_closed, Same-Closes}
use my_net_lib.TcpConnection.Dispatch.{
  receive, run_calls, handle_poll_event, Answer, IsCallback, HasCallbacks,
}

-- Whatever a closed connection is asked to write, it only logs.
closed_write :
    (write : Write) (c : TcpConnection)
    → is_closed c ≡ true
    → handle_write write c ≡ some (c, logs_error ∷ [])
unfolding handle_write
closed_write write c h = let idle : is_writing c.channel ≡ false = ground arith in rw idle

-- Reading an open connection.
receive-Answer :
    (readv : Readv) (message_callback : TcpConnection → Outcome) (c : TcpConnection)
    → IsReadv readv
    → IsCallback message_callback
    → length c.input_buffer.buffer + extra_size ≤ max_size
    → Inv c
    → is_open c ≡ true
    → Answer (receive readv message_callback c)
unfolding receive shut disable_all
receive-Answer readv message_callback c law cb room inv o = go (arrival readv c) refl
  where
    with_input : (b : Buffer) → IsValid b → Inv (record c { input_buffer = b })
    with_input b v = record {
      input = v;
      output = inv.output;
      armed = inv.armed;
      closed = inv.closed;
    }

    go :
        (outcome : Transfer (List ℕ))
        → arrival readv c ≡ outcome
        → Answer (receive readv message_callback c)
    go (failed errno) e =
        let r : Read c (failed errno) (handle_read readv c) =
          handle_read-Read c (failed errno) law inv.input room e in
        rw r (record {
          conn = c;
          effects = logs_error ∷ logs_error ∷ [];
          returns = refl;
          inv = inv;
          closes_once = inl (o, refl);
        })
    go (done []) e =
        let (b, r, v, same) : Read c (done []) (handle_read readv c) =
          handle_read-Read c (done []) law inv.input room e in
        rw r (record {
          conn = shut (record c { input_buffer = b });
          effects = updates_channel ∷ calls_connection ∷ calls_close ∷ [];
          returns = refl;
          inv = record {
            input = v;
            output = inv.output;
            armed = λ h. cc;
            closed = λ _. writing-disable_all c.channel;
          };
          closes_once = inr (refl, refl);
        })
    go (done (x ∷ xs)) e =
        let (b, r, v, more) : Read c (done (x ∷ xs)) (handle_read readv c) =
          handle_read-Read c (done (x ∷ xs)) law inv.input room e in
        let a = cb (record c { input_buffer = b }) (with_input b v) o in
        rw (r, a.returns)
          (record {
            conn = a.conn;
            effects = calls_message ∷ a.effects;
            returns = refl;
            inv = a.inv;
            closes_once = a.closes_once;
          })

abbrev pub log_if : Bool → List Effect
log_if b = if b then logs_error ∷ [] else []

pub closings-log_if : (b : Bool) → closings (log_if b) ≡ 0
closings-log_if true = refl
closings-log_if false = refl

-- A call that closes nothing, and what follows.
prepend :
    (pre : List Effect) {r : Outcome}
    → closings pre ≡ 0
    → Answer r
    → Answer (r >>= λ q. some (q.0, pre ++ q.1))
prepend pre none_yet a = rw (a.returns) (record {
  conn = a.conn;
  effects = pre ++ a.effects;
  returns = refl;
  inv = a.inv;
  closes_once = elim a.closes_once [
    | inl p ↦ inl (p.0, omega (arith, none_yet, p.1, closings-append pre a.effects))
    | inr p ↦ inr (p.0, omega (arith, none_yet, p.1, closings-append pre a.effects))
  ];
})

-- The callbacks that a live owner's channel runs.
live_calls :
    (c : Channel)
    → HasCallbacks c
    → handle_event c true
      ≡ call_if (c.revents.pollhup && not c.revents.pollin) close_call
        ++ (call_if c.revents.pollerr error_call
            ++ (call_if (c.revents.pollin || c.revents.pollpri) read_call
                ++ call_if c.revents.pollout write_call))
unfolding handle_event
live_calls c has = ground arith

module _ (readv : Readv) (write : Write) (message_callback : TcpConnection → Outcome) where
  open_write :
      (w : Bool) (c : TcpConnection)
      → Inv c
      → is_open c ≡ true
      → Answer (run_calls readv write message_callback (call_if w write_call) c)
  unfolding run_calls
  open_write false c inv o = record {
    conn = c;
    effects = [];
    returns = refl;
    inv = inv;
    closes_once = inl (o, refl);
  }
  open_write true c inv o =
      let st = handle_write-Stepped write inv in
      rw (st.returns) (record {
        conn = st.conn;
        effects = st.effects ++ [];
        returns = refl;
        inv = st.inv;
        closes_once = rw (append-nil st.effects) (
            Same-Closes c st.conn st.effects o (handle_write-Same write c st.returns).0
              (handle_write-Quiet write c st.returns));
      })

  pub closed_writes :
      (w : Bool) (c : TcpConnection)
      → is_closed c ≡ true
      → run_calls readv write message_callback (call_if w write_call) c ≡ some (c, log_if w)
  unfolding run_calls
  closed_writes false c h = refl
  closed_writes true c h = rw (closed_write write c h)

  closed_rest :
      (e w : Bool) (c : TcpConnection)
      → is_closed c ≡ true
      → run_calls readv write message_callback (call_if e error_call ++ call_if w write_call) c
        ≡ some (c, log_if e ++ log_if w)
  unfolding run_calls handle_error
  closed_rest false w c h = closed_writes w c h
  closed_rest true w c h = rw (closed_writes w c h)

  module _ (cb : IsCallback message_callback) (law : IsReadv readv) (c : TcpConnection)
      (inv : Inv c) (o : is_open c ≡ true)
      (room : length c.input_buffer.buffer + extra_size ≤ max_size) where
    read_first :
        (w : Bool)
        → Answer (run_calls readv write message_callback (read_call ∷ call_if w write_call) c)
    unfolding run_calls
    read_first w =
        let a = receive-Answer readv message_callback c law cb room inv o in
        rw (a.returns) (elim a.closes_once [
          | inl p ↦ prepend a.effects p.1 (open_write w a.conn a.inv p.0)
          | inr p ↦ rw (closed_writes w a.conn p.0) (record {
            conn = a.conn;
            effects = a.effects ++ log_if w;
            returns = refl;
            inv = a.inv;
            closes_once =
                inr (
                  p.0,
                  omega (arith, p.1, closings-append a.effects (log_if w), closings-log_if w),
                );
          })
        ])

    events :
        (h e r w : Bool)
        → (h && r) ≡ false
        → Answer (
            run_calls readv write message_callback
              (call_if h close_call
                ++ (call_if e error_call ++ (call_if r read_call ++ call_if w write_call)))
              c)
    unfolding run_calls handle_close handle_error shut disable_all
    events true e true w x = cc
    events true e false w x = rw (closed_rest e w (shut c) refl) (record {
      conn = shut c;
      effects = updates_channel ∷ calls_connection ∷ calls_close ∷ (log_if e ++ log_if w);
      returns = refl;
      inv = record {
        input = inv.input;
        output = inv.output;
        armed = λ h. cc;
        closed = λ _. writing-disable_all c.channel;
      };
      closes_once = inr (
        refl,
        omega (arith, closings-append (log_if e) (log_if w), closings-log_if e, closings-log_if w),
      );
    })
    events false true true w x = prepend (logs_error ∷ []) refl (read_first w)
    events false false true w x = read_first w
    events false true false w x = prepend (logs_error ∷ []) refl (open_write w c inv o)
    events false false false w x = open_write w c inv o

-- One event of the poller on an open connection ends in a call of the close callback at most: then
-- the channel watches nothing; else the connection is as open as before. It does not fault. Excepted
-- is an event with POLLHUP and POLLPRI but without POLLIN; and the message callback must itself
-- be like a call of the connection.
pub closes_once :
    (readv : Readv) (write : Write) (message_callback : TcpConnection → Outcome)
    → IsCallback message_callback
    → IsReadv readv
    → (c : TcpConnection) → Inv c
    → is_open c ≡ true
    → length c.input_buffer.buffer + extra_size ≤ max_size
    → HasCallbacks c.channel
    → ((c.channel.revents.pollhup && not c.channel.revents.pollin) && c.channel.revents.pollpri)
      ≡ false
    → Answer (handle_poll_event readv write message_callback c)
unfolding handle_poll_event handle_event
closes_once readv write message_callback cb law c inv o room has x = rw (live_calls c.channel has) (
    events readv write message_callback cb law c inv o room
      (c.channel.revents.pollhup && not c.channel.revents.pollin) c.channel.revents.pollerr
      (c.channel.revents.pollin || c.channel.revents.pollpri) c.channel.revents.pollout
      (ground arith))
