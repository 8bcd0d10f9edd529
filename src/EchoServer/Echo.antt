-- ===== src/EchoServer/Echo.antt =====
-- What the peer gets back from the server is what it sent.
use my_net_lib.Common.{
  List, [], ap, length, refl, some, subst, ℕ, ◌++◌, ◌+◌, ◌>>=◌, ◌∙◌, ◌∷◌, ◌≡◌, ◌≤◌,
}
use my_net_lib.Os.{Readv, IsReadv, Write, IsWrite, Transfer, failed, done}
use my_net_lib.Buffer.{Buffer, max_size, extra_size}
use my_net_lib.Buffer.Valid.{contents, IsValid}
use my_net_lib.TcpConnection.{
  TcpConnection, Outcome, logs_error, handle_read, calls_message, updates_channel, calls_connection,
  calls_close,
}
use my_net_lib.TcpConnection.Inv.{Inv}
use my_net_lib.TcpConnection.Stream.{shut, shut-Stepped}
use my_net_lib.TcpConnection.Writing.{unchanged}
use my_net_lib.TcpConnection.Reading.{arrival, Read, handle_read-Read, IsUp}
use my_net_lib.EchoServer.{serve_read}
use my_net_lib.EchoServer.Served.{Echoing, Served, reply-Served, Stepped-Served}

abbrev pub bytes_of : Transfer (List ℕ) → List ℕ
bytes_of (failed errno) = []
bytes_of (done bytes) = bytes

-- What the system calls of a read event keep to, and the room in the buffers.
pub record IsServable (readv : Readv) (write : Write) (c : TcpConnection) : Type 0 where
  pub reads : IsReadv readv
  pub writes_within : IsWrite write
  pub up : IsUp write
  pub input_room : length c.input_buffer.buffer + extra_size ≤ max_size
  pub output_room : c.output_buffer.write_index + length (bytes_of (arrival readv c)) ≤ max_size

-- The connection when its input is `b`.
with_input :
    {c : TcpConnection} {got sent : List ℕ} (b : Buffer)
    → Echoing c got sent
    → IsValid b
    → Inv (record c { input_buffer = b })
with_input b ec v = record {
  input = v;
  output = ec.inv.output;
  armed = ec.inv.armed;
  closed = ec.inv.closed;
}

end-Served :
    {c : TcpConnection} {got sent : List ℕ} (b : Buffer)
    → Echoing c got sent
    → IsValid b
    → contents b ≡ contents c.input_buffer
    → Served got sent [] (
        some (
          shut (record c { input_buffer = b }),
          updates_channel ∷ calls_connection ∷ calls_close ∷ [],
        ))
unfolding shut
end-Served {c} b ec v same =
    Stepped-Served
      (record {
        inv = with_input b ec v;
        empty = same ∙ ec.empty;
        lost = ec.lost;
        stream = ec.stream;
        kept = ec.kept;
      })
      (shut-Stepped (updates_channel ∷ calls_connection ∷ calls_close ∷ []) refl refl
        (with_input b ec v))
      refl (same ∙ ec.empty) (λ h. cc)

-- The callback follows the effect that stands for it.
called-Served :
    {got sent m : List ℕ} {r : Outcome}
    → Served got sent m r
    → Served got sent m (r >>= λ x. some (x.0, calls_message ∷ x.1))
called-Served s = record {
  conn = s.conn;
  effects = calls_message ∷ s.effects;
  returns = ap (λ t. t >>= λ x. some (x.0, calls_message ∷ x.1)) s.returns;
  echoing = s.echoing;
}

-- A read event never faults, and the server stays in step: everything that the peer sent went back,
-- waits behind what went before, or came after the close.
pub serve_read-Served :
    (readv : Readv) (write : Write) {c : TcpConnection} {got sent : List ℕ}
    → Echoing c got sent
    → IsServable readv write c
    → Served got sent (bytes_of (arrival readv c)) (serve_read readv write c)
unfolding serve_read
serve_read-Served readv write {c} {got} {sent} ec law = go (arrival readv c) refl
  where
    go :
        (outcome : Transfer (List ℕ))
        → arrival readv c ≡ outcome
        → Served got sent (bytes_of (arrival readv c)) (serve_read readv write c)
    go (failed errno) e =
        let r : Read c (failed errno) (handle_read readv c) =
          handle_read-Read c (failed errno) law.reads ec.inv.input law.input_room e in
        rw (e, r)
          (Stepped-Served ec (unchanged (logs_error ∷ logs_error ∷ []) refl refl ec.inv) refl
            ec.empty (λ h. h))
    go (done []) e =
        let (b, r, v, same) : Read c (done []) (handle_read readv c) =
          handle_read-Read c (done []) law.reads ec.inv.input law.input_room e in
        rw (e, r) (end-Served b ec v same)
    go (done (x ∷ xs)) e =
        let (b, r, v, more) : Read c (done (x ∷ xs)) (handle_read readv c) =
          handle_read-Read c (done (x ∷ xs)) law.reads ec.inv.input law.input_room e in
        let room : c.output_buffer.write_index + length (x ∷ xs) ≤ max_size =
          subst (λ t. c.output_buffer.write_index + length (bytes_of t) ≤ max_size) e
            law.output_room in
        rw (e, r)
          (called-Served (
            reply-Served law.writes_within law.up (with_input b ec v)
              (more ∙ ap (λ t. t ++ (x ∷ xs)) ec.empty) room ec.stream ec.kept))
