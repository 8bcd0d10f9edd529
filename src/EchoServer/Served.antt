-- ===== src/EchoServer/Served.antt =====
-- A message is taken from the input and sent in one call: nothing stays behind in between.
use my_net_lib.Common.{
  Bool-cases, List, [], ap, append-nil, append_assoc, false, inl, inr, length, refl, some, sym,
  true, ℕ, ◌++◌, ◌+◌, ◌∙◌, ◌≡◌, ◌≤◌,
}
use my_net_lib.Os.{Write, IsWrite}
use my_net_lib.Buffer.{max_size, retrive_all}
use my_net_lib.Buffer.Valid.{contents, IsValid, retrive_all-IsValid}
use my_net_lib.Buffer.Retrive.{retrive_all_as_string-all, contents-retrive_all}
use my_net_lib.TcpConnection.{TcpConnection, Effect, connected, is_state, Outcome, send}
use my_net_lib.TcpConnection.Inv.{Inv, wire, Stepped, Ends, Stepped-Ends}
use my_net_lib.TcpConnection.Same.{Same, send-Same}
use my_net_lib.TcpConnection.Stream.{sends, taken}
use my_net_lib.TcpConnection.Life.{send-Stepped}
use my_net_lib.TcpConnection.Reading.{IsUp, accepted-IsUp}
use my_net_lib.EchoServer.{on_message}

-- Of the bytes that the peer sent, `got`, the kernel took `sent` back and the rest waits, but for
-- what came when the connection was no longer open.
pub record Echoing (c : TcpConnection) (got sent : List ℕ) : Type 0 where
  pub inv : Inv c
  pub empty : contents c.input_buffer ≡ []
  pub lost : List ℕ
  pub stream : sent ++ (contents c.output_buffer ++ lost) ≡ got
  pub kept : is_state c.state connected ≡ true → lost ≡ []

-- A call after which the server has got `more` bytes.
pub record Served (got sent more : List ℕ) (r : Outcome) : Type 0 where
  pub conn : TcpConnection
  pub effects : List Effect
  pub returns : r ≡ some (conn, effects)
  pub echoing : Echoing conn (got ++ more) (sent ++ wire effects)

-- The connection with its input taken out.
abbrev taken_out : TcpConnection → TcpConnection
taken_out c = record c { input_buffer = retrive_all c.input_buffer }

on_message_lem :
    (write : Write) (c : TcpConnection)
    → IsValid c.input_buffer
    → on_message write c ≡ send true write (taken_out c) (contents c.input_buffer)
unfolding on_message
on_message_lem write c v = rw (retrive_all_as_string-all c.input_buffer v)

taken_out-Inv : {c : TcpConnection} → Inv c → Inv (taken_out c)
taken_out-Inv {c} inv = record {
  input = retrive_all-IsValid inv.input;
  output = inv.output;
  armed = inv.armed;
  closed = inv.closed;
}

-- `more` bytes are taken on behind `out`, `w` of what waits goes out, and `lost'` is lost so far.
carried :
    (sent w out out' lost lost' more m : List ℕ) {got : List ℕ}
    → sent ++ (out ++ lost) ≡ got
    → w ++ out' ≡ out ++ more
    → more ++ lost' ≡ lost ++ m
    → (sent ++ w) ++ (out' ++ lost') ≡ got ++ m
carried sent w out out' lost lost' more m e1 e2 e3 =
    append_assoc sent w (out' ++ lost')
    ∙ ap (λ t. sent ++ t)
        (sym (append_assoc w out' lost')
          ∙ ap (λ t. t ++ lost') e2
          ∙ append_assoc out more lost'
          ∙ ap (λ t. out ++ t) e3
          ∙ sym (append_assoc out lost m))
    ∙ sym (append_assoc sent (out ++ lost) m)
    ∙ ap (λ t. t ++ m) e1

-- A call that takes nothing from the peer and opens nothing.
pub Stepped-Served :
    {c d : TcpConnection} {got sent : List ℕ} {r : Outcome} {es : List Effect}
    → Echoing c got sent
    → Stepped c [] r
    → r ≡ some (d, es)
    → contents d.input_buffer ≡ []
    → (is_state d.state connected ≡ true → is_state c.state connected ≡ true)
    → Served got sent [] r
Stepped-Served {c} {d} {got} {sent} {es = es} ec st e empty was_open =
    let ends : Ends c [] d es = Stepped-Ends st e in
    record {
      conn = d;
      effects = es;
      returns = e;
      echoing = record {
        inv = ends.inv;
        empty = empty;
        lost = ec.lost;
        stream = carried _ _ _ _ _ _ _ _ ec.stream ends.stream (sym (append-nil ec.lost));
        kept = λ h. ec.kept (was_open h);
      };
    }

-- What the callback leaves when the message `m` stands in the input.
pub reply-Served :
    {write : Write} {c : TcpConnection} {got sent lost m : List ℕ}
    → IsWrite write
    → IsUp write
    → Inv c
    → contents c.input_buffer ≡ m
    → c.output_buffer.write_index + length m ≤ max_size
    → sent ++ (contents c.output_buffer ++ lost) ≡ got
    → (is_state c.state connected ≡ true → lost ≡ [])
    → Served got sent m (on_message write c)
reply-Served {write} {c} {got} {sent} {lost} {m} law up inv e room stream kept = record {
  conn = st.conn;
  effects = st.effects;
  returns = returns;
  echoing = elim (Bool-cases (is_state c.state connected)) [
    | inl open_ ↦ record {
      inv = st.inv;
      empty = empty;
      lost = [];
      stream =
          carried _ _ _ _ lost [] m m stream (st.stream ∙ ap (λ t. out ++ t) (replied open_))
            (append-nil m ∙ ap (λ t. t ++ m) (sym (kept open_)));
      kept = λ _. refl;
    }
    | inr closed ↦ record {
      inv = st.inv;
      empty = empty;
      lost = lost ++ m;
      stream =
          carried _ _ _ _ lost (lost ++ m) [] m stream
            (st.stream ∙ ap (λ t. out ++ t) (dropped closed)) refl;
      kept = λ h.
          let never : false ≡ true = sym closed ∙ ap (λ t. is_state t connected) (sym same.0) ∙ h in
          absurd (cc);
    }
  ];
}
  where
    st :
        Stepped
          (taken_out c)
          (taken (taken_out c) (sends write m))
          (send true write (taken_out c) m)
    st = send-Stepped (taken_out c) write m (taken_out-Inv inv) (law, room)

    returns : on_message write c ≡ some (st.conn, st.effects)
    returns = on_message_lem write c inv.input ∙ ap (send true write (taken_out c)) e ∙ st.returns

    same : Same (taken_out c) st.conn
    same = send-Same write (taken_out c) m st.returns

    empty : contents st.conn.input_buffer ≡ []
    empty = ap contents same.1 ∙ contents-retrive_all c.input_buffer

    out : List ℕ
    out = contents c.output_buffer

    replied : is_state c.state connected ≡ true → taken (taken_out c) (sends write m) ≡ m
    replied open_ = rw open_ (accepted-IsUp write (taken_out c) m up open_)

    dropped : is_state c.state connected ≡ false → taken (taken_out c) (sends write m) ≡ []
    dropped closed = rw closed
