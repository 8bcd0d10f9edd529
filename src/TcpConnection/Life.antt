-- ===== src/TcpConnection/Life.antt =====
-- Every history of a connection: nothing lost, doubled or reordered, and the end after the last
-- byte.
use my_net_lib.Common.{
  Bool-cases, List, [], ap, append-nil, append_assoc, arith, false, inl, inr, refl, some, subst,
  sym, true, ℕ, ◌++◌, ◌∙◌, ◌∷◌, ◌≡◌,
}
use my_net_lib.Os.{Write}
use my_net_lib.Buffer.{init, initial_size}
use my_net_lib.Buffer.Valid.{contents, init-IsValid, contents-init, readable_bytes-init}
use my_net_lib.Channel.{enable_read, tie}
use my_net_lib.TcpConnection.{
  connected, disconnected, is_state, TcpConnection, Effect, new_connection, send,
  connection_established, handle_close, handle_error, logs_error,
}
use my_net_lib.TcpConnection.Inv.{
  Inv, wire, shuts, Stepped, writing-established, Ends, Stepped-Ends,
}
use my_net_lib.TcpConnection.Sending.{send_in_loop-Stepped}
use my_net_lib.TcpConnection.Writing.{unchanged, handle_write-Stepped}
use my_net_lib.TcpConnection.Stream.{
  Event, sends, runs_send, writable, readable, shuts_down, runs_shutdown, closes, errs, destroys,
  step, taken, IsLawful, shutdown_in_loop-Stepped, shut-Stepped, shut, shut_down-Stepped,
  connection_destroyed-Stepped, handle_read-Stepped,
}

pub send-Stepped :
    (c : TcpConnection) (write : Write) (bytes : List ℕ)
    → Inv c
    → IsLawful c (sends write bytes)
    → Stepped c (taken c (sends write bytes)) (send true write c bytes)
unfolding send
send-Stepped c write bytes inv law = elim (Bool-cases (is_state c.state connected)) [
  | inl e ↦ rw e (send_in_loop-Stepped bytes law.0 inv law.1)
  | inr e ↦ rw e (unchanged [] refl refl inv)
]

handle_close-Stepped : {c : TcpConnection} → Inv c → Stepped c [] (handle_close c)
unfolding handle_close shut
handle_close-Stepped inv = shut-Stepped _ refl refl inv

handle_error-Stepped : {c : TcpConnection} → Inv c → Stepped c [] (handle_error c)
unfolding handle_error
handle_error-Stepped inv = unchanged (logs_error ∷ []) refl refl inv

-- No call of a connection faults, and each keeps the invariant: the channel waits for POLLOUT
-- exactly while output is buffered. What the kernel took, followed by what is left to send, is what
-- was left before followed by the bytes that the call took on.
pub step-Stepped :
    {c : TcpConnection} (e : Event) → Inv c → IsLawful c e → Stepped c (taken c e) (step c e)
unfolding step
step-Stepped {c} (sends write bytes) inv law = send-Stepped c write bytes inv law
step-Stepped (runs_send write bytes) inv law = send_in_loop-Stepped bytes law.0 inv law.1
step-Stepped (writable write) inv law = handle_write-Stepped write inv
step-Stepped (readable readv) inv law = handle_read-Stepped _ law.0 law.1 refl inv
step-Stepped shuts_down inv law = shut_down-Stepped inv
step-Stepped runs_shutdown inv law = shutdown_in_loop-Stepped inv
step-Stepped closes inv law = handle_close-Stepped inv
step-Stepped errs inv law = handle_error-Stepped inv
step-Stepped destroys inv law = connection_destroyed-Stepped inv

-- The states that a connection on `fd` can reach once it is established, with the bytes that the
-- kernel took so far and those that were taken on.
pub data Reach (fd : ℕ) : TcpConnection → List ℕ → List ℕ → Type 0 where
  start :
      {c : TcpConnection} {es : List Effect}
      → connection_established (new_connection fd) ≡ some (c, es)
      → Reach fd c [] []
  next :
      {c d : TcpConnection} {sent accepted sent' accepted' : List ℕ} (e : Event) {es : List Effect}
      → Reach fd c sent accepted
      → IsLawful c e
      → step c e ≡ some (d, es)
      → sent' ≡ sent ++ wire es
      → accepted' ≡ accepted ++ taken c e
      → Reach fd d sent' accepted'

pub established-Inv :
    (fd : ℕ) {c : TcpConnection} {es : List Effect}
    → connection_established (new_connection fd) ≡ some (c, es)
    → Inv c × (contents c.output_buffer ≡ [])
unfolding connection_established new_connection
established-Inv fd {c} {es} e =
    subst (λ d. Inv d × (contents d.output_buffer ≡ [])) same
      (
        record {
          input = init-IsValid initial_size (omega arith);
          output = init-IsValid initial_size (omega arith);
          armed = λ _.
              writing-established (new_connection fd).channel
              ∙ rw (readable_bytes-init initial_size);
          closed = λ h. cc;
        },
        contents-init initial_size,
      )
  where
    first : TcpConnection
    first = record (new_connection fd) {
      state = connected;
      channel = enable_read (tie (new_connection fd).channel);
    }

    same : first ≡ c
    same = cc

pub established-empty :
    (fd : ℕ) {c : TcpConnection} {es : List Effect}
    → connection_established (new_connection fd) ≡ some (c, es)
    → contents c.input_buffer ≡ []
unfolding connection_established new_connection
established-empty fd {c} e = subst (λ b. contents b ≡ []) same (contents-init initial_size)
  where
    same : init initial_size ≡ c.input_buffer
    same = cc

-- What the peer gets: the bytes that the kernel took, followed by those that still wait, are the
-- bytes that `Send` took on, in order; and the invariant holds.
pub Reach-stream :
    {fd : ℕ} {c : TcpConnection} {sent accepted : List ℕ}
    → Reach fd c sent accepted
    → Inv c × (sent ++ contents c.output_buffer ≡ accepted)
Reach-stream {fd} (start e) = established-Inv fd e
Reach-stream (next {c} {d} {sent} {accepted} e {es} r law s e1 e2) =
    let (inv, so_far) = Reach-stream r in
    let ends : Ends c (taken c e) d es = Stepped-Ends (step-Stepped e inv law) s in
    (
      ends.inv,
      rw (e1, e2)
          (append_assoc sent (wire es) (contents d.output_buffer)
            ∙ ap (λ t. sent ++ t) ends.stream
            ∙ sym (append_assoc sent (contents c.output_buffer) (taken c e))
            ∙ ap (λ t. t ++ taken c e) so_far),
    )

-- When a call shuts the writing side down, the kernel has every byte that was taken on. (A shutdown
-- that was queued from another thread and runs on a closed connection is excepted.)
pub shutdown_is_last :
    {fd : ℕ} {c d : TcpConnection} {sent accepted : List ℕ} {es : List Effect} (e : Event)
    → Reach fd c sent accepted
    → IsLawful c e
    → step c e ≡ some (d, es)
    → is_state c.state disconnected ≡ false
    → shuts es ≡ true
    → sent ++ wire es ≡ accepted ++ taken c e
shutdown_is_last {c} {d} {sent} {accepted} {es} e r law s open_state shut_now =
    let (inv, so_far) = Reach-stream r in
    let ends : Ends c (taken c e) d es = Stepped-Ends (step-Stepped e inv law) s in
    let all_gone : wire es ≡ contents c.output_buffer ++ taken c e =
      sym (append-nil (wire es))
      ∙ ap (λ t. wire es ++ t) (sym (ends.drained open_state shut_now))
      ∙ ends.stream in
    ap (λ t. sent ++ t) all_gone
    ∙ sym (append_assoc sent (contents c.output_buffer) (taken c e))
    ∙ ap (λ t. t ++ taken c e) so_far
