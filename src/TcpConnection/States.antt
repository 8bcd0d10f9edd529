-- ===== src/TcpConnection/States.antt =====
-- The states of a connection.
use my_net_lib.Common.{
  Bool-cases, List, Option, [], arith, if◌then◌else◌, inl, inr, length, none, some, ℕ, ◌==◌, ◌>>=◌,
  ◌∷◌, ◌≡◌, ◌≤◌, ◌⊎◌,
}
use my_net_lib.Os.{Transfer, failed, done, Readv}
use my_net_lib.Buffer.{Buffer, read_fd}
use my_net_lib.TcpConnection.{
  State, connecting, connected, disconnecting, disconnected, TcpConnection, Effect,
  shutdown_in_loop, shut_down, connection_destroyed, handle_close, handle_error, handle_read,
  logs_error, calls_message,
}
use my_net_lib.TcpConnection.Stream.{
  Event, sends, runs_send, writable, readable, shuts_down, runs_shutdown, closes, errs, destroys,
  step,
}
use my_net_lib.TcpConnection.Same.{send-Same, send_in_loop-Same, handle_write-Same}

abbrev pub rank : State → ℕ
rank connecting = 0
rank connected = 1
rank disconnecting = 2
rank disconnected = 3

handle_read-state :
    (readv : Readv) (c : TcpConnection) {d : TcpConnection} {es : List Effect}
    → handle_read readv c ≡ some (d, es)
    → (d.state ≡ c.state) ⊎ (d.state ≡ disconnected)
unfolding handle_read handle_error handle_close
handle_read-state readv c {d} {es} e = go (read_fd readv c.input_buffer) e
  where
    go :
        (r : Option (Transfer (List ℕ) × Buffer))
        → (◌>>=◌ {B = TcpConnection × List Effect} r λ x.
            let c' = record c { input_buffer = x.1 } in
            elim x.0 [
              | failed errno ↦ do (c'', effects) ← handle_error c'; some (c'', logs_error ∷ effects)
              | done bytes ↦
                  if length bytes == 0 then handle_close c' else some (c', calls_message ∷ [])
            ])
          ≡ some (d, es)
        → (d.state ≡ c.state) ⊎ (d.state ≡ disconnected)
    go none h = cc
    go (some (failed errno, b)) h = inl (ground arith)
    go (some (done bytes, b)) h = elim (Bool-cases (length bytes == 0)) [
      | inl end ↦ inr (ground arith)
      | inr more ↦ inl (ground arith)
    ]

-- A connection only goes forward: from connecting to connected, to disconnecting, to disconnected.
-- What is closed never opens again.
pub step-rank :
    (c : TcpConnection) (e : Event) {d : TcpConnection} {es : List Effect}
    → step c e ≡ some (d, es)
    → rank c.state ≤ rank d.state
unfolding step shut_down connection_destroyed handle_close handle_error shutdown_in_loop
step-rank c (sends write bytes) h = rw ((send-Same write c bytes h).0) (omega arith)
step-rank c (runs_send write bytes) h = rw ((send_in_loop-Same write c bytes h).0) (omega arith)
step-rank c (writable write) h = rw ((handle_write-Same write c h).0) (omega arith)
step-rank c (readable readv) h = grind (arith, handle_read-state readv c h)
step-rank c shuts_down h = ground arith
step-rank c runs_shutdown h = ground arith
step-rank c closes h = ground arith
step-rank c errs h = ground arith
step-rank c destroys h = ground arith
