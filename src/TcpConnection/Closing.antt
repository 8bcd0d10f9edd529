-- ===== src/TcpConnection/Closing.antt =====
-- Which calls close a connection: none but reading the end of the stream and the close event, and
-- those call the close callback once.
use my_net_lib.Common.{
  Bool, Bool-cases, List, Option, [], arith, else_case, false, if◌then◌else◌, inl, inr, length,
  none, not, refl, some, subst, then_case, true, ℕ, ◌&&◌, ◌==◌, ◌>>=◌, ◌||◌, ◌∷◌, ◌≡◌, ◌⊎◌,
}
use my_net_lib.Os.{Transfer, failed, done, Readv}
use my_net_lib.Buffer.{Buffer, read_fd}
use my_net_lib.Channel.{is_reading, is_writing, is_none_event, disable_all}
use my_net_lib.TcpConnection.{
  connected, disconnecting, disconnected, is_state, TcpConnection, Effect, Outcome, handle_read,
  handle_close, handle_error, shutdown_in_loop, shut_down, calls_close, calls_message,
  calls_connection, logs_error, updates_channel, shuts_down_write, effect_if,
}
use my_net_lib.TcpConnection.Same.{send_in_loop-Same, send-Same, handle_write-Same}
use my_net_lib.TcpConnection.Stream.{
  Event, sends, runs_send, writable, readable, shuts_down, runs_shutdown, closes, errs, destroys,
  step,
}
use my_net_lib.TcpConnection.Watching.{
  closings, Quiet, send_in_loop-Quiet, send-Quiet, handle_write-Quiet,
}

-- A call of an open connection leaves it open, or closes it with one call of the close callback.
abbrev pub is_open : TcpConnection → Bool
is_open c = (is_state c.state connected || is_state c.state disconnecting) && is_reading c.channel

abbrev pub is_closed : TcpConnection → Bool
is_closed c = is_state c.state disconnected && is_none_event c.channel

abbrev pub Closes : TcpConnection → List Effect → Type 0
Closes d es = ((is_open d ≡ true) × (closings es ≡ 0)) ⊎ ((is_closed d ≡ true) × (closings es ≡ 1))

pub Same-Closes :
    (c d : TcpConnection) (es : List Effect)
    → is_open c ≡ true
    → d.state ≡ c.state
    → Quiet c d es
    → Closes d es
Same-Closes c d es o s q = inl (rw (s, q.0) o, q.1)

-- What is known of the connection that a call returns.
lands :
    (c : TcpConnection) (effects : List Effect) {d : TcpConnection} {es : List Effect}
    → Closes c effects
    → ◌≡◌ {A = Outcome} (some (c, effects)) (some (d, es))
    → Closes d es
lands c effects {d} {es} k h = subst (λ (p : TcpConnection × List Effect). Closes p.0 p.1) same k
  where
    same : ◌≡◌ {A = TcpConnection × List Effect} (c, effects) (d, es)
    same = cc

handle_close-Closes :
    (c : TcpConnection) {d : TcpConnection} {es : List Effect}
    → handle_close c ≡ some (d, es)
    → Closes d es
unfolding handle_close disable_all
handle_close-Closes c h =
    lands (record c { state = disconnected; channel = disable_all c.channel })
      (updates_channel ∷ calls_connection ∷ calls_close ∷ []) (inr (refl, refl)) h

shutdown_in_loop-Closes :
    (c : TcpConnection) {d : TcpConnection} {es : List Effect}
    → is_open c ≡ true
    → shutdown_in_loop c ≡ some (d, es)
    → Closes d es
unfolding shutdown_in_loop
shutdown_in_loop-Closes c o h =
    lands c (effect_if (not (is_writing c.channel)) shuts_down_write) (inl (o, ground arith)) h

pub shut_down-Closes :
    (c : TcpConnection) {d : TcpConnection} {es : List Effect}
    → is_open c ≡ true
    → shut_down true c ≡ some (d, es)
    → Closes d es
unfolding shut_down
shut_down-Closes c o h = elim (Bool-cases (is_state c.state connected)) [
  | inl e ↦
      shutdown_in_loop-Closes (record c { state = disconnecting }) (ground arith) (then_case _ e h)
  | inr e ↦ lands c [] (inl (o, refl)) (else_case _ e h)
]

handle_read-Closes :
    (readv : Readv) (c : TcpConnection) {d : TcpConnection} {es : List Effect}
    → is_open c ≡ true
    → handle_read readv c ≡ some (d, es)
    → Closes d es
unfolding handle_read handle_error handle_close disable_all
handle_read-Closes readv c {d} {es} o e = go (read_fd readv c.input_buffer) e
  where
    ended : (b : Buffer) → handle_close (record c { input_buffer = b }) ≡ some (d, es) → Closes d es
    ended b h = handle_close-Closes (record c { input_buffer = b }) h

    go :
        (r : Option (Transfer (List ℕ) × Buffer))
        → (◌>>=◌ {B = TcpConnection × List Effect} r λ x.
            let c' = record c { input_buffer = x.1 } in
            elim x.0 [
              | failed errno ↦ do (c'', effects) ← handle_error c'; some (c'', logs_error ∷ effects)
              | done bytes ↦
                  if length bytes == 0 then handle_close c' else some (c', calls_message ∷ [])
            ])
          ≡ some (d, es)
        → Closes d es
    go none h = cc
    go (some (failed errno, b)) h =
        lands (record c { input_buffer = b }) (logs_error ∷ logs_error ∷ []) (inl (o, refl)) h
    go (some (done bytes, b)) h = elim (Bool-cases (length bytes == 0)) [
      | inl end ↦ ended b (then_case _ end h)
      | inr more ↦
          lands (record c { input_buffer = b }) (calls_message ∷ []) (inl (o, refl))
            (else_case _ more h)
    ]

-- The calls of an open connection: the user's and the channel's.
abbrev pub is_call : Event → Bool
is_call destroys = false
is_call _ = true

pub step-Closes :
    (c : TcpConnection) (e : Event) {d : TcpConnection} {es : List Effect}
    → is_call e ≡ true
    → is_open c ≡ true
    → step c e ≡ some (d, es)
    → Closes d es
unfolding step shut_down handle_close handle_error shutdown_in_loop disable_all
step-Closes c (sends write bytes) {d} {es} k o h =
    Same-Closes c d es o (send-Same write c bytes h).0 (send-Quiet write c bytes h)
step-Closes c (runs_send write bytes) {d} {es} k o h =
    Same-Closes c d es o (send_in_loop-Same write c bytes h).0 (send_in_loop-Quiet write c bytes h)
step-Closes c (writable write) {d} {es} k o h =
    Same-Closes c d es o (handle_write-Same write c h).0 (handle_write-Quiet write c h)
step-Closes c (readable readv) k o h = handle_read-Closes readv c o h
step-Closes c shuts_down k o h = shut_down-Closes c o h
step-Closes c runs_shutdown k o h = shutdown_in_loop-Closes c o h
step-Closes c closes k o h = handle_close-Closes c h
step-Closes c errs k o h = lands c (logs_error ∷ []) (inl (o, refl)) h
step-Closes c destroys k o h = cc
