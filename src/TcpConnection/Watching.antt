-- ===== src/TcpConnection/Watching.antt =====
-- What sending and writing leave alone: the channel still watches for input, and nothing is closed.
use my_net_lib.Common.{
  Bool, Bool-cases, List, [], ap, arith, else_case, inl, inr, not, some, then_case, true, ℕ, ◌++◌,
  ◌+◌, ◌∷◌, ◌≡◌,
}
use my_net_lib.Os.{Transfer, failed, done, Write}
use my_net_lib.Buffer.{retrive}
use my_net_lib.Channel.{Channel, is_reading, is_writing, enable_write, disable_write}
use my_net_lib.TcpConnection.{
  disconnected, is_state, TcpConnection, Effect, Outcome, Attempt, attempt, first_attempt,
  buffer_rest, send_in_loop, send, handle_write, some_written, calls_close, logs_error,
  updates_channel, effect_if,
}
use my_net_lib.TcpConnection.Same.{handle_write_cases}
use my_net_lib.TcpConnection.Writing.{stopped, finishing, all_written_lem}

-- How often the close callback is called.
abbrev pub closings : List Effect → ℕ
closings [] = 0
closings (calls_close ∷ es) = 1 + closings es
closings (_ ∷ es) = closings es

pub closings-append : (xs ys : List Effect) → closings (xs ++ ys) ≡ closings xs + closings ys
closings-append [] ys = omega arith
closings-append (calls_close ∷ es) ys = omega (arith, closings-append es ys)
closings-append (_ ∷ es) ys = closings-append es ys

-- A call that leaves the connection watching and closes nothing.
abbrev pub Quiet : TcpConnection → TcpConnection → List Effect → Type 0
Quiet c d es = (is_reading d.channel ≡ is_reading c.channel) × (closings es ≡ 0)

reading-enable_write : (c : Channel) → is_reading (enable_write c) ≡ is_reading c
unfolding enable_write
reading-enable_write c = ground arith

reading-disable_write : (c : Channel) → is_reading (disable_write c) ≡ is_reading c
unfolding disable_write
reading-disable_write c = ground arith

closings-attempt :
    (b : Bool) (bytes : List ℕ) (t : Transfer ℕ) → closings (attempt b bytes t).effects ≡ 0
closings-attempt b bytes (failed errno) = ground arith
closings-attempt b bytes (done n) = ground arith

closings-first_attempt :
    (write : Write) (c : TcpConnection) (bytes : List ℕ)
    → closings (first_attempt write c bytes).effects ≡ 0
unfolding first_attempt
closings-first_attempt write c bytes =
    ground (arith, closings-attempt c.has_write_complete bytes (write bytes))

closings-effect_if : (b : Bool) → closings (effect_if b updates_channel) ≡ 0
closings-effect_if b = ground arith

pub buffer_rest-Quiet :
    (c : TcpConnection) (bytes : List ℕ) (a : Attempt) {d : TcpConnection} {es : List Effect}
    → closings a.effects ≡ 0
    → buffer_rest c bytes a ≡ some (d, es)
    → Quiet c d es
unfolding buffer_rest
buffer_rest-Quiet c bytes a q h = ground (
  arith,
  q,
  reading-enable_write c.channel,
  closings-append a.effects (effect_if (not (is_writing c.channel)) updates_channel),
  closings-effect_if (not (is_writing c.channel)),
)

pub send_in_loop-Quiet :
    (write : Write) (c : TcpConnection) (bytes : List ℕ) {d : TcpConnection} {es : List Effect}
    → send_in_loop write c bytes ≡ some (d, es)
    → Quiet c d es
unfolding send_in_loop
send_in_loop-Quiet write c bytes {d} {es} h = elim (Bool-cases (is_state c.state disconnected)) [
  | inl e ↦
      let h' : ◌≡◌ {A = Outcome} (some (c, logs_error ∷ [])) (some (d, es)) = then_case _ e h in
      ground arith
  | inr e ↦
      buffer_rest-Quiet c bytes (first_attempt write c bytes) (closings-first_attempt write c bytes)
        (else_case _ e h)
]

pub send-Quiet :
    (write : Write) (c : TcpConnection) (bytes : List ℕ) {d : TcpConnection} {es : List Effect}
    → send true write c bytes ≡ some (d, es)
    → Quiet c d es
unfolding send
send-Quiet write c bytes h = ground (arith, send_in_loop-Quiet write c bytes)

closings-finishing : (c : TcpConnection) → closings (finishing c) ≡ 0
closings-finishing c = ground arith

some_written-Quiet :
    (c : TcpConnection) (n : ℕ) (bytes : List ℕ) {d : TcpConnection} {es : List Effect}
    → some_written c n bytes ≡ some (d, es)
    → Quiet c d es
unfolding some_written stopped
some_written-Quiet c n bytes h = ground (
  arith,
  all_written_lem (record c { output_buffer = retrive c.output_buffer n }),
  closings-finishing (record c { output_buffer = retrive c.output_buffer n }),
  reading-disable_write c.channel,
)

pub handle_write-Quiet :
    (write : Write) (c : TcpConnection) {d : TcpConnection} {es : List Effect}
    → handle_write write c ≡ some (d, es)
    → Quiet c d es
handle_write-Quiet write c {d} {es} e = elim (handle_write_cases write c e) [
  | inl (same, nothing) ↦ (ap (λ t. is_reading t.channel) same, ap closings nothing)
  | inr (n, bytes, h) ↦ some_written-Quiet c n bytes h
]
