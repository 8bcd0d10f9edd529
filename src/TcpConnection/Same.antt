-- ===== src/TcpConnection/Same.antt =====
-- What the calls that send leave alone: the state and the input.
use my_net_lib.Common.{
  Bool-cases, List, Option, [], ap, arith, else_case, if◌then◌else◌, inl, inr, ltb, none, some,
  then_case, true, ℕ, ◌>>=◌, ◌∷◌, ◌≡◌, ◌⊎◌,
}
use my_net_lib.Os.{Transfer, failed, done, Write}
use my_net_lib.Buffer.{retrive, write_fd}
use my_net_lib.Channel.{is_writing}
use my_net_lib.TcpConnection.{
  TcpConnection, Effect, Outcome, Attempt, first_attempt, buffer_rest, send_in_loop, send,
  handle_write, some_written, logs_error,
}
use my_net_lib.TcpConnection.Writing.{stopped, all_written_lem}

abbrev pub Same : TcpConnection → TcpConnection → Type 0
Same c d = (d.state ≡ c.state) × (d.input_buffer ≡ c.input_buffer)

pub buffer_rest-Same :
    (c : TcpConnection) (bytes : List ℕ) (a : Attempt) {d : TcpConnection} {es : List Effect}
    → buffer_rest c bytes a ≡ some (d, es)
    → Same c d
unfolding buffer_rest
buffer_rest-Same c bytes a e = ground arith

pub some_written-Same :
    (c : TcpConnection) (n : ℕ) (bytes : List ℕ) {d : TcpConnection} {es : List Effect}
    → some_written c n bytes ≡ some (d, es)
    → Same c d
unfolding some_written stopped
some_written-Same c n bytes e =
    ground (arith, all_written_lem (record c { output_buffer = retrive c.output_buffer n }))

pub send_in_loop-Same :
    (write : Write) (c : TcpConnection) (bytes : List ℕ) {d : TcpConnection} {es : List Effect}
    → send_in_loop write c bytes ≡ some (d, es)
    → Same c d
unfolding send_in_loop
send_in_loop-Same write c bytes e =
    ground (arith, buffer_rest-Same c bytes (first_attempt write c bytes))

pub send-Same :
    (write : Write) (c : TcpConnection) (bytes : List ℕ) {d : TcpConnection} {es : List Effect}
    → send true write c bytes ≡ some (d, es)
    → Same c d
unfolding send
send-Same write c bytes e = ground (arith, send_in_loop-Same write c bytes)

-- `HandleWrite` logs an error, or the kernel took some bytes.
pub handle_write_cases :
    (write : Write) (c : TcpConnection) {d : TcpConnection} {es : List Effect}
    → handle_write write c ≡ some (d, es)
    → ((d ≡ c) × (es ≡ logs_error ∷ []))
      ⊎ ((n : ℕ) × (bytes : List ℕ) × (some_written c n bytes ≡ some (d, es)))
unfolding handle_write
handle_write_cases write c {d} {es} e = elim (Bool-cases (is_writing c.channel)) [
  | inr idle ↦
      let h : ◌≡◌ {A = Outcome} (some (c, logs_error ∷ [])) (some (d, es)) = rw idle at e in
      inl (cc, cc)
  | inl busy ↦ go (write_fd write c.output_buffer) (rw busy at e)
]
  where
    go :
        (r : Option (List ℕ × Transfer ℕ))
        → (◌>>=◌ {B = TcpConnection × List Effect} r λ x. elim x.1 [
          | failed errno ↦ some (c, logs_error ∷ [])
          | done n ↦ if ltb 0 n then some_written c n x.0 else some (c, logs_error ∷ [])
        ])
          ≡ some (d, es)
        → ((d ≡ c) × (es ≡ logs_error ∷ []))
          ⊎ ((n : ℕ) × (bytes : List ℕ) × (some_written c n bytes ≡ some (d, es)))
    go none h = cc
    go (some (offered, failed errno)) h = inl (cc, cc)
    go (some (offered, done n)) h = elim (Bool-cases (ltb 0 n)) [
      | inl e ↦ inr (n, offered, then_case _ e h)
      | inr e ↦
          let h' : ◌≡◌ {A = Outcome} (some (c, logs_error ∷ [])) (some (d, es)) = else_case _ e h in
          inl (cc, cc)
    ]

pub handle_write-Same :
    (write : Write) (c : TcpConnection) {d : TcpConnection} {es : List Effect}
    → handle_write write c ≡ some (d, es)
    → Same c d
handle_write-Same write c {d} {es} e = elim (handle_write_cases write c e) [
  | inl (same, _) ↦ (ap (λ t. t.state) same, ap (λ t. t.input_buffer) same)
  | inr (n, bytes, h) ↦ some_written-Same c n bytes h
]
