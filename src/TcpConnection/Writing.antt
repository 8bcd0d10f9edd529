-- ===== src/TcpConnection/Writing.antt =====
-- `HandleWrite`: what waits goes out in order, and a pending shutdown follows the last byte.
use my_net_lib.Common.{
  Bool-cases, List, [], ap, append-nil, arith, drop_all, false, if◌then◌else◌, inl, inr, length,
  le→ltb, ltb, lt→ltb, not, refl, some, sym, take, take-append-drop, true, ℕ, ◌++◌, ◌<◌, ◌==◌, ◌∙◌,
  ◌∷◌, ◌≡◌, ◌≢◌,
}
use native.Mathlib.Decide.{dec_lt, ℕ_discrete}
use my_net_lib.Os.{Transfer, failed, done, Write}
use my_net_lib.Buffer.{Buffer, readable_bytes, retrive}
use my_net_lib.Buffer.Valid.{contents, retrive-IsValid, length-contents}
use my_net_lib.Buffer.Retrive.{contents-retrive}
use my_net_lib.Buffer.Fd.{write_fd_lem}
use my_net_lib.Channel.{is_writing, disable_write}
use my_net_lib.TcpConnection.{
  disconnecting, disconnected, is_state, TcpConnection, Effect, logs_error, updates_channel, writes,
  shuts_down_write, queues_write_complete, effect_if, all_written, some_written, handle_write,
}
use my_net_lib.TcpConnection.Inv.{Inv, wire, shuts, Stepped, writing-disable, contents_of_zero}

unfoldable pub stopped : TcpConnection → TcpConnection
stopped c = record c { channel = disable_write c.channel }

-- What is done behind the last byte: the write-complete callback is queued, and the writing side is
-- shut down if `ShutDown` waited for this.
abbrev pub finishing : TcpConnection → List Effect
finishing c =
    (updates_channel ∷ effect_if c.has_write_complete queues_write_complete)
    ++ effect_if (is_state c.state disconnecting) shuts_down_write

pub all_written_lem : (c : TcpConnection) → all_written c ≡ some (stopped c, finishing c)
unfolding all_written stopped
all_written_lem c = elim (Bool-cases (is_state c.state disconnecting)) [
  | inl e ↦ rw (e, writing-disable c.channel)
  | inr e ↦ rw e (
      ap (λ es. some (record c { channel = disable_write c.channel }, es))
        (sym (append-nil (updates_channel ∷ effect_if c.has_write_complete queues_write_complete))))
]

wire-finishing : (c : TcpConnection) → wire (finishing c) ≡ []
wire-finishing c = ground arith

module _ {c : TcpConnection} (inv : Inv c) (n : ℕ) (pos : 0 < n)
    (busy : is_writing c.channel ≡ true) where
  left : Buffer
  left = retrive c.output_buffer n

  after : TcpConnection
  after = record c { output_buffer = left }

  open_state : is_state c.state disconnected ≡ false
  open_state = elim (Bool-cases (is_state c.state disconnected)) [
    | inl e ↦ let never : true ≡ false = sym busy ∙ inv.closed e in absurd (cc)
    | inr e ↦ e
  ]

  kept : take n (contents c.output_buffer) ++ contents left ≡ contents c.output_buffer ++ []
  unfolding left
  kept =
      ap (λ t. take n (contents c.output_buffer) ++ t) (contents-retrive n inv.output)
      ∙ take-append-drop n (contents c.output_buffer)
      ∙ sym (append-nil (contents c.output_buffer))

  more_left : readable_bytes left ≢ 0 → Stepped c [] (some_written c n (contents c.output_buffer))
  unfolding some_written after left
  more_left ne = record {
    conn = after;
    effects = writes (take n (contents c.output_buffer)) ∷ [];
    returns = let e : (readable_bytes left == 0) ≡ false = ground arith in rw e;
    inv = record {
      input = inv.input;
      output = retrive-IsValid n inv.output;
      armed = λ _. busy ∙ ground arith;
      closed = λ e. inv.closed e;
    };
    stream = ap (λ t. t ++ contents left) (append-nil (take n (contents c.output_buffer))) ∙ kept;
    drained = λ _ s. cc;
  }

  none_left : readable_bytes left ≡ 0 → Stepped c [] (some_written c n (contents c.output_buffer))
  unfolding some_written after left stopped
  none_left zero_left = record {
    conn = stopped after;
    effects = writes (take n (contents c.output_buffer)) ∷ finishing c;
    returns = rw (zero_left, all_written_lem after);
    inv = record {
      input = inv.input;
      output = retrive-IsValid n inv.output;
      armed = λ _. writing-disable c.channel ∙ rw zero_left;
      closed = λ _. writing-disable c.channel;
    };
    stream =
        ap (λ t. t ++ contents left)
          (ap (λ t. take n (contents c.output_buffer) ++ t) (wire-finishing c)
            ∙ append-nil (take n (contents c.output_buffer)))
        ∙ kept;
    drained = λ _ _. contents_of_zero (retrive-IsValid n inv.output) zero_left;
  }

  some_written-Stepped : Stepped c [] (some_written c n (contents c.output_buffer))
  some_written-Stepped = elim (ℕ_discrete (readable_bytes left) 0) [
    | yes e ↦ none_left e
    | no e ↦ more_left e
  ]

-- A call that changes nothing.
pub unchanged :
    {c : TcpConnection} (es : List Effect)
    → wire es ≡ []
    → shuts es ≡ false
    → Inv c
    → Stepped c [] (some (c, es))
unchanged {c} es quiet still inv = record {
  conn = c;
  effects = es;
  returns = refl;
  inv = inv;
  stream =
      ap (λ t. t ++ contents c.output_buffer) quiet ∙ sym (append-nil (contents c.output_buffer));
  drained = λ _ s. let never : false ≡ true = sym still ∙ s in absurd (cc);
}

-- `HandleWrite` does not fault and keeps the invariant. What the kernel took, followed by what still
-- waits, is what waited before.
pub handle_write-Stepped :
    (write : Write) {c : TcpConnection} → Inv c → Stepped c [] (handle_write write c)
unfolding handle_write
handle_write-Stepped write {c} inv = elim (Bool-cases (is_writing c.channel)) [
  | inr idle ↦ rw idle (unchanged (logs_error ∷ []) refl refl inv)
  | inl busy ↦ rw (busy, write_fd_lem write inv.output) (go (write (contents c.output_buffer)) busy)
]
  where
    go :
        (outcome : Transfer ℕ)
        → is_writing c.channel ≡ true
        → Stepped c [] (elim outcome [
          | failed errno ↦ some (c, logs_error ∷ [])
          | done n ↦
              if ltb 0 n
              then some_written c n (contents c.output_buffer)
              else some (c, logs_error ∷ [])
        ])
    go (failed errno) busy = unchanged (logs_error ∷ []) refl refl inv
    go (done n) busy = elim (dec_lt 0 n) [
      | yes h ↦ rw (lt→ltb 0 n h) (some_written-Stepped inv n h busy)
      | no h ↦ rw (le→ltb 0 n (omega arith)) (unchanged (logs_error ∷ []) refl refl inv)
    ]

-- A shutdown that waits for the output is not forgotten: when the kernel takes all of what waits,
-- `HandleWrite` shuts the writing side down.
pub handle_write-shuts :
    (write : Write) {c : TcpConnection}
    → Inv c
    → c.state ≡ disconnecting
    → is_writing c.channel ≡ true
    → write (contents c.output_buffer) ≡ done (length (contents c.output_buffer))
    → (d : TcpConnection) × (es : List Effect) × (handle_write write c ≡ some (d, es))
      × (contents d.output_buffer ≡ [])
      × (shuts es ≡ true)
unfolding handle_write some_written stopped left
handle_write-shuts write {c} inv closing busy took = (
  stopped (record c { output_buffer = left inv n some_bytes busy }),
  writes (take n (contents c.output_buffer)) ∷ finishing c,
  rw (
    busy,
    write_fd_lem write inv.output,
    took,
    lt→ltb 0 n some_bytes,
    none_readable,
    all_written_lem (record c { output_buffer = retrive c.output_buffer n }),
  ),
  contents_of_zero (retrive-IsValid n inv.output) none_readable,
  rw closing (ground arith),
)
  where
    n : ℕ
    n = length (contents c.output_buffer)

    some_bytes : 0 < n
    some_bytes =
        let e : is_writing c.channel ≡ not (readable_bytes c.output_buffer == 0) =
          inv.armed (rw closing) in
        let ne : readable_bytes c.output_buffer ≢ 0 = ground arith in
        omega (arith, length-contents inv.output)

    none_readable : readable_bytes (retrive c.output_buffer n) ≡ 0
    none_readable = omega (
      arith,
      length-contents (retrive-IsValid n inv.output),
      ap length (contents-retrive n inv.output),
      ap length (drop_all n (contents c.output_buffer) (omega arith)),
    )
