-- ===== src/TcpConnection/Sending.antt =====
-- `SendInLoop` and `Send`: the bytes go out at once or behind those that wait, in order.
use my_net_lib.Common.{
  Bool, Bool-cases, List, [], ap, append-nil, ap₂, arith, drop, drop_all, false, if◌then◌else◌, inl,
  inr, length, length-append, length-drop, le→ltb, lt→ltb, not, refl, subst, sym, take,
  take-append-drop, take_all, true, ℕ, ◌&&◌, ◌++◌, ◌+◌, ◌-◌, ◌<◌, ◌==◌, ◌∙◌, ◌∷◌, ◌≡◌, ◌≢◌, ◌≤◌,
  ◌⊎◌,
}
use native.Mathlib.Decide.{dec_lt}
use my_net_lib.Os.{Transfer, failed, done, Write, IsWrite}
use my_net_lib.Buffer.{Buffer, max_size, readable_bytes, append}
use my_net_lib.Buffer.Valid.{IsValid, contents, length-contents}
use my_net_lib.Buffer.Space.{Appended, append-Appended}
use my_net_lib.Channel.{is_writing, enable_write}
use my_net_lib.TcpConnection.{
  disconnected, is_state, TcpConnection, logs_error, updates_channel, Attempt, attempt,
  writes_directly, first_attempt, buffer_rest, send_in_loop, effect_if,
}
use my_net_lib.TcpConnection.Inv.{
  Inv, wire, shuts, wire-append, wire-update, shuts-update, shuts-append, Stepped, writing-enable,
  contents_of_zero,
}

-- What the first part of `SendInLoop` may have done.
record Attempted (c : TcpConnection) (bytes : List ℕ) (a : Attempt) : Type 0 where
  sent : wire a.effects ≡ take a.nwrote bytes
  quiet : shuts a.effects ≡ false
  within : a.nwrote ≤ length bytes
  lost : a.fault_error ≡ true → a.nwrote ≡ 0
  first : (contents c.output_buffer ≡ []) ⊎ (a.nwrote ≡ 0)

attempt-Attempted :
    {c : TcpConnection} (bytes : List ℕ) (outcome : Transfer ℕ)
    → ((n : ℕ) → outcome ≡ done n → n ≤ length bytes)
    → contents c.output_buffer ≡ []
    → Attempted c bytes (attempt c.has_write_complete bytes outcome)
attempt-Attempted {c} bytes (failed errno) law e = record {
  sent = ground arith;
  quiet = ground arith;
  within = omega arith;
  lost = λ _. refl;
  first = inl e;
}
attempt-Attempted {c} bytes (done n) law e =
    elim (Bool-cases (length bytes - n == 0 && c.has_write_complete)) [
      | inl h ↦ rw h (record {
        sent = append-nil (take n bytes);
        quiet = refl;
        within = law n refl;
        lost = λ h'. cc;
        first = inl e;
      })
      | inr h ↦ rw h (record {
        sent = append-nil (take n bytes);
        quiet = refl;
        within = law n refl;
        lost = λ h'. cc;
        first = inl e;
      })
    ]

first_attempt-Attempted :
    {write : Write} (c : TcpConnection) (bytes : List ℕ)
    → IsWrite write
    → IsValid c.output_buffer
    → Attempted c bytes (first_attempt write c bytes)
unfolding first_attempt
first_attempt-Attempted {write} c bytes law v = elim (Bool-cases (writes_directly c)) [
  | inl direct ↦
      rw direct
        (attempt-Attempted bytes (write bytes) (law bytes) (contents_of_zero v (ground arith)))
  | inr waits ↦ rw waits (record {
    sent = refl;
    quiet = refl;
    within = omega arith;
    lost = λ h. refl;
    first = inr refl;
  })
]

module _ {c : TcpConnection} (bytes : List ℕ) (a : Attempt) (inv : Inv c)
    (open_ : is_state c.state disconnected ≡ false) (t : Attempted c bytes a) where
  lost-Stepped : a.fault_error ≡ true → Stepped c [] (buffer_rest c bytes a)
  unfolding buffer_rest
  lost-Stepped e = record {
    conn = c;
    effects = a.effects;
    returns = rw e;
    inv = inv;
    stream =
        ap (λ w. w ++ contents c.output_buffer) (t.sent ∙ ap (λ n. take n bytes) (t.lost e))
        ∙ sym (append-nil (contents c.output_buffer));
    drained = λ _ s. let never : false ≡ true = sym t.quiet ∙ s in absurd (cc);
  }

  stream_sent :
      length bytes ≤ a.nwrote
      → take a.nwrote bytes ++ contents c.output_buffer ≡ contents c.output_buffer ++ bytes
  stream_sent all = elim t.first [
    | inl e ↦ rw e (append-nil (take a.nwrote bytes) ∙ take_all a.nwrote bytes all)
    | inr e ↦
        let nothing : bytes ≡ [] = drop_all 0 bytes (omega arith) in
        rw e (
          sym (append-nil (contents c.output_buffer))
          ∙ ap (λ t. contents c.output_buffer ++ t) (sym nothing))
  ]

  stream_kept :
      take a.nwrote bytes ++ (contents c.output_buffer ++ drop a.nwrote bytes)
      ≡ contents c.output_buffer ++ bytes
  stream_kept = elim t.first [ inl e ↦ rw e (take-append-drop a.nwrote bytes) | inr e ↦ rw e ]

  sent-Stepped :
      a.fault_error ≡ false → length bytes ≤ a.nwrote → Stepped c bytes (buffer_rest c bytes a)
  unfolding buffer_rest
  sent-Stepped e all = record {
    conn = c;
    effects = a.effects;
    returns = rw (e, le→ltb 0 (length bytes - a.nwrote) (omega arith));
    inv = inv;
    stream = ap (λ w. w ++ contents c.output_buffer) t.sent ∙ stream_sent all;
    drained = λ _ s. let never : false ≡ true = sym t.quiet ∙ s in absurd (cc);
  }

  -- The connection when `output` is what it has left to send.
  kept : Buffer → TcpConnection
  kept output = record c {
    output_buffer = output;
    channel = if is_writing c.channel then c.channel else enable_write c.channel;
  }

  kept-writing : (output : Buffer) → is_writing (kept output).channel ≡ true
  unfolding kept
  kept-writing output = elim (Bool-cases (is_writing c.channel)) [
    | inl w ↦ rw w w
    | inr w ↦ rw w (writing-enable c.channel)
  ]

  kept-Inv : (output : Buffer) → IsValid output → readable_bytes output ≢ 0 → Inv (kept output)
  unfolding kept
  kept-Inv output v some_left = record {
    input = inv.input;
    output = v;
    armed = λ _. kept-writing output ∙ ground arith;
    closed = λ h. let never : false ≡ true = sym open_ ∙ h in absurd (cc);
  }

  kept-Stepped :
      a.fault_error ≡ false
      → a.nwrote < length bytes
      → c.output_buffer.write_index + length bytes ≤ max_size
      → Stepped c bytes (buffer_rest c bytes a)
  unfolding buffer_rest kept
  kept-Stepped e more room = record {
    conn = kept p.result;
    effects = a.effects ++ effect_if (not (is_writing c.channel)) updates_channel;
    returns = rw (e, lt→ltb 0 (length bytes - a.nwrote) (omega arith), p.returns);
    inv = kept-Inv p.result p.valid (omega (arith, length-contents p.valid, left));
    stream =
        ap₂ ◌++◌
          (wire-append a.effects (effect_if wakes updates_channel)
            ∙ ap₂ ◌++◌ t.sent (wire-update wakes)
            ∙ append-nil (take a.nwrote bytes))
          p.extended
        ∙ stream_kept;
    drained = λ _ s.
        let never : false ≡ true =
          sym
            (shuts-append a.effects (effect_if wakes updates_channel) t.quiet ∙ shuts-update wakes)
          ∙ s in
        absurd (cc);
  }
    where
      wakes : Bool
      wakes = not (is_writing c.channel)

      p :
          Appended c.output_buffer
            (drop a.nwrote bytes)
            (append c.output_buffer (drop a.nwrote bytes))
      p =
          append-Appended (drop a.nwrote bytes) inv.output
            (omega (arith, length-drop a.nwrote bytes))

      left : 0 < length (contents p.result)
      left = omega (
        arith,
        ap length p.extended,
        length-append (contents c.output_buffer) (drop a.nwrote bytes),
        length-drop a.nwrote bytes,
        more,
      )

  buffer_rest-Stepped :
      c.output_buffer.write_index + length bytes ≤ max_size
      → Stepped c (if a.fault_error then [] else bytes) (buffer_rest c bytes a)
  buffer_rest-Stepped room = elim (Bool-cases a.fault_error) [
    | inl e ↦ subst Result (sym e) (lost-Stepped e)
    | inr e ↦ subst Result (sym e) (elim (dec_lt a.nwrote (length bytes)) [
      | yes more ↦ kept-Stepped e more room
      | no all ↦ sent-Stepped e (omega arith)
    ])
  ]
    where
      Result : Bool → Type 0
      Result fault = Stepped c (if fault then [] else bytes) (buffer_rest c bytes a)

-- The bytes that `SendInLoop` takes on: none once the connection is closed, nor when the peer has
-- reset it.
abbrev pub accepted : Write → TcpConnection → List ℕ → List ℕ
accepted write c bytes =
    if is_state c.state disconnected
    then []
    else if (first_attempt write c bytes).fault_error
    then []
    else bytes

-- `SendInLoop` does not fault and keeps the invariant. What the kernel took, followed by what waits
-- in the buffer, is what waited before followed by the bytes taken on.
pub send_in_loop-Stepped :
    {write : Write} {c : TcpConnection} (bytes : List ℕ)
    → IsWrite write
    → Inv c
    → c.output_buffer.write_index + length bytes ≤ max_size
    → Stepped c (accepted write c bytes) (send_in_loop write c bytes)
unfolding send_in_loop
send_in_loop-Stepped {write} {c} bytes law inv room =
    elim (Bool-cases (is_state c.state disconnected)) [
      | inl e ↦ rw e (record {
        conn = c;
        effects = logs_error ∷ [];
        returns = refl;
        inv = inv;
        stream = sym (append-nil (contents c.output_buffer));
        drained = λ _ h. cc;
      })
      | inr e ↦ rw e (
          buffer_rest-Stepped bytes (first_attempt write c bytes) inv e
            (first_attempt-Attempted c bytes law inv.output) room)
    ]
