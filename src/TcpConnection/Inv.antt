-- ===== src/TcpConnection/Inv.antt =====
-- What holds of a connection between two calls, and what a call leaves.
use my_net_lib.Common.{
  Bool, List, List-cases, [], ap, append_assoc, arith, false, inl, inr, length, not, refl, some,
  subst, sym, true, ℕ, ◌++◌, ◌==◌, ◌∙◌, ◌∷◌, ◌≡◌,
}
use my_net_lib.Buffer.{Buffer, readable_bytes}
use my_net_lib.Buffer.Valid.{IsValid, contents, length-contents}
use my_net_lib.Channel.{
  Channel, is_writing, enable_read, enable_write, disable_write, disable_all, tie,
}
use my_net_lib.TcpConnection.{
  disconnected, is_state, TcpConnection, Effect, writes, shuts_down_write, Outcome, effect_if,
  updates_channel,
}

-- The channel waits for POLLOUT exactly while output is buffered; a closed connection does not.
pub record Inv (c : TcpConnection) : Type 0 where
  pub input : IsValid c.input_buffer
  pub output : IsValid c.output_buffer
  pub armed :
      is_state c.state disconnected ≡ false
      → is_writing c.channel ≡ not (readable_bytes c.output_buffer == 0)
  pub closed : is_state c.state disconnected ≡ true → is_writing c.channel ≡ false

-- The bytes that the kernel took, in order.
abbrev pub wire : List Effect → List ℕ
wire [] = []
wire (writes bytes ∷ es) = bytes ++ wire es
wire (_ ∷ es) = wire es

-- Whether the writing side of the socket is shut down.
abbrev pub shuts : List Effect → Bool
shuts [] = false
shuts (shuts_down_write ∷ es) = true
shuts (_ ∷ es) = shuts es

pub wire-append : (xs ys : List Effect) → wire (xs ++ ys) ≡ wire xs ++ wire ys
wire-append [] ys = refl
wire-append (writes bytes ∷ es) ys =
    ap (λ t. bytes ++ t) (wire-append es ys) ∙ sym (append_assoc bytes (wire es) (wire ys))
wire-append (_ ∷ es) ys = wire-append es ys

-- A call that puts `more` behind the bytes to send.
pub record Stepped (c : TcpConnection) (more : List ℕ) (r : Outcome) : Type 0 where
  pub conn : TcpConnection
  pub effects : List Effect
  pub returns : r ≡ some (conn, effects)
  pub inv : Inv conn
  pub stream : wire effects ++ contents conn.output_buffer ≡ contents c.output_buffer ++ more
  pub drained :
      is_state c.state disconnected ≡ false
      → shuts effects ≡ true
      → contents conn.output_buffer ≡ []

pub writing-enable : (c : Channel) → is_writing (enable_write c) ≡ true
unfolding enable_write
writing-enable c = ground arith

pub writing-disable : (c : Channel) → is_writing (disable_write c) ≡ false
unfolding disable_write
writing-disable c = ground arith

pub writing-disable_all : (c : Channel) → is_writing (disable_all c) ≡ false
unfolding disable_all
writing-disable_all c = refl

pub writing-established : (c : Channel) → is_writing (enable_read (tie c)) ≡ is_writing c
unfolding enable_read tie
writing-established c = ground arith

-- Nothing is readable exactly when there are no bytes.
pub contents_of_zero : {b : Buffer} → IsValid b → readable_bytes b ≡ 0 → contents b ≡ []
contents_of_zero {b} v e = elim (List-cases (contents b)) [
  | inl empty ↦ empty
  | inr (x, xs, e') ↦ absurd (omega (arith, length-contents v, ap length e', e))
]

pub shuts-append : (xs ys : List Effect) → shuts xs ≡ false → shuts (xs ++ ys) ≡ shuts ys
shuts-append [] ys h = refl
shuts-append (shuts_down_write ∷ es) ys h = cc
shuts-append (_ ∷ es) ys h = shuts-append es ys h

-- An update of the channel moves no bytes.
pub wire-update : (b : Bool) → wire (effect_if b updates_channel) ≡ []
wire-update b = ground arith

pub shuts-update : (b : Bool) → shuts (effect_if b updates_channel) ≡ false
shuts-update b = ground arith

-- What is known of the connection that a call returned.
pub record Ends (c : TcpConnection) (more : List ℕ) (d : TcpConnection) (es : List Effect)
    : Type 0 where
  pub inv : Inv d
  pub stream : wire es ++ contents d.output_buffer ≡ contents c.output_buffer ++ more
  pub drained :
      is_state c.state disconnected ≡ false → shuts es ≡ true → contents d.output_buffer ≡ []

pub Stepped-Ends :
    {c : TcpConnection} {more : List ℕ} {r : Outcome} {d : TcpConnection} {es : List Effect}
    → Stepped c more r
    → r ≡ some (d, es)
    → Ends c more d es
Stepped-Ends {c} {more} {d} {es} st e =
    subst (λ (p : TcpConnection × List Effect). Ends c more p.0 p.1) same
      (record { inv = st.inv; stream = st.stream; drained = st.drained })
  where
    same : ◌≡◌ {A = TcpConnection × List Effect} (st.conn, st.effects) (d, es)
    same = cc (st.returns)
