-- ===== src/TcpConnection/Quiet.antt =====
-- The calls that the channel and the server make, but for reading: they leave the input alone and
-- may only close the connection.
use my_net_lib.Common.{Bool-cases, List, [], arith, inl, inr, refl, some, ◌≡◌, ◌⊎◌}
use my_net_lib.Os.{Write}
use my_net_lib.TcpConnection.{
  TcpConnection, Effect, connected, disconnected, is_state, handle_close, handle_error,
  connection_destroyed,
}
use my_net_lib.TcpConnection.Stream.{Event, writable, closes, errs, destroys, step, taken, IsLawful}
use my_net_lib.TcpConnection.Same.{handle_write-Same}

pub data IsQuiet : Event → Type 0 where
  is_writable : (write : Write) → IsQuiet (writable write)
  is_closes : IsQuiet closes
  is_errs : IsQuiet errs
  is_destroys : IsQuiet destroys

pub IsQuiet-IsLawful : (c : TcpConnection) {e : Event} → IsQuiet e → IsLawful c e
IsQuiet-IsLawful c (is_writable write) = tt
IsQuiet-IsLawful c is_closes = tt
IsQuiet-IsLawful c is_errs = tt
IsQuiet-IsLawful c is_destroys = tt

pub IsQuiet-taken : (c : TcpConnection) {e : Event} → IsQuiet e → taken c e ≡ []
IsQuiet-taken c (is_writable write) = refl
IsQuiet-taken c is_closes = refl
IsQuiet-taken c is_errs = refl
IsQuiet-taken c is_destroys = refl

pub IsQuiet-step :
    (c : TcpConnection) {e : Event} {d : TcpConnection} {es : List Effect}
    → IsQuiet e
    → step c e ≡ some (d, es)
    → (d.input_buffer ≡ c.input_buffer) × ((d.state ≡ c.state) ⊎ (d.state ≡ disconnected))
unfolding step handle_close handle_error connection_destroyed
IsQuiet-step c (is_writable write) h =
    let same = handle_write-Same write c h in (same.1, inl same.0)
IsQuiet-step c is_closes h = (ground arith, inr (ground arith))
IsQuiet-step c is_errs h = (ground arith, inl (ground arith))
IsQuiet-step c is_destroys h = elim (Bool-cases (is_state c.state connected)) [
  | inl e ↦ (ground arith, inr (ground arith))
  | inr e ↦ (ground arith, inl (ground arith))
]
