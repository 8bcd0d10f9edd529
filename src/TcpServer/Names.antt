-- ===== src/TcpServer/Names.antt =====
-- The names of the connections.
use my_net_lib.Common.{
  List, [], ap, arith, drop, length, length-append, some, some_eq, subst, sym, take, take_all, ℕ,
  ◌++◌, ◌<◌, ◌^◌, ◌∙◌, ◌∷◌, ◌≡◌, ◌≤◌,
}
use my_net_lib.Decimal.{decimal}
use my_net_lib.Decimal.RoundTrip.{decimal-injective, length-decimal}
use my_net_lib.InetAddr.{InetAddr, to_ip_port}
use my_net_lib.InetAddr.Ports.{IsInetNtop, IsAddr, to_ip_port_lem}
use my_net_lib.TcpServer.{conn_name}

append_cancel : (xs ys zs : List ℕ) → xs ++ ys ≡ xs ++ zs → ys ≡ zs
append_cancel [] ys zs e = e
append_cancel (x ∷ xs) ys zs e = append_cancel xs ys zs (ap (drop 1) e)

-- The name of a connection is printed whole.
name_whole :
    (ip_port : List ℕ) (i : ℕ)
    → length ip_port ≤ 21
    → i < 2 ^ 31
    → take 63 (b'-' ∷ (ip_port ++ b'#' ∷ decimal i)) ≡ b'-' ∷ (ip_port ++ b'#' ∷ decimal i)
name_whole ip_port i short small = take_all 63 (b'-' ∷ (ip_port ++ b'#' ∷ decimal i)) (
    omega (
      arith,
      length-append ip_port (b'#' ∷ decimal i),
      length-decimal 10 i (omega arith) (omega arith),
    ))

-- What follows the address in two names is the same only for one number.
pub conn_name_short :
    (name ip_port : List ℕ) (i j : ℕ)
    → length ip_port ≤ 21
    → i < 2 ^ 31
    → j < 2 ^ 31
    → conn_name name ip_port i ≡ conn_name name ip_port j
    → i ≡ j
unfolding conn_name
conn_name_short name ip_port i j short hi hj e = decimal-injective i j (omega arith) (omega arith) (
    ap (drop 1) (
      append_cancel ip_port (b'#' ∷ decimal i) (b'#' ∷ decimal j) (
        ap (drop 1) (
          sym (name_whole ip_port i short hi)
          ∙ append_cancel name _ _ e
          ∙ name_whole ip_port j short hj))))

-- Two connections of a server that have the same name have the same number, for the first 2 ^ 31
-- connections: `snprintf` cuts nothing off.
pub conn_name-injective :
    (inet_ntop : ℕ → List ℕ) (a : InetAddr) (name ip_port : List ℕ) (i j : ℕ)
    → IsInetNtop inet_ntop
    → IsAddr a
    → to_ip_port inet_ntop a ≡ some ip_port
    → i < 2 ^ 31
    → j < 2 ^ 31
    → conn_name name ip_port i ≡ conn_name name ip_port j
    → i ≡ j
conn_name-injective inet_ntop a name ip_port i j law h printed hi hj e =
    let (text, same, bound, _, _) = to_ip_port_lem inet_ntop a law h in
    let e' : some text ≡ some ip_port = sym same ∙ printed in
    conn_name_short name ip_port i j (subst (λ t. length t ≤ 21) (some_eq e') bound) hi hj e
