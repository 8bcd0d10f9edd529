-- ===== src/InetAddr.antt =====
-- include/inet_addr.h, src/inet_addr.cc: an address of the internet as the kernel has it. The C
-- library's conversions of the ip are arguments.
pub mod Ports
mod Tests
use my_net_lib.Common.{
  List, Option, [], if◌then◌else◌, length, ltb, none, some, ℕ, ◌%◌, ◌*◌, ◌++◌, ◌+◌, ◌/◌, ◌^◌, ◌∷◌,
}
use my_net_lib.Decimal.{decimal}

-- `addr_`: the port and the ip in network byte order, as a little-endian machine reads them.
pub record InetAddr : Type 0 where
  pub sin_port : ℕ
  pub s_addr : ℕ

-- The two bytes of a `uint16_t` swapped.
unfoldable pub htons : ℕ → ℕ
htons port = (port % 256) * 256 + port / 256

unfoldable pub ntohs : ℕ → ℕ
unfolding htons
ntohs port = htons port

-- `INADDR_ANY`
abbrev pub inaddr_any : ℕ
inaddr_any = 0

-- The constructors; an argument is converted to `uint16_t`.
unfoldable pub new_addr : (inet_addr : List ℕ → ℕ) → (ip : List ℕ) → (port : ℕ) → InetAddr
unfolding htons
new_addr inet_addr ip port = record { sin_port = htons (port % 2 ^ 16); s_addr = inet_addr ip }

unfoldable pub any_addr : (port : ℕ) → InetAddr
unfolding htons
any_addr port = record { sin_port = htons (port % 2 ^ 16); s_addr = inaddr_any }

unfoldable pub default_addr : InetAddr
unfolding htons
default_addr = record { sin_port = htons 10001; s_addr = inaddr_any }

unfoldable pub to_port : InetAddr → ℕ
unfolding ntohs
to_port a = ntohs a.sin_port

-- `inet_ntop` of a buffer of `size` bytes: the text that it writes, with its `\0`; nothing if that
-- does not fit.
abbrev pub written : (size : ℕ) → List ℕ → List ℕ
written size text = if ltb (length text) size then text else []

unfoldable pub to_ip : (inet_ntop : ℕ → List ℕ) → InetAddr → List ℕ
to_ip inet_ntop a = written 64 (inet_ntop a.s_addr)

-- `sprintf` does not look where the buffer of 64 bytes ends: `none` when it writes past it.
unfoldable pub to_ip_port : (inet_ntop : ℕ → List ℕ) → InetAddr → Option (List ℕ)
unfolding to_ip to_port
to_ip_port inet_ntop a =
    let text = to_ip inet_ntop a ++ b':' ∷ decimal (to_port a) in
    if ltb (length text) 64 then some text else none
