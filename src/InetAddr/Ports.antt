-- ===== src/InetAddr/Ports.antt =====
-- The port comes back from an address and from its text.
use my_net_lib.Common.{
  List, [], ap, append-nil, arith, drop, drop-append_le, drop_all, if_true, length, length-append,
  lt→ltb, some, sym, take, take-append_le, take_all, ℕ, ◌%◌, ◌++◌, ◌<◌, ◌^◌, ◌∙◌, ◌∷◌, ◌≡◌, ◌≤◌,
}
use my_net_lib.Decimal.{decimal, atoi}
use my_net_lib.Decimal.RoundTrip.{atoi-decimal, length-decimal}
use my_net_lib.InetAddr.{
  InetAddr, htons, ntohs, new_addr, any_addr, default_addr, to_port, to_ip, to_ip_port,
}

-- A port on its way through the two byte orders.
ntohs-htons : (port : ℕ) → port < 2 ^ 16 → ntohs (htons port) ≡ port
unfolding ntohs htons
ntohs-htons port h = omega arith

htons_bound : (port : ℕ) → port < 2 ^ 16 → htons port < 2 ^ 16
unfolding htons
htons_bound port h = omega arith

-- The three constructors keep the port, reduced to 16 bits.
pub to_port_lem :
    (inet_addr : List ℕ → ℕ) (ip : List ℕ) (port : ℕ)
    → (to_port (new_addr inet_addr ip port) ≡ port % 2 ^ 16)
      × (to_port (any_addr port) ≡ port % 2 ^ 16)
      × (to_port default_addr ≡ 10001)
unfolding to_port new_addr any_addr default_addr
to_port_lem inet_addr ip port = (
  ntohs-htons (port % 2 ^ 16) (omega arith),
  ntohs-htons (port % 2 ^ 16) (omega arith),
  ntohs-htons 10001 (omega arith),
)

-- inet_ntop(3): a dotted address has at most 15 characters (`INET_ADDRSTRLEN` is 16).
abbrev pub IsInetNtop : (ℕ → List ℕ) → Type 0
IsInetNtop inet_ntop = (s_addr : ℕ) → length (inet_ntop s_addr) ≤ 15

-- An address that the library made or the kernel filled in.
abbrev pub IsAddr : InetAddr → Type 0
IsAddr a = a.sin_port < 2 ^ 16

to_port_bound : (a : InetAddr) → IsAddr a → to_port a < 2 ^ 16
unfolding to_port ntohs htons
to_port_bound a h = omega arith

-- The text of an address fits its buffer of 64 bytes, has at most 21 characters, and is the ip, a
-- colon, and a number that reads as the port.
pub to_ip_port_lem :
    (inet_ntop : ℕ → List ℕ) (a : InetAddr)
    → IsInetNtop inet_ntop
    → IsAddr a
    → (text : List ℕ) × (to_ip_port inet_ntop a ≡ some text)
      × (length text ≤ 21)
      × (take (length (to_ip inet_ntop a)) text ≡ inet_ntop a.s_addr)
      × (atoi (drop 1 (drop (length (to_ip inet_ntop a)) text)) ≡ to_port a)
unfolding to_ip_port to_ip
to_ip_port_lem inet_ntop a law h = (
  text,
  if_true _ _ (lt→ltb (length text) 64 (omega (arith, short))),
  short,
  take-append_le (length ip) ip (b':' ∷ decimal (to_port a)) (omega arith)
      ∙ take_all (length ip) ip (omega arith)
      ∙ whole,
  ap (λ t. atoi (drop 1 t)) after_ip
      ∙ ap atoi (sym (append-nil (decimal (to_port a))))
      ∙ atoi-decimal (to_port a) [] (omega (arith, to_port_bound a h)) tt,
)
  where
    ip : List ℕ
    ip = to_ip inet_ntop a

    text : List ℕ
    text = ip ++ b':' ∷ decimal (to_port a)

    whole : ip ≡ inet_ntop a.s_addr
    whole = if_true _ _ (lt→ltb (length (inet_ntop a.s_addr)) 64 (omega (arith, law a.s_addr)))

    short : length text ≤ 21
    short = omega (
      arith,
      law a.s_addr,
      ap length whole,
      length-append ip (b':' ∷ decimal (to_port a)),
      length-decimal 5 (to_port a) (omega (arith, to_port_bound a h)) (omega arith),
    )

    after_ip : drop (length ip) text ≡ b':' ∷ decimal (to_port a)
    after_ip =
        drop-append_le (length ip) ip (b':' ∷ decimal (to_port a)) (omega arith)
        ∙ ap (λ t. t ++ b':' ∷ decimal (to_port a)) (drop_all (length ip) ip (omega arith))
