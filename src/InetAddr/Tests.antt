-- ===== src/InetAddr/Tests.antt =====
-- The address 127.0.0.1:8080, as a little-endian machine has it.
use my_net_lib.Common.{List, [], arith, drop, length, refl, some, take, ℕ, ◌++◌, ◌∷◌, ◌≡◌, ◌≤◌}
use my_net_lib.Decimal.{decimal, atoi}
use my_net_lib.InetAddr.{InetAddr, any_addr, new_addr, to_port, to_ip, to_ip_port, default_addr}
use my_net_lib.InetAddr.Ports.{IsInetNtop, to_port_lem, to_ip_port_lem}

-- "127.0.0.1"
abbrev loopback : List ℕ
loopback = 49 ∷ 50 ∷ 55 ∷ 46 ∷ 48 ∷ 46 ∷ 48 ∷ 46 ∷ 49 ∷ []

abbrev prints_loopback : ℕ → List ℕ
prints_loopback s_addr = loopback

prints_loopback-IsInetNtop : IsInetNtop prints_loopback
prints_loopback-IsInetNtop s_addr = omega arith

abbrev local : InetAddr
local = record { sin_port = 36895; s_addr = 16777343 }

to_port_lem_example :
    (to_port (new_addr (λ ip. 16777343) loopback 8080) ≡ 8080)
    × (to_port (any_addr 8080) ≡ 8080)
    × (to_port default_addr ≡ 10001)
to_port_lem_example = to_port_lem (λ ip. 16777343) loopback 8080

prints_local : to_ip_port prints_loopback local ≡ some (loopback ++ 58 ∷ 56 ∷ 48 ∷ 56 ∷ 48 ∷ [])
unfolding to_ip_port decimal
prints_local = refl

to_ip_port_lem_example :
    (text : List ℕ) × (to_ip_port prints_loopback local ≡ some text)
    × (length text ≤ 21)
    × (take (length (to_ip prints_loopback local)) text ≡ loopback)
    × (atoi (drop 1 (drop (length (to_ip prints_loopback local)) text)) ≡ to_port local)
to_ip_port_lem_example =
    to_ip_port_lem prints_loopback local prints_loopback-IsInetNtop (omega arith)
