-- ===== src/TcpConnection/Tests.antt =====
-- A connection at concrete inputs.
use my_net_lib.Common.{List, [], arith, length, min, none, refl, some, ℕ, ◌++◌, ◌∷◌, ◌≡◌}
use my_net_lib.Os.{done, Write, IsWrite}
use my_net_lib.Buffer.{Buffer, init, append, retrive, write_fd}
use my_net_lib.Buffer.Valid.{IsValid, contents}
use my_net_lib.TcpConnection.{
  connected, TcpConnection, Effect, new_connection, connection_established, Outcome,
}
use my_net_lib.TcpConnection.Inv.{Inv, wire, Stepped}
use my_net_lib.TcpConnection.Stream.{Event, sends, writable, shuts_down, step}
use my_net_lib.TcpConnection.Life.{Reach, start, next, step-Stepped, Reach-stream, shutdown_is_last}

-- A kernel that takes at most `k` bytes at a time.
abbrev takes : ℕ → Write
takes k bytes = done (min k (length bytes))

takes-IsWrite : (k : ℕ) → IsWrite (takes k)
takes-IsWrite k bytes n e = let h : min k (length bytes) ≡ n = ground arith in omega arith

after : Outcome → TcpConnection
unfolding new_connection init
after none = new_connection 0
after (some (c, es)) = c

did : Outcome → List Effect
did none = []
did (some (c, es)) = es

abbrev opened : TcpConnection
opened = after (connection_established (new_connection 5))

abbrev sending : Event
sending = sends (takes 2) (1 ∷ 2 ∷ 3 ∷ 4 ∷ 5 ∷ [])

abbrev half_sent : TcpConnection
half_sent = after (step opened sending)

abbrev closing : TcpConnection
closing = after (step half_sent shuts_down)

opened-Reach : Reach 5 opened [] []
unfolding after connection_established
opened-Reach = start refl

half_sent-Reach : Reach 5 half_sent (1 ∷ 2 ∷ []) (1 ∷ 2 ∷ 3 ∷ 4 ∷ 5 ∷ [])
unfolding after connection_established step append new_connection
half_sent-Reach = next sending opened-Reach (takes-IsWrite 2, omega arith) refl refl refl

closing-Reach : Reach 5 closing (1 ∷ 2 ∷ []) (1 ∷ 2 ∷ 3 ∷ 4 ∷ 5 ∷ [])
unfolding after connection_established step append new_connection
closing-Reach = next shuts_down half_sent-Reach tt refl refl refl

Reach-stream_example :
    Inv half_sent × ((1 ∷ 2 ∷ []) ++ contents half_sent.output_buffer ≡ 1 ∷ 2 ∷ 3 ∷ 4 ∷ 5 ∷ [])
Reach-stream_example = Reach-stream half_sent-Reach

step-Stepped_example : Stepped half_sent [] (step half_sent (writable (takes 9)))
step-Stepped_example = step-Stepped (writable (takes 9)) (Reach-stream half_sent-Reach).0 tt

-- The rest goes out, and the end after it.
shutdown_is_last_example :
    (1 ∷ 2 ∷ []) ++ wire (did (step closing (writable (takes 9)))) ≡ (1 ∷ 2 ∷ 3 ∷ 4 ∷ 5 ∷ []) ++ []
unfolding after did connection_established step append new_connection write_fd retrive
shutdown_is_last_example =
    shutdown_is_last {d = after (step closing (writable (takes 9)))} (writable (takes 9))
      closing-Reach tt refl refl refl

-- A buffer of two bytes, handed over to the loop's thread.
abbrev two_bytes : Buffer
two_bytes = record {
  buffer = 0 ∷ 0 ∷ 0 ∷ 0 ∷ 0 ∷ 0 ∷ 0 ∷ 0 ∷ 65 ∷ 66 ∷ [];
  read_index = 8;
  write_index = 10;
}

two_bytes-IsValid : IsValid two_bytes
two_bytes-IsValid = record {
  prepend = omega arith;
  ordered = omega arith;
  within = omega arith;
  bounded = omega arith;
}

abbrev connection : TcpConnection
connection = record (new_connection 5) { state = connected }
