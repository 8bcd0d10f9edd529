-- ===== src/Socket/Tests.antt =====
-- A server on socket 3 that accepts connection 5.
use my_net_lib.Common.{Option, arith, false, none, put, refl, some, true, ℕ, ◌≡◌}
use my_net_lib.Os.{failed, done}
use my_net_lib.TcpServer.{hands_over}
use my_net_lib.Channel.{new_channel, read_event, is_reading}
use my_net_lib.Socket.{
  Acceptor, change, acceptor_of, acceptor_listen, Descriptors, new_socket, new_acceptor,
  acceptor_read,
}
use my_net_lib.Socket.Accept.{accepted_blocks}

abbrev nothing_open : Descriptors
nothing_open fd = none

abbrev sockets_of : Option (ℕ × Descriptors) → Descriptors
sockets_of none = nothing_open
sockets_of (some (fd, k)) = k

abbrev bound : Descriptors
bound = sockets_of (new_acceptor (done 3) true true nothing_open)

abbrev listening : Descriptors
listening = put 3 (change (λ d. record d { listening = true }) (bound 3)) bound

abbrev acceptor : Acceptor
acceptor = record {
  listenning = true;
  accept_channel = record (new_channel 3) { has_read = true; events = read_event };
}

-- The options of the socket that listens, had somebody made it block.
abbrev blocking : Descriptors
blocking = put 3 (change (λ d. record d { nonblocking = false }) (listening 3)) listening

accepted_blocks_example :
    (k'' : Descriptors) × (is_reading acceptor.accept_channel ≡ true)
    × (listening 3 ≡ some (record (new_socket true) { reuse_addr = true; listening = true }))
    × (acceptor_read (done 5) true 3 blocking ≡ some (hands_over 5, k''))
    × (k'' 3 ≡ some (record (new_socket true) { reuse_addr = true; listening = true }))
    × (k'' 5 ≡ some (record (new_socket false) { reuse_addr = true; reuse_port = true }))
unfolding new_acceptor acceptor_listen acceptor_of
accepted_blocks_example =
    accepted_blocks 3 5 true nothing_open blocking refl refl refl (omega arith)
      (λ e. absurd (omega arith))

-- EMFILE (24) and EAGAIN (11) end the program as well.
ends_program : acceptor_read (failed 24) true 3 listening ≡ none
unfolding acceptor_read
ends_program = refl
