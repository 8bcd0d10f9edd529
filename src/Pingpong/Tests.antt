-- ===== src/Pingpong/Tests.antt =====
-- The block on its way, at concrete inputs.
use my_net_lib.Common.{
  List, [], arith, get_elem?, length, refl, replicate, true, ℕ, ◌%◌, ◌++◌, ◌+◌, ◌∷◌, ◌≡◌, ◌≤◌,
}
use my_net_lib.EchoServer.Tests.{three, answered-History}
use my_net_lib.Pingpong.{
  session_connection, Client, all_connected, message, new_session, session_message,
}
use my_net_lib.Pingpong.Bounce.{joined, session_run, bounces, in_flight}
use my_net_lib.Pingpong.Sessions.{
  connects, disconnects, changes, final_report, client_ends, quits_early,
}

-- Of a block of three bytes the server got all, and the client got one back.
abbrev one_piece : List (List ℕ)
one_piece = (104 ∷ []) ∷ []

bounces_example : get_elem? (joined one_piece) 0 ≡ get_elem? three (0 % 3)
unfolding session_run
bounces_example =
    bounces three one_piece 0 answered-History ([], refl) (104 ∷ [], refl) (omega arith)
      (omega arith)

in_flight_example :
    let s = (session_run one_piece new_session).0 in
    (s.bytes_read ≡ length (joined one_piece))
    × (s.bytes_written ≡ s.bytes_read)
    × (s.messages_read ≡ length one_piece)
    × (length three ≤ length three + s.bytes_read)
    × (1 ≤ length three + s.bytes_read)
unfolding session_run
in_flight_example = in_flight three one_piece answered-History (104 ∷ [], refl)

abbrev two_sessions : Client
two_sessions = record {
  session_count = 2;
  num_connected = 0;
  sessions = new_session ∷ (session_message (1 ∷ 2 ∷ []) new_session).0 ∷ [];
}

client_ends_example :
    changes (replicate 2 connects ++ replicate 2 disconnects) two_sessions
    ≡ (record two_sessions { num_connected = 0 }, all_connected ∷ final_report two_sessions)
client_ends_example = client_ends 1 two_sessions refl refl

quits_early_example :
    (changes (connects ∷ disconnects ∷ []) two_sessions).1 ≡ final_report two_sessions
quits_early_example = quits_early two_sessions refl (omega arith)

-- The block of the client starts over behind 127.
block : message 130 ≡ message 128 ++ 0 ∷ 1 ∷ []
unfolding message
block = refl

-- The first of two sessions sends its block.
first_session :
    session_connection true 3 two_sessions
    ≡ (record two_sessions { num_connected = 1 }, [], 0 ∷ 1 ∷ 2 ∷ [])
unfolding session_connection
first_session = refl
