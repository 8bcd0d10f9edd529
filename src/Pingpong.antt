-- ===== src/Pingpong.antt =====
-- example/pingpong_client.cc, example/pingpong_server.cc: a block of bytes that goes to and fro. The
-- client uses another library: of its `TcpConnection` a session gets the bytes that arrive, and
-- `send` sends all of them.
pub mod Bounce
pub mod Sessions
mod Tests
use my_net_lib.Common.{
  Bool, List, [], if◌then◌else◌, length, suc, true, zero, ℕ, ◌%◌, ◌+◌, ◌-◌, ◌==◌, ◌>>=◌, ◌>>◌, ◌∷◌,
}
use my_net_lib.Os.{Write}
use my_net_lib.Buffer.{retrive_all_as_string}
use my_net_lib.TcpConnection.{TcpConnection, Outcome, send}

-- `OnMessage` of the server.
unfoldable pub server_message : Write → TcpConnection → Outcome
server_message write c = do
  (buffer, input) ← retrive_all_as_string c.input_buffer
  send true write (record c { input_buffer = input }) buffer

pub record Session : Type 0 where
  pub bytes_read : ℕ
  pub bytes_written : ℕ
  pub messages_read : ℕ

-- The constructor.
abbrev pub new_session : Session
new_session = record { bytes_read = 0; bytes_written = 0; messages_read = 0 }

-- `onMessage`, with what is sent.
unfoldable pub session_message : List ℕ → Session → Session × List ℕ
session_message bytes s = (
  record s {
    messages_read = s.messages_read + 1;
    bytes_read = s.bytes_read + length bytes;
    bytes_written = s.bytes_written + length bytes;
  },
  bytes,
)

-- `message_` of the client.
unfoldable pub message_from : (i block_size : ℕ) → List ℕ
message_from i zero = []
message_from i (suc n) = (i % 128) ∷ message_from (i + 1) n

unfoldable pub message : (block_size : ℕ) → List ℕ
unfolding message_from
message block_size = message_from 0 block_size

pub record Client : Type 0 where
  pub session_count : ℕ
  pub num_connected : ℕ
  pub sessions : List Session

-- What the client tells: `totals` with the bytes and the messages read.
pub data Report : Type 0 where
  all_connected : Report
  all_disconnected : Report
  totals : (bytes messages : ℕ) → Report
  quits_loop : Report

unfoldable pub on_connect : Client → Client × List Report
on_connect c = (
  record c { num_connected = c.num_connected + 1 },
  if c.num_connected + 1 == c.session_count then all_connected ∷ [] else [],
)

abbrev pub total_bytes : List Session → ℕ
total_bytes [] = 0
total_bytes (s ∷ ss) = s.bytes_read + total_bytes ss

abbrev pub total_messages : List Session → ℕ
total_messages [] = 0
total_messages (s ∷ ss) = s.messages_read + total_messages ss

-- Only a session that was connected is disconnected.
unfoldable pub on_disconnect : Client → Client × List Report
on_disconnect c = (
  record c { num_connected = c.num_connected - 1 },
  if c.num_connected - 1 == 0
      then all_disconnected
        ∷ totals (total_bytes c.sessions) (total_messages c.sessions)
        ∷ quits_loop
        ∷ []
      else [],
)

-- `onConnection` of a session, with what is sent.
unfoldable pub session_connection :
    (is_connected : Bool) → (block_size : ℕ) → Client → Client × List Report × List ℕ
unfolding on_connect on_disconnect message
session_connection is_connected block_size c =
    if is_connected
    then (let r = on_connect c in (r.0, r.1, message block_size))
    else (let r = on_disconnect c in (r.0, r.1, []))
