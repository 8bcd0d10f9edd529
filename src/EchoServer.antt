-- ===== src/EchoServer.antt =====
-- example/echo_server.cc: the message callback, and what a connection of the server does when its
-- channel has something to read. The connection and the write-complete callback only log.
pub mod Served
pub mod Echo
pub mod History
pub mod Settings
pub mod Tests
use my_net_lib.Common.{List, true, ℕ, ◌>>=◌, ◌>>◌}
use my_net_lib.Decimal.{codes, atoi}
use my_net_lib.Config.{Config, value_of}
use my_net_lib.InetAddr.{InetAddr, any_addr}
use my_net_lib.Os.{Readv, Write}
use my_net_lib.Buffer.{retrive_all_as_string}
use my_net_lib.TcpConnection.Dispatch.{receive}
use my_net_lib.TcpConnection.{TcpConnection, Effect, calls_message, Outcome, send, handle_read}

-- `OnMessage`, in the loop's thread.
unfoldable pub on_message : Write → TcpConnection → Outcome
on_message write c = do
  (msg, input) ← retrive_all_as_string c.input_buffer
  send true write (record c { input_buffer = input }) msg

-- `HandleRead` with the callback that it calls.
unfoldable pub serve_read : Readv → Write → TcpConnection → Outcome
unfolding on_message receive
serve_read readv write c = receive readv (on_message write) c

-- "server_listen_port" and "server_thread_num"
abbrev pub port_key : List ℕ
port_key = codes "server_listen_port"

abbrev pub thread_num_key : List ℕ
thread_num_key = codes "server_thread_num"

-- What `main` makes of the configuration.
unfoldable pub listen_addr : Config → InetAddr
unfolding atoi value_of any_addr
listen_addr mp = any_addr (atoi (value_of port_key mp))

unfoldable pub thread_num : Config → ℕ
unfolding atoi value_of
thread_num mp = atoi (value_of thread_num_key mp)
