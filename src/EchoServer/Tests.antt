-- ===== src/EchoServer/Tests.antt =====
-- An echo server with one connection, at concrete inputs.
use my_net_lib.Common.{
  List, [], ap, arith, length, length-take, min, none, refl, some, sym, take, ℕ, ◌++◌, ◌∙◌, ◌∷◌,
  ◌≡◌,
}
use my_net_lib.Os.{Readv, IsReadv, sum, Write, IsWrite, done}
use my_net_lib.Buffer.{init, iov_lens, append, retrive_all, retrive_all_as_string, read_fd}
use my_net_lib.Buffer.Valid.{contents}
use my_net_lib.TcpConnection.{
  TcpConnection, Outcome, handle_read, send, connection_established, new_connection,
}
use my_net_lib.TcpConnection.Stream.{step, closes}
use my_net_lib.TcpConnection.Reading.{IsUp}
use my_net_lib.TcpConnection.Quiet.{is_closes}
use my_net_lib.Decimal.{codes, decimal}
use my_net_lib.Config.Lines.{IsEntry, decimal-IsEntry}
use my_net_lib.InetAddr.{to_port}
use my_net_lib.EchoServer.Settings.{with_settings, settings_lem}
use my_net_lib.EchoServer.{serve_read, port_key, thread_num_key, listen_addr, thread_num}
use my_net_lib.EchoServer.Echo.{IsServable}
use my_net_lib.EchoServer.History.{History, opens, reads, runs, echoes_all}

-- The peer has sent `bytes`, at most three of them.
abbrev pub three : List ℕ
three = 104 ∷ 105 ∷ 10 ∷ []

abbrev pub delivers : Readv
delivers lens = done (take (min 3 (sum lens)) three)

delivers-IsReadv : IsReadv delivers
delivers-IsReadv lens bytes e =
    let same : length bytes ≡ min (min 3 (sum lens)) 3 =
      ap length (sym (ground arith)) ∙ length-take (min 3 (sum lens)) three in
    omega arith

-- A kernel that takes at most one byte at a time.
abbrev pub takes_one : Write
takes_one bytes = done (min 1 (length bytes))

takes_one-IsWrite : IsWrite takes_one
takes_one-IsWrite bytes n e = let h : min 1 (length bytes) ≡ n = ground arith in omega arith

takes_one-IsUp : IsUp takes_one
takes_one-IsUp bytes errno e = absurd (cc)

abbrev pub after : Outcome → TcpConnection
unfolding new_connection init
after none = new_connection 0
after (some (c, es)) = c

abbrev pub opened : TcpConnection
opened = after (connection_established (new_connection 5))

opened-History : History 5 opened [] []
unfolding after connection_established
opened-History = opens refl

opened-IsServable : IsServable delivers takes_one opened
unfolding after connection_established new_connection iov_lens
opened-IsServable = record {
  reads = delivers-IsReadv;
  writes_within = takes_one-IsWrite;
  up = takes_one-IsUp;
  input_room = omega arith;
  output_room = ground arith;
}

abbrev pub answered : TcpConnection
answered = after (serve_read delivers takes_one opened)

pub answered-History : History 5 answered three (104 ∷ [])
unfolding after connection_established step append new_connection serve_read handle_read send
    retrive_all_as_string retrive_all read_fd iov_lens
answered-History = reads delivers takes_one opened-History opened-IsServable refl refl refl

echoes_all_example : (104 ∷ []) ++ contents answered.output_buffer ≡ three
unfolding after connection_established step append new_connection serve_read handle_read send
    retrive_all_as_string retrive_all read_fd iov_lens
echoes_all_example = echoes_all answered-History refl

abbrev closed : TcpConnection
closed = after (step answered closes)

closed-History : History 5 closed three (104 ∷ [])
unfolding after connection_established step append new_connection serve_read handle_read send
    retrive_all_as_string retrive_all read_fd iov_lens
closed-History = runs closes answered-History is_closes refl refl

port-IsEntry : IsEntry port_key (codes "=") (decimal 8080)
port-IsEntry =
    decimal-IsEntry port_key (codes "=") 8080 (ground arith) refl (λ e. absurd (cc)) (ground arith)

threads-IsEntry : IsEntry thread_num_key (codes " = ") (decimal 4)
threads-IsEntry =
    decimal-IsEntry thread_num_key (codes " = ") 4 (ground arith) refl (λ e. absurd (cc))
      (ground arith)

settings_lem_example :
    (to_port (listen_addr (with_settings (codes "=") (codes " = ") 8080 4 [])) ≡ 8080)
    × (thread_num (with_settings (codes "=") (codes " = ") 8080 4 []) ≡ 4)
settings_lem_example =
    settings_lem (codes "=") (codes " = ") 8080 4 [] (omega arith) (omega arith) port-IsEntry
      threads-IsEntry
