-- ===== src/TcpServer/Tests.antt =====
-- A server at concrete inputs.
use my_net_lib.Common.{
  List, Option, [], arith, inr, length, none, put_text, refl, some, true, ℕ, ◌++◌, ◌∷◌, ◌≡◌, ◌≤◌,
}
use my_net_lib.EventLoopThreadPool.{get_next_loop}
use my_net_lib.Decimal.{decimal}
use my_net_lib.InetAddr.{to_ip_port}
use my_net_lib.InetAddr.Ports.{IsInetNtop}
use my_net_lib.TcpConnection.Stream.{closes}
use my_net_lib.TcpServer.Shared.{Shared, runs, calls, act}
use my_net_lib.TcpServer.Order.{whole_life, life_in_order, SharedReach, accepted, goes_on}
use my_net_lib.TcpServer.Names.{conn_name-injective}
use my_net_lib.TcpServer.{
  conn_name, Connection, runs_in, established_task, destroyed_task, Task, destroy_server,
}
use my_net_lib.TcpServer.{TcpServer, next_id, new_connection}
use my_net_lib.TcpServer.Keep.{Valid, accepts, step, Kept, Reach, started, next, step-Kept}

abbrev prints_zeros : ℕ → List ℕ
prints_zeros s_addr = 48 ∷ 46 ∷ 48 ∷ 46 ∷ 48 ∷ 46 ∷ 48 ∷ []

prints_zeros-IsInetNtop : IsInetNtop prints_zeros
prints_zeros-IsInetNtop s_addr = omega arith

-- "s-0.0.0.0:80#1"
abbrev first : List ℕ
first = 115 ∷ 45 ∷ 48 ∷ 46 ∷ 48 ∷ 46 ∷ 48 ∷ 46 ∷ 48 ∷ 58 ∷ 56 ∷ 48 ∷ 35 ∷ 49 ∷ []

-- A server "s" on 0.0.0.0:80 with two threads, whose loops are 10 and 11.
abbrev listening : TcpServer
listening = record {
  base_loop = 9;
  ip_port = prints_zeros 0 ++ 58 ∷ 56 ∷ 48 ∷ [];
  name = 115 ∷ [];
  next_conn_id = 1;
  started = 1;
  thread_pool = record {
    base_loop = 9;
    started = true;
    num_threads = 2;
    next_index = 0;
    loops = 10 ∷ 11 ∷ [];
  };
  connection_maps = λ name. none;
}

listening-Valid : Valid listening
listening-Valid = record {
  fresh = λ id later bound. refl;
  short = omega arith;
  pool = inr (omega arith);
}

-- After one connection, on file descriptor 7.
abbrev one_connection : TcpServer
one_connection = record listening {
  next_conn_id = 2;
  thread_pool = record (listening.thread_pool) { next_index = 1 };
  connection_maps =
      put_text first (some (record { sockfd = 7; io_loop = 10 })) listening.connection_maps;
}

one_connection-Reach : Reach one_connection
unfolding step new_connection next_id get_next_loop conn_name decimal
one_connection-Reach = next (accepts 7) (started listening-Valid) refl

step-Kept_example : Kept (accepts 8) one_connection (step (accepts 8) one_connection)
step-Kept_example = step-Kept (accepts 8) one_connection-Reach (omega arith)

-- Connection 7 of a server "s" on 0.0.0.0:80.
abbrev seventh : List ℕ
seventh = 115 ∷ 45 ∷ 48 ∷ 46 ∷ 48 ∷ 46 ∷ 48 ∷ 46 ∷ 48 ∷ 58 ∷ 56 ∷ 48 ∷ 35 ∷ 55 ∷ []

seventh_name : conn_name (115 ∷ []) (prints_zeros 0 ++ 58 ∷ 56 ∷ 48 ∷ []) 7 ≡ seventh
unfolding conn_name decimal
seventh_name = refl

conn_name-injective_example : ◌≡◌ {A = ℕ} 7 7
unfolding to_ip_port decimal
conn_name-injective_example =
    conn_name-injective prints_zeros (record { sin_port = 20480; s_addr = 0 }) (115 ∷ [])
      (prints_zeros 0 ++ 58 ∷ 56 ∷ 48 ∷ []) 7 7 prints_zeros-IsInetNtop (omega arith) refl
      (omega arith) (omega arith) refl

-- Connection 1 on file descriptor 7, whose peer closes it.
abbrev held : Connection
held = record { sockfd = 7; io_loop = 10 }

abbrev after : Option Shared → Shared
after none = record {
  server = listening;
  conn = my_net_lib.TcpConnection.new_connection 7;
  pending = [];
  ran = [];
}
after (some s) = s

abbrev waiting : Shared
waiting = record {
  server = one_connection;
  conn = my_net_lib.TcpConnection.new_connection 7;
  pending = runs_in 10 (established_task first) ∷ [];
  ran = [];
}

abbrev closing : Shared
closing = after (act first held (calls closes) (after (act first held (runs 0) waiting)))

closing-Reach : SharedReach first held closing
unfolding act new_connection next_id get_next_loop conn_name decimal
    my_net_lib.TcpConnection.new_connection
closing-Reach = goes_on (calls closes) (goes_on (runs 0) (accepted 7 listening refl refl) refl) refl

life_in_order_example :
    (rest : List Task) × (closing.ran ++ rest ≡ whole_life first) × (length closing.pending ≤ 1)
life_in_order_example = life_in_order closing-Reach

-- The destructor tells the loop of the one connection.
destroyed : destroy_server (first ∷ []) one_connection ≡ runs_in 10 (destroyed_task first) ∷ []
unfolding destroy_server
destroyed = refl
