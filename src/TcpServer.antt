-- ===== src/TcpServer.antt =====
-- include/tcp_server.h, src/tcp_server.cc, src/acceptor.cc: the connections of a server, which stand
-- in `connection_maps` under their names.
pub mod Keep
pub mod Names
pub mod Shared
pub mod Life
pub mod Order
pub mod Destroy
mod Tests
use my_net_lib.Common.{
  Bool, List, Option, [], if◌then◌else◌, ltb, none, put_text, some, take, ℕ, ◌++◌, ◌+◌, ◌-◌, ◌==◌,
  ◌>>=◌, ◌>>◌, ◌^◌, ◌∷◌,
}
use my_net_lib.Os.{Transfer, failed, done}
use my_net_lib.Decimal.{decimal}
use my_net_lib.EventLoopThreadPool.{EventLoopThreadPool, new_pool, start, get_next_loop}

-- `name_ + buf`, where `snprintf` cuts what it prints to the 63 characters before the `\0`.
unfoldable pub conn_name : (name ip_port : List ℕ) → (conn_id : ℕ) → List ℕ
conn_name name ip_port conn_id = name ++ take 63 (b'-' ∷ (ip_port ++ b'#' ∷ decimal conn_id))

-- What the server keeps of a `TcpConnection`, beside its name.
pub record Connection : Type 0 where
  pub sockfd : ℕ
  pub io_loop : ℕ

pub record TcpServer : Type 0 where
  pub base_loop : ℕ
  pub ip_port : List ℕ
  pub name : List ℕ
  pub next_conn_id : ℕ
  pub started : ℕ
  pub thread_pool : EventLoopThreadPool
  pub connection_maps : List ℕ → Option Connection

-- The functors that are handed to loops, each with the name of the connection that it holds.
pub data Task : Type 0 where
  established_task destroyed_task remove_task : List ℕ → Task
  listen_task : Task

-- A call of `RunInLoop` or `QueueInLoop` of a loop.
pub data Handed : Type 0 where
  runs_in queues_in : (loop : ℕ) → Task → Handed

-- The constructor; `ip_port` is the text of the address.
unfoldable pub new_server : ℕ → (ip_port name : List ℕ) → TcpServer
new_server loop ip_port name = record {
  base_loop = loop;
  ip_port = ip_port;
  name = name;
  next_conn_id = 1;
  started = 0;
  thread_pool = new_pool loop;
  connection_maps = λ name. none;
}

-- With the calls of the init callback that `Start` of the pool makes itself.
unfoldable pub start_server :
    (has_cb : Bool) → (start_loop : ℕ → ℕ) → TcpServer → TcpServer × List ℕ × List Handed
start_server has_cb start_loop s =
    let s' = record s { started = s.started + 1 } in
    let r = start has_cb start_loop s.thread_pool in
    if s.started == 0
    then (record s' { thread_pool = r.0 }, r.1, runs_in s.base_loop listen_task ∷ [])
    else (s', [], [])

-- `next_conn_id_++` of an `int`: `none` where it overflows.
unfoldable pub next_id : ℕ → Option ℕ
next_id conn_id = if ltb conn_id (2 ^ 31 - 1) then some (conn_id + 1) else none

-- `none` is a fault of the pool, or the overflow.
unfoldable pub new_connection : (sockfd : ℕ) → TcpServer → Option (TcpServer × List Handed)
unfolding conn_name next_id
new_connection sockfd s = do
  (io_loop, pool) ← get_next_loop s.thread_pool
  id ← next_id s.next_conn_id
  some (
    record s {
      next_conn_id = id;
      thread_pool = pool;
      connection_maps =
          put_text (conn_name s.name s.ip_port s.next_conn_id)
            (some (record { sockfd = sockfd; io_loop = io_loop })) s.connection_maps;
    },
    runs_in io_loop (established_task (conn_name s.name s.ip_port s.next_conn_id)) ∷ [],
  )

-- The close callback of a connection.
unfoldable pub remove_connection : (name : List ℕ) → TcpServer → List Handed
remove_connection name s = runs_in s.base_loop (remove_task name) ∷ []

-- `conn` is held by the functor.
unfoldable pub remove_in_loop : (name : List ℕ) → Connection → TcpServer → TcpServer × List Handed
remove_in_loop name conn s = (
  record s { connection_maps = put_text name none s.connection_maps },
  queues_in conn.io_loop (destroyed_task name) ∷ [],
)

-- The destructor, with the names in the map in the order in which it walks them.
unfoldable pub destroy_server : (names : List (List ℕ)) → TcpServer → List Handed
destroy_server [] s = []
destroy_server (name ∷ names) s =
    let rest = destroy_server names s in
    elim (s.connection_maps name) [
      | none ↦ rest
      | some conn ↦ runs_in conn.io_loop (destroyed_task name) ∷ rest
    ]

-- `Acceptor::HandleRead`, given what `accept` returns: `closes` is the `::close` of a connection that
-- nobody takes.
pub data Accepted : Type 0 where
  hands_over closes : ℕ → Accepted
  refused : Accepted

unfoldable pub accept_read : (has_callback : Bool) → Transfer ℕ → Accepted
accept_read has_callback (failed errno) = refused
accept_read has_callback (done connfd) = if has_callback then hands_over connfd else closes connfd
