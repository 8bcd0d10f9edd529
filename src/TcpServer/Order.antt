-- ===== src/TcpServer/Order.antt =====
-- Every history of a connection of a server.
use my_net_lib.Common.{
  >>=-eq-some, List, [], ap, arith, length, refl, some, true, ℕ, ◌++◌, ◌∷◌, ◌≡◌, ◌≤◌,
}
use my_net_lib.Channel.{is_none_event}
use my_net_lib.TcpConnection.{connecting}
use my_net_lib.EventLoopThreadPool.{get_next_loop}
use my_net_lib.TcpServer.{
  conn_name, next_id, Connection, TcpServer, Task, established_task, destroyed_task, remove_task,
  Handed, runs_in, new_connection,
}
use my_net_lib.TcpServer.Shared.{Shared, Act, act}
use my_net_lib.TcpServer.Life.{Phase, begins, open_now, closed_now, removed, destroyed, act-Phase}

-- The server accepts `sockfd`; then the loops take steps. `held` is what it keeps of the connection.
pub data SharedReach (name : List ℕ) (held : Connection) : Shared → Type 0 where
  accepted :
      (sockfd : ℕ) (server : TcpServer) {server' : TcpServer} {handed : List Handed}
      → conn_name server.name server.ip_port server.next_conn_id ≡ name
      → new_connection sockfd server ≡ some (server', handed)
      → SharedReach name held (record {
        server = server';
        conn = my_net_lib.TcpConnection.new_connection sockfd;
        pending = handed;
        ran = [];
      })
  goes_on :
      {s s' : Shared} (a : Act)
      → SharedReach name held s
      → act name held a s ≡ some s'
      → SharedReach name held s'

new_connection-handed :
    (sockfd : ℕ) (server : TcpServer) {server' : TcpServer} {handed : List Handed}
    → new_connection sockfd server ≡ some (server', handed)
    → (loop : ℕ) × (handed
        ≡ runs_in loop (established_task (conn_name server.name server.ip_port server.next_conn_id))
          ∷ [])
unfolding new_connection
new_connection-handed sockfd server h =
    let (r, t, e) = >>=-eq-some (get_next_loop server.thread_pool) _ h in
    let (id, n, e') = >>=-eq-some (next_id server.next_conn_id) _ e in (r.0, cc)

fresh_idle : (fd : ℕ) → is_none_event (my_net_lib.TcpConnection.new_connection fd).channel ≡ true
unfolding my_net_lib.TcpConnection.new_connection
fresh_idle fd = refl

fresh_connecting : (fd : ℕ) → (my_net_lib.TcpConnection.new_connection fd).state ≡ connecting
unfolding my_net_lib.TcpConnection.new_connection
fresh_connecting fd = refl

SharedReach-Phase :
    {name : List ℕ} {held : Connection} {s : Shared} → SharedReach name held s → Phase name s
SharedReach-Phase {name} (accepted sockfd server e h) =
    let (loop, same) = new_connection-handed sockfd server h in
    begins
      (runs_in loop (established_task (conn_name server.name server.ip_port server.next_conn_id)))
      (ap established_task e) same refl (fresh_connecting sockfd) (fresh_idle sockfd)
SharedReach-Phase {name} {held} (goes_on {s} a r h) =
    act-Phase name held a s (SharedReach-Phase r) h

-- What a connection goes through.
abbrev pub whole_life : (name : List ℕ) → List Task
whole_life name = established_task name ∷ remove_task name ∷ destroyed_task name ∷ []

-- A connection of a server is established, taken out of the map and destroyed in this order, each at
-- most once, whatever the steps of its loop and of the base loop: what has run is the beginning of
-- that life, and at most one functor waits. The channel is taken to run a callback only while it
-- watches for events.
pub life_in_order :
    {name : List ℕ} {held : Connection} {s : Shared}
    → SharedReach name held s
    → (rest : List Task) × (s.ran ++ rest ≡ whole_life name) × (length s.pending ≤ 1)
life_in_order {name} {held} {s} r = elim (SharedReach-Phase r) [
  | begins h t p e k i ↦ (whole_life name, rw e refl, omega (arith, ap length p))
  | open_now p e o ↦
      (remove_task name ∷ destroyed_task name ∷ [], rw e refl, omega (arith, ap length p))
  | closed_now h t p e c ↦
      (remove_task name ∷ destroyed_task name ∷ [], rw e refl, omega (arith, ap length p))
  | removed h t p e c ↦ (destroyed_task name ∷ [], rw e refl, omega (arith, ap length p))
  | destroyed p e c ↦ ([], rw e refl, omega (arith, ap length p))
]
