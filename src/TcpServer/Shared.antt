-- ===== src/TcpServer/Shared.antt =====
-- One connection between the base loop, that keeps it, and its own loop, that runs it: the functors
-- that the two hand to each other, in any order of the steps of the loops.
use my_net_lib.Common.{
  List, Option, [], if◌then◌else◌, none, not, some, suc, zero, ℕ, ◌&&◌, ◌++◌, ◌>>=◌, ◌∷◌,
}
use my_net_lib.Channel.{is_none_event}
use my_net_lib.TcpConnection.{TcpConnection, connection_established, connection_destroyed}
use my_net_lib.TcpConnection.Stream.{Event, step}
use my_net_lib.TcpConnection.Closing.{is_call}
use my_net_lib.TcpConnection.Watching.{closings}
use my_net_lib.TcpServer.{
  Connection, TcpServer, Task, established_task, destroyed_task, remove_task, listen_task, Handed,
  runs_in, queues_in, remove_connection, remove_in_loop,
}

-- `pending`: the functors for this connection that a loop has yet to run. `ran`: those that ran, in
-- order.
pub record Shared : Type 0 where
  pub server : TcpServer
  pub conn : TcpConnection
  pub pending : List Handed
  pub ran : List Task

abbrev pub task_of : Handed → Task
task_of (runs_in loop t) = t
task_of (queues_in loop t) = t

-- The functor at a place in the list, and the others.
abbrev pub take_out : ℕ → List Handed → Option (Handed × List Handed)
take_out n [] = none
take_out zero (h ∷ hs) = some (h, hs)
take_out (suc n) (h ∷ hs) = take_out n hs >>= λ r. some (r.0, h ∷ r.1)

-- A call of `close_callback_` is one of `RemoveConnection`.
abbrev pub closed_calls : ℕ → (name : List ℕ) → TcpServer → List Handed
closed_calls zero name server = []
closed_calls (suc n) name server = remove_connection name server ++ closed_calls n name server

-- The loop runs the functor; `held` is what the server keeps of the connection.
unfoldable pub run_task : (name : List ℕ) → Connection → Task → Shared → Option Shared
unfolding connection_established connection_destroyed remove_in_loop
run_task name held (established_task i) s = connection_established s.conn >>= λ r.
    some (record s { conn = r.0; ran = s.ran ++ established_task i ∷ [] })
run_task name held (destroyed_task i) s = connection_destroyed s.conn >>= λ r.
    some (record s { conn = r.0; ran = s.ran ++ destroyed_task i ∷ [] })
run_task name held (remove_task i) s =
    let r = remove_in_loop i held s.server in
    some (record s { server = r.0; pending = s.pending ++ r.1; ran = s.ran ++ remove_task i ∷ [] })
run_task name held listen_task s = none

-- `runs n`: a loop takes out the functor at place `n` and runs it. `calls e`: the loop of the
-- connection runs one callback of its channel, or a call of the user, while the channel is watched.
pub data Act : Type 0 where
  runs : ℕ → Act
  calls : Event → Act

unfoldable pub act : (name : List ℕ) → Connection → Act → Shared → Option Shared
unfolding run_task step remove_connection
act name held (runs n) s =
    take_out n s.pending >>= λ r. run_task name held (task_of r.0) (record s { pending = r.1 })
act name held (calls e) s =
    if is_call e && not (is_none_event s.conn.channel)
    then (step s.conn e >>= λ r.
        some (record s {
          conn = r.0;
          pending = s.pending ++ closed_calls (closings r.1) name s.server;
        }))
    else none
