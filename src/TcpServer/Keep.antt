-- ===== src/TcpServer/Keep.antt =====
-- A server keeps each connection until it is removed.
use my_net_lib.Common.{
  ==_iff, >>=-eq-some, Bool, Bool-cases, List, Option, [], ap, ap₂, arith, eq_text, false,
  get_elem?-inside, if_false, if_true, if◌then◌else◌, inl, inr, leb, length, lt→ltb, none, put_text,
  put_text_ne, put_text_self, refl, some, subst, sym, ℕ, ◌+◌, ◌-◌, ◌<◌, ◌==◌, ◌>>=◌, ◌^◌, ◌∙◌, ◌∷◌,
  ◌≡◌, ◌≢◌, ◌≤◌, ◌⊎◌,
}
use my_net_lib.EventLoopThreadPool.{EventLoopThreadPool, get_next_loop}
use my_net_lib.TcpServer.{
  conn_name, Connection, TcpServer, established_task, destroyed_task, Handed, runs_in, queues_in,
  next_id, new_connection, remove_in_loop,
}
use my_net_lib.TcpServer.Names.{conn_name_short}

-- The name of the next connection.
abbrev pub next_name : TcpServer → List ℕ
next_name s = conn_name s.name s.ip_port s.next_conn_id

-- The names to come are free, the address is a text of at most 21 bytes, and the pool is at one of
-- its loops.
pub record Valid (s : TcpServer) : Type 0 where
  pub fresh :
      (id : ℕ)
      → s.next_conn_id ≤ id
      → id < 2 ^ 31
      → s.connection_maps (conn_name s.name s.ip_port id) ≡ none
  pub short : length s.ip_port ≤ 21
  pub pool :
      (length s.thread_pool.loops ≡ 0) ⊎ (s.thread_pool.next_index < length s.thread_pool.loops)

pub data Event : Type 0 where
  accepts : (sockfd : ℕ) → Event
  removes : (name : List ℕ) → Connection → Event

unfoldable pub step : Event → TcpServer → Option (TcpServer × List Handed)
unfolding new_connection remove_in_loop
step (accepts sockfd) s = new_connection sockfd s
step (removes name conn) s = some (remove_in_loop name conn s)

-- A new connection finds a number that can be counted on.
abbrev pub HasNumber : Event → TcpServer → Type 0
HasNumber (accepts sockfd) s = s.next_conn_id < 2 ^ 31 - 1
HasNumber (removes name conn) s = Unit {0}

-- Whether the event ends the connection `name`.
abbrev pub ends : (name : List ℕ) → Event → Bool
ends name (accepts sockfd) = false
ends name (removes name' conn) = eq_text name name'

-- What a step leaves: a valid server that keeps every other connection.
pub record Kept (e : Event) (s : TcpServer) (r : Option (TcpServer × List Handed)) : Type 0 where
  pub server : TcpServer
  pub handed : List Handed
  pub returns : r ≡ some (server, handed)
  pub valid : Valid server
  pub kept :
      (name : List ℕ) (c : Connection)
      → s.connection_maps name ≡ some c
      → ends name e ≡ false
      → server.connection_maps name ≡ some c
  -- A new connection takes a name that no other has, and its loop is told to establish it.
  pub added :
      (sockfd : ℕ)
      → e ≡ accepts sockfd
      → (loop : ℕ) × (s.connection_maps (next_name s) ≡ none)
        × (server.connection_maps (next_name s) ≡ some (record { sockfd = sockfd; io_loop = loop }))
        × (handed ≡ runs_in loop (established_task (next_name s)) ∷ [])
  -- A connection that is removed is out of the map, and destroyed in its own loop.
  pub removed :
      (name : List ℕ) (conn : Connection)
      → e ≡ removes name conn
      → (server.connection_maps name ≡ none)
        × (handed ≡ queues_in conn.io_loop (destroyed_task name) ∷ [])

-- The pool has a next loop, and is at one of its loops again.
next_loop_lem :
    (p : EventLoopThreadPool)
    → (length p.loops ≡ 0) ⊎ (p.next_index < length p.loops)
    → (loop : ℕ) × (p' : EventLoopThreadPool) × (get_next_loop p ≡ some (loop, p'))
      × ((length p'.loops ≡ 0) ⊎ (p'.next_index < length p'.loops))
unfolding get_next_loop
next_loop_lem p (inl e) = (p.base_loop, p, if_true _ _ ((==_iff (length p.loops) 0).1 e), inl e)
next_loop_lem p (inr h) =
    let (loop, found) = get_elem?-inside p.loops p.next_index h in
    (
      loop,
      record p { next_index = next },
      if_false _ _ (nonempty h)
          ∙ ap
              (λ r.
                ◌>>=◌ {B = ℕ × EventLoopThreadPool} r
                  (λ loop. some (loop, record p { next_index = next })))
              found,
      inr (wrapped h),
    )
  where
    next : ℕ
    next = if leb (length p.loops) (p.next_index + 1) then 0 else p.next_index + 1

    nonempty : p.next_index < length p.loops → (length p.loops == 0) ≡ false
    nonempty h = ground arith

    wrapped : p.next_index < length p.loops → next < length p.loops
    wrapped h = ground arith

-- The server with the connection, whose loop is `loop`.
abbrev with_connection : (sockfd loop : ℕ) → EventLoopThreadPool → TcpServer → TcpServer
with_connection sockfd loop pool s = record s {
  next_conn_id = s.next_conn_id + 1;
  thread_pool = pool;
  connection_maps =
      put_text (next_name s) (some (record { sockfd = sockfd; io_loop = loop })) s.connection_maps;
}

new_connection_lem :
    (sockfd loop : ℕ) (pool : EventLoopThreadPool) (s : TcpServer)
    → get_next_loop s.thread_pool ≡ some (loop, pool)
    → s.next_conn_id < 2 ^ 31 - 1
    → new_connection sockfd s
      ≡ some
          (with_connection sockfd loop pool s, runs_in loop (established_task (next_name s)) ∷ [])
unfolding new_connection next_id
new_connection_lem sockfd loop pool s e small =
    rw (e, lt→ltb s.next_conn_id (2 ^ 31 - 1) small) refl

with_connection-fresh :
    (sockfd loop : ℕ) (pool : EventLoopThreadPool) (s : TcpServer)
    → Valid s
    → s.next_conn_id < 2 ^ 31 - 1
    → (id : ℕ) → s.next_conn_id + 1 ≤ id
    → id < 2 ^ 31
    → (with_connection sockfd loop pool s).connection_maps (conn_name s.name s.ip_port id) ≡ none
with_connection-fresh sockfd loop pool s v small id later bound =
    put_text_ne _ s.connection_maps (λ same.
      let e : id ≡ s.next_conn_id =
        conn_name_short s.name s.ip_port id s.next_conn_id v.short bound (omega arith) same in
      absurd (omega arith))
    ∙ v.fresh id (omega arith) bound

accepts-Kept :
    (sockfd : ℕ) (s : TcpServer)
    → Valid s
    → s.next_conn_id < 2 ^ 31 - 1
    → Kept (accepts sockfd) s (new_connection sockfd s)
accepts-Kept sockfd s v small =
    let (loop, pool', returned, pool_ok) = next_loop_lem s.thread_pool v.pool in
    record {
      server = with_connection sockfd loop pool' s;
      handed = runs_in loop (established_task (next_name s)) ∷ [];
      returns = new_connection_lem sockfd loop pool' s returned small;
      valid = record {
        fresh = with_connection-fresh sockfd loop pool' s v small;
        short = v.short;
        pool = pool_ok;
      };
      kept = λ name c there e. put_text_ne _ s.connection_maps (old name c there) ∙ there;
      added = λ fd e. (
        loop,
        free,
        put_text_self (next_name s) _ s.connection_maps
            ∙ ap (λ fd. some (record { sockfd = fd; io_loop = loop })) (same_fd e),
        refl,
      );
      removed = λ name conn e. absurd (cc);
    }
  where
    free : s.connection_maps (next_name s) ≡ none
    free = v.fresh s.next_conn_id (omega arith) (omega arith)

    old : (name : List ℕ) (c : Connection) → s.connection_maps name ≡ some c → name ≢ next_name s
    old name c there e =
        let x : none ≡ some c = sym free ∙ ap s.connection_maps (sym e) ∙ there in absurd (cc)

    same_fd : {fd : ℕ} → accepts sockfd ≡ accepts fd → sockfd ≡ fd
    same_fd e = cc

removes-Kept :
    (name : List ℕ) (conn : Connection) (s : TcpServer)
    → Valid s
    → Kept (removes name conn) s (some (remove_in_loop name conn s))
unfolding remove_in_loop
removes-Kept name conn s v = record {
  server = record s { connection_maps = put_text name none s.connection_maps };
  handed = queues_in conn.io_loop (destroyed_task name) ∷ [];
  returns = refl;
  valid = record {
    fresh = λ id later bound.
        let key = conn_name s.name s.ip_port id in
        elim (Bool-cases (eq_text key name)) [
          | inl b ↦ if_true _ _ b
          | inr b ↦ if_false _ _ b ∙ v.fresh id later bound
        ];
    short = v.short;
    pool = v.pool;
  };
  kept = λ i c there e. if_false _ _ e ∙ there;
  added = λ fd e. absurd (cc);
  removed = λ i c e.
      let (same_name, same_conn) = parts e in
      (
        ap (put_text name none s.connection_maps) (sym same_name)
            ∙ put_text_self name none s.connection_maps,
        ap₂ (λ (i : List ℕ) (c : Connection). queues_in c.io_loop (destroyed_task i) ∷ []) same_name
            same_conn,
      );
}
  where
    parts :
        {i : List ℕ} {c : Connection} → removes name conn ≡ removes i c → (name ≡ i) × (conn ≡ c)
    parts e = (cc, cc)

-- The servers that can be reached, before a number overflows, from one whose names to come are free,
-- as those of a new server are.
pub data Reach : TcpServer → Type 0 where
  started : {s : TcpServer} → Valid s → Reach s
  next :
      {s s' : TcpServer} {handed : List Handed} (e : Event)
      → Reach s
      → step e s ≡ some (s', handed)
      → Reach s'

step-Valid-Kept : (e : Event) (s : TcpServer) → Valid s → HasNumber e s → Kept e s (step e s)
unfolding step
step-Valid-Kept (accepts sockfd) s v small = accepts-Kept sockfd s v small
step-Valid-Kept (removes name conn) s v small = removes-Kept name conn s v

next_id_bound : (n : ℕ) {id : ℕ} → next_id n ≡ some id → n < 2 ^ 31 - 1
unfolding next_id
next_id_bound n h = ground arith

-- A connection that got a number has one that can be counted on.
step-HasNumber :
    (e : Event) (s : TcpServer) {r : TcpServer × List Handed} → step e s ≡ some r → HasNumber e s
unfolding step new_connection
step-HasNumber (accepts sockfd) s {r} h =
    let (r1, t, e) = >>=-eq-some (get_next_loop s.thread_pool) _ h in
    let (id, n, e') = >>=-eq-some (next_id s.next_conn_id) _ e in next_id_bound s.next_conn_id n
step-HasNumber (removes name conn) s h = tt

Reach-Valid : {s : TcpServer} → Reach s → Valid s
Reach-Valid (started v) = v
Reach-Valid (next {s} {s'} e r h) =
    let k = step-Valid-Kept e s (Reach-Valid r) (step-HasNumber e s h) in
    subst Valid (same k h) k.valid
  where
    same :
        {s s' : TcpServer} {handed : List Handed} {e : Event}
        → (k : Kept e s (step e s)) → step e s ≡ some (s', handed)
        → k.server ≡ s'
    same k h = cc (k.returns)

-- In every history of new connections and of removals, from a server whose names to come are free,
-- whose address is printed in at most 21 bytes and whose pool is at one of its loops, no step reads
-- out of range, and the server keeps each connection until it is removed itself: a new one takes a
-- name that no other has, and its loop is told to establish it; one that is removed is destroyed in
-- its own loop. A new connection is taken while its number is less than the greatest `int`.
pub step-Kept : {s : TcpServer} (e : Event) → Reach s → HasNumber e s → Kept e s (step e s)
step-Kept {s} e r small = step-Valid-Kept e s (Reach-Valid r) small
