-- ===== src/TcpServer/Life.antt =====
-- The life of a connection of a server: established, removed, destroyed, each once and in this order.
use my_net_lib.Common.{
  >>=-eq-some, Bool-cases, List, Option, [], ap₂, arith, else_case, if_false, inl, inr, none, not,
  refl, some, subst, suc, sym, then_case, true, zero, ℕ, ◌&&◌, ◌++◌, ◌∙◌, ◌∷◌, ◌≡◌,
}
use my_net_lib.Channel.{is_none_event, enable_read, tie}
use my_net_lib.TcpConnection.{
  TcpConnection, connected, is_state, connection_established, connection_destroyed, connecting,
  removes_channel,
}
use my_net_lib.TcpConnection.Stream.{Event, step}
use my_net_lib.TcpConnection.Closing.{is_call, is_open, is_closed, step-Closes}
use my_net_lib.TcpServer.{
  Connection, established_task, destroyed_task, remove_task, Handed, runs_in, queues_in,
  remove_connection, remove_in_loop,
}
use my_net_lib.TcpServer.Shared.{
  Shared, task_of, take_out, closed_calls, run_task, Act, runs, calls, act,
}

-- How far the connection has come: `established_task` waits; it is open; `remove_task` waits;
-- `destroyed_task` waits; it is destroyed.
pub data Phase (name : List ℕ) (s : Shared) : Type 0 where
  begins :
      (h : Handed)
      → task_of h ≡ established_task name
      → s.pending ≡ h ∷ []
      → s.ran ≡ []
      → s.conn.state ≡ connecting
      → is_none_event s.conn.channel ≡ true
      → Phase name s
  open_now :
      s.pending ≡ [] → s.ran ≡ established_task name ∷ [] → is_open s.conn ≡ true → Phase name s
  closed_now :
      (h : Handed)
      → task_of h ≡ remove_task name
      → s.pending ≡ h ∷ []
      → s.ran ≡ established_task name ∷ []
      → is_closed s.conn ≡ true
      → Phase name s
  removed :
      (h : Handed)
      → task_of h ≡ destroyed_task name
      → s.pending ≡ h ∷ []
      → s.ran ≡ established_task name ∷ remove_task name ∷ []
      → is_closed s.conn ≡ true
      → Phase name s
  destroyed :
      s.pending ≡ []
      → s.ran ≡ established_task name ∷ remove_task name ∷ destroyed_task name ∷ []
      → is_closed s.conn ≡ true
      → Phase name s

-- Only the one functor that waits can be taken out.
take_out_one :
    (n : ℕ) (h : Handed) (r : Handed × List Handed) → take_out n (h ∷ []) ≡ some r → r ≡ (h, [])
take_out_one zero h r t = cc
take_out_one (suc n) h r t = cc

runs_one :
    (name : List ℕ) (n : ℕ) (held : Connection) (h : Handed) (s : Shared) {s' : Shared}
    → s.pending ≡ h ∷ []
    → act name held (runs n) s ≡ some s'
    → run_task name held (task_of h) (record s { pending = [] }) ≡ some s'
unfolding act
runs_one name n held h s {s'} e k =
    let (r, t, run) = >>=-eq-some (take_out n s.pending) _ k in
    let same : r ≡ (h, []) = take_out_one n h r (subst (λ hs. take_out n hs ≡ some r) e t) in
    subst
      (λ (r : Handed × List Handed).
        run_task name held (task_of r.0) (record s { pending = r.1 }) ≡ some s')
      same run

runs_none :
    (name : List ℕ) (n : ℕ) (held : Connection) (s : Shared)
    → s.pending ≡ []
    → act name held (runs n) s ≡ none
unfolding act
runs_none name n held s e = rw e

calls_none :
    (name : List ℕ) (held : Connection) (e : Event) (s : Shared)
    → is_none_event s.conn.channel ≡ true
    → act name held (calls e) s ≡ none
unfolding act
calls_none name held e s idle = ground arith

closed-idle : (c : TcpConnection) → is_closed c ≡ true → is_none_event c.channel ≡ true
closed-idle c h = ground arith

reaches : {name : List ℕ} {s s' : Shared} → Phase name s → some s ≡ some s' → Phase name s'
reaches {name} {s} {s'} p h = subst (Phase name) (cc h) p

established-Phase :
    (name : List ℕ) (held : Connection) (s : Shared) {s' : Shared}
    → s.pending ≡ []
    → s.ran ≡ []
    → run_task name held (established_task name) s ≡ some s'
    → Phase name s'
unfolding run_task connection_established enable_read tie
established-Phase name held s e r h =
    reaches
      {s = record s {
        conn = record (s.conn) { state = connected; channel = enable_read (tie s.conn.channel) };
        ran = s.ran ++ established_task name ∷ [];
      }}
      (open_now e (rw r refl) (ground arith)) h

removed-Phase :
    (name : List ℕ) (held : Connection) (s : Shared) {s' : Shared}
    → s.pending ≡ []
    → s.ran ≡ established_task name ∷ []
    → is_closed s.conn ≡ true
    → run_task name held (remove_task name) s ≡ some s'
    → Phase name s'
unfolding run_task remove_in_loop
removed-Phase name held s e r c h =
    reaches
      {s = record s {
        server = (remove_in_loop name held s.server).0;
        pending = s.pending ++ (remove_in_loop name held s.server).1;
        ran = s.ran ++ remove_task name ∷ [];
      }}
      (removed (queues_in held.io_loop (destroyed_task name)) refl (rw e refl) (rw r refl) c) h

destroyed_closed :
    (c : TcpConnection)
    → is_closed c ≡ true
    → connection_destroyed c ≡ some (c, removes_channel ∷ [])
unfolding connection_destroyed
destroyed_closed c h = if_false {b = is_state c.state connected} _ _ (ground arith)

destroyed-Phase :
    (name : List ℕ) (held : Connection) (s : Shared) {s' : Shared}
    → s.pending ≡ []
    → s.ran ≡ established_task name ∷ remove_task name ∷ []
    → is_closed s.conn ≡ true
    → run_task name held (destroyed_task name) s ≡ some s'
    → Phase name s'
unfolding run_task
destroyed-Phase name held s e r c h =
    reaches {s = record s { ran = s.ran ++ destroyed_task name ∷ [] }} (destroyed e (rw r refl) c)
      (rw (destroyed_closed s.conn c) at h)

called-Phase :
    (name : List ℕ) (held : Connection) (e : Event) (s : Shared) {s' : Shared}
    → s.pending ≡ []
    → s.ran ≡ established_task name ∷ []
    → is_open s.conn ≡ true
    → act name held (calls e) s ≡ some s'
    → Phase name s'
unfolding act remove_connection
called-Phase name held e s {s'} p r o h =
    elim (Bool-cases (is_call e && not (is_none_event s.conn.channel))) [
      | inr idle ↦ let never : ◌≡◌ {A = Option Shared} none (some s') = else_case _ idle h in cc
      | inl watched ↦
          let (x, stepped, rest) = >>=-eq-some (step s.conn e) _ (then_case _ watched h) in
          elim (step-Closes s.conn e (ground arith) o stepped) [
            | inl (open_, none_closed) ↦
                reaches
                  (open_now (ap₂ (λ t n. t ++ closed_calls n name s.server) p none_closed) r open_)
                  rest
            | inr (closed, once) ↦
                reaches
                  (closed_now (runs_in s.server.base_loop (remove_task name)) refl
                    (ap₂ (λ t n. t ++ closed_calls n name s.server) p once) r closed)
                  rest
          ]
    ]

pub act-Phase :
    (name : List ℕ) (held : Connection) (a : Act) (s : Shared) {s' : Shared}
    → Phase name s
    → act name held a s ≡ some s'
    → Phase name s'
act-Phase name held (runs n) s {s'} (begins h t p r k i) e =
    established-Phase name held (record s { pending = [] }) refl r
      (subst (λ t. run_task name held t (record s { pending = [] }) ≡ some s') t
        (runs_one name n held h s p e))
act-Phase name held (runs n) s {s'} (open_now p r o) e =
    let never : ◌≡◌ {A = Option Shared} none (some s') = sym (runs_none name n held s p) ∙ e in cc
act-Phase name held (runs n) s {s'} (closed_now h t p r c) e =
    removed-Phase name held (record s { pending = [] }) refl r c
      (subst (λ t. run_task name held t (record s { pending = [] }) ≡ some s') t
        (runs_one name n held h s p e))
act-Phase name held (runs n) s {s'} (removed h t p r c) e =
    destroyed-Phase name held (record s { pending = [] }) refl r c
      (subst (λ t. run_task name held t (record s { pending = [] }) ≡ some s') t
        (runs_one name n held h s p e))
act-Phase name held (runs n) s {s'} (destroyed p r c) e =
    let never : ◌≡◌ {A = Option Shared} none (some s') = sym (runs_none name n held s p) ∙ e in cc
act-Phase name held (calls v) s {s'} (begins h t p r k i) e =
    let never : ◌≡◌ {A = Option Shared} none (some s') = sym (calls_none name held v s i) ∙ e in cc
act-Phase name held (calls v) s {s'} (open_now p r o) e = called-Phase name held v s p r o e
act-Phase name held (calls v) s {s'} (closed_now h t p r c) e =
    let never : ◌≡◌ {A = Option Shared} none (some s') =
      sym (calls_none name held v s (closed-idle s.conn c)) ∙ e in
    cc
act-Phase name held (calls v) s {s'} (removed h t p r c) e =
    let never : ◌≡◌ {A = Option Shared} none (some s') =
      sym (calls_none name held v s (closed-idle s.conn c)) ∙ e in
    cc
act-Phase name held (calls v) s {s'} (destroyed p r c) e =
    let never : ◌≡◌ {A = Option Shared} none (some s') =
      sym (calls_none name held v s (closed-idle s.conn c)) ∙ e in
    cc
