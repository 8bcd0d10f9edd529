-- ===== src/TcpServer/Destroy.antt =====
-- Whom the destructor of a server tells to destroy a connection.
use my_net_lib.Common.{
  Bool, Bool-cases, List, Option, [], ap, eq_text, eq_text_same, eq_text_self, false, if_false,
  if_true, if◌then◌else◌, inl, inr, none, refl, some, suc, sym, zero, ℕ, ◌∙◌, ◌∷◌, ◌≡◌,
}
use my_net_lib.TcpServer.{
  Connection, TcpServer, Task, established_task, destroyed_task, remove_task, listen_task, Handed,
  runs_in, queues_in, destroy_server,
}

-- Whether the functor is for the connection `name`.
abbrev pub is_for : (name : List ℕ) → Task → Bool
is_for name (established_task i) = eq_text name i
is_for name (destroyed_task i) = eq_text name i
is_for name (remove_task i) = eq_text name i
is_for name listen_task = false

abbrev pub is_handed_for : (name : List ℕ) → Handed → Bool
is_handed_for name (runs_in loop t) = is_for name t
is_handed_for name (queues_in loop t) = is_for name t

-- What is handed to loops for the connection `name`.
unfoldable pub handed_for : (name : List ℕ) → List Handed → List Handed
handed_for name [] = []
handed_for name (h ∷ hs) =
    let rest = handed_for name hs in if is_handed_for name h then h ∷ rest else rest

unfoldable pub count : (name : List ℕ) → List (List ℕ) → ℕ
count name [] = 0
count name (i ∷ names) = let rest = count name names in if eq_text name i then suc rest else rest

abbrev pub copies : ℕ → Handed → List Handed
copies zero h = []
copies (suc n) h = h ∷ copies n h

-- An entry of another connection hands nothing over for this one.
passes :
    (name i : List ℕ) (entry : Option Connection) (rest : List Handed)
    → eq_text name i ≡ false
    → handed_for name
        (elim entry [ none ↦ rest | some conn ↦ runs_in conn.io_loop (destroyed_task i) ∷ rest ])
      ≡ handed_for name rest
unfolding handed_for
passes name i none rest other = refl
passes name i (some conn) rest other = if_false _ _ other

-- The entry of this connection hands its end over to its loop.
meets :
    (name : List ℕ) (c : Connection) (entry : Option Connection) (rest : List Handed)
    → entry ≡ some c
    → handed_for name
        (elim entry [ none ↦ rest | some conn ↦ runs_in conn.io_loop (destroyed_task name) ∷ rest ])
      ≡ runs_in c.io_loop (destroyed_task name) ∷ handed_for name rest
unfolding handed_for
meets name c entry rest h = rw h (if_true _ _ (eq_text_self name))

-- One walk over the map tells the loop of a connection as often as it meets the name.
destroyed_each :
    (name : List ℕ) (c : Connection) (names : List (List ℕ)) (s : TcpServer)
    → s.connection_maps name ≡ some c
    → handed_for name (destroy_server names s)
      ≡ copies (count name names) (runs_in c.io_loop (destroyed_task name))
unfolding handed_for count destroy_server
destroyed_each name c [] s h = refl
destroyed_each name c (i ∷ names) s h =
    let more = destroyed_each name c names s h in
    elim (Bool-cases (eq_text name i)) [
      | inl same ↦ rw (sym (eq_text_same name i same)) (
          meets name c (s.connection_maps name) (destroy_server names s) h
          ∙ ap (λ hs. runs_in c.io_loop (destroyed_task name) ∷ hs) more
          ∙ ap (λ n. copies n (runs_in c.io_loop (destroyed_task name)))
              (sym (if_true _ _ (eq_text_self name))))
      | inr other ↦
          passes name i (s.connection_maps i) (destroy_server names s) other
          ∙ more
          ∙ ap (λ n. copies n (runs_in c.io_loop (destroyed_task name))) (sym (if_false _ _ other))
    ]

-- The destructor, whose walk meets each name in the map once, tells the loop of each connection
-- that the server keeps to destroy it, and gives no loop anything else for it.
pub destroyed_once :
    (name : List ℕ) (c : Connection) (names : List (List ℕ)) (s : TcpServer)
    → s.connection_maps name ≡ some c
    → count name names ≡ 1
    → handed_for name (destroy_server names s) ≡ runs_in c.io_loop (destroyed_task name) ∷ []
destroyed_once name c names s h once =
    destroyed_each name c names s h
    ∙ ap (λ n. copies n (runs_in c.io_loop (destroyed_task name))) once
