-- ===== src/Socket/Connection.antt =====
-- include/tcp_connection.h, src/tcp_connection.cc: the socket of a connection, from the constructor to
-- the destructor.
use my_net_lib.Common.{
  Bool, List, Option, [], false, none, put, put_all, put_ne, put_self, refl, some, subst, sym, true,
  ℕ, ◌∙◌, ◌∷◌, ◌≡◌, ◌≢◌,
}
use my_net_lib.Socket.{
  Descriptor, Descriptors, change, set_tcp_no_delay, set_reuse_addr, set_reuse_port, set_keep_alive,
  set_nonblocking, shutdown_write, delete_socket,
}

-- The constructor takes the descriptor.
unfoldable pub connect_socket : ℕ → Descriptors → Descriptors
connect_socket fd k = set_keep_alive fd true k

-- What a connection does to its socket: the setters of the header, and `ShutdownWrite`.
pub data SocketCall : Type 0 where
  sets_tcp_no_delay sets_reuse_addr sets_reuse_port sets_keep_alive sets_nonblocking :
      Bool → SocketCall
  shuts_write : Bool → SocketCall

unfoldable pub socket_call : ℕ → SocketCall → Descriptors → Descriptors
socket_call fd (sets_tcp_no_delay on) k = set_tcp_no_delay fd on k
socket_call fd (sets_reuse_addr on) k = set_reuse_addr fd on k
socket_call fd (sets_reuse_port on) k = set_reuse_port fd on k
socket_call fd (sets_keep_alive on) k = set_keep_alive fd on k
socket_call fd (sets_nonblocking on) k = set_nonblocking fd on k
socket_call fd (shuts_write ok) k = shutdown_write ok fd k

unfoldable pub socket_calls : ℕ → List SocketCall → Descriptors → Descriptors
unfolding socket_call
socket_calls fd [] k = k
socket_calls fd (c ∷ cs) k = socket_calls fd cs (socket_call fd c k)

-- The descriptor from the constructor to the destructor.
unfoldable pub socket_life : ℕ → List SocketCall → Descriptors → Descriptors
unfolding connect_socket socket_calls delete_socket
socket_life fd cs k = delete_socket fd (socket_calls fd cs (connect_socket fd k))

-- Other descriptors are as before.
socket_call_others :
    (fd : ℕ) (c : SocketCall) (k : Descriptors) (i : ℕ) → i ≢ fd → socket_call fd c k i ≡ k i
unfolding socket_call shutdown_write
socket_call_others fd (sets_tcp_no_delay on) k i n = put_ne _ k n
socket_call_others fd (sets_reuse_addr on) k i n = put_ne _ k n
socket_call_others fd (sets_reuse_port on) k i n = put_ne _ k n
socket_call_others fd (sets_keep_alive on) k i n = put_ne _ k n
socket_call_others fd (sets_nonblocking on) k i n = put_ne _ k n
socket_call_others fd (shuts_write true) k i n = put_ne _ k n
socket_call_others fd (shuts_write false) k i n = refl

socket_calls_others :
    (fd : ℕ) (cs : List SocketCall) (k : Descriptors) (i : ℕ)
    → i ≢ fd
    → socket_calls fd cs k i ≡ k i
unfolding socket_calls
socket_calls_others fd [] k i n = refl
socket_calls_others fd (c ∷ cs) k i n =
    socket_calls_others fd cs (socket_call fd c k) i n ∙ socket_call_others fd c k i n

-- Whatever is called, a connection leaves the descriptors as it found them, but for its own, which
-- is closed.
pub socket_life_lem :
    (fd : ℕ) (cs : List SocketCall) (k : Descriptors) (i : ℕ)
    → socket_life fd cs k i ≡ put fd none k i
unfolding socket_life delete_socket connect_socket
socket_life_lem fd cs k =
    put_all (λ i d. d ≡ put fd none k i) (socket_calls fd cs (connect_socket fd k))
      (sym (put_self fd none k))
      (λ i n.
        socket_calls_others fd cs (connect_socket fd k) i n ∙ put_ne _ k n ∙ sym (put_ne none k n))

-- An open descriptor that does not block.
abbrev IsNonblocking : Option Descriptor → Type 0
IsNonblocking none = Unit {0}
IsNonblocking (some d) = d.nonblocking ≡ true

change-IsNonblocking :
    (f : Descriptor → Descriptor) (d : Option Descriptor)
    → ((d : Descriptor) → d.nonblocking ≡ true → (f d).nonblocking ≡ true)
    → IsNonblocking d
    → IsNonblocking (change f d)
change-IsNonblocking f none keeps h = tt
change-IsNonblocking f (some d) keeps h = keeps d h

put-IsNonblocking :
    (fd : ℕ) (f : Descriptor → Descriptor) (k : Descriptors)
    → ((d : Descriptor) → d.nonblocking ≡ true → (f d).nonblocking ≡ true)
    → IsNonblocking (k fd)
    → IsNonblocking (put fd (change f (k fd)) k fd)
put-IsNonblocking fd f k keeps h =
    subst IsNonblocking (sym (put_self fd (change f (k fd)) k))
      (change-IsNonblocking f (k fd) keeps h)

-- A descriptor that does not block never does again, whatever is called: `SetNonblocking(false)` sets
-- the flag too.
pub socket_call-IsNonblocking :
    (fd : ℕ) (c : SocketCall) (k : Descriptors)
    → IsNonblocking (k fd)
    → IsNonblocking (socket_call fd c k fd)
unfolding socket_call shutdown_write
socket_call-IsNonblocking fd (sets_tcp_no_delay on) k h = put-IsNonblocking fd _ k (λ d e. e) h
socket_call-IsNonblocking fd (sets_reuse_addr on) k h = put-IsNonblocking fd _ k (λ d e. e) h
socket_call-IsNonblocking fd (sets_reuse_port on) k h = put-IsNonblocking fd _ k (λ d e. e) h
socket_call-IsNonblocking fd (sets_keep_alive on) k h = put-IsNonblocking fd _ k (λ d e. e) h
socket_call-IsNonblocking fd (sets_nonblocking on) k h = put-IsNonblocking fd _ k (λ d e. refl) h
socket_call-IsNonblocking fd (shuts_write true) k h = put-IsNonblocking fd _ k (λ d e. e) h
socket_call-IsNonblocking fd (shuts_write false) k h = h
