-- ===== src/Socket.antt =====
-- include/socket.h, src/socket.cc, src/socket_utils.cc, and src/acceptor.cc with them: what the calls
-- do to the descriptors of the process. The system calls are arguments. `none`: LOG_FATAL ended the
-- program.
pub mod Accept
pub mod Connection
mod Tests
use my_net_lib.Common.{
  Bool, Option, false, if◌then◌else◌, ltb, none, put, some, true, ℕ, ◌>>=◌, ◌>>◌,
}
use my_net_lib.Channel.{Channel, new_channel, enable_read, disable_all}
use my_net_lib.InetAddr.{InetAddr}
use my_net_lib.Os.{Transfer, failed, done}
use my_net_lib.TcpServer.{Accepted, accept_read, closes}

-- The flags and the options of an open socket.
pub record Descriptor : Type 0 where
  pub nonblocking : Bool
  pub cloexec : Bool
  pub listening : Bool
  pub no_delay : Bool
  pub reuse_addr : Bool
  pub reuse_port : Bool
  pub keep_alive : Bool
  pub write_shut : Bool

-- The open sockets, by their numbers.
abbrev pub Descriptors : Type 0
Descriptors = ℕ → Option Descriptor

abbrev pub new_socket : (nonblocking : Bool) → Descriptor
new_socket nonblocking = record {
  nonblocking = nonblocking;
  cloexec = true;
  listening = false;
  no_delay = false;
  reuse_addr = false;
  reuse_port = false;
  keep_alive = false;
  write_shut = false;
}

abbrev pub change : (Descriptor → Descriptor) → Option Descriptor → Option Descriptor
change f none = none
change f (some d) = some (f d)

-- The setters; what `setsockopt` returns is not looked at.
abbrev pub set_tcp_no_delay : ℕ → Bool → Descriptors → Descriptors
set_tcp_no_delay fd on k = put fd (change (λ d. record d { no_delay = on }) (k fd)) k

abbrev pub set_reuse_addr : ℕ → Bool → Descriptors → Descriptors
set_reuse_addr fd on k = put fd (change (λ d. record d { reuse_addr = on }) (k fd)) k

abbrev pub set_reuse_port : ℕ → Bool → Descriptors → Descriptors
set_reuse_port fd on k = put fd (change (λ d. record d { reuse_port = on }) (k fd)) k

abbrev pub set_keep_alive : ℕ → Bool → Descriptors → Descriptors
set_keep_alive fd on k = put fd (change (λ d. record d { keep_alive = on }) (k fd)) k

-- `on` is not used.
abbrev pub set_nonblocking : ℕ → (on : Bool) → Descriptors → Descriptors
set_nonblocking fd on k = put fd (change (λ d. record d { nonblocking = true }) (k fd)) k

-- `Bind` and `Listen`, given whether the call returns 0.
unfoldable pub bind : Bool → Descriptors → Option Descriptors
bind bound k = if bound then some k else none

unfoldable pub listen : Bool → ℕ → Descriptors → Option Descriptors
listen listens fd k =
    if listens then some (put fd (change (λ d. record d { listening = true }) (k fd)) k) else none

-- `ShutdownWrite`, given whether `shutdown` returns 0.
unfoldable pub shutdown_write : Bool → ℕ → Descriptors → Descriptors
shutdown_write shuts fd k =
    if shuts then put fd (change (λ d. record d { write_shut = true }) (k fd)) k else k

-- `Socket::~Socket`
unfoldable pub delete_socket : ℕ → Descriptors → Descriptors
delete_socket fd k = put fd none k

-- `GetLocalAddr` and `GetPeerAddr`, with what `getsockname` and `getpeername` say: all zeros when they
-- fail.
unfoldable pub get_local_addr : (getsockname : ℕ → Transfer InetAddr) → ℕ → InetAddr
get_local_addr getsockname sockfd = elim (getsockname sockfd) [
  | failed errno ↦ record { sin_port = 0; s_addr = 0 }
  | done addr ↦ addr
]

unfoldable pub get_peer_addr : (getpeername : ℕ → Transfer InetAddr) → ℕ → InetAddr
get_peer_addr getpeername sockfd = elim (getpeername sockfd) [
  | failed errno ↦ record { sin_port = 0; s_addr = 0 }
  | done addr ↦ addr
]

-- The descriptor that `accept4` with SOCK_CLOEXEC opened.
abbrev pub opened : Transfer ℕ → Descriptors → Descriptors
opened (failed errno) k = k
opened (done connfd) k = put connfd (some (new_socket false)) k

-- `if (connfd > 0) … else LOG_FATAL`
abbrev pub positive : Transfer ℕ → Descriptors → Option (ℕ × Descriptors)
positive (failed errno) k = none
positive (done connfd) k = if ltb 0 connfd then some (connfd, k) else none

-- `Socket::Accept` of `fd`.
unfoldable pub accept : Transfer ℕ → ℕ → (nonblock : Bool) → Descriptors → Option (ℕ × Descriptors)
accept outcome fd nonblock k =
    let k' = opened outcome k in
    positive outcome (if nonblock then set_nonblocking fd true k' else k')

-- `CreateNonblocking`, given what `socket` returns.
unfoldable pub create_nonblocking : Transfer ℕ → Descriptors → Option (ℕ × Descriptors)
create_nonblocking (failed errno) k = none
create_nonblocking (done fd) k = some (fd, put fd (some (new_socket true)) k)

-- The constructor of `Acceptor`: the socket that listens. `SetReuseAddr` is called twice.
unfoldable pub new_acceptor :
    Transfer ℕ → (bound : Bool) → (reuse_port : Bool) → Descriptors → Option (ℕ × Descriptors)
unfolding create_nonblocking bind
new_acceptor outcome bound reuse_port k = do
  (fd, k') ← create_nonblocking outcome k
  k'' ← bind bound (set_reuse_addr fd reuse_port (set_reuse_addr fd reuse_port k'))
  some (fd, k'')

-- `::close(connfd)` if nobody takes it.
abbrev pub close_unless : Bool → ℕ → Descriptors → Descriptors
close_unless has_callback connfd k = if has_callback then k else put connfd none k

-- `Acceptor::HandleRead`, with what `accept4` does for the socket `fd`.
unfoldable pub acceptor_read :
    Transfer ℕ → (has_callback : Bool) → (fd : ℕ) → Descriptors → Option (Accepted × Descriptors)
unfolding accept accept_read
acceptor_read outcome has_callback fd k = do
  (connfd, k') ← accept outcome fd true k
  some (
    accept_read has_callback (done connfd),
    close_unless has_callback connfd (set_reuse_port connfd true (set_reuse_addr connfd true k')),
  )

-- `Acceptor` beside its socket.
pub record Acceptor : Type 0 where
  pub listenning : Bool
  pub accept_channel : Channel

-- What the constructor makes of it, for the socket `fd`.
unfoldable pub acceptor_of : (fd : ℕ) → Acceptor
acceptor_of fd = record {
  listenning = false;
  accept_channel = record (new_channel fd) { has_read = true };
}

-- `Acceptor::Listen`, given whether `listen` returns 0. The call of `Update` is the caller's.
unfoldable pub acceptor_listen :
    (listens : Bool) → Acceptor → Descriptors → Option (Acceptor × Descriptors)
unfolding listen enable_read
acceptor_listen listens a k = listen listens a.accept_channel.fd k >>= λ k'.
    some (record a { listenning = true; accept_channel = enable_read a.accept_channel }, k')

-- The destructor, with `Socket::~Socket`. The calls of `Update` and `Remove` are the caller's.
unfoldable pub delete_acceptor : Acceptor → Descriptors → Acceptor × Descriptors
unfolding disable_all delete_socket
delete_acceptor a k = (
  record a { accept_channel = disable_all a.accept_channel },
  delete_socket a.accept_channel.fd k,
)
