-- ===== src/Socket/Accept.antt =====
-- The sockets that a server gets.
use my_net_lib.Common.{
  Bool, ap, arith, false, lt→ltb, put, put_self, refl, some, sym, true, ℕ, ◌<◌, ◌∙◌, ◌≡◌, ◌≢◌,
}
use my_net_lib.Os.{done}
use my_net_lib.TcpServer.{accept_read, hands_over}
use my_net_lib.Channel.{is_reading, enable_read}
use my_net_lib.Socket.{
  Acceptor, Descriptor, change, acceptor_of, acceptor_listen, Descriptors, new_socket,
  set_reuse_addr, set_reuse_port, set_nonblocking, bind, accept, create_nonblocking, new_acceptor,
  acceptor_read,
}

-- The socket that listens, behind the constructor.
new_acceptor_lem :
    (fd : ℕ) (reuse_port : Bool) (k : Descriptors) {k' : Descriptors}
    → new_acceptor (done fd) true reuse_port k ≡ some (fd, k')
    → k' fd ≡ some (record (new_socket true) { reuse_addr = reuse_port })
unfolding new_acceptor create_nonblocking bind
new_acceptor_lem fd reuse_port k {k'} made = sym (ap (λ f. f fd) same) ∙ ground arith
  where
    same :
        set_reuse_addr fd reuse_port
          (set_reuse_addr fd reuse_port (put fd (some (new_socket true)) k))
        ≡ k'
    same = cc (made)

-- What `Listen` makes of it.
acceptor_listen_lem :
    (fd : ℕ) (k : Descriptors) {k' : Descriptors} {a : Acceptor}
    → acceptor_listen true (acceptor_of fd) k ≡ some (a, k')
    → (is_reading a.accept_channel ≡ true)
      × (k' fd ≡ change (λ d. record d { listening = true }) (k fd))
unfolding acceptor_listen acceptor_of
acceptor_listen_lem fd k {k'} {a} h =
    let same_a : record (acceptor_of fd) {
      listenning = true;
      accept_channel = enable_read (acceptor_of fd).accept_channel;
    }
        ≡ a =
      cc (h) in
    let same_k : put fd (change (λ d. record d { listening = true }) (k fd)) k ≡ k' = cc (h) in
    (
      sym (ap (λ (x : Acceptor). is_reading x.accept_channel) same_a),
      sym (ap (λ (f : Descriptors). f fd) same_k) ∙ put_self fd _ k,
    )

-- `HandleRead` of an acceptor, whatever the options of the socket that listens.
acceptor_read_lem :
    (fd connfd : ℕ) (k : Descriptors) {d : Descriptor}
    → k fd ≡ some d
    → 0 < connfd
    → connfd ≢ fd
    → (k' : Descriptors) × (acceptor_read (done connfd) true fd k ≡ some (hands_over connfd, k'))
      × (k' fd ≡ some (record d { nonblocking = true }))
      × (k' connfd ≡ some (record (new_socket false) { reuse_addr = true; reuse_port = true }))
unfolding acceptor_read accept accept_read
acceptor_read_lem fd connfd k {d} there more ne = (
  set_reuse_port connfd true (
      set_reuse_addr connfd true
        (set_nonblocking fd true (put connfd (some (new_socket false)) k))),
  rw (lt→ltb 0 connfd more) refl,
  ground arith,
  ground arith,
)

-- Behind the constructor and `Listen` the socket that listens is nonblocking, and its channel waits
-- for connections. Then or later, with whatever options `d` it has by then, `HandleRead` hands the
-- connection that it accepts over as a socket that blocks: `Accept` sets the flag of the socket that
-- listens instead, whether or not it had it.
pub accepted_blocks :
    (fd connfd : ℕ) (reuse_port : Bool) (k : Descriptors) (k2 : Descriptors) {k' k1 : Descriptors}
    {a : Acceptor} {d : Descriptor}
    → new_acceptor (done fd) true reuse_port k ≡ some (fd, k')
    → acceptor_listen true (acceptor_of fd) k' ≡ some (a, k1)
    → k2 fd ≡ some d
    → 0 < connfd
    → connfd ≢ fd
    → (k'' : Descriptors) × (is_reading a.accept_channel ≡ true)
      × (k1 fd ≡ some (record (new_socket true) { reuse_addr = reuse_port; listening = true }))
      × (acceptor_read (done connfd) true fd k2 ≡ some (hands_over connfd, k''))
      × (k'' fd ≡ some (record d { nonblocking = true }))
      × (k'' connfd ≡ some (record (new_socket false) { reuse_addr = true; reuse_port = true }))
accepted_blocks fd connfd reuse_port k k2 {k'} {k1} made listens there more ne =
    let bound = new_acceptor_lem fd reuse_port k made in
    let (reads, at_fd) = acceptor_listen_lem fd k' listens in
    let (k'', returns, listener, connection) = acceptor_read_lem fd connfd k2 there more ne in
    (
      k'',
      reads,
      at_fd ∙ ap (change (λ d. record d { listening = true })) bound,
      returns,
      listener,
      connection,
    )
