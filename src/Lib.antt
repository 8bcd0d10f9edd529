-- ===== src/Lib.antt =====
-- MyNetLib: a verification library for an event driven, multithreaded TCP library in C++.
--
-- The program. A `Channel` holds the events wanted and received on a file descriptor and runs the
-- callbacks. A `TcpConnection` owns a channel and two `Buffer`s: `Send` writes to the socket at once
-- if nothing waits and buffers the rest, `HandleWrite` drains the buffer when the socket can take
-- more, `ShutDown` waits for the last byte. The `EventLoop` of a thread runs timers (`TimerManager`),
-- polls through an `EpollPoller` or a `PollPoller`, dispatches to the channels, and runs the functors
-- that other threads queue. A `TcpServer` keeps the connections and gives each a loop of its
-- `EventLoopThreadPool`. A `Logger` puts a line together in a `LogStream`; `AsyncLogging` moves the
-- lines in big buffers to a thread that writes the `LogFile`.
--
-- The files.
--   Common      shared names, lists by native numbers, ranges of bytes, 64-bit words, integers, maps
--   Os          the results of system calls, and what their manual pages promise
--   Buffer      include/buffer.h, src/buffer.cc; children: the invariant (Valid), memory accesses in
--               range (Memory), MakeSpace and Append (Space), Retrive, ReadFd and WriteFd (Fd), the
--               queue that a buffer implements (Queue)
--   Timer, TimerManager
--               include/timer.h, src/timer.cc, include/timer_manager.h, src/timer_manager.cc;
--               children: the order of the queue (Order), CheckAndHandle (Check, Repeats),
--               RemoveTimer (Remove), callbacks that remove timers (Removing), AddTimer and
--               GetRecentTimeout (Timeout)
--   Channel     include/channel.h, src/channel.cc; children: masks as bit sets (Masks), the
--               callbacks of an event (Dispatch)
--   TcpConnection
--               include/tcp_connection.h, src/tcp_connection.cc; children: the invariant (Inv),
--               SendInLoop (Sending), HandleWrite (Writing), the other calls (Stream), histories
--               (Life), the state machine (States, Same), Send(Buffer*) (SendBuffer), HandleRead by its
--               outcomes (Reading), the calls that leave the input alone (Quiet) or
--               open (Watching, Closing), one event of the poller (Dispatch)
--   EchoServer  example/echo_server.cc; children: one read event (Served, Echo), histories (History), the
--               configuration (Settings)
--   Pingpong    example/pingpong_client.cc, example/pingpong_server.cc; children: the block on its way
--               (Bounce), the count of the sessions (Sessions)
--   EventLoop   include/event_loop.h, src/event_loop.cc; children: the threads and their steps (System),
--               the invariant (Inv), histories (Life), one pass of the loop (Pass), the poll's timeout
--               (Timeout), the loops of one thread (OneLoop)
--   EpollPoller src/poller.cc, include/epoll_poller.h, src/epoll_poller.cc; children:
--               the invariant and what epoll_ctl(2) promises (Inv), what a call changes (Changed),
--               UpdateChannel (Update), RemoveChannel (Remove), Polling (Active)
--   PollPoller  include/poll_poller.h, src/poll_poller.cc; children: positions in the array (Slots),
--               UpdateChannel (Update), RemoveChannel (Moved, Remove), Polling (Active), a connection that is
--               closed (Closed)
--   Poller      include/poller.h; children: the two pollers as instances (Interest, Epoll; Entries, Poll),
--               and that they ask for the same (Agree)
--   EventLoopThreadPool
--               include/event_loop_thread_pool.h, src/event_loop_thread_poll.cc; child: rounds of
--               GetNextLoop (Rounds)
--   EventLoopThread
--               include/event_loop_thread.h, src/event_loop_thread.cc; children: StartLoop
--               and ThreadFunc (Handover), the destructor (Quit)
--   Thread      include/thread.h, src/thread.cc, include/current_thread.h, src/current_thread.cc; children:
--               Start, Join and the destructor (Joined), default names (Names)
--   TcpServer   include/tcp_server.h, src/tcp_server.cc, src/acceptor.cc; children: the connections
--               that the server keeps (Keep), their names (Names), a connection between its loop and the
--               base loop (Shared, Life, Order), the destructor (Destroy)
--   Socket      include/socket.h, src/socket.cc, src/socket_utils.cc, src/acceptor.cc; children: the
--               sockets of a server (Accept) and that of a connection (Connection)
--   InetAddr    include/inet_addr.h, src/inet_addr.cc; child: the port and its text (Ports)
--   Config      include/config.h; child: the lines of a file (Lines)
--   Decimal     numbers as text, as `std::to_string`, `printf` and `atoi` have them; child: reading
--               what was printed (RoundTrip)
--   TimeStamp   include/time_stamp.h, src/time_stamp.cc; child: the places of the fields (Text)
--   LogStream   include/log_stream.h, src/log_stream.cc
--   Logger      include/logger.h, src/logger.cc; children: the line of a statement (Line), the
--               asynchronous log as its output (Kept)
--   AsyncLogging
--               include/async_logging.h, src/async_logging.cc; children: the threads and their steps
--               (System), the end of a pass of the back end (Recycle), the critical sections (Front),
--               histories (Inv), Start and Stop (Stopping), what is in the files (OnDisk)
--   LogFile     include/log_file.h, src/log_file.cc; children: AppendFile::Append (Write), splitting
--               and flushing (Roll), file names (Names), the files of a log (Files)
-- Names are the source's in snake case: `Buffer::RetriveAsString` is `Buffer.retrive_as_string`.
--
-- How it is modelled. A method is a function from the object's state to the new state and what it
-- returns or does; `none` is a fault, an access out of range or an exception that nothing catches.
-- Bytes are numbers that are only moved. `size_t` arithmetic wraps at 2 ^ 64. System calls, the
-- clock and user callbacks are arguments; what their documentation promises is a hypothesis of the
-- theorems that need it. `CheckAndHandle` runs on fuel, one round for each timer in the queue; it is
-- proved that this is enough. The write loop of `AppendFile::Append` has two rounds, which is enough
-- since a short count is an error.
--
-- Threads are interleaved steps: a critical section is one step, and so is each access to an atomic.
--
-- Text is ASCII codes. Numbers are printed with at most 20 digits, enough for 64 bits.
--
-- Not modelled: allocation failure below `max_size()`, the contents of error messages, benchmarking
-- (include/utils.h), setters that only store a callback or the context of a connection,
-- `Socket::Connect`, which only a test calls, POLLNVAL, a second that ends between two calls of
-- `time` for one line of a log file, and the programs of test/.
mod Common
pub mod Os
pub mod Buffer
pub mod Timer
pub mod TimerManager
pub mod Channel
pub mod EventLoop
pub mod EpollPoller
pub mod PollPoller
pub mod Poller
pub mod EventLoopThreadPool
pub mod TcpServer
pub mod LogStream
pub mod LogFile
pub mod AsyncLogging
pub mod TcpConnection
pub mod EchoServer
pub mod Pingpong
pub mod Thread
pub mod Decimal
pub mod Config
pub mod InetAddr
pub mod Logger
pub mod EventLoopThread
pub mod TimeStamp
pub mod Socket
