-- ===== src/Lib.antt =====
-- libolptnet is a C++ library for servers: event loops over poll, select or epoll, connections with
-- buffers, an acceptor, timers, and pools of threads that each run a loop.
--
-- How the parts interact. A `ServiceLoop` (src/net/service_loop.cc) owns an `EventDispatcher`
-- (src/net/event_dispatcher.h, implemented three times under src/net/dispatcher) and a map from
-- handles to `EventHandler` pointers; `run` waits in the dispatcher, calls the handlers of what is
-- ready, and then the functors that other threads have queued (src/base/thread_queue.h), waking it
-- up by an eventfd. `ConnectionHandler`, `AsyncAcceptor` and `TimerHandler` are handlers: they
-- register with a loop and change their interest in it. A `ThpoolServiceLoop` starts one
-- `ServiceLoopThread` for each of its loops and shares them out.
--
-- Files:
--   Base            what all share: `int` (Base/Int), faults and the monad of calls that may fault
--                   (Base/Faults), lists and Boolean tests over native numbers
--   Buffer          src/net/stream_buffer.h and .cc: a stream is its text and its put position;
--                   Buffer/Read is `input_stream_buffer::read`
--   Dispatcher      Base and Laws: the interface `EventDispatcher`, and what the loop relies on;
--                   Poll, Select and Epoll: src/net/dispatcher/poll.cc, select.cc and epoll.cc, each
--                   with a child Watches that fills the interface's laws; Create:
--                   src/net/event_dispatcher.cc, and the virtual calls over the three
--   Functor         src/base/functor.h, over an explicit heap
--   Mutex           src/base/mutex_lock.h, over a parameter for pthread; Guards: guarded blocks
--   ThreadQueue     src/base/thread_queue.h: what its functions do to the deque; Locked: behind their
--                   guards; Threads: as steps of any number of threads, with the accesses to the
--                   deque and the lock apart, and Linear: the order of their calls
--   ServiceLoop     src/net/service_loop.cc: `register_event`, `modify_event`, `delete_event` and
--                   `add_run`; ServiceLoop/Run is `run`, ServiceLoop/Wakeup is `WakeupHandler` with
--                   the constructor and the destructor of the loop, ServiceLoop/Client
--                   the loop as `Connection` sees it, ServiceLoop/Construct its constructor with
--                   `create_dispatcher`, ServiceLoop/Threads `run` in steps, with `add_run` and
--                   `quit` called by other threads in between
--   Connection      src/net/connection_handler.cc: `open_connection` is its `open`
--   ThreadPool      src/net/thpool_service_loop.cc: `open_pool` and `close_pool` are `open` and `close`
--   LoopThread      src/net/service_loop_thread.cc, as a step relation of its two threads: the start,
--                   and in Stopping the destructor
--   NetBase         src/net/net_base.cc: what opens sockets; Options: what sets an option; Resolve:
--                   `net_ip_sockaddr`, and `connect_host` for both functions that connect to a host
--   Address         src/net/tcp_socket_addr.cc; Text: its texts
--   Timer           src/net/timer_handler.cc
--   Acceptor        src/net/async_acceptor.cc: `open_acceptor` is `open`, where the access to the text of
--                   the address, which is destroyed by then, is a parameter
--   PosixThread     src/base/posix_thread.h: the helper objects that pass a method to its thread
--   EventHandler    src/net/event_handler.h: the objects that a loop calls, connections, acceptors and
--                   others, with what makes and deletes them; Alive: which of them are called
--   ByteOrder       src/net/bytes_endian.h, between machines of both byte orders
--   SessionHandler  src/example/example-1.cc: its connection
--   ServiceHandler  src/example/service_handler.cc: the connection of the example server
--   AcceptorServer  src/example/acceptor_server.cc: the example server
--   TcpConnector    src/client/main.cc: the example client
--   Tests           runs of the definitions and of the theorems on concrete inputs
--
-- State is passed explicitly. A call returns `Outcome`: its value, or the fault it ends in, which
-- is a failed `assert`, a null pointer, an access out of bounds, the overflow of an `int`, or that
-- it blocks for ever. The answers of system calls are arguments: a single answer, a list of them
-- where the code loops over a call, or a record of operations on the system's state with its
-- documented laws (epoll, eventfd, timerfd, pthread, socket options, the resolver). What
-- subclasses and functors do is an argument too.
--
-- What two or more threads do is a step relation: a record of the shared memory and of where each
-- thread stands, one constructor for each access, and the states that are reached by any sequence of
-- steps (ThreadQueue/Threads, LoopThread, LoopThread/Stopping). In ServiceLoop/Threads it is a
-- function on a list of turns, since each thread has one next step; there a call of a handler or of a
-- functor is one step, one call of `quit` takes place, and only the wake-up handler reads the eventfd.
--
-- Bounds and fuel. Handles and counts are `int`; sums carry their overflow, and `as_int` wraps as the
-- conversion does. `read` and `do_handle_write` recurse on the answers of the system, of which they
-- use one in each round, and `run` on the answers to its waits. Only the loop over the queued
-- functors has fuel, since a functor may queue another: one more than the number of functors is
-- enough where they queue none. `decimal` prints at most five places, which an
-- `unsigned short` has.
--
-- Not modelled: what is printed; the `main` functions under src/example and src/client, which only
-- call the library. That
-- `quit_`, `handlers_` and `clients_` are shared by threads without a lock is modelled only in
-- LoopThread/Stopping and ServiceLoop/Threads, for `quit_`. The standard library and the system are
-- parameters where they matter.
mod Base
pub mod Buffer
pub mod Dispatcher
pub mod Functor
pub mod ThreadQueue
pub mod ServiceLoop
pub mod Connection
pub mod ThreadPool
pub mod LoopThread
pub mod NetBase
pub mod Address
pub mod Timer
pub mod Acceptor
pub mod PosixThread
pub mod EventHandler
pub mod SessionHandler
pub mod TcpConnector
pub mod ServiceHandler
pub mod AcceptorServer
pub mod Mutex
pub mod ByteOrder
mod Tests
