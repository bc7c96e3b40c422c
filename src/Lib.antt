-- ===== src/Lib.antt =====
-- The programs of a collection on Linux system programming. The server-side ones of unp: an HTTP
-- request parser with its receive loop, two timer containers, a sorted list and a time wheel, a
-- server that is to close idle connections with the sorted list, a chat room and its client,
-- servers and a client around `select` and `epoll_wait`, and one that runs CGI programs. The
-- others: threads under a semaphore, two under a read-write lock, threads that are joined as
-- they end, processes with pipes between them, and a daemon. Paths are from the repository's
-- root.
--
-- The parts and their files:
-- - Base and its children: the tests on native numbers, lists measured by them, signed integers,
--   and fallible code. `none` is a fault or an exhausted fuel; `Returns P o` says that `o` has a
--   result and that `P` holds of it.
-- - Mem: the heap of nodes that both timer containers link in both directions. An address is a
--   number, 0 is NULL; reading, writing or deleting a node that is not allocated is a fault.
--   Mem/Links says what it is to be a doubly linked list, Mem/Split takes lists and heaps apart.
-- - TimerList (unp/high_performance/list_timer.h): `add_timer` and the private overload
--   `add_timer_from`, `adjust_timer`, `del_timer`, `tick` and the destructor `destroy` of
--   `sort_time_list`. A branch of a method is a definition of its own, such as `adjust_head` or
--   `del_inner`. Spec has the sequence of timers that a list stands for; Insert, Adjust, Delete,
--   Tick, Order and Destroy have the proofs, Context the lemmas on changing the rear of a list.
-- - Wheel (unp/high_performance/timer_wheel.h): `add_timer`, `delete_timer` and `tick` of
--   `time_wheel`. Spec has the sequence of timers of each slot; Splice, Replace, Add, Delete,
--   Sweep and Tick have the proofs, and Countdown says when a timer is called back.
-- - Http (unp/high_performance/http_parse.cpp): `parse_line`; Http/Request has
--   `parse_requestline` and `parse_headers`, Http/Content `parse_content`, Http/Server the
--   receive loop of `main`. Http/CString has the functions of the C library that they call. A
--   receive buffer is a partial function from indices to bytes, undefined out of bounds. Scan
--   and Resume have the proofs about lines, Text, RequestLine and Headers those about one line,
--   Lines and Whole those about a request that is there at once. Cut says where a piece of a
--   request ends, Pieces what the parser has behind a piece, Arrival what it does with the next,
--   Delivery follows the loop.
-- - Keepalive (unp/high_performance/alarm_keeplive.cpp): the server that is to close idle
--   connections, a client of TimerList: `cb_func`, `time_handler` and the loop of `main`, whose
--   branches are `accept_client`, `on_signals`, `refresh` and `drop_client`. What the system
--   calls give is in the events; what the server asks of the system is a list of actions, with
--   the epoll descriptor of each: `main` has one of its own, `cb_func` the global one. An access
--   behind `users` is a fault. `sig_handler` sends the byte at an address of the memory, which
--   is a parameter. Signals, Connections and Expiry have the proofs about one branch, Invariant
--   and Steps those about every event, Loop those about the whole loop. Serving has the calls
--   that the server makes in an event without a signal, Deaf those of the loop with the signals
--   that `sig_handler` sends.
-- - Chatroom (unp/high_performance/epoll_chatroom.cpp): the loop over a batch of events, with
--   `client_list_fd`, the read loop and the broadcast. Delivery has the proofs about one event,
--   Inbox those about a batch.
-- - ChatClient (unp/high_performance/epoll_chatroom_client.cpp): the loop of a client of the
--   chat room. Relay has the proofs about it, and about two clients with the server between
--   them.
-- - DualServer (unp/high_performance/epoll_tcp_udp.cpp): the echo server for TCP and UDP. Echo
--   has the proofs.
-- - TriggerServer (unp/high_performance/epoll_LT_ET_servertest.cpp): `use_LT`, `use_ET` and the
--   loop of `main` as `use_lt`, `use_et` and `main_loop`. Levels compares the two.
-- - SignalServer (unp/high_performance/epoll_sig.cpp): the loop of `main` with its signals.
--   Stopping has the proofs. What `recv` gives to these servers and the chat room is in Socket.
-- - SelectServer (unp/selectserver_test.c): the body of the loop around `select` as `turn`; the
--   new client is `accept`, the loop over the table `scan`. Room says why a new client finds a
--   free entry, Table has the lemmas on the table of clients, Bounds those on the accesses to it
--   and to `allset`, for which a descriptor from FD_SETSIZE on is a fault.
-- - SelectClient (unp/selectclient_test.c): `str_cli`, a client with the results of `read` of
--   SelectServer. Copying has the proofs.
-- - EchoServer (unp/my_echo_ser.c): `echo`, and the loop of `main` with a process for each
--   client; EchoServer/Children has `sig_chld` as a step relation. Replies has the proofs about
--   `echo`, Connections those about the loop of `main`.
-- - EchoClient (unp/my_echo_cli.c): `cli_echo`; `Readline` of the library of unp.h is a
--   parameter. Session puts it together with a child of the server.
-- - CgiServer (unp/high_performance/CGI_server.cpp): `init` and `process` of `cgi_conn`, a
--   client of the buffers of Http. Search has the proofs about CR LF, Pieces those about what
--   arrives in pieces.
-- - Semaphore (sem/unamed_sem_test.c): `threadFunc` in any number of threads, as a step
--   relation. Counting has the invariant and what it gives, Progress the length and the end of a
--   run.
-- - Reaper (pthread/pthread_test.c): `threadfun` in any number of threads and the thread of
--   `main`, as a step relation. Invariant states what holds in every reachable state,
--   WorkerSteps and MainSteps show that a step keeps it, Progress has what follows for waiting
--   and for the end.
-- - RwLock (pthread/pthread_rwlock.c): the two threads as a step relation, with the modes in
--   which they lock as arguments. Invariant has the proofs about the lock, Value those about `a`
--   in one step, Changes what follows for the reachable states.
-- - Pipes (pipe/parent_child_communicate.c): both processes, as a step relation. Order has the
--   proofs about the bytes, Invariant what holds in every reachable state, Ending the length and
--   the end of a run.
-- - ArgPipe (pipe/test_pipe.c): a parent that writes its argument into a pipe and the child that
--   prints it, as a step relation, with the transfers of Pipes. Flow has the proofs.
-- - Daemon (proc/create_daemon.c): `becomeDaemon`. Closing has the lemmas on descriptors, Result
--   those on the result and the process that is left.
-- Each Tests module runs the code at concrete inputs.
--
-- How state is modelled: a method takes the object with its heap, or the variables that it has
-- by reference, and returns the new ones. What is printed or called back is a list in the
-- result, in order; `%s` prints a buffer up to its first NUL. A callback is taken to leave the
-- timers alone. What a system call returns is an argument or part of an event. Where threads run
-- together, a step is what one thread does up to its next access to shared data or call of the
-- thread library, and in Pipes and ArgPipe a transfer of bytes by the kernel, in Pipes
-- as far as the pipe has room; those calls are taken to succeed, and in Daemon `umask`, `chdir` and `close` too.
-- Base/Family has functions from the number of a thread, their changes and their sums.
--
-- Loops and fuel: the loop of `parse_line` is bounded by the bytes that are left, as in the
-- source. The loops over timers take one unit of fuel for a node and one at the end, so that more
-- fuel than timers is enough; the loop of `parse_content` takes one unit for a line. The loops of
-- the servers recur over what the system calls give, so that a list of events stands for a run of
-- any length. `size` is the size of the receive buffer and bounds the search for the NUL of a
-- string.
--
-- Integers: times, addresses and rounds are natural numbers. The code counts a round down only
-- when it is positive, and indices grow up to the size of the buffer, so that none wraps around.
--
-- Not modelled: the set-up of sockets, signals and descriptors, the text of most messages; the
-- timer heap, which has declarations only; and the other programs of the remaining
-- directories, which show single system calls.
pub mod Base
pub mod Mem
pub mod TimerList
pub mod Wheel
pub mod Http
pub mod ArgPipe
pub mod CgiServer
pub mod ChatClient
pub mod Chatroom
pub mod Daemon
pub mod DualServer
pub mod EchoClient
pub mod EchoServer
pub mod Keepalive
pub mod Pipes
pub mod Reaper
pub mod RwLock
pub mod SelectClient
pub mod SelectServer
pub mod Semaphore
pub mod SignalServer
pub mod Socket
pub mod TriggerServer
