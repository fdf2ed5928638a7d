-- ===== src/Lib.antt =====
-- Verification library of the reactor web server, an HTTP/1.1 server for static files over epoll.
--
-- The program: a main reactor accepts connections (server.cpp) and hands them to sub-reactors
-- (sub_reactor.cpp), each a thread with its own epoll, a table of connections (http_conn.cpp) and a
-- heap of idle timeouts (timer_heap.cpp). A sub-reactor reads and parses, a pool of threads
-- (thread_pool.cpp) prepares the response, and the sub-reactor writes it.
--
-- The files:
--   Common         shared names; Common/Text the C library's text functions that the parser uses
--   Timer          timer_heap.h and timer_heap.cpp
--     Order          the order and version numbers of the heap; Expiry what a tick closes;
--     Versions       which nodes are alive after add, refresh and invalidate
--   Http           http_conn.h: the state HttpConn, with http_conn, init and close_conn
--     Steady         what keeps a connection valid and on its socket, with Reading
--     Line           parse_line, with Bounds and Find; RequestLine parse_request_line;
--     Header         parse_headers; Resource do_request, with Safety
--                    and Changes;
--     Parser         parse_body, process_read and prepare_io_read, with Keeps, Invariant, Induction,
--                    Loop, Stray, Body and BodyFaults
--     Pieces         the parser over a request that arrives in pieces: Buffer, Scans and
--                    Lines (parse_line), Handlers, Rounds, Bodies, Loop and Result (process_read)
--     Requests       GET requests as clients write them: Texts, Lines, Headers, Head (all headers),
--                    FirstLine (parse_request_line)
--     Pipeline       several requests on one connection: Between (the response), Steps
--     Service        a whole exchange: Promise (the reply that a request specifies), Lookup
--                    (do_request), Reply and Prepared (process_write), Delivered (write)
--     Read           read_once, with Store and Receives; Write write, with Delivery, Loops, Correct,
--                    Unmoved, Taking
--     Response       get_content_type, process_write and run_business_and_prepare_write, with Head,
--                    Assembled, Announce and Numbers; Reset reset_for_next, with Leftover
--   SubReactor     sub_reactor.h, sub_reactor.cpp and the epoll helpers of http_conn.cpp: the state
--     Handlers       the handlers of messages, reads, writes, tasks and timeouts; Events what the
--                    loop does with an event; Closing, Reading, Writing, Busy, Messages,
--                    Timeouts, Hangup, Reused
--     Slots          the connection table against epoll, with Handling; Watch who looks after an open
--                    connection, with Effects, Handling, Turns and Expiry
--     Loop           loop, with the draining of eventfd and timerfd; Lifecycle start and stop
--     System         the loop beside the main reactor and the workers, as a step relation, with
--                    Moves, Created, Given, Sound and Run
--   ThreadPool     thread_pool.h and thread_pool.cpp, with Order
--   FdGuard        fdguard.h, with Ownership
--   AsyncLog       async_log.h, with Order
--     Backend        backend_loop, write_to_file and roll_file_locked, with the lemmas of Draining
--                    and Rounds; Finishing what a whole run leaves
--   Server         server.h and server.cpp, with Dealing
--     Running        init_socket and start; Serving and Starting what they do and leave; HandOver a
--                    connection on its way from accept to the table
--   Main           main.cpp, with Root; Program main as a whole
--   Examples       the theorems at concrete inputs, and tests
--
-- State is passed explicitly: an operation takes the connection and returns it. A C string is the
-- list of the bytes before its NUL; a pointer into the read buffer is an offset. Bytes are numbers.
-- `int` descriptors are integers, -1 for none; the other counters are natural numbers (the program
-- keeps them small), but the timer's version numbers wrap at 2 ^ 64.
--
-- The environment: stat(2) and open(2) are the parameter Files. The kernel's answers to recv, send,
-- sendfile and writev are scripts, and `none` says that the script ended before the call returned.
-- An answer gives or takes at least one byte and at most those offered, which is what the manual
-- pages promise. Calls of ::close are a log.
--
-- Fuel: process_read makes at most twice as many rounds as bytes are unread, and two; the loop of
-- TimerHeap::tick as many as the heap has nodes; a printed number has 20 digits. A round of the
-- parser uses up a byte or the look at a body, and a round of tick a node; 20 digits hold 64 bits.
--
-- Threads: what a thread does under a mutex, or alone, is one step, and any order of steps is
-- allowed. A task of the pool is the number of the connection that it works on. In System a task
-- and a handler of the event loop are one step each; epoll reports registered descriptors that are
-- not disabled, as epoll(7) says.
--
-- The loops around epoll_wait take a list of turns: the m_stop that the test reads, and the answer
-- of epoll_wait. The back end of the log takes a list of rounds, with what other threads log or stop
-- in the meantime.
--
-- Not modelled: the memory orders of atomics, the condition variables (a wait may end at any time),
-- the text of the time stamps, signals, and the exceptions of allocations. setnonblocking sets a flag
-- of the kernel; the destructors of http_conn, ThreadPool and AsyncLog only call close_conn and
-- shutdown. Logging calls are left out of the operations. A wake-up of a sub-reactor for a message is
-- not tied to the message: epoll may report the eventfd at any time. A join is a call that is counted;
-- that the thread ends is not shown. ~Server only stops the sub-reactors: the m_stop that it sets and
-- the workers of the pool that it joins first are left out. A loop that waits inside a handler is
-- given with the state before the turn. A sub-reactor registers its own eventfd and timerfd when it is
-- constructed, unless the kernel refused them. handle_timeout reads the clock twice, as the source
-- does; a handler that adds or refreshes a timer has one reading for the node and for the timer.
pub mod AsyncLog
pub mod Common
pub mod Examples
pub mod FdGuard
pub mod Http
pub mod Main
pub mod Server
pub mod SubReactor
pub mod ThreadPool
pub mod Timer
