-- ===== src/SubReactor/Handlers.antt =====
-- sub_reactor.cpp: the handlers of the event loop, and the task that a worker runs.
use reactor_web_server.Common.{
  ℕ, Bool, true, false, ◌||◌, Option, none, some, List, [], ◌∷◌, ◌++◌, ℤ, pos, negsuc, eq_ℤ, leb,
  ◌==◌, if◌then◌else◌, update,
}
use reactor_web_server.Common.Text.{Bytes}
use reactor_web_server.Timer
use reactor_web_server.Timer.{TimerHeap}
use reactor_web_server.Http
use reactor_web_server.Http.{HttpConn, Address, Closed}
use reactor_web_server.Http.Read.{Recv, read_once}
use reactor_web_server.Http.Write.{Errno, Outcome, Io, write}
use reactor_web_server.Http.Reset.{keep_alive, reset_for_next}
use reactor_web_server.Http.Resource.{Files}
use reactor_web_server.Http.Parser.{prepare_io_read}
use reactor_web_server.Http.Response.{run_business_and_prepare_write}
use reactor_web_server.SubReactor.{
  SubReactor, SubMsg, new_conn, bus_done, max_fd, timeout_sec, epollin, epollout, addfd, modfd,
  arm_timerfd, notify_bus_done, close_connection,
}

abbrev pub put_user : SubReactor → ℕ → HttpConn → SubReactor
put_user s fd c = record s { users = update s.users fd c }

abbrev pub refresh_timer : SubReactor → ℕ → ℕ → SubReactor
refresh_timer s fd now =
    arm_timerfd (record s { timers = Timer.refresh s.timers (pos fd) timeout_sec now }) now

abbrev pub add_timer : SubReactor → ℕ → ℕ → SubReactor
add_timer s fd now =
    arm_timerfd (record s { timers = Timer.add s.timers (pos fd) timeout_sec now }) now

-- accept gives descriptors that are not negative.
unfoldable pub add_new_conn : SubReactor → ℕ → Address → ℕ → SubReactor
add_new_conn s cfd addr now =
    if leb max_fd cfd
    then record s { closed = s.closed ++ pos cfd ∷ [] }
    else add_timer
        (record s {
          users = update s.users cfd (Http.init (s.users cfd) (pos cfd) addr);
          epoll = addfd s.epoll cfd true;
        })
        cfd now

-- m_timers.invalidate(fd) and m_pool.submit
unfoldable pub submit_business : SubReactor → ℕ → SubReactor
submit_business s fd = record s {
  timers = Timer.invalidate s.timers (pos fd);
  tasks = s.tasks ++ fd ∷ [];
}

-- The result of prepare_io_read.
unfoldable pub after_parse : SubReactor → ℕ → ℕ × HttpConn → SubReactor
unfolding submit_business
after_parse s fd (r, c) =
    let t = put_user s fd c in
    if r == 0 then record t { epoll = modfd t.epoll fd epollin } else submit_business t fd

module _ (fs : Files) (root : Bytes) where
  unfoldable pub after_read : SubReactor → ℕ → ℕ → Bool × HttpConn → Option SubReactor
  unfolding after_parse
  after_read s fd now (false, c) = some (close_connection (put_user s fd c) fd)
  after_read s fd now (true, c) = elim (prepare_io_read fs root c) [
    | none ↦ none
    | some r ↦ some (after_parse (refresh_timer (put_user s fd c) fd now) fd r)
  ]

  -- `none` means that the kernel has not answered yet.
  unfoldable pub deal_read : SubReactor → ℕ → ℕ → List Recv → Option SubReactor
  unfolding after_read
  deal_read s fd now os = elim (read_once os (s.users fd)) [
    | none ↦ none
    | some r ↦ after_read s fd now r
  ]

  -- The task of a worker, up to the call of notify_bus_done.
  unfoldable pub task_result : SubReactor → ℕ → HttpConn → ℕ × HttpConn
  task_result s fd c =
      if eq_ℤ c.sockfd (pos fd) then run_business_and_prepare_write fs root c else (2, c)

  unfoldable pub run_task : SubReactor → ℕ → SubReactor
  unfolding task_result
  run_task s fd =
      let (result, c) = task_result s fd (s.users fd) in
      notify_bus_done (put_user s fd c) (pos fd) result

  -- After reset_for_next: the next request, if some of it is there.
  unfoldable pub next_request : SubReactor → ℕ → Bool × HttpConn × Closed → Option SubReactor
  unfolding after_parse
  next_request s fd (more, d, log) =
      let t = record s { users = update s.users fd d; closed = log } in
      if more
      then elim (prepare_io_read fs root d) [ none ↦ none | some r ↦ some (after_parse t fd r) ]
      else some (record t { epoll = modfd t.epoll fd epollin })

  -- The response is sent: the next request on the connection, or its end.
  unfoldable pub after_response : SubReactor → ℕ → Option SubReactor
  unfolding next_request
  after_response s fd =
      if keep_alive (s.users fd)
      then next_request s fd (reset_for_next (s.users fd) s.closed)
      else some (close_connection s fd)

  -- The result of write: 0, 2 or 1.
  unfoldable pub after_write : SubReactor → ℕ → ℕ × Io → Option SubReactor
  unfolding after_response
  after_write s fd (r, io) =
      let t = put_user s fd io.conn in
      if r == 0
      then some (close_connection t fd)
      else if r == 2
      then some (record t { epoll = modfd t.epoll fd epollout })
      else after_response t fd

  -- The file is the one that the connection has open.
  unfoldable pub deal_write : SubReactor → ℕ → ℕ → Bytes → Errno → List Outcome → Option SubReactor
  unfolding after_write
  deal_write s fd now file errno os =
      elim (write file os (record { conn = s.users fd; errno = errno; wire = [] })) [
        | none ↦ none
        | some r ↦ after_write (refresh_timer s fd now) fd r
      ]

-- m_users[fd].get_fd() != fd
abbrev pub not_own : ℕ → ℤ → Bool
not_own fd z = if eq_ℤ z (pos fd) then false else true

unfoldable pub bus_done_on : SubReactor → ℕ → ℕ → ℕ → SubReactor
bus_done_on s fd result now =
    if leb max_fd fd || not_own fd (s.users fd).sockfd
    then s
    else if result == 1
    then add_timer (record s { epoll = modfd s.epoll fd epollout }) fd now
    else close_connection s fd

unfoldable pub handle_msg : SubReactor → SubMsg → ℕ → SubReactor
unfolding bus_done_on add_new_conn
handle_msg s (new_conn (pos cfd) addr) now = add_new_conn s cfd addr now
handle_msg s (new_conn (negsuc _) addr) now = s
handle_msg s (bus_done (negsuc _) result) now = s
handle_msg s (bus_done (pos fd) result) now = bus_done_on s fd result now

-- The messages that swap_msgs took, in order.
unfoldable pub handle_all : SubReactor → List SubMsg → ℕ → SubReactor
unfolding handle_msg
handle_all s [] now = s
handle_all s (m ∷ ms) now = handle_all (handle_msg s m now) ms now

-- eventfd: swap_msgs and the loop over the messages.
unfoldable pub handle_wakeup : SubReactor → ℕ → SubReactor
unfolding handle_all
handle_wakeup s now = handle_all (record s { msgs = [] }) s.msgs now

-- The callback of the timers: close_connection on the whole state.
unfoldable pub on_expiry : ℕ → TimerHeap × SubReactor → TimerHeap × SubReactor
on_expiry fd (h, s) = let t = close_connection (record s { timers = h }) fd in (t.timers, t)

-- The clock is read twice: for the nodes that have run out, and later to set the timer.
unfoldable pub handle_timeout : SubReactor → ℕ → ℕ → SubReactor
unfolding on_expiry
handle_timeout s now later =
    let (h, t) = Timer.tick on_expiry now (s.timers, s) in
    arm_timerfd (record t { timers = h }) later
