-- ===== src/SubReactor/Reused.antt =====
-- sub_reactor.cpp: a descriptor that the kernel gives to a new connection while a task of the old one
-- is in the pool.
use reactor_web_server.Common.{ℕ, ◌<◌, ◌≡◌, true, false, some, [], pos, arith}
use reactor_web_server.Http.{Address, init, init_state}
use reactor_web_server.SubReactor.{
  SubReactor, Interest, bus_done, max_fd, addfd, modfd, removefd, arm_timerfd, close_connection,
}
use reactor_web_server.SubReactor.Handlers.{add_new_conn, bus_done_on, handle_msg}

-- Registered for writing only.
abbrev pub for_writing : Interest
for_writing = record { reads = false; writes = true; one_shot = false; enabled = true }

-- The new connection on a descriptor that was closed, as the completion of a task of the old one
-- finds it.
abbrev pub after_reuse : SubReactor → ℕ → Address → ℕ → ℕ → SubReactor
after_reuse s fd addr now later =
    handle_msg (add_new_conn (close_connection s fd) fd addr now) (bus_done (pos fd) 1) later

-- A completion is taken for the connection that has the descriptor now: the new one is registered
-- for writing, and not for reading, although there is no response for it.
pub stale_completion_taken :
    (s : SubReactor) (fd now later : ℕ) (addr : Address)
    → fd < max_fd
    → ((after_reuse s fd addr now later).epoll fd ≡ some for_writing)
      × (((after_reuse s fd addr now later).users fd).response_head ≡ [])
unfolding handle_msg bus_done_on add_new_conn close_connection arm_timerfd addfd modfd removefd init
    init_state
stale_completion_taken s fd now later addr h = (ground arith, ground arith)
