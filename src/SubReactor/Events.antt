-- ===== src/SubReactor/Events.antt =====
-- sub_reactor.cpp: what the event loop does with an event of a client's descriptor.
use reactor_web_server.Common.{
  ℕ, Bool, false, ◌&&◌, Option, none, some, List, pos, eq_ℤ, if◌then◌else◌, update,
}
use reactor_web_server.Common.Text.{Bytes}
use reactor_web_server.Http.Read.{Recv}
use reactor_web_server.Http.Write.{Errno, Outcome}
use reactor_web_server.Http.Resource.{Files}
use reactor_web_server.SubReactor.{SubReactor, Epoll, close_connection}
use reactor_web_server.SubReactor.Handlers.{deal_read, deal_write}

-- The flags of epoll_event, EPOLLHUP and EPOLLERR in one. EPOLLRDHUP is not read.
pub record Flags : Type 0 where
  pub readable : Bool
  pub writable : Bool
  pub broken : Bool

-- The kernel's answers while an event is handled: to recv, and to the calls of write, with
-- errno and the content of the file that the connection has open.
pub record Kernel : Type 0 where
  pub reads : List Recv
  pub file : Bytes
  pub errno : Errno
  pub writes : List Outcome

-- epoll reports an event; a one-shot descriptor then stops.
unfoldable pub reported : Epoll → ℕ → Epoll
reported ep fd = update ep fd (elim (ep fd) [
  | none ↦ none
  | some i ↦ some (if i.one_shot then record i { enabled = false } else i)
])

-- m_users[fd].get_fd() == fd
abbrev pub owns : SubReactor → ℕ → Bool
owns s fd = eq_ℤ (s.users fd).sockfd (pos fd)

module _ (fs : Files) (root : Bytes) (fd now : ℕ) (k : Kernel) where
  unfoldable pub on_readable : Flags → SubReactor → Option SubReactor
  on_readable ev s = if ev.readable then deal_read fs root s fd now k.reads else some s

  unfoldable pub on_writable : Flags → SubReactor → Option SubReactor
  on_writable ev s =
      if owns s fd && ev.writable
      then deal_write fs root s fd now k.file k.errno k.writes
      else some s

  unfoldable pub on_broken : Flags → SubReactor → SubReactor
  on_broken ev s = if owns s fd && ev.broken then close_connection s fd else s

  unfoldable pub handle_event : Flags → SubReactor → Option SubReactor
  unfolding on_readable on_writable on_broken
  handle_event ev s = elim (on_readable ev s) [
    | none ↦ none
    | some t ↦ elim (on_writable ev t) [ none ↦ none | some u ↦ some (on_broken ev u) ]
  ]
