-- ===== src/SubReactor/Loop.antt =====
-- sub_reactor.cpp: the event loop, with the descriptors that wake it and that are read empty.
-- `eventfd` and `timerfd` are the two descriptors, negative where the constructor could not create them.
use reactor_web_server.Common.{
  ℕ, Bool, true, false, Option, none, some, List, [], ◌∷◌, ℤ, pos, negsuc, eq_ℤ, if◌then◌else◌,
}
use reactor_web_server.Common.Text.{Bytes}
use reactor_web_server.Http.Resource.{Files}
use reactor_web_server.SubReactor.{SubReactor}
use reactor_web_server.SubReactor.Handlers.{handle_wakeup, handle_timeout}
use reactor_web_server.SubReactor.Events.{Flags, Kernel, handle_event, reported}

-- An answer to the read of an eventfd or a timerfd: bytes, EAGAIN, EINTR, or another end.
pub data Drained : Type 0 where
  got again interrupted ended : Drained

-- drain_eventfd and drain_timerfd. `false` means that the kernel has not answered yet.
unfoldable pub drain : ℤ → List Drained → Bool
drain (negsuc _) ds = true
drain (pos fd) [] = false
drain (pos fd) (got ∷ ds) = drain (pos fd) ds
drain (pos fd) (again ∷ ds) = true
drain (pos fd) (interrupted ∷ ds) = drain (pos fd) ds
drain (pos fd) (ended ∷ ds) = true

-- One element of m_events, with the kernel's answers and the clock while it is handled:
-- `now`, and `later` where handle_timeout reads it once more.
pub record Ready : Type 0 where
  pub fd : ℕ
  pub flags : Flags
  pub kernel : Kernel
  pub drained : List Drained
  pub now : ℕ
  pub later : ℕ

-- The answer of epoll_wait.
pub data Wait : Type 0 where
  ready : List Ready → Wait
  eintr failed : Wait

-- One test of m_stop, and the wait after it.
pub record Turn : Type 0 where
  pub stop : Bool
  pub wait : Wait

-- Where the loop is after its turns: at the test of m_stop, or past the loop, or inside a handler
-- that waits for the kernel, with the state before the turn.
pub data Looped : Type 0 where
  looping left blocked : SubReactor → Looped

-- What epoll_wait does to the one-shot descriptors that it reports.
unfoldable pub report_all : List Ready → SubReactor → SubReactor
unfolding reported
report_all [] s = s
report_all (e ∷ es) s = report_all es (record s { epoll = reported s.epoll e.fd })

module _ (fs : Files) (root : Bytes) (eventfd timerfd : ℤ) where
  -- The body of the for loop.
  unfoldable pub handle_ready : Ready → SubReactor → Option SubReactor
  unfolding drain
  handle_ready e s =
      if eq_ℤ eventfd (pos e.fd)
      then (if drain eventfd e.drained then some (handle_wakeup s e.now) else none)
      else if eq_ℤ timerfd (pos e.fd)
      then (if drain timerfd e.drained then some (handle_timeout s e.now e.later) else none)
      else handle_event fs root e.fd e.now e.kernel e.flags s

  unfoldable pub handle_batch : List Ready → SubReactor → Option SubReactor
  unfolding handle_ready
  handle_batch [] s = some s
  handle_batch (e ∷ es) s = elim (handle_ready e s) [ none ↦ none | some t ↦ handle_batch es t ]

  unfoldable pub loop : List Turn → SubReactor → Looped
  unfolding handle_batch report_all
  loop [] s = looping s
  loop (t ∷ ts) s = if t.stop then left s else elim t.wait [
    | ready es ↦ elim (handle_batch es (report_all es s)) [ none ↦ blocked s | some u ↦ loop ts u ]
    | eintr ↦ loop ts s
    | failed ↦ left s
  ]
