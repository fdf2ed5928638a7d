-- ===== src/SubReactor.antt =====
-- sub_reactor.h and sub_reactor.cpp: the state of a sub-reactor and its handlers, with the epoll
-- helpers of http_conn.cpp. Time is an argument of a handler. A handler that adds or refreshes a
-- timer has one reading of the clock for both the node and the timer; handle_timeout has two.
pub mod Handlers
pub mod Events
pub mod Closing
pub mod Reading
pub mod Writing
pub mod Busy
pub mod Messages
pub mod Timeouts
pub mod Hangup
pub mod Reused
pub mod Slots
pub mod Watch
pub mod Loop
pub mod System
pub mod Lifecycle
use reactor_web_server.Common.{
  ℕ, ◌+◌, ◌-◌, Bool, true, false, Option, none, some, List, [], ◌∷◌, ◌++◌, ℤ, pos, negsuc, leb,
  if◌then◌else◌, update,
}
use reactor_web_server.Timer
use reactor_web_server.Timer.{TimerHeap}
use reactor_web_server.Http
use reactor_web_server.Http.{HttpConn, Address, no_address, http_conn, close_conn, Closed}

abbrev pub max_fd : ℕ
max_fd = 65536

abbrev pub timeout_sec : ℕ
timeout_sec = 15

-- What epoll knows of a descriptor: the events asked for, EPOLLONESHOT, and whether it still
-- reports (a one-shot descriptor stops after one event). EPOLLET and EPOLLRDHUP are always set.
pub record Interest : Type 0 where
  pub reads : Bool
  pub writes : Bool
  pub one_shot : Bool
  pub enabled : Bool

abbrev pub Epoll : Type 0
Epoll = ℕ → Option Interest

-- EPOLLIN or EPOLLOUT, as the argument of modfd.
pub data Event : Type 0 where
  epollin epollout : Event

abbrev pub is_in : Event → Bool
is_in epollin = true
is_in epollout = false

abbrev pub is_out : Event → Bool
is_out epollin = false
is_out epollout = true

-- EPOLL_CTL_ADD fails on a descriptor that is there.
unfoldable pub addfd : Epoll → ℕ → Bool → Epoll
addfd ep fd one_shot = update ep fd (elim (ep fd) [
  | some i ↦ some i
  | none ↦ some (record { reads = true; writes = false; one_shot = one_shot; enabled = true })
])

-- EPOLL_CTL_MOD fails on a descriptor that is not there.
unfoldable pub modfd : Epoll → ℕ → Event → Epoll
modfd ep fd ev = update ep fd (elim (ep fd) [
  | none ↦ none
  | some _ ↦
      some (record { reads = is_in ev; writes = is_out ev; one_shot = false; enabled = true })
])

unfoldable pub removefd : Epoll → ℕ → Epoll
removefd ep fd = update ep fd none

-- struct SubMsg by its type; the other fields are not read.
pub data SubMsg : Type 0 where
  new_conn : ℤ → Address → SubMsg
  bus_done : ℤ → ℕ → SubMsg

pub record SubReactor : Type 0 where
  pub users : ℕ → HttpConn
  pub epoll : Epoll
  pub timers : TimerHeap
  pub has_timerfd : Bool
  -- it_value of the timer, in seconds from now; 0 is disarmed
  pub timer_value : ℕ
  pub msgs : List SubMsg
  -- the tasks given to the thread pool and not yet begun, by descriptor
  pub tasks : List ℕ
  pub closed : Closed

-- A call that makes a descriptor gives -1 when it fails.
abbrev pub is_open : ℤ → Bool
is_open (pos _) = true
is_open (negsuc _) = false

-- A descriptor of the reactor's own, without EPOLLONESHOT.
abbrev pub add_own : ℤ → Epoll → Epoll
add_own (pos fd) ep = addfd ep fd false
add_own (negsuc _) ep = ep

-- The constructor, with the results of eventfd and timerfd_create.
unfoldable pub sub_reactor : ℤ → ℤ → SubReactor
sub_reactor eventfd timerfd = record {
  users = λ _. http_conn;
  epoll = add_own timerfd (add_own eventfd (λ _. none));
  timers = Timer.timer_heap max_fd;
  has_timerfd = is_open timerfd;
  timer_value = 0;
  msgs = [];
  tasks = [];
  closed = [];
}

-- `delta <= 0` becomes 1.
unfoldable pub timer_delta : ℕ → Option ℕ → ℕ
timer_delta now none = 0
timer_delta now (some next) = if leb next now then 1 else next - now

-- Without a timer descriptor nothing is set.
unfoldable pub timer_setting : SubReactor → ℕ → ℕ
unfolding timer_delta
timer_setting s now =
    if s.has_timerfd then timer_delta now (Timer.next_expire s.timers) else s.timer_value

unfoldable pub arm_timerfd : SubReactor → ℕ → SubReactor
arm_timerfd s now = record s { timer_value = timer_setting s now }

unfoldable pub dispatch_new_conn : SubReactor → ℤ → Address → SubReactor
dispatch_new_conn s cfd addr = record s { msgs = s.msgs ++ new_conn cfd addr ∷ [] }

unfoldable pub notify_bus_done : SubReactor → ℤ → ℕ → SubReactor
notify_bus_done s cfd result = record s { msgs = s.msgs ++ bus_done cfd result ∷ [] }

unfoldable pub close_connection : SubReactor → ℕ → SubReactor
unfolding removefd
close_connection s fd =
    let (c, log) = close_conn (s.users fd) s.closed in
    record s {
      epoll = removefd s.epoll fd;
      users = update s.users fd c;
      closed = log;
      timers = Timer.invalidate s.timers (pos fd);
    }
