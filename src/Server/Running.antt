-- ===== src/Server/Running.antt =====
-- server.cpp: init_socket and start, with the kernel's answers as arguments.
use reactor_web_server.Common.{
  ℕ, Bool, false, Option, none, some, List, [], ◌∷◌, ℤ, pos, negsuc, minus_one, eq_ℤ, if◌then◌else◌,
  ltb,
}
use reactor_web_server.Http.{close_fd}
use reactor_web_server.SubReactor.{is_open, Epoll, addfd}
use reactor_web_server.SubReactor.Lifecycle
use reactor_web_server.SubReactor.Lifecycle.{Lifecycle, lifecycle}
use reactor_web_server.Server.{Server, server, Accept, deal_new_conn}

pub record MainReactor : Type 0 where
  pub server : Server
  pub listenfd : ℤ
  pub epoll : Epoll
  -- the threads of the sub-reactors
  pub threads : ℕ → Lifecycle

unfoldable pub main_reactor : ℤ → ℕ → (ℕ → ℤ × ℤ) → MainReactor
unfolding lifecycle
main_reactor num_subs hardware fds = record {
  server = server num_subs hardware fds;
  listenfd = minus_one;
  epoll = λ _. none;
  threads = λ i. lifecycle (is_open (fds i).0);
}

-- The answers to socket, which are -1 or a descriptor, to bind and to listen.
pub record Sockets : Type 0 where
  pub socket : ℤ
  pub bind_ok : Bool
  pub listen_ok : Bool

-- FdGuard::reset of the listening socket.
unfoldable pub reset_listenfd : MainReactor → ℤ → MainReactor
reset_listenfd m z = if eq_ℤ z m.listenfd then m else record m {
  listenfd = z;
  server = record (m.server) { closed = close_fd m.listenfd m.server.closed };
}

unfoldable pub init_socket : Sockets → MainReactor → MainReactor
unfolding reset_listenfd
init_socket k m =
    let n = reset_listenfd m k.socket in
    elim k.socket [
      | negsuc _ ↦ n
      | pos fd ↦
          if k.bind_ok
          then (if k.listen_ok
              then record n { epoll = addfd n.epoll fd false }
              else reset_listenfd n minus_one)
          else reset_listenfd n minus_one
    ]

-- An event of the main reactor's epoll, with the answers to accept while it is handled. The other
-- flags are only logged.
pub record MainEvent : Type 0 where
  pub fd : ℕ
  pub accepts : List Accept

pub data MainWait : Type 0 where
  ready : List MainEvent → MainWait
  eintr failed : MainWait

pub record MainTurn : Type 0 where
  pub stop : Bool
  pub wait : MainWait

-- Where start is after its turns.
pub data Serving : Type 0 where
  serving left blocked : MainReactor → Serving

-- The end of a call of deal_new_conn.
unfoldable pub accepted_on : MainReactor → Option Server → Option MainReactor
accepted_on m none = none
accepted_on m (some s) = some (record m { server = s })

unfoldable pub handle_events : List MainEvent → MainReactor → Option MainReactor
unfolding accepted_on
handle_events [] m = some m
handle_events (e ∷ es) m =
    elim (if eq_ℤ m.listenfd (pos e.fd)
      then accepted_on m (deal_new_conn e.accepts m.server)
      else some m) [ none ↦ none | some n ↦ handle_events es n ]

unfoldable pub main_loop : List MainTurn → MainReactor → Serving
unfolding handle_events
main_loop [] m = serving m
main_loop (t ∷ ts) m = if t.stop then left m else elim t.wait [
  | ready es ↦ elim (handle_events es m) [ none ↦ blocked m | some n ↦ main_loop ts n ]
  | eintr ↦ main_loop ts m
  | failed ↦ left m
]

-- for (auto& sub : m_subs) sub->start();
unfoldable pub start_subs : MainReactor → MainReactor
unfolding Lifecycle.start
start_subs m = record m {
  threads = λ i. if ltb i m.server.num_subs then Lifecycle.start (m.threads i) else m.threads i;
}

unfoldable pub stop_subs : MainReactor → MainReactor
unfolding Lifecycle.stop
stop_subs m = record m {
  threads = λ i. if ltb i m.server.num_subs then Lifecycle.stop (m.threads i) else m.threads i;
}

-- The end of the loop.
unfoldable pub after_loop : Serving → Serving
unfolding stop_subs
after_loop (serving m) = serving m
after_loop (left m) = left (stop_subs m)
after_loop (blocked m) = blocked m

unfoldable pub start : Sockets → List MainTurn → MainReactor → Serving
unfolding init_socket start_subs main_loop after_loop
start k ts m =
    let n = init_socket k m in
    elim n.listenfd [ negsuc _ ↦ left n | pos _ ↦ after_loop (main_loop ts (start_subs n)) ]
