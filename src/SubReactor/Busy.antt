-- ===== src/SubReactor/Busy.antt =====
-- sub_reactor.cpp: which descriptors report events while a task of theirs is in the pool.
use reactor_web_server.Common.{
  ℕ, ◌<◌, ◌≡◌, refl, Bool, true, false, none, some, [], ◌∷◌, ◌++◌, arith,
}
use reactor_web_server.Http.{HttpConn, Address}
use reactor_web_server.SubReactor.{SubReactor, Interest, max_fd, addfd, modfd, arm_timerfd}
use reactor_web_server.SubReactor.Handlers.{add_new_conn, submit_business, after_parse}
use reactor_web_server.SubReactor.Events.{reported}

-- The descriptor reports an event.
abbrev pub report : SubReactor → ℕ → SubReactor
report s fd = record s { epoll = reported s.epoll fd }

-- Whether epoll reports events of the descriptor.
abbrev pub reports : SubReactor → ℕ → Bool
reports s fd = elim (s.epoll fd) [ none ↦ false | some i ↦ i.enabled ]

-- As the comments have it: the descriptor of a new connection is silent from the event on that
-- gives its request to the pool.
first_task_silent :
    (s : SubReactor) (fd now : ℕ) (addr : Address) (c : HttpConn)
    → fd < max_fd
    → s.epoll fd ≡ none
    → (reports (after_parse (report (add_new_conn s fd addr now) fd) fd (1, c)) fd ≡ false)
      × ((after_parse (report (add_new_conn s fd addr now) fd) fd (1, c)).tasks
          ≡ s.tasks ++ fd ∷ [])
unfolding after_parse submit_business add_new_conn reported addfd arm_timerfd
first_task_silent s fd now addr c h e = (ground arith, ground arith)

-- modfd asks for no EPOLLONESHOT: once a connection has waited for the rest of a request, its
-- descriptor goes on reporting events while the task that works on the connection is pending.
pub second_task_reports :
    (s : SubReactor) (fd : ℕ) (c d : HttpConn) (i : Interest)
    → s.epoll fd ≡ some i
    → (reports (after_parse (report (after_parse s fd (0, c)) fd) fd (1, d)) fd ≡ true)
      × ((after_parse (report (after_parse s fd (0, c)) fd) fd (1, d)).tasks ≡ s.tasks ++ fd ∷ [])
unfolding after_parse submit_business reported modfd
second_task_reports s fd c d i h = (ground (arith, h), refl)
