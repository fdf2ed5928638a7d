-- ===== src/SubReactor/System.antt =====
-- sub_reactor.cpp: the event loop beside the threads that give it work: the main reactor, which dispatches
-- connections, and the workers. A handler is one step, a task is one step.
pub mod Moves
pub mod Created
pub mod Given
pub mod Sound
pub mod Run
use reactor_web_server.Common.{
  ◌++◌, ℕ, ◌≡◌, Bool, true, Option, some, List, [], ◌∷◌, ℤ, pos, eq_ℤ, ◌⊎◌,
}
use reactor_web_server.Common.Text.{Bytes}
use reactor_web_server.Http.{Address}
use reactor_web_server.Http.Resource.{Files}
use reactor_web_server.SubReactor.{SubReactor, sub_reactor, dispatch_new_conn}
use reactor_web_server.SubReactor.Handlers.{run_task}
use reactor_web_server.SubReactor.Busy.{reports}
use reactor_web_server.SubReactor.Loop.{Ready, report_all, handle_ready}

-- The reactor, and the events of the last epoll_wait that are not handled.
pub record System : Type 0 where
  pub reactor : SubReactor
  pub pending : List Ready

module _ (fs : Files) (root : Bytes) (eventfd timerfd : ℤ) where
  -- epoll_wait reports the two descriptors of the reactor, and descriptors that are registered and
  -- not disabled.
  abbrev pub AreReported : SubReactor → List Ready → Type 0
  AreReported s [] = Unit
  AreReported s (e ∷ es) =
      ((eq_ℤ eventfd (pos e.fd) ≡ true)
        ⊎ (eq_ℤ timerfd (pos e.fd) ≡ true)
        ⊎ (reports s e.fd ≡ true))
      × AreReported s es

  pub data Step : System → System → Type 0 where
    -- the main reactor
    dispatches :
        (s : SubReactor) (es : List Ready) (cfd : ℤ) (addr : Address)
        → Step
            (record { reactor = s; pending = es })
            (record { reactor = dispatch_new_conn s cfd addr; pending = es })
    -- a worker; the workers can be done in another order than they began
    works :
        (s : SubReactor) (es : List Ready) (us : List ℕ) (fd : ℕ) (ts : List ℕ)
        → s.tasks ≡ us ++ fd ∷ ts
        → Step
            (record { reactor = s; pending = es })
            (record { reactor = run_task fs root (record s { tasks = us ++ ts }) fd; pending = es })
    -- epoll_wait returns
    waits :
        (s : SubReactor) (es : List Ready)
        → AreReported s es
        → Step
            (record { reactor = s; pending = [] })
            (record { reactor = report_all es s; pending = es })
    -- the next event is handled
    handles :
        (s t : SubReactor) (e : Ready) (es : List Ready)
        → handle_ready fs root eventfd timerfd e s ≡ some t
        → Step (record { reactor = s; pending = e ∷ es }) (record { reactor = t; pending = es })

  -- From the construction of the reactor on.
  pub data Reach : System → Type 0 where
    created : Reach (record { reactor = sub_reactor eventfd timerfd; pending = [] })
    later : (x y : System) → Reach x → Step x y → Reach y
