-- ===== src/Examples/Running.antt =====
-- Runs of the thread pool, the descriptor guards, the log, the main reactor and the program entry.
use reactor_web_server.Common.{
  ℕ, ℤ, ◌+◌, ◌*◌, ◌≡◌, refl, arith, All, inr, some, [], ◌∷◌, pos, minus_one, ◌==◌, if◌then◌else◌,
}
use reactor_web_server.Common.Text.{codes}
use reactor_web_server.Http.{no_address}
use reactor_web_server.ThreadPool
use reactor_web_server.ThreadPool.{ThreadPool, thread_pool, submit, worker_loop}
use reactor_web_server.ThreadPool.Order.{known, Steps-known}
use reactor_web_server.FdGuard.{Guards, reset}
use reactor_web_server.FdGuard.Ownership.{IsUnique, Free, resets, Call-Closes}
use reactor_web_server.AsyncLog
use reactor_web_server.AsyncLog.{AsyncLog, async_log, flush_rest, line_of}
use reactor_web_server.AsyncLog.Order
use reactor_web_server.AsyncLog.Order.{contents, Steps-contents, full_buffer_lost}
use reactor_web_server.Server.{Server, server, accepted, eagain, eintr, deal_new_conn}
use reactor_web_server.Server.Dealing.{Dealt, deal_new_conn-Dealt}

-- An eventfd and a timerfd for each sub-reactor.
abbrev own_fds : ℕ → ℤ × ℤ
own_fds i = (pos (20 + 2 * i), pos (21 + 2 * i))

-- A pool of two workers with one task.
abbrev one_task : ThreadPool ℕ
one_task = submit 7 (thread_pool 2 8)

Steps-known_example : known one_task ≡ 7 ∷ []
unfolding thread_pool
Steps-known_example = Steps-known (thread_pool 2 8) one_task (
    ThreadPool.goes_on (thread_pool 2 8) (thread_pool 2 8) one_task
      (ThreadPool.stays (thread_pool 2 8)) (ThreadPool.submits 7 (thread_pool 2 8)))

-- Guard 0 holds descriptor 3 and guard 1 descriptor 4.
abbrev two_guards : Guards
two_guards = record {
  fds = λ a. if a == 0 then pos 3 else if a == 1 then pos 4 else minus_one;
  closed = [];
}

two_guards-IsUnique : IsUnique two_guards
two_guards-IsUnique a b h e = ground arith

nine-Free : Free (pos 9) two_guards
nine-Free a e = ground arith

Call-Closes_example :
    (((reset 1 (pos 9) two_guards).closed ≡ pos 4 ∷ [])
      × All (λ fd. Free fd (reset 1 (pos 9) two_guards)) (pos 4 ∷ []))
    × IsUnique (reset 1 (pos 9) two_guards)
Call-Closes_example =
    Call-Closes (pos 4 ∷ []) two_guards (reset 1 (pos 9) two_guards)
      (resets 1 (pos 9) (λ e. absurd (ground arith)) (inr nine-Free)) two_guards-IsUnique

-- A log that runs, with buffers of eight bytes.
abbrev running_log : AsyncLog
running_log = AsyncLog.init 1 0 async_log

abbrev with_line : AsyncLog
with_line = AsyncLog.store 8 (codes "one") running_log

abbrev one_line : AsyncLog.Order.Steps 8 running_log with_line
one_line =
    AsyncLog.Order.goes_on running_log running_log with_line (AsyncLog.Order.stays running_log)
      (AsyncLog.Order.logs (codes "one") running_log (omega arith))

Steps-contents_example : contents with_line ≡ codes "one"
unfolding async_log AsyncLog.init
Steps-contents_example = Steps-contents 8 running_log with_line one_line

-- "three" and "seven" do not fit one buffer.
abbrev with_five : AsyncLog
with_five = record running_log { cur_buf = codes "three" }

full_buffer_lost_example :
    ((flush_rest (AsyncLog.shutdown (AsyncLog.store 8 (codes "seven") with_five))).file
      ≡ codes "seven")
    × ((flush_rest (AsyncLog.shutdown (AsyncLog.store 8 (codes "seven") with_five))).ready_bufs
        ≡ codes "three" ∷ [])
unfolding async_log AsyncLog.init
full_buffer_lost_example =
    full_buffer_lost 8 with_five (codes "seven") refl (omega arith) (omega arith)

-- Three connections for two sub-reactors.
deal_new_conn-Dealt_example :
    (t : Server) × (deal_new_conn
        (accepted 5 no_address
          ∷ accepted 6 no_address
          ∷ eintr
          ∷ accepted 70000 no_address
          ∷ eagain
          ∷ [])
        (server (pos 2) 8 own_fds)
      ≡ some t)
    × Dealt
        (server (pos 2) 8 own_fds)
        (accepted 5 no_address
          ∷ accepted 6 no_address
          ∷ eintr
          ∷ accepted 70000 no_address
          ∷ eagain
          ∷ [])
        t
deal_new_conn-Dealt_example =
    deal_new_conn-Dealt
      (accepted 5 no_address
        ∷ accepted 6 no_address
        ∷ eintr
        ∷ accepted 70000 no_address
        ∷ eagain
        ∷ [])
      (server (pos 2) 8 own_fds) refl
