-- ===== src/Server/Starting.antt =====
-- server.cpp: what start leaves: the connections that were dealt, and no thread.
use reactor_web_server.Common.{
  ℕ, subst, ◌<◌, ◌≡◌, refl, ap, sym, arith, Bool, true, false, ◌&&◌, List, [], ◌∷◌, ℤ, pos,
  minus_one, ltb,
}
use reactor_web_server.Http.{close_fd}
use reactor_web_server.SubReactor.Lifecycle
use reactor_web_server.SubReactor.Lifecycle.{Lifecycle, stop_ends}
use reactor_web_server.Server.{server, Server}
use reactor_web_server.Server.Dealing.{Dealt}
use reactor_web_server.Server.Running.{
  MainReactor, Sockets, MainTurn, left, reset_listenfd, init_socket, main_loop, start_subs,
  stop_subs, after_loop, start, main_reactor,
}
use reactor_web_server.Server.Serving.{run_ends, run_accepts, main_loop_deals, deal_Dealt}

abbrev IsStopped : Lifecycle → Type 0
IsStopped l = (l.stopped ≡ true) × (l.joinable ≡ false)

-- What the sub-reactors' threads are after stop.
abbrev pub AllStopped : MainReactor → Type 0
AllStopped m =
    (i : ℕ)
    → i < m.server.num_subs
    → ((m.threads i).stopped ≡ true) × ((m.threads i).joinable ≡ false)

-- What start and stop make of the threads.
pub stop_start_lem :
    (m : MainReactor) (s : Server) (i : ℕ)
    → s.num_subs ≡ m.server.num_subs
    → i < s.num_subs
    → (stop_subs (record (start_subs m) { server = s })).threads i
      ≡ Lifecycle.stop (Lifecycle.start (m.threads i))
unfolding stop_subs start_subs
stop_start_lem m s i e lt =
    rw (ltb_lem i s.num_subs lt, ltb_lem i m.server.num_subs (omega (arith, e, lt))) refl
  where
    ltb_lem : (a b : ℕ) → a < b → ltb a b ≡ true
    ltb_lem a b h = ground arith

-- Each thread was started and stopped.
abbrev pub AllRan : MainReactor → MainReactor → Type 0
AllRan m u =
    (i : ℕ) → i < u.server.num_subs → u.threads i ≡ Lifecycle.stop (Lifecycle.start (m.threads i))

-- After the socket is open, the loop and the end of start.
pub served :
    (m : MainReactor) (ts : List MainTurn)
    → run_ends m.listenfd ts ≡ true
    → (u : MainReactor) × (after_loop (main_loop ts (start_subs m)) ≡ left u)
      × Dealt m.server (run_accepts m.listenfd ts) u.server
      × AllRan m u
unfolding start_subs after_loop
served m ts e =
    let (s, p, q) = main_loop_deals ts (start_subs m) e in
    let d = deal_Dealt (run_accepts m.listenfd ts) m.server s q in
    (
      stop_subs (record (start_subs m) { server = s }),
      ap after_loop p,
      d,
      λ i lt. stop_start_lem m s i d.same_subs lt,
    )

abbrev pub listening : ℕ → Sockets
listening fd = record { socket = pos fd; bind_ok = true; listen_ok = true }

pub start_runs :
    (n : ℤ) (hw : ℕ) (fds : ℕ → ℤ × ℤ) (fd : ℕ) (ts : List MainTurn)
    → run_ends (pos fd) ts ≡ true
    → (u : MainReactor) × (start (listening fd) ts (main_reactor n hw fds) ≡ left u)
      × Dealt (server n hw fds) (run_accepts (pos fd) ts) u.server
      × AllRan (main_reactor n hw fds) u
unfolding start init_socket reset_listenfd main_reactor close_fd server
start_runs n hw fds fd ts e = served (init_socket (listening fd) (main_reactor n hw fds)) ts e

-- A server that opens its listening socket serves until m_stop is set or epoll_wait fails: if each call of
-- deal_new_conn before that comes to an end, start returns; all connections of the whole run that fit the
-- tables went to the sub-reactors in turn, each to exactly one and in order, the others are closed; and every
-- sub-reactor is stopped, with join called for its thread.
start-Dealt :
    (n : ℤ) (hw : ℕ) (fds : ℕ → ℤ × ℤ) (fd : ℕ) (ts : List MainTurn)
    → run_ends (pos fd) ts ≡ true
    → (u : MainReactor) × (start (listening fd) ts (main_reactor n hw fds) ≡ left u)
      × Dealt (server n hw fds) (run_accepts (pos fd) ts) u.server
      × AllStopped u
start-Dealt n hw fds fd ts e =
    let m = main_reactor n hw fds in
    let (u, p, d, r) = start_runs n hw fds fd ts e in
    (u, p, d, λ i lt. subst IsStopped (sym (r i lt)) (stop_ends (Lifecycle.start (m.threads i))))

-- A server whose socket call fails, or whose bind or listen fails, returns from start at once, in the state
-- that it was constructed in: no thread began, no sub-reactor got a message, nothing was registered, and the
-- socket, if there was one, is closed, once.
pub start_refused :
    (n : ℤ) (hw : ℕ) (fds : ℕ → ℤ × ℤ) (fd : ℕ) (bind listen : Bool) (ts : List MainTurn)
    → (bind && listen) ≡ false
    → (start
          (record { socket = minus_one; bind_ok = bind; listen_ok = listen })
          ts
          (main_reactor n hw fds)
        ≡ left (main_reactor n hw fds))
      × (start
            (record { socket = pos fd; bind_ok = bind; listen_ok = listen })
            ts
            (main_reactor n hw fds)
          ≡ left (record (main_reactor n hw fds) {
            server = record (server n hw fds) { closed = pos fd ∷ [] };
          }))
unfolding start init_socket reset_listenfd main_reactor close_fd server
start_refused n hw fds fd true true ts e = cc
start_refused n hw fds fd true false ts e = (refl, refl)
start_refused n hw fds fd false listen ts e = (refl, refl)
