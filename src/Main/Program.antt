-- ===== src/Main/Program.antt =====
-- main.cpp, main: from the arguments to the exit status, with the destructor of the server.
use reactor_web_server.Common.{
  ℕ, subst, ◌≡◌, refl, ap, sym, ◌∙◌, true, Option, none, some, List, ℤ, pos,
}
use reactor_web_server.Common.Text.{Bytes}
use reactor_web_server.Server.{server}
use reactor_web_server.Server.Running.{
  MainReactor, Sockets, MainTurn, Serving, serving, left, blocked, main_reactor, start, stop_subs,
}
use reactor_web_server.Server.Dealing.{Dealt}
use reactor_web_server.Server.Serving.{run_accepts, run_ends}
use reactor_web_server.Server.Starting.{listening, start_runs}
use reactor_web_server.Main.{resolve_root_from_exe, port_of}

-- m_subs is destroyed: stop for every sub-reactor. m_stop, which ~Server sets, is read by no one any
-- more. The pool is destroyed before, and joins its workers; that is left out.
unfoldable pub destroy_server : MainReactor → MainReactor
unfolding stop_subs
destroy_server m = stop_subs m

-- main has returned, with its status, or it is inside Server::start.
pub data Main : Type 0 where
  exited : ℕ → Option MainReactor → Main
  inside : Serving → Main

-- The last lines of main, by the end of start.
unfoldable pub after_start : Serving → Main
unfolding destroy_server
after_start (serving m) = inside (serving m)
after_start (left m) = exited 0 (some (destroy_server m))
after_start (blocked m) = inside (blocked m)

-- The root directory and the port with which main starts the server.
unfoldable pub settings :
    (Bytes → Option Bytes) → (Bytes → Option ℤ) → Bytes → List Bytes → Option (Bytes × ℤ)
unfolding port_of resolve_root_from_exe
settings realpath stoi argv0 args = elim (port_of stoi args) [
  | none ↦ none
  | some port ↦ some (resolve_root_from_exe realpath argv0, port)
]

-- Server server(port, root) with num_subs = 0; the kernel answers to the port by `sockets`.
unfoldable pub main :
    (Bytes → Option Bytes)
    → (Bytes → Option ℤ)
    → ℕ
    → (ℕ → ℤ × ℤ)
    → (ℤ → Sockets)
    → List MainTurn
    → Bytes
    → List Bytes
    → Main
unfolding settings after_start
main realpath stoi hardware fds sockets ts argv0 args = elim (settings realpath stoi argv0 args) [
  | none ↦ exited 1 none
  | some (root, port) ↦ after_start (start (sockets port) ts (main_reactor (pos 0) hardware fds))
]

destroy_server-same : (u : MainReactor) → (destroy_server u).server ≡ u.server
unfolding destroy_server stop_subs
destroy_server-same u = refl

module _ (realpath : Bytes → Option Bytes) (stoi : Bytes → Option ℤ) (hw : ℕ) (fds : ℕ → ℤ × ℤ)
    (sockets : ℤ → Sockets) where
  main-started :
      (ts : List MainTurn) (argv0 : Bytes) (args : List Bytes) (port : ℤ)
      → port_of stoi args ≡ some port
      → main realpath stoi hw fds sockets ts argv0 args
        ≡ after_start (start (sockets port) ts (main_reactor (pos 0) hw fds))
  unfolding main settings
  main-started ts argv0 args port e =
      ap
        (λ o.
          elim (elim o as (λ q. Option (Bytes × ℤ)) [
            | none ↦ none
            | some p ↦ some (resolve_root_from_exe realpath argv0, p)
          ])
            as (λ q. Main) [
              | none ↦ exited 1 none
              | some (root, p) ↦ after_start (start (sockets p) ts (main_reactor (pos 0) hw fds))
            ])
        e

  -- With a port that is accepted and a listening socket, and with sub-reactors whose threads can be
  -- joined, main returns 0 once m_stop is set or epoll_wait fails, if each call of deal_new_conn before
  -- that comes to an end, and the connections were dealt to the sub-reactors in turn.
  main-Dealt :
      (ts : List MainTurn) (argv0 : Bytes) (args : List Bytes) (port : ℤ) (fd : ℕ)
      → port_of stoi args ≡ some port
      → sockets port ≡ listening fd
      → run_ends (pos fd) ts ≡ true
      → (u : MainReactor) × (main realpath stoi hw fds sockets ts argv0 args ≡ exited 0 (some u))
        × Dealt (server (pos 0) hw fds) (run_accepts (pos fd) ts) u.server
  unfolding after_start
  main-Dealt ts argv0 args port fd e k h =
      let (u, p, d, r) = start_runs (pos 0) hw fds fd ts h in
      (
        destroy_server u,
        main-started ts argv0 args port e
            ∙ ap (λ x. after_start (start x ts (main_reactor (pos 0) hw fds))) k
            ∙ ap after_start p,
        subst (Dealt (server (pos 0) hw fds) (run_accepts (pos fd) ts))
            (sym (destroy_server-same u)) d,
      )
