-- ===== src/SubReactor/Closing.antt =====
-- sub_reactor.cpp: what close_connection leaves of a descriptor, and answers that come too late.
use reactor_web_server.Common.{
  ℕ, ◌<◌, ◌≡◌, ◌≢◌, ◌∙◌, refl, ap, none, List, [], ◌∷◌, ◌++◌, ℤ, eq_ℤ, if◌then◌else◌, Bool-cases,
  inl, inr, sym, append-nil, append_assoc, pos, minus_one, update, arith,
}
use reactor_web_server.Timer.{invalidate}
use reactor_web_server.Http.{HttpConn, Closed, close_conn, close_fd, init_state}
use reactor_web_server.SubReactor.{SubReactor, bus_done, removefd, close_connection}
use reactor_web_server.SubReactor.Handlers.{bus_done_on, handle_msg}

-- A descriptor without a connection: no socket, no open file, no registration, and a version number
-- that says that no timer node counts. Nodes in the heap are not looked at.
pub record Shut (fd : ℕ) (s : SubReactor) : Type 0 where
  pub no_socket : (s.users fd).sockfd ≡ minus_one
  pub no_file : (s.users fd).file_fd ≡ minus_one
  pub no_events : s.epoll fd ≡ none
  pub no_timer : fd < s.timers.max_fd → s.timers.seqs fd ≡ 0

-- Every other descriptor is as before.
pub record Apart (s : SubReactor) (fd : ℕ) (t : SubReactor) : Type 0 where
  pub same_user : (g : ℕ) → g ≢ fd → t.users g ≡ s.users g
  pub same_events : (g : ℕ) → g ≢ fd → t.epoll g ≡ s.epoll g
  pub same_timer : (g : ℕ) → g ≢ fd → t.timers.seqs g ≡ s.timers.seqs g

pub update_same : {A : Type 0} (f : ℕ → A) (i : ℕ) (v : A) → update f i v i ≡ v
update_same f i v = ground arith

pub update_other : {A : Type 0} (f : ℕ → A) (i j : ℕ) (v : A) → j ≢ i → update f i v j ≡ f j
update_other f i j v h = ground arith

-- The descriptors that a connection owns, in the order in which close_conn closes them.
abbrev pub owned : HttpConn → List ℤ
owned c =
    (if eq_ℤ c.sockfd minus_one then [] else c.sockfd ∷ [])
    ++ (if eq_ℤ c.file_fd minus_one then [] else c.file_fd ∷ [])

close_fd-owned :
    (fd : ℤ) (log : Closed) → close_fd fd log ≡ log ++ (if eq_ℤ fd minus_one then [] else fd ∷ [])
unfolding close_fd
close_fd-owned fd log = elim (Bool-cases (eq_ℤ fd minus_one)) [
  | inl e ↦ rw e (sym (append-nil log))
  | inr e ↦ rw e refl
]

close_conn-owned : (c : HttpConn) (log : Closed) → (close_conn c log).1 ≡ log ++ owned c
unfolding close_conn
close_conn-owned c log =
    close_fd-owned c.file_fd (close_fd c.sockfd log)
    ∙ ap (λ l. l ++ (if eq_ℤ c.file_fd minus_one then [] else c.file_fd ∷ []))
        (close_fd-owned c.sockfd log)
    ∙ append_assoc log (if eq_ℤ c.sockfd minus_one then [] else c.sockfd ∷ [])
        (if eq_ℤ c.file_fd minus_one then [] else c.file_fd ∷ [])

-- Closing a connection closes its socket and then its file, each if there is one and nothing else;
-- it leaves the descriptor with no socket, no open file, no registration and, if the table of the
-- timers has its number, version number 0, and
-- every other descriptor's connection, registration and version number as they were. Nodes of the
-- timer heap are left where they are.
pub close_connection-Shut :
    (s : SubReactor) (fd : ℕ)
    → Shut fd (close_connection s fd)
      × Apart s fd (close_connection s fd)
      × ((close_connection s fd).closed ≡ s.closed ++ owned (s.users fd))
      × ((close_connection s fd).timers.heap ≡ s.timers.heap)
unfolding close_connection removefd invalidate close_conn init_state
close_connection-Shut s fd = (
  record {
    no_socket = ap (λ c. c.sockfd) (update_same s.users fd (init_state (s.users fd)));
    no_file = ap (λ c. c.file_fd) (update_same s.users fd (init_state (s.users fd)));
    no_events = update_same s.epoll fd none;
    no_timer = ground arith;
  },
  record {
    same_user = λ g. update_other s.users fd g (init_state (s.users fd));
    same_events = λ g. update_other s.epoll fd g none;
    same_timer = ground arith;
  },
  close_conn-owned (s.users fd) s.closed,
  ground arith,
)

closed_again : (c : HttpConn) (log : Closed) → (close_conn (init_state c) log).1 ≡ log
unfolding close_conn close_fd init_state
closed_again c log = refl

-- A connection that was closed is not closed again by a second call, so no other connection that
-- the kernel gave the same number loses its descriptor.
close_connection-close_connection :
    (s : SubReactor) (fd : ℕ)
    → (close_connection (close_connection s fd) fd).closed ≡ (close_connection s fd).closed
unfolding close_connection close_conn
close_connection-close_connection s fd =
    ap (λ c. (close_conn c (close_conn (s.users fd) s.closed).1).1)
      (update_same s.users fd (init_state (s.users fd)))
    ∙ closed_again (s.users fd) (close_conn (s.users fd) s.closed).1

-- What close_connection closes: the socket and then the file, each if there is one.
pub close_connection-closed :
    (s : SubReactor) (fd : ℕ)
    → (close_connection s fd).closed
      ≡ close_fd (s.users fd).file_fd (close_fd (s.users fd).sockfd s.closed)
unfolding close_connection close_conn
close_connection-closed s fd = refl

-- The completion of a task whose connection is closed by then does nothing.
handle_msg-closed :
    (s : SubReactor) (fd result now : ℕ)
    → Shut fd s
    → handle_msg s (bus_done (pos fd) result) now ≡ s
unfolding handle_msg bus_done_on
handle_msg-closed s fd result now h = rw (h.no_socket) (ground arith)
