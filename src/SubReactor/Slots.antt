-- ===== src/SubReactor/Slots.antt =====
-- sub_reactor.cpp: the table of connections and epoll agree. A slot is shut, or it is open on its own
-- descriptor and registered, or it has the number of a descriptor that the reactor registered for
-- itself.
pub mod Handling
use reactor_web_server.Common.{
  ℕ, ◌<◌, ◌≡◌, ◌≢◌, refl, ap, sym, subst, ◌∙◌, ◌⊎◌, inl, inr, Bool, true, false, Option, none, some,
  List, [], ◌∷◌, ◌++◌, leb, ltb, ◌==◌, ◌||◌, if◌then◌else◌, update, Bool-cases, Option-cases, arith,
  ℤ, pos, negsuc, minus_one, eq_ℤ,
}
use reactor_web_server.Common.Text.{Bytes}
use reactor_web_server.Timer.{TimerHeap, TimerNode}
use reactor_web_server.Http.{HttpConn, Address, Closed, http_conn, init, init_state, close_conn}
use reactor_web_server.Http.Read.{Recv, read_once}
use reactor_web_server.Http.Write.{Errno, Outcome, Io, write}
use reactor_web_server.Http.Resource.{Files}
use reactor_web_server.Http.Reset.{keep_alive, reset_for_next}
use reactor_web_server.Http.Steady.{
  IsSteady, prepare_io_read-IsSteady, run_business-IsSteady, WriteSteady, write-WriteSteady,
  reset_for_next-IsSteady, init_state-IsSteady, init-IsSteady,
}
use reactor_web_server.SubReactor.{
  SubReactor, Interest, Epoll, Event, epollin, epollout, SubMsg, new_conn, bus_done, max_fd,
  sub_reactor, addfd, modfd, removefd, arm_timerfd, notify_bus_done, close_connection, is_in,
  is_out,
}
use reactor_web_server.SubReactor.Handlers.{
  put_user, refresh_timer, add_timer, add_new_conn, submit_business, after_parse, after_read,
  deal_read, task_result, run_task, next_request, after_response, after_write, deal_write, not_own,
  bus_done_on, handle_msg, handle_all, handle_wakeup, on_expiry, handle_timeout,
}

-- A property of every place of an updated table.
pub at_update :
    (P : ℕ → HttpConn → Option Interest → Type 0) (us : ℕ → HttpConn) (ep : Epoll) (fd : ℕ)
    (c : HttpConn) (o : Option Interest)
    → P fd c o
    → ((g : ℕ) → P g (us g) (ep g))
    → (g : ℕ) → P g (update us fd c g) (update ep fd o g)
at_update P us ep fd c o p h g = elim (Bool-cases (g == fd)) [
  | inl e ↦ rw (e) (subst (λ x. P x c o) (ground arith) p)
  | inr e ↦ rw e (h g)
]

-- What modfd writes for a descriptor.
abbrev pub modified : Option Interest → Event → Option Interest
modified o ev = elim o [
  | none ↦ none
  | some _ ↦
      some (record { reads = is_in ev; writes = is_out ev; one_shot = false; enabled = true })
]

module _ (own : ℕ → Type 0) where
  -- A socket and what epoll knows of the descriptor. The reactor registers descriptors of its own,
  -- where the table has no socket.
  abbrev pub Shape : ℕ → ℤ → Option Interest → Type 0
  Shape fd z o =
      ((z ≡ minus_one) × (o ≡ none))
      ⊎ ((fd < max_fd) × (z ≡ pos fd) × ((i : Interest) × (o ≡ some i)))
      ⊎ ((z ≡ minus_one) × own fd × ((i : Interest) × (o ≡ some i)))

  abbrev pub Slot : ℕ → HttpConn → Option Interest → Type 0
  Slot fd c o = (z : ℤ) × IsSteady z c × Shape fd z o

  abbrev pub Slots : (ℕ → HttpConn) → Epoll → Type 0
  Slots us ep = (fd : ℕ) → Slot fd (us fd) (ep fd)

  abbrev pub KeepsSlots : SubReactor → Type 0
  KeepsSlots s = Slots s.users s.epoll

  abbrev pub SlotsAfter : Option SubReactor → Type 0
  SlotsAfter none = Unit
  SlotsAfter (some t) = KeepsSlots t

  pub modified-Shape :
      (fd : ℕ) (z : ℤ) (o : Option Interest) (ev : Event)
      → Shape fd z o
      → Shape fd z (modified o ev)
  modified-Shape fd z none ev (inl h) = inl h
  modified-Shape fd z none ev (inr (inl (_, _, (i, e)))) = absurd (none_is_some e)
    where
      none_is_some : {i : Interest} → ◌≡◌ {A = Option Interest} none (some i) → ⊥
      none_is_some e = cc
  modified-Shape fd z none ev (inr (inr (_, _, (i, e)))) = absurd (none_is_some e)
    where
      none_is_some : {i : Interest} → ◌≡◌ {A = Option Interest} none (some i) → ⊥
      none_is_some e = cc
  modified-Shape fd z (some i) ev (inl (a, e)) = absurd (some_is_none e)
    where
      some_is_none : ◌≡◌ {A = Option Interest} (some i) none → ⊥
      some_is_none e = cc
  modified-Shape fd z (some i) ev (inr (inl (a, b, c))) = inr (inl (a, b, (_, refl)))
  modified-Shape fd z (some i) ev (inr (inr (a, b, c))) = inr (inr (a, b, (_, refl)))

  module _ (s : SubReactor) (fd : ℕ) (k : KeepsSlots s) where
    pub put_user-KeepsSlots :
        (z : ℤ) (c : HttpConn)
        → IsSteady z c
        → Shape fd z (s.epoll fd)
        → KeepsSlots (put_user s fd c)
    put_user-KeepsSlots z c v h g = elim (Bool-cases (g == fd)) [
      | inl e ↦ rw e (subst (λ x. Slot x c (s.epoll x)) (ground arith) (z, v, h))
      | inr e ↦ rw e (k g)
    ]

    pub modfd-KeepsSlots :
        (z : ℤ) (c : HttpConn) (ev : Event)
        → IsSteady z c
        → Shape fd z (s.epoll fd)
        → Slots (update s.users fd c) (modfd s.epoll fd ev)
    unfolding modfd
    modfd-KeepsSlots z c ev v h =
        at_update Slot s.users s.epoll fd c (modified (s.epoll fd) ev)
          (z, v, modified-Shape fd z (s.epoll fd) ev h) k

    pub close_connection-KeepsSlots : KeepsSlots (close_connection s fd)
    unfolding close_connection close_conn removefd
    close_connection-KeepsSlots =
        at_update Slot s.users s.epoll fd (init_state (s.users fd)) none
          (minus_one, init_state-IsSteady (s.users fd), inl (refl, refl)) k

    pub after_parse-KeepsSlots :
        (z : ℤ) (r : ℕ × HttpConn)
        → IsSteady z r.1
        → Shape fd z (s.epoll fd)
        → KeepsSlots (after_parse s fd r)
    unfolding after_parse submit_business
    after_parse-KeepsSlots z (r, c) v h = elim (Bool-cases (r == 0)) [
      | inl e ↦ rw e (modfd-KeepsSlots z c epollin v h)
      | inr e ↦ rw e (put_user-KeepsSlots z c v h)
    ]
