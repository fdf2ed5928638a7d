-- ===== src/SubReactor/Slots/Handling.antt =====
-- sub_reactor.cpp: every handler keeps the table of connections and epoll in step.
use reactor_web_server.Common.{
  either_way, ℕ, ◌<◌, refl, subst, inl, inr, Bool, true, false, Option, none, some, List, [], ◌∷◌,
  leb, ◌==◌, ◌||◌, update, Bool-cases, arith, ℤ, pos, negsuc, eq_ℤ,
}
use reactor_web_server.Common.Text.{Bytes}
use reactor_web_server.Http.{HttpConn, Address, Closed, init}
use reactor_web_server.Http.Read.{Recv, read_once}
use reactor_web_server.Http.Write.{Errno, Outcome, Io, write}
use reactor_web_server.Http.Resource.{Files}
use reactor_web_server.Http.Reset.{keep_alive, reset_for_next}
use reactor_web_server.Http.Steady.{
  IsSteady, prepare_io_read-IsSteady, run_business-IsSteady, WriteSteady, write-WriteSteady,
  reset_for_next-IsSteady, init-IsSteady,
}
use reactor_web_server.Http.Steady.Reading.{ReadSteady, read_once-ReadSteady}
use reactor_web_server.SubReactor.{
  SubReactor, Interest, Event, epollin, epollout, SubMsg, new_conn, bus_done, max_fd, addfd, modfd,
  arm_timerfd, notify_bus_done, close_connection,
}
use reactor_web_server.SubReactor.Handlers.{
  put_user, refresh_timer, add_timer, add_new_conn, after_read, deal_read, task_result, run_task,
  next_request, after_response, after_write, deal_write, not_own, bus_done_on, handle_msg,
  handle_all, on_expiry, handle_timeout,
}
use reactor_web_server.SubReactor.Timeouts.{Kept, tick-Kept}
use reactor_web_server.SubReactor.Slots.{
  Shape, Slot, Slots, at_update, KeepsSlots, SlotsAfter, modified, modified-Shape,
  put_user-KeepsSlots, modfd-KeepsSlots, close_connection-KeepsSlots, after_parse-KeepsSlots,
}

module _ (own : ℕ → Type 0) where
  module _ (fs : Files) (root : Bytes) (fd : ℕ) where
    module _ (s : SubReactor) (k : KeepsSlots own s) (z : ℤ) (h : Shape own fd z (s.epoll fd)) where
      -- The connection is parsed after its timer was refreshed or not: timers do not count.
      after_read-SlotsAfter :
          (now : ℕ) (b : Bool) (c : HttpConn)
          → IsSteady z c
          → SlotsAfter own (after_read fs root s fd now (b, c))
      unfolding after_read arm_timerfd
      after_read-SlotsAfter now false c v =
          close_connection-KeepsSlots own (put_user s fd c) fd
            (put_user-KeepsSlots own s fd k z c v h)
      after_read-SlotsAfter now true c v =
          let (r, e, w) = prepare_io_read-IsSteady z fs root c v in
          let u = refresh_timer (put_user s fd c) fd now in
          rw (e, after_read)
            (after_parse-KeepsSlots own u fd (put_user-KeepsSlots own s fd k z c v h) z r w h)

      next_request-SlotsAfter :
          (more : Bool) (d : HttpConn) (log : Closed)
          → IsSteady z d
          → SlotsAfter own (next_request fs root s fd (more, d, log))
      unfolding next_request
      next_request-SlotsAfter false d log v = modfd-KeepsSlots own s fd k z d epollin v h
      next_request-SlotsAfter true d log v =
          let (r, e, w) = prepare_io_read-IsSteady z fs root d v in
          let u = record s { users = update s.users fd d; closed = log } in
          rw (e, next_request)
            (after_parse-KeepsSlots own u fd (put_user-KeepsSlots own s fd k z d v h) z r w h)

    read_ends :
        (s : SubReactor) (now : ℕ) (z : ℤ) (o : Option (Bool × HttpConn))
        → KeepsSlots own s
        → Shape own fd z (s.epoll fd)
        → ReadSteady z o
        → SlotsAfter own (elim o [ none ↦ none | some r ↦ after_read fs root s fd now r ])
    read_ends s now z none k h v = tt
    read_ends s now z (some (b, c)) k h v = after_read-SlotsAfter s k z h now b c v

    pub deal_read-SlotsAfter :
        (s : SubReactor) (now : ℕ) (os : List Recv)
        → KeepsSlots own s
        → SlotsAfter own (deal_read fs root s fd now os)
    unfolding deal_read
    deal_read-SlotsAfter s now os k =
        let (z, v, h) = k fd in
        read_ends s now z (read_once os (s.users fd)) k h (read_once-ReadSteady z os (s.users fd) v)

    after_response-SlotsAfter :
        (s : SubReactor) → KeepsSlots own s → SlotsAfter own (after_response fs root s fd)
    unfolding after_response
    after_response-SlotsAfter s k =
        let (z, v, h) = k fd in
        let r = reset_for_next (s.users fd) s.closed in
        either_way (SlotsAfter own) (keep_alive (s.users fd)) (next_request fs root s fd r)
          (some (close_connection s fd))
          (next_request-SlotsAfter s k z h r.0 r.1 r.2
            (reset_for_next-IsSteady z (s.users fd) s.closed v))
          (close_connection-KeepsSlots own s fd k)

    write_ends :
        (s : SubReactor) (z : ℤ) (o : Option (ℕ × Io))
        → KeepsSlots own s
        → Shape own fd z (s.epoll fd)
        → WriteSteady z o
        → SlotsAfter own (elim o [ none ↦ none | some r ↦ after_write fs root s fd r ])
    unfolding after_write
    write_ends s z none k h v = tt
    write_ends s z (some (r, io)) k h v =
        let t = put_user s fd io.conn in
        let q = put_user-KeepsSlots own s fd k z io.conn v h in
        either_way (SlotsAfter own) (r == 0) (some (close_connection t fd)) _
          (close_connection-KeepsSlots own t fd q)
          (either_way (SlotsAfter own) (r == 2)
            (some (record t { epoll = modfd t.epoll fd epollout })) _
            (modfd-KeepsSlots own s fd k z io.conn epollout v h) (after_response-SlotsAfter t q))

    pub deal_write-SlotsAfter :
        (s : SubReactor) (now : ℕ) (file : Bytes) (errno : Errno) (os : List Outcome)
        → KeepsSlots own s
        → SlotsAfter own (deal_write fs root s fd now file errno os)
    unfolding deal_write arm_timerfd
    deal_write-SlotsAfter s now file errno os k =
        let (z, v, h) = k fd in
        let io : Io = record { conn = s.users fd; errno = errno; wire = [] } in
        write_ends (refresh_timer s fd now) z (write file os io) k h
          (write-WriteSteady z file os io v)

    task_result-IsSteady :
        (s : SubReactor) (z : ℤ) (c : HttpConn)
        → IsSteady z c
        → IsSteady z (task_result fs root s fd c).1
    unfolding task_result
    task_result-IsSteady s z c v = elim (Bool-cases (eq_ℤ c.sockfd (pos fd))) [
      | inl e ↦ rw e (run_business-IsSteady z fs root c v)
      | inr e ↦ rw e v
    ]

    -- The task of a worker.
    pub run_task-KeepsSlots :
        (s : SubReactor) → KeepsSlots own s → KeepsSlots own (run_task fs root s fd)
    unfolding run_task notify_bus_done
    run_task-KeepsSlots s k =
        let (z, v, h) = k fd in
        put_user-KeepsSlots own s fd k z (task_result fs root s fd (s.users fd)).1
          (task_result-IsSteady s z (s.users fd) v) h

  -- What addfd writes for a descriptor of a new connection.
  abbrev added : Option Interest → Option Interest
  added o = elim o [
    | some i ↦ some i
    | none ↦ some (record { reads = true; writes = false; one_shot = true; enabled = true })
  ]

  added-Shape : (fd : ℕ) (o : Option Interest) → fd < max_fd → Shape own fd (pos fd) (added o)
  added-Shape fd none h = inr (inl (h, refl, (_, refl)))
  added-Shape fd (some i) h = inr (inl (h, refl, (i, refl)))

  modfd_only :
      (s : SubReactor) (fd : ℕ)
      → KeepsSlots own s
      → (ev : Event) → Slots own s.users (modfd s.epoll fd ev)
  unfolding modfd
  modfd_only s fd k ev g = elim (Bool-cases (g == fd)) [
    | inl e ↦
        let (z, v, h) = k g in
        rw e (
          z,
          v,
          subst (λ x. Shape own g z (modified (s.epoll x) ev)) (ground arith)
              (modified-Shape own g z (s.epoll g) ev h),
        )
    | inr e ↦ rw e (k g)
  ]

  on_expiry-KeepsSlots : (now : ℕ) → Kept on_expiry now (KeepsSlots own)
  unfolding on_expiry
  on_expiry-KeepsSlots now fd (h, s) k =
      close_connection-KeepsSlots own (record s { timers = h }) fd k

  add_new_conn-KeepsSlots :
      (s : SubReactor) (fd : ℕ) (addr : Address) (now : ℕ)
      → KeepsSlots own s
      → KeepsSlots own (add_new_conn s fd addr now)
  unfolding add_new_conn arm_timerfd addfd
  add_new_conn-KeepsSlots s fd addr now k = elim (Bool-cases (leb max_fd fd)) [
    | inl e ↦ rw e k
    | inr e ↦ rw e (
        at_update (Slot own) s.users s.epoll fd (init (s.users fd) (pos fd) addr)
          (added (s.epoll fd))
          (
            pos fd,
            init-IsSteady (s.users fd) (pos fd) addr,
            added-Shape fd (s.epoll fd) (ground arith),
          )
          k)
  ]

  bus_done_on-KeepsSlots :
      (s : SubReactor) (fd result now : ℕ)
      → KeepsSlots own s
      → KeepsSlots own (bus_done_on s fd result now)
  unfolding bus_done_on arm_timerfd
  bus_done_on-KeepsSlots s fd result now k =
      either_way (KeepsSlots own) (leb max_fd fd || not_own fd (s.users fd).sockfd) s _ k (
        either_way (KeepsSlots own) (result == 1)
          (add_timer (record s { epoll = modfd s.epoll fd epollout }) fd now)
          (close_connection s fd) (modfd_only s fd k epollout)
          (close_connection-KeepsSlots own s fd k))

  pub handle_msg-KeepsSlots :
      (s : SubReactor) (m : SubMsg) (now : ℕ)
      → KeepsSlots own s
      → KeepsSlots own (handle_msg s m now)
  unfolding handle_msg
  handle_msg-KeepsSlots s (new_conn (pos fd) addr) now k = add_new_conn-KeepsSlots s fd addr now k
  handle_msg-KeepsSlots s (new_conn (negsuc _) addr) now k = k
  handle_msg-KeepsSlots s (bus_done (negsuc _) result) now k = k
  handle_msg-KeepsSlots s (bus_done (pos fd) result) now k =
      bus_done_on-KeepsSlots s fd result now k

  pub handle_all-KeepsSlots :
      (s : SubReactor) (ms : List SubMsg) (now : ℕ)
      → KeepsSlots own s
      → KeepsSlots own (handle_all s ms now)
  unfolding handle_all
  handle_all-KeepsSlots s [] now k = k
  handle_all-KeepsSlots s (m ∷ ms) now k =
      handle_all-KeepsSlots (handle_msg s m now) ms now (handle_msg-KeepsSlots s m now k)

  pub handle_timeout-KeepsSlots :
      (s : SubReactor) (now later : ℕ)
      → KeepsSlots own s
      → KeepsSlots own (handle_timeout s now later)
  unfolding handle_timeout arm_timerfd
  handle_timeout-KeepsSlots s now later k =
      tick-Kept on_expiry now (KeepsSlots own) (on_expiry-KeepsSlots now) (s.timers, s) k
