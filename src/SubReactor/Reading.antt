-- ===== src/SubReactor/Reading.antt =====
-- sub_reactor.cpp: the three ends of deal_read, each with its cause.
use reactor_web_server.Common.{
  ℕ, ◌+◌, ◌≤◌, ◌<◌, ◌≡◌, ◌≢◌, ◌∙◌, refl, ap, sym, subst, Bool, true, false, Option, some, List, [],
  ◌∷◌, ◌++◌, ◌==◌, update, Bool-cases, inl, inr, length, arith,
}
use reactor_web_server.Common.Text.{Bytes}
use reactor_web_server.Timer.{invalidate}
use reactor_web_server.Http.{HttpConn, init_state, close_conn}
use reactor_web_server.Http.Resource.{Files}
use reactor_web_server.Http.Parser.{prepare_io_read}
use reactor_web_server.Http.Parser.Invariant.{IsValid}
use reactor_web_server.Http.Read.{Recv, room, store, read_once}
use reactor_web_server.Http.Read.Store.{length-store}
use reactor_web_server.Http.Read.Receives.{bytes_of, read_once-Receives}
use reactor_web_server.Http.Steady.{prepare_io_read_returns}
use reactor_web_server.SubReactor.{SubReactor, epollin, modfd, arm_timerfd, close_connection}
use reactor_web_server.SubReactor.Handlers.{
  put_user, refresh_timer, submit_business, after_parse, after_read, deal_read,
}
use reactor_web_server.SubReactor.Closing.{Shut, update_same, close_connection-Shut}

pub store-IsValid :
    (c : HttpConn) (bs : Bytes)
    → c.read_idx + length bs ≤ length c.read_buf
    → IsValid c
    → IsValid (store c bs)
unfolding store
store-IsValid c bs h v = record {
  start-le = v.start-le;
  checked-le = omega (arith, v.checked-le);
  read-le = omega (arith, length-store c bs h, h);
  body-lt = v.body-lt;
}

-- What follows from the result of prepare_io_read: with 0 the descriptor waits for the rest of the
-- request; otherwise the request goes to the end of the pool's queue, with the registration as it
-- was and the timer stopped. The connection is the one that prepare_io_read left.
pub data Decided (s : SubReactor) (fd r : ℕ) (d : HttpConn) (t : SubReactor) : Type 0 where
  waits :
      r ≡ 0
      → t.users fd ≡ d
      → t.tasks ≡ s.tasks
      → t.epoll ≡ modfd s.epoll fd epollin
      → Decided s fd r d t
  submitted :
      r ≢ 0
      → t.users fd ≡ d
      → t.tasks ≡ s.tasks ++ fd ∷ []
      → t.epoll ≡ s.epoll
      → (fd < t.timers.max_fd → t.timers.seqs fd ≡ 0)
      → Decided s fd r d t

-- What follows from the result of read_once: with false the connection is shut, with true the
-- parser decides.
pub data Handled (fs : Files) (root : Bytes) (s : SubReactor) (fd : ℕ) (b : Bool) (c : HttpConn)
    (t : SubReactor) : Type 0 where
  shut : b ≡ false → t.tasks ≡ s.tasks → Shut fd t → Handled fs root s fd b c t
  parsed :
      b ≡ true
      → (r : ℕ) (d : HttpConn) → prepare_io_read fs root c ≡ some (r, d)
      → Decided s fd r d t
      → Handled fs root s fd b c t

pub updated : {A : Type 0} (P : A → Type 0) (f : ℕ → A) (i : ℕ) (v : A) → P v → P (update f i v i)
updated P f i v h = subst P (sym (update_same f i v)) h

pub after_parse-Decided :
    (s : SubReactor) (fd r : ℕ) (d : HttpConn) → Decided s fd r d (after_parse s fd (r, d))
unfolding after_parse submit_business invalidate
after_parse-Decided s fd r d =
    let here : update s.users fd d fd ≡ d = update_same s.users fd d in
    elim (Bool-cases (r == 0)) [
      | inl e ↦ rw e (waits (ground arith) here refl refl)
      | inr e ↦ rw e (submitted (ground arith) here refl refl (ground arith))
    ]

pub Decided-IsValid :
    {s t : SubReactor} {fd r : ℕ} {d : HttpConn}
    → IsValid d
    → Decided s fd r d t
    → IsValid (t.users fd)
Decided-IsValid v (waits _ e _ _) = subst IsValid (sym e) v
Decided-IsValid v (submitted _ e _ _ _) = subst IsValid (sym e) v

pub init_state-IsValid : (c : HttpConn) → IsValid (init_state c)
unfolding init_state
init_state-IsValid c = record {
  start-le = omega arith;
  checked-le = omega arith;
  read-le = omega arith;
  body-lt = omega arith;
}

pub close_connection-IsValid :
    (s : SubReactor) (fd : ℕ) → IsValid ((close_connection s fd).users fd)
unfolding close_connection close_conn
close_connection-IsValid s fd =
    updated IsValid s.users fd (init_state (s.users fd)) (init_state-IsValid (s.users fd))

pub close_connection-tasks : (s : SubReactor) (fd : ℕ) → (close_connection s fd).tasks ≡ s.tasks
unfolding close_connection
close_connection-tasks s fd = refl

-- Only these parts of the state are compared.
pub Decided-put :
    {s u t : SubReactor} {fd r : ℕ} {d : HttpConn}
    → u.tasks ≡ s.tasks
    → u.epoll ≡ s.epoll
    → Decided u fd r d t
    → Decided s fd r d t
Decided-put {fd = fd} a b (waits z w p q) = waits z w (p ∙ a) (q ∙ ap (λ e. modfd e fd epollin) b)
Decided-put {fd = fd} a b (submitted z w p q r) =
    submitted z w (p ∙ ap (λ x. x ++ fd ∷ []) a) (q ∙ b) r

arm_timerfd-same :
    (s : SubReactor) (now : ℕ)
    → ((arm_timerfd s now).tasks ≡ s.tasks) × ((arm_timerfd s now).epoll ≡ s.epoll)
unfolding arm_timerfd
arm_timerfd-same s now = (refl, refl)

module _ (fs : Files) (root : Bytes) where
  -- The end of deal_read, with a connection that is still valid.
  abbrev Ends : SubReactor → ℕ → Bool → HttpConn → Option SubReactor → Type 0
  Ends s fd b c w =
      (t : SubReactor) × (w ≡ some t) × Handled fs root s fd b c t × IsValid (t.users fd)

  prepare_io_read-Ends :
      (s : SubReactor) (fd now : ℕ) (c : HttpConn)
      → IsValid c
      → Ends s fd true c (after_read fs root s fd now (true, c))
  unfolding after_read
  prepare_io_read-Ends s fd now c v =
      let u = refresh_timer (put_user s fd c) fd now in
      let (r, e, w) = prepare_io_read_returns fs root c v in
      let d = after_parse-Decided u fd r.0 r.1 in
      (
        after_parse u fd r,
        rw (e, after_read) refl,
        parsed refl r.0 r.1 e (Decided-put (arm_timerfd-same _ now).0 (arm_timerfd-same _ now).1 d),
        Decided-IsValid w d,
      )

  after_read-Ends :
      (s : SubReactor) (fd now : ℕ) (b : Bool) (c : HttpConn)
      → IsValid c
      → Ends s fd b c (after_read fs root s fd now (b, c))
  unfolding after_read
  after_read-Ends s fd now true c v = prepare_io_read-Ends s fd now c v
  after_read-Ends s fd now false c v =
      let u = put_user s fd c in
      (
        close_connection u fd,
        refl,
        shut refl (close_connection-tasks u fd) (close_connection-Shut u fd).0,
        close_connection-IsValid u fd,
      )

  -- On a valid connection, once recv has answered, deal_read returns, and its end follows from the
  -- results of its calls: when read_once gives false, the connection is shut and no task is added;
  -- when it gives true and prepare_io_read answers 0, the descriptor is registered for reading, if
  -- epoll has it, and no task is added; when prepare_io_read answers anything else, one task is
  -- added at the end of the pool's queue, with the registration unchanged and, if the table of the
  -- timers has the descriptor's number, its version number 0. After prepare_io_read the reactor
  -- keeps the connection that it left. In each case the connection is valid.
  pub deal_read-Ends :
      (s : SubReactor) (fd now : ℕ) (os : List Recv) (b : Bool) (c : HttpConn)
      → IsValid (s.users fd)
      → length (bytes_of os) ≤ room (s.users fd)
      → read_once os (s.users fd) ≡ some (b, c)
      → (t : SubReactor) × (deal_read fs root s fd now os ≡ some t)
        × Handled fs root s fd b c t
        × IsValid (t.users fd)
  unfolding deal_read
  deal_read-Ends s fd now os b c v h e =
      let r = read_once-Receives os (s.users fd) b c v.read-le h e in
      rw (e, deal_read)
        (after_read-Ends s fd now b c
          (subst IsValid (sym r.stored) (store-IsValid (s.users fd) r.bytes r.fits v)))
