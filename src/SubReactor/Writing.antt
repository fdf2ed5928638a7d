-- ===== src/SubReactor/Writing.antt =====
-- sub_reactor.cpp: what deal_write does with a connection whose response is sent.
use reactor_web_server.Common.{
  ℕ, ◌≡◌, refl, Bool, true, false, some, update, Option, Option, if◌then◌else◌,
}
use reactor_web_server.Common.Text.{Bytes}
use reactor_web_server.Http.{HttpConn, Closed}
use reactor_web_server.Http.Resource.{Files}
use reactor_web_server.Http.Parser.{prepare_io_read}
use reactor_web_server.Http.Parser.Invariant.{IsValid}
use reactor_web_server.Http.Reset.{keep_alive, reset_for_next}
use reactor_web_server.Http.Reset.Leftover.{reset_for_next-Restarted}
use reactor_web_server.Http.Steady.{prepare_io_read_returns}
use reactor_web_server.SubReactor.{SubReactor, epollin, modfd, close_connection}
use reactor_web_server.SubReactor.Handlers.{after_parse, next_request, after_response}
use reactor_web_server.SubReactor.Closing.{Shut, update_same, close_connection-Shut}
use reactor_web_server.SubReactor.Reading.{
  Decided, waits, updated, after_parse-Decided, Decided-put, Decided-IsValid,
  close_connection-tasks, close_connection-IsValid,
}

-- What follows once the response of a connection is sent: without keep-alive the connection is
-- shut; with it the connection starts again, and it waits when nothing of a next request is there,
-- or the parser decides on what is there.
pub data Continued (fs : Files) (root : Bytes) (s : SubReactor) (fd : ℕ) (t : SubReactor)
    : Type 0 where
  ended : keep_alive (s.users fd) ≡ false → t.tasks ≡ s.tasks → Shut fd t → Continued fs root s fd t
  idle :
      keep_alive (s.users fd) ≡ true
      → (d : HttpConn) (log : Closed) → reset_for_next (s.users fd) s.closed ≡ (false, d, log)
      → Decided s fd 0 d t
      → Continued fs root s fd t
  pipelined :
      keep_alive (s.users fd) ≡ true
      → (c : HttpConn) (log : Closed) → reset_for_next (s.users fd) s.closed ≡ (true, c, log)
      → (r : ℕ) (d : HttpConn) → prepare_io_read fs root c ≡ some (r, d)
      → Decided s fd r d t
      → Continued fs root s fd t

-- What holds of each branch under its test holds of the choice.
chosen :
    (b : Bool) (A B : Option SubReactor) (P : Option SubReactor → Type 0)
    → (b ≡ true → P A)
    → (b ≡ false → P B)
    → P (if b then A else B)
chosen true A B P f g = f refl
chosen false A B P f g = g refl

module _ (fs : Files) (root : Bytes) where
  abbrev Ends : SubReactor → ℕ → Option SubReactor → Type 0
  Ends s fd w = (t : SubReactor) × (w ≡ some t) × Continued fs root s fd t × IsValid (t.users fd)

  next_request-Ends :
      (s : SubReactor) (fd : ℕ) (more : Bool) (c : HttpConn) (log : Closed)
      → keep_alive (s.users fd) ≡ true
      → reset_for_next (s.users fd) s.closed ≡ (more, c, log)
      → IsValid c
      → Ends s fd (next_request fs root s fd (more, c, log))
  unfolding next_request
  next_request-Ends s fd false c log k e v =
      let u = record s { users = update s.users fd c; closed = log } in
      let here = update_same s.users fd c in
      (
        record u { epoll = modfd u.epoll fd epollin },
        refl,
        idle k c log e (waits refl here refl refl),
        updated IsValid s.users fd c v,
      )
  next_request-Ends s fd true c log k e v =
      let u = record s { users = update s.users fd c; closed = log } in
      let (r, f, w) = prepare_io_read_returns fs root c v in
      let d = after_parse-Decided u fd r.0 r.1 in
      (
        after_parse u fd r,
        rw (f, next_request) refl,
        pipelined k c log e r.0 r.1 f (Decided-put refl refl d),
        Decided-IsValid w d,
      )

  -- When a response is sent on a valid connection, the rest of deal_write returns, and its end
  -- follows from the results of its calls: without keep-alive the connection is shut and no task
  -- is added. With it, when reset_for_next tells of no further bytes, or prepare_io_read answers 0
  -- on them, the descriptor is registered for reading, if epoll has it, and no task is added; when
  -- prepare_io_read answers anything else, the next request, which was already read, goes to the
  -- end of the pool's queue. The reactor keeps the connection that reset_for_next or
  -- prepare_io_read left, and it is valid.
  pub after_response-Ends :
      (s : SubReactor) (fd : ℕ)
      → IsValid (s.users fd)
      → (t : SubReactor) × (after_response fs root s fd ≡ some t)
        × Continued fs root s fd t
        × IsValid (t.users fd)
  unfolding after_response
  after_response-Ends s fd v =
      let r = reset_for_next (s.users fd) s.closed in
      chosen (keep_alive (s.users fd)) (next_request fs root s fd r) (some (close_connection s fd))
        (Ends s fd)
        (λ k.
          next_request-Ends s fd r.0 r.1 r.2 k refl
            (reset_for_next-Restarted (s.users fd) s.closed v).0.valid)
        (λ k. (
          close_connection s fd,
          refl,
          ended k (close_connection-tasks s fd) (close_connection-Shut s fd).0,
          close_connection-IsValid s fd,
        ))
