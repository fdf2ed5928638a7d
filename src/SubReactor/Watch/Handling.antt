-- ===== src/SubReactor/Watch/Handling.antt =====
-- sub_reactor.cpp: every handler leaves every open connection watched.
use reactor_web_server.Common.{
  either_way, ℕ, ◌<◌, ◌≡◌, ◌≢◌, refl, inl, inr, Bool, true, false, Option, none, some, List, [],
  ◌==◌, update, Bool-cases,
}
use reactor_web_server.Common.Text.{Bytes}
use reactor_web_server.Http.{HttpConn, Closed}
use reactor_web_server.Http.Read.{Recv, read_once}
use reactor_web_server.Http.Write.{Errno, Outcome, Io, write}
use reactor_web_server.Http.Parser.{prepare_io_read}
use reactor_web_server.Http.Resource.{Files}
use reactor_web_server.Http.Reset.{keep_alive, reset_for_next}
use reactor_web_server.SubReactor.{SubReactor, epollout, SubMsg, modfd, close_connection}
use reactor_web_server.SubReactor.Handlers.{
  put_user, refresh_timer, after_parse, after_read, deal_read, next_request, after_response,
  after_write, deal_write,
}
use reactor_web_server.Timer.{refresh}
use reactor_web_server.SubReactor.Closing.{update_other}
use reactor_web_server.SubReactor.Watch.{watched}
use reactor_web_server.SubReactor.Watch.Effects.{
  Looks, Looks-trans, submit-Looks, close-Looks, same-Looks, put-Looks, timer-Looks, timer_watched,
}

module _ (fs : Files) (root : Bytes) (fd : ℕ) (ms : List SubMsg) where
  abbrev pub LooksAfter : SubReactor → Option SubReactor → Type 0
  LooksAfter s none = Unit
  LooksAfter s (some t) = Looks fd ms ms s t

  after_parse-Looks :
      (s : SubReactor) (r : ℕ × HttpConn)
      → watched ms s fd ≡ true
      → Looks fd ms ms s (after_parse s fd r)
  unfolding after_parse
  after_parse-Looks s (r, c) w = elim (Bool-cases (r == 0)) [
    | inl e ↦ rw e (same-Looks fd ms s (put_user s fd c) _ s.closed (put-Looks s fd ms c w))
    | inr e ↦ rw e (submit-Looks s fd ms c)
  ]

  module _ (s : SubReactor) (lt : fd < s.timers.max_fd) where
    -- A parse after a refresh.
    refreshed_parse :
        (us : ℕ → HttpConn) (now : ℕ) (o : Option (ℕ × HttpConn))
        → ((g : ℕ) → g ≢ fd → us g ≡ s.users g)
        → LooksAfter s (elim o [
          | none ↦ none
          | some r ↦ some (after_parse (refresh_timer (record s { users = us }) fd now) fd r)
        ])
    unfolding refresh
    refreshed_parse us now none other = tt
    refreshed_parse us now (some r) other =
        let u = refresh_timer (record s { users = us }) fd now in
        Looks-trans fd ms ms ms s u (after_parse u fd r) (timer-Looks s fd ms us now lt other)
          (after_parse-Looks u r (timer_watched s fd ms us now lt))

    after_read-Looks :
        (now : ℕ) (b : Bool) (c : HttpConn) → LooksAfter s (after_read fs root s fd now (b, c))
    unfolding after_read
    after_read-Looks now false c =
        close-Looks s fd ms (update s.users fd c) (λ g ne. update_other s.users fd g c ne)
    after_read-Looks now true c =
        refreshed_parse (update s.users fd c) now (prepare_io_read fs root c)
          (λ g ne. update_other s.users fd g c ne)

    pub deal_read-Looks : (now : ℕ) (os : List Recv) → LooksAfter s (deal_read fs root s fd now os)
    unfolding deal_read
    deal_read-Looks now os = read_ends (read_once os (s.users fd))
      where
        read_ends :
            (o : Option (Bool × HttpConn))
            → LooksAfter s (elim o [ none ↦ none | some r ↦ after_read fs root s fd now r ])
        read_ends none = tt
        read_ends (some (b, c)) = after_read-Looks now b c

  next_parse :
      (s u : SubReactor) (o : Option (ℕ × HttpConn))
      → Looks fd ms ms s u
      → watched ms u fd ≡ true
      → LooksAfter s (elim o [ none ↦ none | some r ↦ some (after_parse u fd r) ])
  next_parse s u none l w = tt
  next_parse s u (some r) l w =
      Looks-trans fd ms ms ms s u (after_parse u fd r) l (after_parse-Looks u r w)

  -- The next request on a connection that is watched.
  next_request-Looks :
      (s : SubReactor) (r : Bool × HttpConn × Closed)
      → watched ms s fd ≡ true
      → LooksAfter s (next_request fs root s fd r)
  unfolding next_request
  next_request-Looks s (false, d, log) w =
      same-Looks fd ms s (put_user s fd d) _ log (put-Looks s fd ms d w)
  next_request-Looks s (true, d, log) w =
      let u = record s { users = update s.users fd d; closed = log } in
      next_parse s u (prepare_io_read fs root d)
        (same-Looks fd ms s (put_user s fd d) s.epoll log (put-Looks s fd ms d w)) w

  Looks-chained :
      (s t : SubReactor) (o : Option SubReactor)
      → Looks fd ms ms s t
      → LooksAfter t o
      → LooksAfter s o
  Looks-chained s t none l m = tt
  Looks-chained s t (some u) l m = Looks-trans fd ms ms ms s t u l m

  after_response-Looks :
      (s : SubReactor) → watched ms s fd ≡ true → LooksAfter s (after_response fs root s fd)
  unfolding after_response
  after_response-Looks s w =
      either_way (LooksAfter s) (keep_alive (s.users fd))
        (next_request fs root s fd (reset_for_next (s.users fd) s.closed))
        (some (close_connection s fd))
        (next_request-Looks s (reset_for_next (s.users fd) s.closed) w)
        (close-Looks s fd ms s.users (λ g ne. refl))

  after_write-Looks :
      (s : SubReactor) (r : ℕ × Io)
      → watched ms s fd ≡ true
      → LooksAfter s (after_write fs root s fd r)
  unfolding after_write
  after_write-Looks s (r, io) w =
      let t = put_user s fd io.conn in
      let l = put-Looks s fd ms io.conn w in
      either_way (LooksAfter s) (r == 0) (some (close_connection t fd)) _
        (close-Looks s fd ms (update s.users fd io.conn)
          (λ g ne. update_other s.users fd g io.conn ne))
        (either_way (LooksAfter s) (r == 2) (some (record t { epoll = modfd t.epoll fd epollout }))
          _ (same-Looks fd ms s t _ s.closed l)
          (Looks-chained s t (after_response fs root t fd) l (after_response-Looks t w)))

  pub deal_write-Looks :
      (s : SubReactor) (now : ℕ) (file : Bytes) (errno : Errno) (os : List Outcome)
      → fd < s.timers.max_fd
      → LooksAfter s (deal_write fs root s fd now file errno os)
  unfolding deal_write refresh
  deal_write-Looks s now file errno os lt =
      write_ends (write file os (record { conn = s.users fd; errno = errno; wire = [] }))
    where
      u : SubReactor
      u = refresh_timer s fd now

      write_ends :
          (o : Option (ℕ × Io))
          → LooksAfter s (elim o [ none ↦ none | some r ↦ after_write fs root u fd r ])
      write_ends none = tt
      write_ends (some r) =
          Looks-chained s u (after_write fs root u fd r)
            (timer-Looks s fd ms s.users now lt (λ g ne. refl))
            (after_write-Looks u r (timer_watched s fd ms s.users now lt))
