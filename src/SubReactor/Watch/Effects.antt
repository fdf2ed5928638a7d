-- ===== src/SubReactor/Watch/Effects.antt =====
-- sub_reactor.cpp: a handler for a descriptor leaves the others as watched as they were.
use reactor_web_server.Common.{
  ◌⊎◌, subst, ℕ, ◌<◌, ◌≡◌, ◌≢◌, refl, ap, sym, ◌∙◌, true, List, [], ◌∷◌, ◌==◌, Bool-cases, inl, inr,
  arith, pos, eq_ℤ,
}
use reactor_web_server.Timer.{add}
use reactor_web_server.Http.{HttpConn, Closed, close_conn, init_state}
use reactor_web_server.SubReactor.{
  max_fd, SubReactor, Epoll, SubMsg, bus_done, timeout_sec, arm_timerfd, close_connection,
}
use reactor_web_server.SubReactor.Handlers.{put_user, add_timer, submit_business}
use reactor_web_server.SubReactor.Events.{owns}
use reactor_web_server.SubReactor.Closing.{update_same, update_other}
use reactor_web_server.SubReactor.Watch.{
  has, watched, Watched, has-append, add-max_fd, live-add_self, live-add_other,
  live-invalidate_other, invalidate-max_fd, Filled, Armed, invalidate-heap, arm_timerfd-Armed,
}

-- The other descriptors are owned and watched as before, and this one, if it is open, is watched.
pub record Looks (fd : ℕ) (ms ns : List SubMsg) (s t : SubReactor) : Type 0 where
  pub same_table : t.timers.max_fd ≡ s.timers.max_fd
  pub same_owner : (g : ℕ) → g ≢ fd → owns t g ≡ owns s g
  pub same_watch : (g : ℕ) → g ≢ fd → watched ns t g ≡ watched ms s g
  pub arms : Armed s → Armed t
  pub gives : (g : ℕ) → has g t.tasks ≡ true → (has g s.tasks ≡ true) ⊎ (g ≡ fd)
  pub own_watch : owns t fd ≡ true → watched ns t fd ≡ true

pub Looks-Watched :
    (fd : ℕ) (ms ns : List SubMsg) (s t : SubReactor)
    → fd < max_fd
    → Looks fd ms ns s t
    → Watched ms s
    → Watched ns t
Looks-Watched fd ms ns s t fits l w = record {
  table = l.same_table ∙ w.table;
  armed = l.arms w.armed;
  below = λ g h. elim (l.gives g h) [
    | inl x ↦ w.below g x
    | inr e ↦ subst (λ x. x < max_fd) (sym e) fits
  ];
  all = λ g lt o. elim (Bool-cases (g == fd)) [
    | inl e ↦ at_fd g (ground arith) o
    | inr e ↦ l.same_watch g (ground arith) ∙ w.all g lt (sym (l.same_owner g (ground arith)) ∙ o)
  ];
}
  where
    at_fd : (g : ℕ) → g ≡ fd → owns t g ≡ true → watched ns t g ≡ true
    at_fd g e o = rw e (l.own_watch (rw e at o))

module _ (s : SubReactor) (fd : ℕ) (ms : List SubMsg) where
  -- Putting a connection in the slot, and giving the task of its request to the pool.
  pub submit-Looks : (c : HttpConn) → Looks fd ms ms s (submit_business (put_user s fd c) fd)
  unfolding submit_business
  submit-Looks c = record {
    same_table = invalidate-max_fd s.timers fd;
    gives = λ g h. elim (Bool-cases (has g s.tasks)) [
      | inl e ↦ inl e
      | inr e ↦ inr (ground (arith, h, has-append g s.tasks (fd ∷ []), e))
    ];
    arms = λ a b f. a b (subst Filled (invalidate-heap s.timers fd) f);
    same_owner = λ g ne. ap (λ d. eq_ℤ d.sockfd (pos g)) (update_other s.users fd g c ne);
    same_watch = λ g ne.
        ground (arith, has-append g s.tasks (fd ∷ []), live-invalidate_other s.timers fd g ne);
    own_watch = λ _. ground (arith, has-append fd s.tasks (fd ∷ []));
  }

  -- The end of the connection, with another one in the slot or not.
  pub close-Looks :
      (us : ℕ → HttpConn)
      → ((g : ℕ) → g ≢ fd → us g ≡ s.users g)
      → Looks fd ms ms s (close_connection (record s { users = us }) fd)
  unfolding close_connection close_conn init_state
  close-Looks us other = record {
    same_table = invalidate-max_fd s.timers fd;
    gives = λ g h. inl h;
    arms = λ a b f. a b (subst Filled (invalidate-heap s.timers fd) f);
    same_owner = λ g ne.
        ap (λ d. eq_ℤ d.sockfd (pos g)) (update_other us fd g (init_state (us fd)) ne ∙ other g ne);
    same_watch = λ g ne. ground (arith, live-invalidate_other s.timers fd g ne);
    own_watch = λ o. ground (arith, update_same us fd (init_state (us fd)));
  }

  -- Another connection in the slot, while the descriptor is watched.
  pub put-Looks : (c : HttpConn) → watched ms s fd ≡ true → Looks fd ms ms s (put_user s fd c)
  put-Looks c w = record {
    same_table = refl;
    gives = λ g h. inl h;
    arms = λ a. a;
    same_owner = λ g ne. ap (λ d. eq_ℤ d.sockfd (pos g)) (update_other s.users fd g c ne);
    same_watch = λ g ne. refl;
    own_watch = λ _. w;
  }

  module _ (us : ℕ → HttpConn) (now : ℕ) (lt : fd < s.timers.max_fd) where
    pub timer_watched : watched ms (add_timer (record s { users = us }) fd now) fd ≡ true
    unfolding arm_timerfd
    timer_watched = ground (arith, live-add_self s.timers fd timeout_sec now lt)

    -- A new timer, with another connection in the slot or not.
    pub timer-Looks :
        ((g : ℕ) → g ≢ fd → us g ≡ s.users g)
        → Looks fd ms ms s (add_timer (record s { users = us }) fd now)
    unfolding arm_timerfd
    timer-Looks other = record {
      same_table = add-max_fd s.timers fd timeout_sec now;
      gives = λ g h. inl h;
      arms = λ a.
          arm_timerfd-Armed
            (record s { users = us; timers = add s.timers (pos fd) timeout_sec now }) now;
      same_owner = λ g ne. ap (λ d. eq_ℤ d.sockfd (pos g)) (other g ne);
      same_watch = λ g ne. ground (arith, live-add_other s.timers fd timeout_sec now g ne);
      own_watch = λ _. timer_watched;
    }

-- One handler after another for the same descriptor.
pub Looks-trans :
    (fd : ℕ) (ms ns ps : List SubMsg) (s t u : SubReactor)
    → Looks fd ms ns s t
    → Looks fd ns ps t u
    → Looks fd ms ps s u
Looks-trans fd ms ns ps s t u a b = record {
  same_table = b.same_table ∙ a.same_table;
  gives = λ g h. elim (b.gives g h) [ inl x ↦ a.gives g x | inr e ↦ inr e ];
  arms = λ h. b.arms (a.arms h);
  same_owner = λ g ne. b.same_owner g ne ∙ a.same_owner g ne;
  same_watch = λ g ne. b.same_watch g ne ∙ a.same_watch g ne;
  own_watch = b.own_watch;
}

-- What epoll knows does not count, nor what was closed.
pub same-Looks :
    (fd : ℕ) (ms : List SubMsg) (s t : SubReactor) (ep : Epoll) (log : Closed)
    → Looks fd ms ms s t
    → Looks fd ms ms s (record t { epoll = ep; closed = log })
same-Looks fd ms s t ep log l = record {
  same_table = l.same_table;
  gives = l.gives;
  arms = l.arms;
  same_owner = l.same_owner;
  same_watch = l.same_watch;
  own_watch = l.own_watch;
}

-- A completion that is handled counts for its descriptor only.
pub handled-Looks :
    (fd result : ℕ) (ms : List SubMsg) (s t : SubReactor)
    → Looks fd ms ms s t
    → Looks fd (bus_done (pos fd) result ∷ ms) ms s t
handled-Looks fd result ms s t l = record {
  same_table = l.same_table;
  gives = l.gives;
  arms = l.arms;
  same_owner = l.same_owner;
  same_watch = λ g ne. l.same_watch g ne ∙ ground arith;
  own_watch = l.own_watch;
}
