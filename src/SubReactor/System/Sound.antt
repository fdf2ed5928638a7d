-- ===== src/SubReactor/System/Sound.antt =====
-- sub_reactor.cpp: what holds of the reactor in every state that it and its threads can reach.
use reactor_web_server.Common.{
  ◌++◌, ◌≤◌, either_way, ℕ, subst, ◌<◌, ◌≡◌, true, false, ◌||◌, Option, none, some, List, [], ◌∷◌,
  ℤ, pos, inl, inr, eq_ℤ, ◌⊎◌, Bool-cases, arith,
}
use reactor_web_server.Common.Text.{Bytes}
use reactor_web_server.Http.Resource.{Files}
use reactor_web_server.Timer.{TimerNode}
use reactor_web_server.SubReactor.{SubReactor, max_fd}
use reactor_web_server.SubReactor.Events.{owns}
use reactor_web_server.SubReactor.Busy.{reports}
use reactor_web_server.SubReactor.Loop.{Ready, handle_ready}
use reactor_web_server.SubReactor.Slots.{Slot, KeepsSlots}
use reactor_web_server.SubReactor.Slots.Handling.{run_task-KeepsSlots}
use reactor_web_server.SubReactor.Watch.{Filled, lives, has, completes, live}
use reactor_web_server.SubReactor.Watch.Turns.{run_task-Watched}
use reactor_web_server.SubReactor.System.{
  System, AreReported, Step, dispatches, works, waits, handles, Reach, created, later,
}
use reactor_web_server.SubReactor.System.Moves.{
  IsSound, SoundAfter, handle_event-SoundAfter, handle_wakeup-IsSound, handle_timeout-IsSound,
}
use reactor_web_server.SubReactor.System.Created.{Own, sub_reactor-IsSound}
use reactor_web_server.SubReactor.System.Given.{dispatch_new_conn-IsSound, report_all-IsSound}

live-Filled : (seq fd : ℕ) (ns : List TimerNode) → lives seq fd ns ≡ true → Filled ns
live-Filled seq fd [] l = cc
live-Filled seq fd (n ∷ ns) l = tt

module _ (fs : Files) (root : Bytes) (eventfd timerfd : ℤ) where
  abbrev Owned : ℕ → Type 0
  Owned = Own eventfd timerfd

  -- An event of the reactor's own two descriptors, or of a descriptor that has a place in the table.
  abbrev pub Indexed : List Ready → Type 0
  Indexed [] = Unit
  Indexed (e ∷ es) =
      ((eq_ℤ eventfd (pos e.fd) ≡ true) ⊎ (eq_ℤ timerfd (pos e.fd) ≡ true) ⊎ (e.fd < max_fd))
      × Indexed es

  pub record IsSafe (y : System) : Type 0 where
    pub sound : IsSound Owned y.reactor
    pub indexed : Indexed y.pending

  -- A descriptor that epoll reports is the reactor's own, or has a place in the table.
  reports_below :
      (s : SubReactor) (fd : ℕ)
      → IsSound Owned s
      → reports s fd ≡ true
      → (eq_ℤ eventfd (pos fd) ≡ true) ⊎ (eq_ℤ timerfd (pos fd) ≡ true) ⊎ (fd < max_fd)
  reports_below s fd h r = placed (h.slots fd)
    where
      placed :
          Slot Owned fd (s.users fd) (s.epoll fd)
          → (eq_ℤ eventfd (pos fd) ≡ true) ⊎ (eq_ℤ timerfd (pos fd) ≡ true) ⊎ (fd < max_fd)
      placed (z, v, inl (a, e)) = absurd (silent (rw (e, reports) at r))
        where
          silent : false ≡ true → ⊥
          silent x = cc
      placed (z, v, inr (inl (lt, _, _))) = inr (inr lt)
      placed (z, v, inr (inr (_, inl a, _))) = inl a
      placed (z, v, inr (inr (_, inr b, _))) = inr (inl b)

  AreReported-Indexed :
      (s : SubReactor) (es : List Ready)
      → IsSound Owned s
      → AreReported fs root eventfd timerfd s es
      → Indexed es
  AreReported-Indexed s [] h r = tt
  AreReported-Indexed s (e ∷ es) h (inl a, rs) = (inl a, AreReported-Indexed s es h rs)
  AreReported-Indexed s (e ∷ es) h (inr (inl b), rs) = (inr (inl b), AreReported-Indexed s es h rs)
  AreReported-Indexed s (e ∷ es) h (inr (inr r), rs) =
      (reports_below s e.fd h r, AreReported-Indexed s es h rs)

  handle_ready-SoundAfter :
      (s : SubReactor) (e : Ready) (es : List Ready)
      → IsSound Owned s
      → Indexed (e ∷ es)
      → SoundAfter Owned (handle_ready fs root eventfd timerfd e s)
  unfolding handle_ready
  handle_ready-SoundAfter s e es h (i, _) = elim (Bool-cases (eq_ℤ eventfd (pos e.fd))) [
    | inl a ↦
        rw a
          (either_way (SoundAfter Owned) _ (some _) none (handle_wakeup-IsSound Owned s e.now h) tt)
    | inr a ↦ elim (Bool-cases (eq_ℤ timerfd (pos e.fd))) [
      | inl b ↦
          rw (a, b)
            (either_way (SoundAfter Owned) _ (some _) none
              (handle_timeout-IsSound Owned s e.now e.later h) tt)
      | inr b ↦
          rw (a, b)
            (handle_event-SoundAfter Owned fs root e.fd e.now e.kernel e.flags
              (ground (arith, i, a, b)) s h)
    ]
  ]

  handled :
      (o : Option SubReactor) (t : SubReactor) → o ≡ some t → SoundAfter Owned o → IsSound Owned t
  handled none t e h = absurd (none_is_some e)
    where
      none_is_some : ◌≡◌ {A = Option SubReactor} none (some t) → ⊥
      none_is_some x = cc
  handled (some u) t e h = subst (IsSound Owned) (ground arith) h

  Step-IsSafe : (x y : System) → Step fs root eventfd timerfd x y → IsSafe x → IsSafe y
  Step-IsSafe _ _ (dispatches s es cfd addr) h = record {
    sound = dispatch_new_conn-IsSound Owned s cfd addr h.sound;
    indexed = h.indexed;
  }
  Step-IsSafe _ _ (works s es us fd ts e) h = record {
    sound = record {
      slots = run_task-KeepsSlots Owned fs root fd (record s { tasks = us ++ ts }) h.sound.slots;
      watch = run_task-Watched fs root s us fd ts e h.sound.watch;
    };
    indexed = h.indexed;
  }
  Step-IsSafe _ _ (waits s es r) h = record {
    sound = report_all-IsSound Owned es s h.sound;
    indexed = AreReported-Indexed s es h.sound r;
  }
  Step-IsSafe _ _ (handles s t e es k) h = record {
    sound =
        handled (handle_ready fs root eventfd timerfd e s) t k
          (handle_ready-SoundAfter s e es h.sound h.indexed);
    indexed = h.indexed.1;
  }

  pub Reach-IsSafe : (y : System) → Reach fs root eventfd timerfd y → IsSafe y
  Reach-IsSafe _ created = record { sound = sub_reactor-IsSound eventfd timerfd; indexed = tt }
  Reach-IsSafe _ (later x y r st) = Step-IsSafe x y st (Reach-IsSafe x r)

  -- In every state that the reactor, the main reactor and the workers can reach from the construction
  -- on: each place of the table is shut (no socket, not registered in epoll), or its number is below
  -- MAX_FD, its socket is its own number, and it is registered, or it has no socket and its number is
  -- that of the eventfd or of the timerfd, which the reactor registered for itself; and the
  -- connection in it is valid.
  pub reached-KeepsSlots :
      (y : System) → Reach fs root eventfd timerfd y → KeepsSlots (Own eventfd timerfd) y.reactor
  reached-KeepsSlots y r = (Reach-IsSafe y r).sound.slots

  -- In every state that can be reached, no open connection is forgotten: a task for it is in the pool, or
  -- the completion of one is in the queue of messages, or a timer node of its current version is in the
  -- heap; and in the last case, if the reactor has a timerfd, that was last set to a second to come or later.
  pub reached-watched :
      (y : System)
      → Reach fs root eventfd timerfd y
      → (fd : ℕ) → fd < max_fd
      → owns y.reactor fd ≡ true
      → (has fd y.reactor.tasks || (completes fd y.reactor.msgs || live y.reactor.timers fd) ≡ true)
        × (y.reactor.has_timerfd ≡ true
            → live y.reactor.timers fd ≡ true
            → 1 ≤ y.reactor.timer_value)
  reached-watched y r fd lt o =
      let w = (Reach-IsSafe y r).sound.watch in
      (
        w.all fd lt o,
        λ b l. w.armed b (live-Filled (y.reactor.timers.seqs fd) fd y.reactor.timers.heap l),
      )

  -- In every state that can be reached, an event that waits to be handled is of the eventfd, of the timerfd,
  -- or of a descriptor below MAX_FD, and every task in the pool is for a descriptor below MAX_FD: neither the
  -- handlers of these events nor the workers read outside of m_users.
  pub reached-Indexed :
      (y : System)
      → Reach fs root eventfd timerfd y
      → Indexed y.pending × ((fd : ℕ) → has fd y.reactor.tasks ≡ true → fd < max_fd)
  reached-Indexed y r = ((Reach-IsSafe y r).indexed, (Reach-IsSafe y r).sound.watch.below)
