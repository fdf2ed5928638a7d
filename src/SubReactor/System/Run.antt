-- ===== src/SubReactor/System/Run.antt =====
-- sub_reactor.cpp: a run of the event loop is a sequence of steps.
use reactor_web_server.Common.{
  subst, ◌≡◌, refl, Bool, true, false, Option, none, some, List, [], ◌∷◌, ℤ, Option-cases, inl, inr,
  arith,
}
use reactor_web_server.Common.Text.{Bytes}
use reactor_web_server.Http.Resource.{Files}
use reactor_web_server.SubReactor.{SubReactor}
use reactor_web_server.SubReactor.Loop.{
  Ready, Wait, ready, eintr, failed, Turn, Looped, looping, left, blocked, report_all, handle_ready,
  handle_batch, loop,
}
use reactor_web_server.SubReactor.System.{AreReported, waits, handles, Reach, later}

-- The state in which the loop is.
abbrev pub looped_state : Looped → SubReactor
looped_state (looping s) = s
looped_state (left s) = s
looped_state (blocked s) = s

module _ (fs : Files) (root : Bytes) (eventfd timerfd : ℤ) where
  -- epoll reports, in each turn, what is registered then.
  abbrev pub EachReported : List Turn → SubReactor → Type 0
  EachReported [] s = Unit
  EachReported (t ∷ ts) s = elim t.wait [
    | ready es ↦
        AreReported fs root eventfd timerfd s es
        × (elim (handle_batch fs root eventfd timerfd es (report_all es s)) [
          | none ↦ Unit {0}
          | some u ↦ EachReported ts u
        ])
    | eintr ↦ EachReported ts s
    | failed ↦ Unit
  ]

  abbrev pub Reached : SubReactor → List Ready → Type 0
  Reached s es = Reach fs root eventfd timerfd (record { reactor = s; pending = es })

  handle_batch-Reached :
      (es : List Ready) (s t : SubReactor)
      → Reached s es
      → handle_batch fs root eventfd timerfd es s ≡ some t
      → Reached t []
  unfolding handle_batch
  handle_batch-Reached [] s t r e = subst (λ x. Reached x []) (ground arith) r
  handle_batch-Reached (e ∷ es) s t r h =
      elim (Option-cases (handle_ready fs root eventfd timerfd e s)) [
        | inl p ↦ absurd (no_result (rw (p, handle_batch) at h))
        | inr (u, p) ↦
            handle_batch-Reached es u t (later _ _ r (handles s u e es p))
              (rw (p, handle_batch) at h)
      ]
    where
      no_result : ◌≡◌ {A = Option SubReactor} none (some t) → ⊥
      no_result x = cc

  abbrev Loops : List Turn → SubReactor → Type 0
  Loops ts s = Reached (looped_state (loop fs root eventfd timerfd ts s)) []

  abbrev Continues : List Turn → Type 0
  Continues ts = (u : SubReactor) → Reached u [] → EachReported ts u → Loops ts u

  abbrev Later : List Turn → Option SubReactor → Type 0
  Later ts none = Unit
  Later ts (some u) = EachReported ts u

  -- The turns after a batch; `o` is what the handlers make of the state.
  handled-Reached :
      (ts : List Turn) (s : SubReactor) (o : Option SubReactor)
      → Continues ts
      → ((u : SubReactor) → o ≡ some u → Reached u [])
      → Later ts o
      → Reached s []
      → Reached
          (looped_state (elim o [ none ↦ blocked s | some u ↦ loop fs root eventfd timerfd ts u ]))
          []
  handled-Reached ts s none k b h r = r
  handled-Reached ts s (some u) k b h r = k u (b u refl) h

  turn-Reached :
      (stop : Bool) (w : Wait) (ts : List Turn) (s : SubReactor)
      → Continues ts
      → Reached s []
      → EachReported (record { stop = stop; wait = w } ∷ ts) s
      → Loops (record { stop = stop; wait = w } ∷ ts) s
  unfolding loop
  turn-Reached true w ts s k r h = r
  turn-Reached false eintr ts s k r h = k s r h
  turn-Reached false failed ts s k r h = r
  turn-Reached false (ready es) ts s k r (reported, h) =
      handled-Reached ts s (handle_batch fs root eventfd timerfd es (report_all es s)) k
        (λ u e. handle_batch-Reached es (report_all es s) u (later _ _ r (waits s es reported)) e) h
        r

  -- A run of the event loop, from a state that can be reached, ends in a state that can be reached, if in
  -- each turn epoll reports registered descriptors only: the loop does what the steps allow, and the
  -- invariants of the steps hold where the loop is.
  pub loop-Reached :
      (ts : List Turn) (s : SubReactor)
      → Reached s []
      → EachReported ts s
      → Reached (looped_state (loop fs root eventfd timerfd ts s)) []
  unfolding loop
  loop-Reached [] s r h = r
  loop-Reached (t ∷ ts) s r h = turn-Reached t.stop t.wait ts s (loop-Reached ts) r h
