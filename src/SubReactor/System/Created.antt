-- ===== src/SubReactor/System/Created.antt =====
-- sub_reactor.cpp, the constructor: what holds before the loop begins.
use reactor_web_server.Common.{
  ℕ, subst, ◌≡◌, refl, true, false, Option, none, some, ℤ, pos, negsuc, inl, inr, eq_ℤ, ◌⊎◌,
  Bool-cases, arith, minus_one, ◌==◌,
}
use reactor_web_server.Http.{http_conn}
use reactor_web_server.Http.Steady.{init_state-IsSteady}
use reactor_web_server.Timer.{timer_heap}
use reactor_web_server.SubReactor.{Interest, Epoll, addfd, add_own, sub_reactor}
use reactor_web_server.SubReactor.Slots.{Shape}
use reactor_web_server.SubReactor.System.Moves.{IsSound}

-- The two descriptors that the constructor makes and registers.
abbrev pub Own : ℤ → ℤ → ℕ → Type 0
Own eventfd timerfd fd = (eq_ℤ eventfd (pos fd) ≡ true) ⊎ (eq_ℤ timerfd (pos fd) ≡ true)

module _ (eventfd timerfd : ℤ) where
  -- What addfd does for a place without a socket.
  added_again :
      (g : ℕ) (o : Option Interest)
      → Own eventfd timerfd g
      → Shape (Own eventfd timerfd) g minus_one o
      → Shape (Own eventfd timerfd) g minus_one (elim o [
        | some i ↦ some i
        | none ↦ some (record { reads = true; writes = false; one_shot = false; enabled = true })
      ])
  added_again g none w h = inr (inr (refl, w, (_, refl)))
  added_again g (some i) w h = h

  add_own-Shape :
      (fd : ℤ) (ep : Epoll)
      → ((g : ℕ) → eq_ℤ fd (pos g) ≡ true → Own eventfd timerfd g)
      → ((g : ℕ) → Shape (Own eventfd timerfd) g minus_one (ep g))
      → (g : ℕ) → Shape (Own eventfd timerfd) g minus_one (add_own fd ep g)
  unfolding addfd
  add_own-Shape (negsuc _) ep w h g = h g
  add_own-Shape (pos fd) ep w h g = elim (Bool-cases (g == fd)) [
    | inl e ↦ rw e (
        subst
          (λ x. Shape (Own eventfd timerfd) g minus_one (elim (ep x) [
            | some i ↦ some i
            | none ↦
                some (record { reads = true; writes = false; one_shot = false; enabled = true })
          ]))
          (ground arith) (added_again g (ep g) (w g (ground arith)) (h g)))
    | inr e ↦ rw e (h g)
  ]

  pub sub_reactor-IsSound : IsSound (Own eventfd timerfd) (sub_reactor eventfd timerfd)
  unfolding sub_reactor timer_heap http_conn
  sub_reactor-IsSound = record {
    slots = λ fd. (
      minus_one,
      init_state-IsSteady http_conn,
      add_own-Shape timerfd (add_own eventfd (λ _. none)) (λ g e. inr e)
          (add_own-Shape eventfd (λ _. none) (λ g e. inl e) (λ g. inl (refl, refl))) fd,
    );
    watch = record {
      table = refl;
      armed = λ b f. absurd f;
      below = λ g h. cc;
      all = λ fd lt o. cc;
    };
  }
