-- ===== src/SubReactor/Hangup.antt =====
-- sub_reactor.cpp: the end of a connection whose event says HUP or ERR.
use reactor_web_server.Common.{
  ℕ, ◌≡◌, sym, ◌∙◌, ap, true, false, Option, none, some, pos, eq_ℤ, Option-cases, Bool-cases, inl,
  inr, arith,
}
use reactor_web_server.Common.Text.{Bytes}
use reactor_web_server.Http.Resource.{Files}
use reactor_web_server.SubReactor.{SubReactor}
use reactor_web_server.SubReactor.Events.{
  Flags, Kernel, owns, on_readable, on_writable, on_broken, handle_event,
}
use reactor_web_server.SubReactor.Closing.{close_connection-Shut}

module _ (fs : Files) (root : Bytes) (fd now : ℕ) (k : Kernel) where
  on_broken_gone :
      (ev : Flags) (s : SubReactor)
      → ev.broken ≡ true
      → owns (on_broken fs root fd now k ev s) fd ≡ false
  unfolding on_broken
  on_broken_gone ev s b = elim (Bool-cases (owns s fd)) [
    | inl e ↦ rw (e, b) (ap (λ z. eq_ℤ z (pos fd)) (close_connection-Shut s fd).0.no_socket)
    | inr e ↦ rw e e
  ]

  -- After an event with HUP or ERR, whatever else it said and whatever was read and written, the
  -- descriptor has no connection.
  handle_event_gone :
      (ev : Flags) (s t : SubReactor)
      → ev.broken ≡ true
      → handle_event fs root fd now k ev s ≡ some t
      → owns t fd ≡ false
  unfolding handle_event
  handle_event_gone ev s t b e = elim (Option-cases (on_readable fs root fd now k ev s)) [
    | inl p ↦ absurd (no_result (rw (p, handle_event) at e))
    | inr (u, p) ↦ elim (Option-cases (on_writable fs root fd now k ev u)) [
      | inl q ↦ absurd (no_result (rw (p, q, handle_event) at e))
      | inr (w, q) ↦
          ap (λ x. owns x fd) (sym (same_result (rw (p, q, handle_event) at e)))
          ∙ on_broken_gone ev w b
    ]
  ]
    where
      no_result : ◌≡◌ {A = Option SubReactor} none (some t) → ⊥
      no_result x = cc

      same_result : {x : SubReactor} → ◌≡◌ {A = Option SubReactor} (some x) (some t) → x ≡ t
      same_result x = ground arith
