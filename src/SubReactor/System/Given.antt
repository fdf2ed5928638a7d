-- ===== src/SubReactor/System/Given.antt =====
-- sub_reactor.cpp: what the main reactor and epoll give a sub-reactor keeps its invariants.
use reactor_web_server.Common.{
  ℕ, subst, ◌≡◌, refl, false, Option, none, some, List, [], ◌∷◌, ℤ, inl, inr, if◌then◌else◌,
  Bool-cases, arith, ◌==◌,
}
use reactor_web_server.SubReactor.{SubReactor, Interest, new_conn, dispatch_new_conn}
use reactor_web_server.SubReactor.Events.{reported}
use reactor_web_server.SubReactor.Loop.{Ready, report_all}
use reactor_web_server.SubReactor.Slots.{Shape, Slot}
use reactor_web_server.SubReactor.Watch.{completes-append}
use reactor_web_server.SubReactor.System.Moves.{IsSound}

module _ (own : ℕ → Type 0) where
  pub dispatch_new_conn-IsSound :
      (s : SubReactor) (cfd : ℤ) (addr : _)
      → IsSound own s
      → IsSound own (dispatch_new_conn s cfd addr)
  unfolding dispatch_new_conn
  dispatch_new_conn-IsSound s cfd addr h = record {
    slots = h.slots;
    watch = record {
      table = h.watch.table;
      armed = h.watch.armed;
      below = h.watch.below;
      all = λ fd lt o.
          ground (arith, h.watch.all fd lt o, completes-append fd s.msgs (new_conn cfd addr ∷ []));
    };
  }

  abbrev seen : Option Interest → Option Interest
  seen o = elim o [
    | none ↦ none
    | some i ↦ some (if i.one_shot then record i { enabled = false } else i)
  ]

  seen-Shape : (fd : ℕ) (z : ℤ) (o : Option Interest) → Shape own fd z o → Shape own fd z (seen o)
  seen-Shape fd z none (inl h) = inl h
  seen-Shape fd z none (inr (inl (_, _, (i, e)))) = absurd (none_is_some e)
    where
      none_is_some : {i : Interest} → ◌≡◌ {A = Option Interest} none (some i) → ⊥
      none_is_some e = cc
  seen-Shape fd z none (inr (inr (_, _, (i, e)))) = absurd (none_is_some e)
    where
      none_is_some : {i : Interest} → ◌≡◌ {A = Option Interest} none (some i) → ⊥
      none_is_some e = cc
  seen-Shape fd z (some i) (inl (a, e)) = absurd (some_is_none e)
    where
      some_is_none : ◌≡◌ {A = Option Interest} (some i) none → ⊥
      some_is_none e = cc
  seen-Shape fd z (some i) (inr (inl (a, b, c))) = inr (inl (a, b, (_, refl)))
  seen-Shape fd z (some i) (inr (inr (a, b, c))) = inr (inr (a, b, (_, refl)))

  -- What epoll_wait does to one descriptor.
  reported-IsSound :
      (s : SubReactor) (fd : ℕ)
      → IsSound own s
      → IsSound own (record s { epoll = reported s.epoll fd })
  unfolding reported
  reported-IsSound s fd h = record {
    slots = λ g. at g (h.slots g);
    watch = record {
      table = h.watch.table;
      armed = h.watch.armed;
      below = h.watch.below;
      all = h.watch.all;
    };
  }
    where
      at :
          (g : ℕ)
          → Slot own g (s.users g) (s.epoll g)
          → Slot own g (s.users g) (reported s.epoll fd g)
      at g (z, v, sh) = elim (Bool-cases (g == fd)) [
        | inl e ↦ rw e (
          z,
          v,
          subst (λ x. Shape own g z (seen (s.epoll x))) (ground arith)
              (seen-Shape g z (s.epoll g) sh),
        )
        | inr e ↦ rw e (z, v, sh)
      ]

  pub report_all-IsSound :
      (es : List Ready) (s : SubReactor) → IsSound own s → IsSound own (report_all es s)
  unfolding report_all
  report_all-IsSound [] s h = h
  report_all-IsSound (e ∷ es) s h = report_all-IsSound es _ (reported-IsSound s e.fd h)
