-- ===== src/SubReactor/Watch/Expiry.antt =====
-- sub_reactor.cpp: handle_timeout leaves every open connection watched.
use reactor_web_server.Common.{
  subst, sym, ℕ, zero, suc, ◌<◌, ◌≡◌, refl, ◌∙◌, inl, inr, false, List, [], ◌∷◌, ltb, ◌==◌, ◌&&◌,
  update, Bool-cases, arith, length,
}
use reactor_web_server.Timer.{TimerHeap, TimerNode, fire, tick_round, tick_loop, tick}
use reactor_web_server.SubReactor.{SubReactor, arm_timerfd, close_connection}
use reactor_web_server.SubReactor.Handlers.{on_expiry, handle_timeout}
use reactor_web_server.SubReactor.Watch.{Filled, arm_timerfd-Armed, lives, live, Watched}
use reactor_web_server.SubReactor.Watch.Effects.{Looks-Watched, close-Looks}

module _ {S : Type 0} (cb : ℕ → TimerHeap × S → TimerHeap × S) (now : ℕ)
    (P : TimerHeap × S → Type 0) where
  -- What a round of tick keeps.
  abbrev FireKept : Type 0
  FireKept =
      (h : TimerHeap) (s : S) (n : TimerNode) (ns : List TimerNode)
      → h.heap ≡ n ∷ ns
      → P (h, s)
      → P (fire cb now n (record h { heap = ns }, s))

  tick_round-FireKept :
      (again : TimerHeap × S → TimerHeap × S)
      → ((h : TimerHeap) (s : S) → P (h, s) → P (again (h, s)))
      → FireKept
      → (ns : List TimerNode) (h : TimerHeap) (s : S) → h.heap ≡ ns
      → P (h, s)
      → P (tick_round cb now again ns (h, s))
  unfolding tick_round
  tick_round-FireKept again ih k [] h s e p = p
  tick_round-FireKept again ih k (n ∷ ns) h s e p = elim (Bool-cases (ltb now n.expire)) [
    | inl later ↦ rw later p
    | inr over ↦
        let next = fire cb now n (record h { heap = ns }, s) in
        rw over (ih next.0 next.1 (k h s n ns e p))
  ]

  tick_loop-FireKept :
      FireKept → (m : ℕ) (h : TimerHeap) (s : S) → P (h, s) → P (tick_loop cb now m (h, s))
  unfolding tick_loop
  tick_loop-FireKept k zero h s p = p
  tick_loop-FireKept k (suc m) h s p =
      tick_round-FireKept (tick_loop cb now m) (tick_loop-FireKept k m) k h.heap h s refl p

  tick-FireKept : FireKept → (h : TimerHeap) (s : S) → P (h, s) → P (tick cb now (h, s))
  unfolding tick
  tick-FireKept k h s p = tick_loop-FireKept k (length h.heap) h s p

abbrev WatchedPair : TimerHeap × SubReactor → Type 0
WatchedPair (h, s) = Watched [] (record s { timers = h })

dead_node :
    (h : TimerHeap) (n : TimerNode) (ns : List TimerNode) (g : ℕ)
    → h.heap ≡ n ∷ ns
    → g < h.max_fd
    → (ltb n.fd h.max_fd && h.seqs n.fd == n.seq) ≡ false
    → lives (h.seqs g) g ns ≡ live h g
dead_node h n ns g e lt f = ground (arith, e, f, lt)

on_expiry-FireKept : (now : ℕ) → FireKept on_expiry now WatchedPair
unfolding fire on_expiry
on_expiry-FireKept now h s n ns e w =
    elim (Bool-cases (ltb n.fd h.max_fd && h.seqs n.fd == n.seq)) [
      | inl f ↦
          let h2 : TimerHeap = record {
            heap = ns;
            seqs = update h.seqs n.fd 0;
            max_fd = h.max_fd;
          } in
          let s2 = record s { timers = h2 } in
          let l = close-Looks s2 n.fd [] s.users (λ g ne. refl) in
          rw f (
            Looks-Watched n.fd [] [] (record s { timers = h }) (close_connection s2 n.fd)
              (ground (arith, f, w.table))
              (record {
                same_table = l.same_table;
                gives = l.gives;
                arms = λ a. l.arms (λ b f. a b (subst Filled (sym e) tt));
                same_owner = l.same_owner;
                same_watch = λ g ne. l.same_watch g ne ∙ ground (arith, e);
                own_watch = l.own_watch;
              })
              w)
      | inr f ↦ rw f (record {
        table = w.table;
        below = w.below;
        armed = λ b f. w.armed b (subst Filled (sym e) tt);
        all = λ g lt o.
            ground (arith, dead_node h n ns g e (ground (arith, w.table, lt)) f, w.all g lt o);
      })
    ]

-- A timeout closes connections, and leaves the others watched.
pub handle_timeout-Watched :
    (s : SubReactor) (now later : ℕ) → Watched [] s → Watched [] (handle_timeout s now later)
unfolding handle_timeout arm_timerfd
handle_timeout-Watched s now later w =
    let v = tick-FireKept on_expiry now WatchedPair (on_expiry-FireKept now) s.timers s w in
    record {
      table = v.table;
      armed =
          arm_timerfd-Armed
            (record (tick on_expiry now (s.timers, s)).1 {
              timers = (tick on_expiry now (s.timers, s)).0;
            })
            later;
      below = v.below;
      all = v.all;
    }
