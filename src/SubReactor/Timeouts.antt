-- ===== src/SubReactor/Timeouts.antt =====
-- sub_reactor.cpp: handle_timeout and the timer that it sets.
use reactor_web_server.Common.{
  ℕ, ◌+◌, ◌≤◌, ◌<◌, ◌⊎◌, leb, ◌≡◌, refl, true, some, List, [], ◌∷◌, ltb, arith, zero, suc, length,
  update, Bool-cases, inl, inr, ◌&&◌, ◌==◌,
}
use reactor_web_server.Timer.{
  TimerHeap, TimerNode, invalidate, next_expire, fire, tick_round, tick_loop, tick,
}
use reactor_web_server.Timer.Order.{IsValid}
use reactor_web_server.Timer.Expiry.{KeepsNodes, NoneOver, tick-settles}
use reactor_web_server.SubReactor.{
  SubReactor, timer_delta, timer_setting, arm_timerfd, close_connection,
}
use reactor_web_server.SubReactor.Handlers.{on_expiry, handle_timeout}

pub on_expiry-KeepsNodes : (now : ℕ) → KeepsNodes on_expiry now
unfolding on_expiry close_connection invalidate
on_expiry-KeepsNodes now fd (h, s) = ground arith

-- A timer set at `now` for `v` seconds expires as early as it can, at `e` or after it: it is set for
-- at least a second, since 0 would stop it.
pub record IsSetFor (now v e : ℕ) : Type 0 where
  pub runs : 1 ≤ v
  pub not_early : e ≤ now + v
  pub not_late : (v ≡ 1) ⊎ (now + v ≡ e)

arm_timerfd-IsSetFor :
    (s : SubReactor) (now e : ℕ)
    → s.has_timerfd ≡ true
    → next_expire s.timers ≡ some e
    → IsSetFor now (arm_timerfd s now).timer_value e
unfolding arm_timerfd timer_setting timer_delta
arm_timerfd-IsSetFor s now e t n =
    rw (t, n)
      (elim (Bool-cases (leb e now)) [
        | inl over ↦
            rw over (record { runs = omega arith; not_early = ground arith; not_late = inl refl })
        | inr ahead ↦
            rw ahead (record {
              runs = ground arith;
              not_early = omega arith;
              not_late = inr (ground arith);
            })
      ])

module _ {S : Type 0} (cb : ℕ → TimerHeap × S → TimerHeap × S) (now : ℕ) (P : S → Type 0) where
  -- What the callback keeps.
  abbrev pub Kept : Type 0
  Kept = (fd : ℕ) (st : TimerHeap × S) → P st.1 → P (cb fd st).1

  fire-Kept : Kept → (n : TimerNode) (st : TimerHeap × S) → P st.1 → P (fire cb now n st).1
  unfolding fire
  fire-Kept k n (h, s) p = elim (Bool-cases (ltb n.fd h.max_fd && h.seqs n.fd == n.seq)) [
    | inl e ↦ rw e (k n.fd (record h { seqs = update h.seqs n.fd 0 }, s) p)
    | inr e ↦ rw e p
  ]

  tick_loop-Kept :
      Kept
      → (n : ℕ) (ns : List TimerNode) (st : TimerHeap × S) → st.0.heap ≡ ns
      → P st.1
      → P (tick_loop cb now n st).1
  unfolding tick_loop
  tick_loop-Kept k zero ns st e p = p
  tick_loop-Kept k (suc m) [] st e p = rw (e, tick_round) p
  tick_loop-Kept k (suc m) (n ∷ ns) st e p =
      rw (e, tick_round)
        (elim (Bool-cases (ltb now n.expire)) [
          | inl later ↦ rw later p
          | inr over ↦
              let next = fire cb now n (record (st.0) { heap = ns }, st.1) in
              rw over (
                tick_loop-Kept k m next.0.heap next refl
                  (fire-Kept k n (record (st.0) { heap = ns }, st.1) p))
        ])

  pub tick-Kept : Kept → (st : TimerHeap × S) → P st.1 → P (tick cb now st).1
  unfolding tick
  tick-Kept k st p = tick_loop-Kept k (length st.0.heap) st.0.heap st refl p

on_expiry-has_timerfd : (now : ℕ) → Kept on_expiry now (λ s. s.has_timerfd ≡ true)
unfolding on_expiry close_connection
on_expiry-has_timerfd now fd (h, s) p = p

arm_timerfd-timers : (s : SubReactor) (now : ℕ) → (arm_timerfd s now).timers ≡ s.timers
unfolding arm_timerfd
arm_timerfd-timers s now = refl

-- handle_timeout reads the clock for the nodes that have run out, and reads it once more to set the
-- timer. When it returns, no node is over at the first reading; and if one is left, the timer is
-- set, from the second reading, to the time of the first of them, or to one second when that time
-- is reached by then: at least one second in each case.
pub handle_timeout-settles :
    (s : SubReactor) (now later : ℕ)
    → IsValid s.timers
    → s.has_timerfd ≡ true
    → NoneOver on_expiry now (handle_timeout s now later).timers.heap
      × ((e : ℕ)
          → next_expire (handle_timeout s now later).timers ≡ some e
          → (now < e) × IsSetFor later (handle_timeout s now later).timer_value e)
unfolding handle_timeout
handle_timeout-settles s now later v t =
    let st = tick on_expiry now (s.timers, s) in
    let u = record (st.1) { timers = st.0 } in
    let armed =
      tick-Kept on_expiry now (λ s. s.has_timerfd ≡ true) (on_expiry-has_timerfd now) (s.timers, s)
        t in
    let (none_over, ahead) =
      tick-settles on_expiry now (s.timers, s) (on_expiry-KeepsNodes now) v in
    rw (arm_timerfd-timers u later)
      (none_over, λ e p. (ahead e p, arm_timerfd-IsSetFor u later e armed p))
