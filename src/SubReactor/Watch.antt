-- ===== src/SubReactor/Watch.antt =====
-- sub_reactor.cpp: who looks after an open connection: a task, the completion of a task, or a timer.
pub mod Effects
pub mod Handling
pub mod Turns
pub mod Expiry
use reactor_web_server.Common.{
  ◌≤◌, Option, none, some, ℕ, ◌+◌, ◌%◌, ◌<◌, ◌≡◌, ◌≢◌, refl, ap, sym, ◌∙◌, Bool, true, false, ◌&&◌,
  ◌||◌, List, [], ◌∷◌, ◌++◌, ◌==◌, leb, ltb, if◌then◌else◌, update, Bool-cases, inl, inr, arith,
  pos, negsuc, eq_ℤ,
}
use reactor_web_server.Timer.{
  next_expire, TimerNode, TimerHeap, u64_mod, push, add, add_valid, invalidate,
}
use reactor_web_server.SubReactor.{
  timer_delta, timer_setting, arm_timerfd, SubReactor, SubMsg, new_conn, bus_done, max_fd,
}
use reactor_web_server.SubReactor.Events.{owns}

abbrev pub has : ℕ → List ℕ → Bool
has fd [] = false
has fd (t ∷ ts) = t == fd || has fd ts

abbrev pub completes : ℕ → List SubMsg → Bool
completes fd [] = false
completes fd (bus_done (pos d) result ∷ ms) = d == fd || completes fd ms
completes fd (bus_done (negsuc _) result ∷ ms) = completes fd ms
completes fd (new_conn z addr ∷ ms) = completes fd ms

abbrev pub lives : ℕ → ℕ → List TimerNode → Bool
lives seq fd [] = false
lives seq fd (n ∷ ns) = n.fd == fd && n.seq == seq || lives seq fd ns

-- A node of the current version.
abbrev pub live : TimerHeap → ℕ → Bool
live h fd = lives (h.seqs fd) fd h.heap

-- By the messages `ms` that a wake-up has taken and not handled, too.
abbrev pub watched : List SubMsg → SubReactor → ℕ → Bool
watched ms s fd = has fd s.tasks || (completes fd s.msgs || (completes fd ms || live s.timers fd))

-- Where the heap has a node, the timer descriptor was last set to a time to come.
abbrev pub Filled : List TimerNode → Type 0
Filled [] = ⊥
Filled (n ∷ ns) = Unit

abbrev pub Armed : SubReactor → Type 0
Armed s = s.has_timerfd ≡ true → Filled s.timers.heap → 1 ≤ s.timer_value

-- No open connection is forgotten.
pub record Watched (ms : List SubMsg) (s : SubReactor) : Type 0 where
  pub table : s.timers.max_fd ≡ max_fd
  pub armed : Armed s
  pub below : (g : ℕ) → has g s.tasks ≡ true → g < max_fd
  pub all : (fd : ℕ) → fd < max_fd → owns s fd ≡ true → watched ms s fd ≡ true

pub has-append : (fd : ℕ) (ts us : List ℕ) → has fd (ts ++ us) ≡ has fd ts || has fd us
has-append fd [] us = refl
has-append fd (t ∷ ts) us = ground (arith, has-append fd ts us)

pub completes-append :
    (fd : ℕ) (ms ns : List SubMsg) → completes fd (ms ++ ns) ≡ completes fd ms || completes fd ns
completes-append fd [] ns = refl
completes-append fd (bus_done (pos d) result ∷ ms) ns = ground (arith, completes-append fd ms ns)
completes-append fd (bus_done (negsuc _) result ∷ ms) ns = completes-append fd ms ns
completes-append fd (new_conn z addr ∷ ms) ns = completes-append fd ms ns

lives-push :
    (seq fd : ℕ) (n : TimerNode) (ns : List TimerNode)
    → lives seq fd (push n ns) ≡ (n.fd == fd && n.seq == seq || lives seq fd ns)
unfolding push
lives-push seq fd n [] = refl
lives-push seq fd n (m ∷ ms) = ground (arith, lives-push seq fd n ms)

module _ (h : TimerHeap) (fd timeout now : ℕ) where
  pub add-max_fd : (add h (pos fd) timeout now).max_fd ≡ h.max_fd
  unfolding add add_valid
  add-max_fd = ground arith

  pub live-add_self : fd < h.max_fd → live (add h (pos fd) timeout now) fd ≡ true
  unfolding add add_valid
  live-add_self lt = ground (
    arith,
    lives-push ((h.seqs fd + 1) % u64_mod) fd
        (record { expire = now + timeout; fd = fd; seq = (h.seqs fd + 1) % u64_mod }) h.heap,
  )

  pub live-add_other : (g : ℕ) → g ≢ fd → live (add h (pos fd) timeout now) g ≡ live h g
  unfolding add add_valid
  live-add_other g ne = ground (
    arith,
    lives-push (h.seqs g) g
        (record { expire = now + timeout; fd = fd; seq = (h.seqs fd + 1) % u64_mod }) h.heap,
  )

pub live-invalidate_other :
    (h : TimerHeap) (fd g : ℕ) → g ≢ fd → live (invalidate h (pos fd)) g ≡ live h g
unfolding invalidate
live-invalidate_other h fd g ne = ground arith

pub invalidate-max_fd : (h : TimerHeap) (fd : ℕ) → (invalidate h (pos fd)).max_fd ≡ h.max_fd
unfolding invalidate
invalidate-max_fd h fd = ground arith

pub invalidate-heap : (h : TimerHeap) (fd : ℕ) → (invalidate h (pos fd)).heap ≡ h.heap
unfolding invalidate
invalidate-heap h fd = ground arith

delta-positive :
    (now : ℕ) (ns : List TimerNode)
    → Filled ns
    → 1 ≤ timer_delta now (elim ns as (λ q. Option ℕ) [ [] ↦ none | n ∷ _ ↦ some n.expire ])
unfolding timer_delta
delta-positive now [] f = absurd f
delta-positive now (n ∷ ns) f = ground arith

pub arm_timerfd-Armed : (s : SubReactor) (now : ℕ) → Armed (arm_timerfd s now)
unfolding arm_timerfd timer_setting next_expire
arm_timerfd-Armed s now b f = rw b (delta-positive now s.timers.heap f)
