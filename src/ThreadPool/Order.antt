-- ===== src/ThreadPool/Order.antt =====
-- thread_pool.cpp: the tasks run in the order of their submission, each once.
use reactor_web_server.Common.{
  ℕ, ◌-◌, ◌≤◌, ◌≡◌, refl, ap, sym, ◌∙◌, arith, true, List, [], ◌∷◌, ◌++◌, append-nil, append_assoc,
  if◌then◌else◌, Bool-cases, inl, inr,
}
use reactor_web_server.ThreadPool.{
  ThreadPool, thread_count, submit, shutdown, WorkerRound, waits, returns, runs, worker_round, Step,
  submits, stops, takes, leaves, Steps, stays, goes_on, worker_loop,
}

-- The pool has always a worker.
pub thread_count-positive : (n hw : ℕ) → 1 ≤ thread_count n hw
unfolding thread_count
thread_count-positive n hw = ground arith

module _ {T : Type 0} where
  -- The tasks that were accepted, on the way from one state to another.
  abbrev pub accepted : {p q : ThreadPool T} → Step p q → List T
  accepted (submits t p) = if p.stop then [] else t ∷ []
  accepted (stops p) = []
  accepted (takes t p q e) = []
  accepted (leaves p q e) = []

  abbrev pub all_accepted : {p q : ThreadPool T} → Steps p q → List T
  all_accepted (stays p) = []
  all_accepted (goes_on p q r ss s) = all_accepted ss ++ accepted s

  -- The tasks that were begun, and behind them those that wait.
  abbrev pub known : ThreadPool T → List T
  known p = p.begun ++ p.tasks

  abbrev pool_of : WorkerRound T → ThreadPool T → ThreadPool T
  pool_of waits d = d
  pool_of (returns q) d = q
  pool_of (runs t q) d = q

  round_known :
      (p : ThreadPool T) (ts : List T) (t : T) (q : ThreadPool T)
      → worker_round p ts ≡ runs t q
      → known q ≡ p.begun ++ ts
  unfolding worker_round
  round_known p [] t q e = elim (Bool-cases p.stop) [ inl s ↦ cc | inr s ↦ cc ]
  round_known p (u ∷ ts) t q e =
      ap (λ r. known (pool_of r p)) (sym e) ∙ append_assoc p.begun (u ∷ []) ts

  return_known :
      (p : ThreadPool T) (ts : List T) (q : ThreadPool T)
      → worker_round p ts ≡ returns q
      → (known q ≡ known p) × (ts ≡ []) × (p.stop ≡ true)
  unfolding worker_round
  return_known p [] q e = elim (Bool-cases p.stop) [
    | inl s ↦ (ap (λ r. known (pool_of r p)) (sym (rw s at e)), refl, s)
    | inr s ↦ cc
  ]
  return_known p (u ∷ ts) q e = cc

  Step-known : (p q : ThreadPool T) (s : Step p q) → known q ≡ known p ++ accepted s
  unfolding submit shutdown
  Step-known p q (submits t _) = elim (Bool-cases p.stop) [
    | inl e ↦ rw e (sym (append-nil (known p)))
    | inr e ↦ rw e (sym (append_assoc p.begun p.tasks (t ∷ [])))
  ]
  Step-known p q (stops _) = sym (append-nil (known p))
  Step-known p q (takes t _ _ e) = round_known p p.tasks t q e ∙ sym (append-nil (known p))
  Step-known p q (leaves _ _ e) = (return_known p p.tasks q e).0 ∙ sym (append-nil (known p))

  -- However submissions, the shutdown and the workers are interleaved, the tasks that were begun
  -- and those that wait are the accepted ones in the order of submission, each once.
  pub Steps-known : (p q : ThreadPool T) (ss : Steps p q) → known q ≡ known p ++ all_accepted ss
  Steps-known p _ (stays _) = sym (append-nil (known p))
  Steps-known p q (goes_on _ m _ ss s) =
      Step-known m q s
      ∙ ap (λ k. k ++ accepted s) (Steps-known p m ss)
      ∙ append_assoc (known p) (all_accepted ss) (accepted s)

  drains :
      (ts b : List T) (w : ℕ)
      → worker_loop ts (record { tasks = ts; stop = true; begun = b; workers = w })
        ≡ record { tasks = []; stop = true; begun = b ++ ts; workers = w - 1 }
  unfolding worker_loop worker_round
  drains [] b w =
      ap (λ l. record { tasks = []; stop = true; begun = l; workers = w - 1 }) (sym (append-nil b))
  drains (t ∷ ts) b w =
      drains ts (b ++ t ∷ []) w
      ∙ ap (λ l. record { tasks = []; stop = true; begun = l; workers = w - 1 })
          (append_assoc b (t ∷ []) ts)

  -- After the shutdown a worker that is alone does not wait: it begins every task that was
  -- accepted, in order, and returns.
  worker_loop-drains :
      (p : ThreadPool T)
      → worker_loop p.tasks (shutdown p)
        ≡ record { tasks = []; stop = true; begun = p.begun ++ p.tasks; workers = p.workers - 1 }
  unfolding shutdown
  worker_loop-drains p = drains p.tasks p.begun p.workers
