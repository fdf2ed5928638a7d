-- ===== src/ThreadPool.antt =====
-- thread_pool.h and thread_pool.cpp: the queue of tasks and what the workers do with it. A step is
-- what a thread does while it holds the mutex, or the end of a task.
pub mod Order
use reactor_web_server.Common.{
  ℕ, ◌≡◌, ◌-◌, ◌==◌, Bool, true, false, ◌||◌, ◌&&◌, not, List, [], ◌∷◌, ◌++◌, if◌then◌else◌,
}

-- The threads that run: `begun` and `workers` say which tasks they took and how many have not
-- returned from worker_loop.
pub record ThreadPool (T : Type 0) : Type 0 where
  pub tasks : List T
  pub stop : Bool
  pub begun : List T
  pub workers : ℕ

pub data WorkerRound (T : Type 0) : Type 0 where
  waits : WorkerRound T
  returns : ThreadPool T → WorkerRound T
  runs : T → ThreadPool T → WorkerRound T

-- hardware_concurrency may say 0.
unfoldable pub thread_count : ℕ → ℕ → ℕ
thread_count num_threads hardware =
    if num_threads == 0 then (if hardware == 0 then 4 else hardware) else num_threads

module _ {T : Type 0} where
  unfoldable pub thread_pool : ℕ → ℕ → ThreadPool T
  unfolding thread_count
  thread_pool num_threads hardware = record {
    tasks = [];
    stop = false;
    begun = [];
    workers = thread_count num_threads hardware;
  }

  unfoldable pub submit : T → ThreadPool T → ThreadPool T
  submit t p = if p.stop then p else record p { tasks = p.tasks ++ t ∷ [] }

  -- Up to the joins, which wait until no worker is left.
  unfoldable pub shutdown : ThreadPool T → ThreadPool T
  shutdown p = record p { stop = true }

  -- A round of worker_loop, from the wait to the task.
  unfoldable pub worker_round : ThreadPool T → List T → WorkerRound T
  worker_round p [] = if p.stop then returns (record p { workers = p.workers - 1 }) else waits
  worker_round p (t ∷ ts) = runs t (record p { tasks = ts; begun = p.begun ++ t ∷ [] })

  -- What threads do to the pool, one after another in any order.
  pub data Step : ThreadPool T → ThreadPool T → Type 0 where
    submits : (t : T) (p : ThreadPool T) → Step p (submit t p)
    stops : (p : ThreadPool T) → Step p (shutdown p)
    takes : (t : T) (p q : ThreadPool T) → worker_round p p.tasks ≡ runs t q → Step p q
    leaves : (p q : ThreadPool T) → worker_round p p.tasks ≡ returns q → Step p q

  pub data Steps : ThreadPool T → ThreadPool T → Type 0 where
    stays : (p : ThreadPool T) → Steps p p
    goes_on : (p q r : ThreadPool T) → Steps p q → Step q r → Steps p r

  -- One worker alone, with a round for each task and one to return.
  unfoldable pub worker_loop : List T → ThreadPool T → ThreadPool T
  worker_loop [] p = elim (worker_round p p.tasks) [ waits ↦ p | returns q ↦ q | runs t q ↦ q ]
  worker_loop (_ ∷ fuel) p = elim (worker_round p p.tasks) [
    | waits ↦ p
    | returns q ↦ q
    | runs t q ↦ worker_loop fuel q
  ]
