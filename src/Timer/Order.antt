-- ===== src/Timer/Order.antt =====
-- The order and the version numbers of the nodes in the heap of timer_heap.cpp.
use reactor_web_server.Common.{
  ℕ, ◌+◌, ◌≤◌, ◌<◌, List, [], ◌∷◌, ltb, leb, ℤ, pos, negsuc, All, arith, Bool-cases, inl, inr,
}
use reactor_web_server.Timer.{TimerNode, TimerHeap, u64_mod, push, timer_heap, add, invalidate}

-- The nodes stand in the order of their expiry.
abbrev pub IsSorted : List TimerNode → Type 0
IsSorted [] = Unit
IsSorted (n ∷ ns) = All (λ m. n.expire ≤ m.expire) ns × IsSorted ns

-- The heap is in order, and every node carries a version number that is not 0.
pub record IsValid (h : TimerHeap) : Type 0 where
  pub sorted : IsSorted h.heap
  pub stamped : All (λ n. 1 ≤ n.seq) h.heap

pub All-push {ℓ} :
    (P : TimerNode → Type ℓ) (n : TimerNode) (ms : List TimerNode)
    → P n
    → All P ms
    → All P (push n ms)
unfolding push
All-push P n [] p ps = (p, tt)
All-push P n (m ∷ ms) p ps = elim (Bool-cases (ltb n.expire m.expire)) [
  | inl e ↦ rw e (p, ps)
  | inr e ↦ rw e (ps.0, All-push P n ms p ps.1)
]

All-weaken :
    (a b : ℕ) (ms : List TimerNode)
    → a ≤ b
    → All (λ m. b ≤ m.expire) ms
    → All (λ m. a ≤ m.expire) ms
All-weaken a b [] h ps = tt
All-weaken a b (m ∷ ms) h ps = (omega arith, All-weaken a b ms h ps.1)

pub push-IsSorted : (n : TimerNode) (ms : List TimerNode) → IsSorted ms → IsSorted (push n ms)
unfolding push
push-IsSorted n [] s = (tt, tt)
push-IsSorted n (m ∷ ms) s = elim (Bool-cases (ltb n.expire m.expire)) [
  | inl e ↦ rw e ((ground arith, All-weaken n.expire m.expire ms (ground arith) s.0), s)
  | inr e ↦
      rw e (All-push (λ k. m.expire ≤ k.expire) n ms (ground arith) s.0, push-IsSorted n ms s.1)
]

pub timer_heap-IsValid : (max_fd : ℕ) → IsValid (timer_heap max_fd)
unfolding timer_heap
timer_heap-IsValid max_fd = record { sorted = tt; stamped = tt }

pub add-IsValid :
    (h : TimerHeap) (fd timeout now : ℕ)
    → h.seqs fd + 1 < u64_mod
    → IsValid h
    → IsValid (add h (pos fd) timeout now)
unfolding add
add-IsValid h fd timeout now w v = elim (Bool-cases (leb h.max_fd fd)) [
  | inl e ↦ rw e v
  | inr e ↦ rw e (record {
    sorted = push-IsSorted _ h.heap v.sorted;
    stamped = All-push (λ n. 1 ≤ n.seq) _ h.heap (omega arith) v.stamped;
  })
]

pub invalidate-IsValid : (h : TimerHeap) (fd : ℤ) → IsValid h → IsValid (invalidate h fd)
unfolding invalidate
invalidate-IsValid h (pos fd) v = elim (Bool-cases (ltb fd h.max_fd)) [
  | inl e ↦ rw e (record { sorted = v.sorted; stamped = v.stamped })
  | inr e ↦ rw e v
]
invalidate-IsValid h (negsuc n) v = v
