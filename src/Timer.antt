-- ===== src/Timer.antt =====
-- timer_heap.h and timer_heap.cpp: the heap of idle timeouts with lazy deletion.
-- `std::priority_queue` is a list in the order of expiry, its top at the head. Times are seconds
-- of a clock that starts at 0. The table `m_seqs` is a function with its size, and its counters wrap at 2^64.
pub mod Order
pub mod Expiry
pub mod Versions
use reactor_web_server.Common.{
  ℕ, zero, suc, ◌+◌, ◌%◌, ◌^◌, List, [], ◌∷◌, Option, none, some, ltb, leb, ◌==◌, ◌&&◌,
  if◌then◌else◌, ℤ, pos, negsuc, length, update,
}

pub record TimerNode : Type 0 where
  pub expire : ℕ
  pub fd : ℕ
  pub seq : ℕ

pub record TimerHeap : Type 0 where
  pub heap : List TimerNode
  pub seqs : ℕ → ℕ
  pub max_fd : ℕ

abbrev pub u64_mod : ℕ
u64_mod = 2 ^ 64

-- m_heap.push, by the order of TimerNodeCmp.
unfoldable pub push : TimerNode → List TimerNode → List TimerNode
push n [] = n ∷ []
push n (m ∷ ms) = if ltb n.expire m.expire then n ∷ m ∷ ms else m ∷ push n ms

unfoldable pub timer_heap : ℕ → TimerHeap
timer_heap max_fd = record { heap = []; seqs = λ _. 0; max_fd = max_fd }

unfoldable pub add_valid : TimerHeap → ℕ → ℕ → ℕ → TimerHeap
add_valid h fd timeout now =
    let s = (h.seqs fd + 1) % u64_mod in
    record h {
      seqs = update h.seqs fd s;
      heap = push (record { expire = now + timeout; fd = fd; seq = s }) h.heap;
    }

unfoldable pub add : TimerHeap → ℤ → ℕ → ℕ → TimerHeap
unfolding push add_valid
add h (negsuc _) timeout now = h
add h (pos fd) timeout now = if leb h.max_fd fd then h else add_valid h fd timeout now

unfoldable pub refresh : TimerHeap → ℤ → ℕ → ℕ → TimerHeap
unfolding add
refresh h fd timeout now = add h fd timeout now

unfoldable pub invalidate : TimerHeap → ℤ → TimerHeap
invalidate h (negsuc _) = h
invalidate h (pos fd) = if ltb fd h.max_fd then record h { seqs = update h.seqs fd 0 } else h

-- `none` is the source's -1.
unfoldable pub next_expire : TimerHeap → Option ℕ
next_expire h = elim h.heap [ [] ↦ none | n ∷ _ ↦ some n.expire ]

module _ {S : Type 0} (cb : ℕ → TimerHeap × S → TimerHeap × S) (now : ℕ) where
  -- What the loop does with a node that it has popped.
  unfoldable pub fire : TimerNode → TimerHeap × S → TimerHeap × S
  fire n (h, s) =
      if ltb n.fd h.max_fd && h.seqs n.fd == n.seq
      then cb n.fd (record h { seqs = update h.seqs n.fd 0 }, s)
      else (h, s)

  unfoldable pub tick_round :
      (TimerHeap × S → TimerHeap × S) → List TimerNode → TimerHeap × S → TimerHeap × S
  unfolding fire
  tick_round again [] st = st
  tick_round again (n ∷ rest) (h, s) =
      if ltb now n.expire then (h, s) else again (fire n (record h { heap = rest }, s))

  -- `while (!m_heap.empty())`, on fuel.
  unfoldable pub tick_loop : ℕ → TimerHeap × S → TimerHeap × S
  unfolding tick_round
  tick_loop zero st = st
  tick_loop (suc fuel) st = tick_round (tick_loop fuel) st.0.heap st

  -- One round for each node of the heap. A callback that adds no node needs no more.
  unfoldable pub tick : TimerHeap × S → TimerHeap × S
  unfolding tick_loop
  tick st = tick_loop (length st.0.heap) st
