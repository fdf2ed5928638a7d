-- ===== src/Timer/Versions.antt =====
-- The version numbers of timer_heap.cpp: which nodes of a descriptor are alive.
use reactor_web_server.Common.{
  ℕ, ◌+◌, ◌≤◌, ◌<◌, ◌≡◌, refl, ap, ◌∙◌, List, [], ◌∷◌, Bool, true, false, leb, if◌then◌else◌, pos,
  All, arith, Bool-cases, inl, inr,
}
use reactor_web_server.Timer.{TimerNode, TimerHeap, u64_mod, push, add, refresh, invalidate, tick}
use reactor_web_server.Timer.Order.{IsValid, add-IsValid, invalidate-IsValid}
use reactor_web_server.Timer.Expiry.{
  calls_for, close_and_log, any_due, any_due_zero, due, calls_for-tick,
}

any_due-push :
    (seq now fd : ℕ) (n : TimerNode) (ms : List TimerNode)
    → any_due seq now fd (push n ms) ≡ any_due seq now fd (n ∷ ms)
unfolding push
any_due-push seq now fd n [] = refl
any_due-push seq now fd n (m ∷ ms) = ground (arith, any_due-push seq now fd n ms)

-- No node of the descriptor is newer than its counter.
abbrev pub IsCurrent : TimerHeap → ℕ → Type 0
IsCurrent h fd = All (λ n. n.fd ≡ fd → n.seq ≤ h.seqs fd) h.heap

not_due_newer :
    (s seq now fd : ℕ) (ns : List TimerNode)
    → s < seq
    → All (λ n. n.fd ≡ fd → n.seq ≤ s) ns
    → any_due seq now fd ns ≡ false
not_due_newer s seq now fd [] h a = refl
not_due_newer s seq now fd (n ∷ ns) h a = ground (arith, not_due_newer s seq now fd ns h a.1, a.0)

refreshed_not_due :
    (h : TimerHeap) (fd timeout now later : ℕ)
    → IsCurrent h fd
    → h.seqs fd + 1 < u64_mod
    → later < now + timeout
    → due (add h (pos fd) timeout now) later fd ≡ false
unfolding add
refreshed_not_due h fd timeout now later c w before = elim (Bool-cases (leb h.max_fd fd)) [
  | inl e ↦ rw e (ground arith)
  | inr e ↦
      rw (e, any_due-push)
        (ground (arith, not_due_newer (h.seqs fd) (h.seqs fd + 1) later fd h.heap (omega arith) c))
]

restarted-IsValid :
    (h : TimerHeap) (fd timeout now : ℕ)
    → IsValid h
    → fd < h.max_fd
    → IsValid (add (invalidate h (pos fd)) (pos fd) timeout now)
restarted-IsValid h fd timeout now v lt =
    add-IsValid (invalidate h (pos fd)) fd timeout now (unfold invalidate in ground arith)
      (invalidate-IsValid h (pos fd) v)

restarted_due :
    (h : TimerHeap) (fd timeout now later : ℕ)
    → fd < h.max_fd
    → any_due 1 later fd h.heap ≡ true
    → due (add (invalidate h (pos fd)) (pos fd) timeout now) later fd ≡ true
unfolding add invalidate
restarted_due h fd timeout now later lt old =
    ground
      (arith, any_due-push 1 later fd (record { expire = now + timeout; fd = fd; seq = 1 }) h.heap)

-- As long as no version number was reset, a refreshed connection is not closed before its new
-- timeout, whatever older nodes are still in the heap.
refresh-protects :
    (h : TimerHeap) (fd timeout now later : ℕ)
    → IsValid h
    → IsCurrent h fd
    → h.seqs fd + 1 < u64_mod
    → later < now + timeout
    → calls_for fd (tick close_and_log later (refresh h (pos fd) timeout now, [])).1 ≡ 0
unfolding refresh
refresh-protects h fd timeout now later v c w before =
    calls_for-tick (refresh h (pos fd) timeout now) later fd (add-IsValid h fd timeout now w v)
    ∙ ap (λ (b : Bool). if b then 1 else 0) (refreshed_not_due h fd timeout now later c w before)

-- An invalidated descriptor is not closed by a tick.
invalidate-silences :
    (h : TimerHeap) (fd now : ℕ)
    → IsValid h
    → calls_for fd (tick close_and_log now (invalidate h (pos fd), [])).1 ≡ 0
unfolding invalidate
invalidate-silences h fd now v =
    calls_for-tick (invalidate h (pos fd)) now fd (invalidate-IsValid h (pos fd) v)
    ∙ ground (arith, any_due_zero now fd h.heap v.stamped)

-- The counter restarts: after `invalidate` and `add` a pending node of version 1 counts as the
-- new one, and closes the connection when it runs out, however long the new timeout is.
pub invalidate_revives :
    (h : TimerHeap) (fd timeout now later : ℕ)
    → IsValid h
    → fd < h.max_fd
    → any_due 1 later fd h.heap ≡ true
    → calls_for fd
        (tick close_and_log later (add (invalidate h (pos fd)) (pos fd) timeout now, [])).1
      ≡ 1
invalidate_revives h fd timeout now later v lt old =
    calls_for-tick (add (invalidate h (pos fd)) (pos fd) timeout now) later fd
      (restarted-IsValid h fd timeout now v lt)
    ∙ ap (λ (b : Bool). if b then 1 else 0) (restarted_due h fd timeout now later lt old)
