-- ===== src/Timer/Expiry.antt =====
-- What TimerHeap::tick closes.
use reactor_web_server.Common.{
  ℕ, suc, ◌+◌, ◌≤◌, ◌<◌, ◌≡◌, refl, ◌∙◌, List, [], ◌∷◌, ◌++◌, Bool, false, ◌&&◌, ◌||◌, ltb, leb,
  ◌==◌, if◌then◌else◌, pos, All, update, length, arith, Bool-cases, inl, inr, some,
}
use native.Mathlib.Nat.{zero-add}
use reactor_web_server.Timer.{
  TimerNode, TimerHeap, invalidate, next_expire, fire, tick_round, tick_loop, tick,
}
use reactor_web_server.Timer.Order.{IsSorted, IsValid}

-- The callback of SubReactor::handle_timeout as far as the timers see it, with a log of its calls.
unfoldable pub close_and_log : ℕ → TimerHeap × List ℕ → TimerHeap × List ℕ
unfolding invalidate
close_and_log fd (h, out) = (invalidate h (pos fd), out ++ fd ∷ [])

-- How many of the calls that a log records were for a descriptor.
abbrev pub calls_for : ℕ → List ℕ → ℕ
calls_for fd [] = 0
calls_for fd (called ∷ log) =
    let others = calls_for fd log in if called == fd then suc others else others

calls_for-append :
    (fd : ℕ) (log more : List ℕ) → calls_for fd (log ++ more) ≡ calls_for fd log + calls_for fd more
calls_for-append fd [] more = omega arith
calls_for-append fd (called ∷ log) more = ground (arith, calls_for-append fd log more)

-- Some node of the list is for this descriptor and version, and has run out.
abbrev pub any_due : ℕ → ℕ → ℕ → List TimerNode → Bool
any_due seq now fd [] = false
any_due seq now fd (n ∷ ns) =
    (n.fd == fd && leb n.expire now && n.seq == seq) || any_due seq now fd ns

abbrev pub due : TimerHeap → ℕ → ℕ → Bool
due h now fd = ltb fd h.max_fd && any_due (h.seqs fd) now fd h.heap

any_due_later :
    (seq now fd e : ℕ) (ns : List TimerNode)
    → now < e
    → All (λ m. e ≤ m.expire) ns
    → any_due seq now fd ns ≡ false
any_due_later seq now fd e [] h a = refl
any_due_later seq now fd e (n ∷ ns) h a = ground (arith, any_due_later seq now fd e ns h a.1)

pub any_due_zero :
    (now fd : ℕ) (ns : List TimerNode) → All (λ m. 1 ≤ m.seq) ns → any_due 0 now fd ns ≡ false
any_due_zero now fd [] a = refl
any_due_zero now fd (n ∷ ns) a = ground (arith, any_due_zero now fd ns a.1)

module _ (now fd max : ℕ) where
  -- One round, with the rest of the loop as a function that is right about the rest of the heap.
  calls_for-round :
      (n : TimerNode) (ns : List TimerNode) (seqs : ℕ → ℕ) (out : List ℕ)
      → IsSorted (n ∷ ns)
      → All (λ m. 1 ≤ m.seq) (n ∷ ns)
      → ((s : ℕ → ℕ) (o : List ℕ)
          → calls_for fd
              (tick_loop close_and_log now
                (length ns)
                (record { heap = ns; seqs = s; max_fd = max }, o)).1
            ≡ calls_for fd o + (if ltb fd max && any_due (s fd) now fd ns then 1 else 0))
      → calls_for fd
          (tick_loop close_and_log now
            (suc (length ns))
            (record { heap = n ∷ ns; seqs = seqs; max_fd = max }, out)).1
        ≡ calls_for fd out + (if ltb fd max && any_due (seqs fd) now fd (n ∷ ns) then 1 else 0)
  unfolding tick_loop close_and_log fire
  calls_for-round n ns seqs out so st ih = elim (Bool-cases (ltb now n.expire)) [
    | inl later ↦
        rw
          (
            later,
            any_due_later (seqs fd) now fd n.expire (n ∷ ns) (ground arith) (ground arith, so.0),
          )
          (ground arith)
    | inr over ↦ elim (Bool-cases (ltb n.fd max && seqs n.fd == n.seq)) [
      | inl live ↦ ground (
        arith,
        ih (update (update seqs n.fd 0) n.fd 0) (out ++ n.fd ∷ []),
        calls_for-append fd out (n.fd ∷ []),
        any_due_zero now fd ns st.1,
      )
      | inr stale ↦ ground (arith, ih seqs out)
    ]
  ]

  calls_for-tick_loop :
      (ns : List TimerNode) (seqs : ℕ → ℕ) (out : List ℕ)
      → IsSorted ns
      → All (λ m. 1 ≤ m.seq) ns
      → calls_for fd
          (tick_loop close_and_log now
            (length ns)
            (record { heap = ns; seqs = seqs; max_fd = max }, out)).1
        ≡ calls_for fd out + (if ltb fd max && any_due (seqs fd) now fd ns then 1 else 0)
  unfolding tick_loop
  calls_for-tick_loop [] seqs out so st = ground arith
  calls_for-tick_loop (n ∷ ns) seqs out so st =
      calls_for-round n ns seqs out so st (λ s o. calls_for-tick_loop ns s o so.1 st.1)

-- A tick calls back a descriptor exactly once if a node of its current version has run out, and
-- otherwise not at all.
pub calls_for-tick :
    (h : TimerHeap) (now fd : ℕ)
    → IsValid h
    → calls_for fd (tick close_and_log now (h, [])).1 ≡ (if due h now fd then 1 else 0)
unfolding tick
calls_for-tick h now fd v =
    calls_for-tick_loop now fd h.max_fd h.heap h.seqs [] v.sorted v.stamped ∙ zero-add _

module _ {S : Type 0} (cb : ℕ → TimerHeap × S → TimerHeap × S) (now : ℕ) where
  -- A callback that leaves the nodes alone, as one that only invalidates does.
  abbrev pub KeepsNodes : Type 0
  KeepsNodes = (fd : ℕ) (st : TimerHeap × S) → (cb fd st).0.heap ≡ st.0.heap

  abbrev pub NoneOver : List TimerNode → Type 0
  NoneOver = All (λ n. now < n.expire)

  NoneOver-later :
      (e : ℕ) (ns : List TimerNode) → now < e → All (λ m. e ≤ m.expire) ns → NoneOver ns
  NoneOver-later e [] h a = tt
  NoneOver-later e (n ∷ ns) h a = (omega arith, NoneOver-later e ns h a.1)

  fire-heap :
      KeepsNodes → (n : TimerNode) (st : TimerHeap × S) → (fire cb now n st).0.heap ≡ st.0.heap
  unfolding fire
  fire-heap keeps n (h, s) =
      ground (arith, keeps n.fd (record h { seqs = update h.seqs n.fd 0 }, s))

  tick_loop-settles :
      KeepsNodes
      → (ns : List TimerNode) (st : TimerHeap × S) → st.0.heap ≡ ns
      → IsSorted ns
      → NoneOver (tick_loop cb now (length ns) st).0.heap
  unfolding tick_loop
  tick_loop-settles keeps [] st e so = rw e tt
  tick_loop-settles keeps (n ∷ ns) st e so =
      rw (e, tick_round)
        (elim (Bool-cases (ltb now n.expire)) [
          | inl later ↦ rw later (ground arith, NoneOver-later n.expire ns (ground arith) so.0)
          | inr over ↦
              let popped : TimerHeap × S = (record (st.0) { heap = ns }, st.1) in
              rw over
                (tick_loop-settles keeps ns (fire cb now n popped) (fire-heap keeps n popped) so.1)
        ])

  head_later :
      (ns : List TimerNode) (h : TimerHeap) (e : ℕ)
      → h.heap ≡ ns
      → NoneOver ns
      → next_expire h ≡ some e
      → now < e
  unfolding next_expire
  head_later [] h e q s p = ground arith
  head_later (n ∷ ns) h e q s p = ground arith

  -- After a tick no node of the heap has run out, whatever the callback does besides, so the loop
  -- ended by its own test and the next expiry lies in the future.
  pub tick-settles :
      (st : TimerHeap × S)
      → KeepsNodes
      → IsValid st.0
      → NoneOver (tick cb now st).0.heap
        × ((e : ℕ) → next_expire (tick cb now st).0 ≡ some e → now < e)
  unfolding tick
  tick-settles st keeps v =
      let settled = tick_loop-settles keeps st.0.heap st refl v.sorted in
      (settled, λ e p. head_later _ (tick cb now st).0 e refl settled p)
