-- ===== src/FdGuard/Ownership.antt =====
-- fdguard.h: a descriptor has one owner.
use reactor_web_server.Common.{
  ℕ, ◌≡◌, ◌≢◌, refl, false, true, sym, ◌∙◌, append-nil, All, List, ◌⊎◌, if◌then◌else◌, ◌==◌, [],
  ◌∷◌, ◌++◌, ℤ, minus_one, eq_ℤ, eq_ℤ_iff, update, Bool-cases, inl, inr, arith,
}
use reactor_web_server.FdGuard.{Guards, close_held, fd_guard, destroy, move, assign, release, reset}

-- No two guards hold the same descriptor.
abbrev pub IsUnique : Guards → Type 0
IsUnique g = (a b : ℕ) → g.fds a ≢ minus_one → g.fds a ≡ g.fds b → a ≡ b

-- No guard holds the descriptor.
abbrev pub Free : ℤ → Guards → Type 0
Free fd g = (a : ℕ) → g.fds a ≢ fd

move-IsUnique : (a b : ℕ) (g : Guards) → g.fds a ≡ minus_one → IsUnique g → IsUnique (move a b g)
unfolding move
move-IsUnique a b g v u x y h e = ground (arith, u x y, u b y, u x b)

assign-IsUnique : (a b : ℕ) (g : Guards) → IsUnique g → IsUnique (assign a b g)
unfolding assign
assign-IsUnique a b g u x y h e = ground (arith, u x y, u b y, u x b)

reset-IsUnique :
    (a : ℕ) (fd : ℤ) (g : Guards)
    → (fd ≡ minus_one) ⊎ Free fd g
    → IsUnique g
    → IsUnique (reset a fd g)
unfolding reset
reset-IsUnique a fd g (inl m) u x y h e = ground (arith, u x y)
reset-IsUnique a fd g (inr f) u x y h e = ground (arith, u x y, f x, f y)

-- What closing a guard's descriptor closes: nothing for -1.
abbrev pub held : ℤ → List ℤ
held fd = if eq_ℤ fd minus_one then [] else fd ∷ []

-- The calls of the program on guards, each with the descriptors that it has to close. A guard is
-- made where none lives, and a descriptor that comes from outside has no owner.
pub data Call (g : Guards) : List ℤ → Guards → Type 0 where
  constructs :
      (a : ℕ) (fd : ℤ)
      → g.fds a ≡ minus_one
      → (fd ≡ minus_one) ⊎ Free fd g
      → Call g [] (fd_guard a fd g)
  destroys : (a : ℕ) → Call g (held (g.fds a)) (destroy a g)
  moves : (a b : ℕ) → g.fds a ≡ minus_one → Call g [] (move a b g)
  assigns_itself : (a : ℕ) → Call g [] (assign a a g)
  assigns : (a b : ℕ) → a ≢ b → Call g (held (g.fds a)) (assign a b g)
  releases : (a : ℕ) → Call g [] (release a g).1
  resets_same : (a : ℕ) → Call g [] (reset a (g.fds a) g)
  resets :
      (a : ℕ) (fd : ℤ)
      → fd ≢ g.fds a
      → (fd ≡ minus_one) ⊎ Free fd g
      → Call g (held (g.fds a)) (reset a fd g)

fd_guard-IsUnique :
    (a : ℕ) (fd : ℤ) (g : Guards)
    → (fd ≡ minus_one) ⊎ Free fd g
    → IsUnique g
    → IsUnique (fd_guard a fd g)
unfolding fd_guard
fd_guard-IsUnique a fd g (inl m) u x y h e = ground (arith, u x y)
fd_guard-IsUnique a fd g (inr f) u x y h e = ground (arith, u x y, f x, f y)

emptied-IsUnique :
    (a : ℕ) (f : ℕ → ℤ)
    → ((x y : ℕ) → f x ≢ minus_one → f x ≡ f y → x ≡ y)
    → (x y : ℕ) → update f a minus_one x ≢ minus_one
    → update f a minus_one x ≡ update f a minus_one y
    → x ≡ y
emptied-IsUnique a f u x y h e = ground (arith, u x y)

same_fd : (fd : ℤ) → eq_ℤ fd fd ≡ true
same_fd fd = ground (arith, eq_ℤ_iff fd fd)

other_fd : (a b : ℤ) → a ≢ b → eq_ℤ a b ≡ false
other_fd a b n = ground (arith, eq_ℤ_iff a b)

reset_same-IsUnique : (a : ℕ) (g : Guards) → IsUnique g → IsUnique (reset a (g.fds a) g)
unfolding reset
reset_same-IsUnique a g u = rw (same_fd (g.fds a)) u

close_held-held : (fd : ℤ) (log : List ℤ) → close_held fd log ≡ log ++ held fd
unfolding close_held
close_held-held fd log = elim (Bool-cases (eq_ℤ fd minus_one)) [
  | inl e ↦ rw e (sym (append-nil log))
  | inr e ↦ rw e refl
]

eq_ℤ_ne : (a b : ℤ) → eq_ℤ a b ≡ false → a ≢ b
eq_ℤ_ne a b n e = ground (arith, eq_ℤ_iff a b)

held-All : (P : ℤ → Type 0) (fd : ℤ) → (fd ≢ minus_one → P fd) → All P (held fd)
held-All P fd f = elim (Bool-cases (eq_ℤ fd minus_one)) [
  | inl e ↦ rw e tt
  | inr e ↦ rw e (f (eq_ℤ_ne fd minus_one e), tt)
]

emptied-Free :
    (a : ℕ) (g : Guards)
    → IsUnique g
    → g.fds a ≢ minus_one
    → (x : ℕ) → update g.fds a minus_one x ≢ g.fds a
emptied-Free a g u v x e = ground (arith, u a x)

assigned-Free :
    (a b : ℕ) (g : Guards)
    → a ≢ b
    → IsUnique g
    → g.fds a ≢ minus_one
    → (x : ℕ) → update (update g.fds a (g.fds b)) b minus_one x ≢ g.fds a
assigned-Free a b g n u v x e = ground (arith, u a x, u a b)

reset-Free :
    (a : ℕ) (fd : ℤ) (g : Guards)
    → fd ≢ g.fds a
    → IsUnique g
    → g.fds a ≢ minus_one
    → (x : ℕ) → update g.fds a fd x ≢ g.fds a
reset-Free a fd g n u v x e = ground (arith, u a x)

-- The descriptors are closed, and no guard holds one of them.
abbrev pub Closed : List ℤ → Guards → Guards → Type 0
Closed l g k = (k.closed ≡ g.closed ++ l) × All (λ fd. Free fd k) l

nothing_closed : (g : Guards) → Closed [] g g
nothing_closed g = (sym (append-nil g.closed), tt)

closes_held :
    (a : ℕ) (g k : Guards)
    → k.closed ≡ close_held (g.fds a) g.closed
    → (g.fds a ≢ minus_one → Free (g.fds a) k)
    → Closed (held (g.fds a)) g k
closes_held a g k e f = (e ∙ close_held-held (g.fds a) g.closed, held-All _ (g.fds a) f)

assign-Closed :
    (a b : ℕ) (g : Guards) → a ≢ b → IsUnique g → Closed (held (g.fds a)) g (assign a b g)
unfolding assign
assign-Closed a b g n u =
    let other : (a == b) ≡ false = ground arith in
    rw other (closes_held a g _ refl (assigned-Free a b g n u))

assign_itself-Closed : (a : ℕ) (g : Guards) → Closed [] g (assign a a g)
unfolding assign
assign_itself-Closed a g = let same : (a == a) ≡ true = ground arith in rw same (nothing_closed g)

reset-Closed :
    (a : ℕ) (fd : ℤ) (g : Guards)
    → fd ≢ g.fds a
    → IsUnique g
    → Closed (held (g.fds a)) g (reset a fd g)
unfolding reset
reset-Closed a fd g n u =
    rw (other_fd fd (g.fds a) n) (closes_held a g _ refl (reset-Free a fd g n u))

reset_same-Closed : (a : ℕ) (g : Guards) → Closed [] g (reset a (g.fds a) g)
unfolding reset
reset_same-Closed a g = rw (same_fd (g.fds a)) (nothing_closed g)

-- Where no two guards hold the same descriptor, and a guard is made or moved to where none lives and
-- takes no descriptor that another guard holds: each call closes what it has to, in order behind
-- what was closed before, and no more. That is the descriptor that the guard held, unless it is -1,
-- for the destructor, for an assignment from another guard and for a reset to another descriptor or
-- to -1; and nothing for a construction, a move, a release, an assignment of a guard to itself and
-- a reset to the same descriptor. What is closed no guard holds any more, and no two guards come to
-- hold the same descriptor.
pub Call-Closes :
    (l : List ℤ) (g k : Guards)
    → Call g l k
    → IsUnique g
    → ((k.closed ≡ g.closed ++ l) × All (λ fd. Free fd k) l) × IsUnique k
unfolding fd_guard destroy move release
Call-Closes _ g _ (constructs a fd v f) u =
    ((sym (append-nil g.closed), tt), fd_guard-IsUnique a fd g f u)
Call-Closes _ g _ (destroys a) u =
    (closes_held a g (destroy a g) refl (emptied-Free a g u), emptied-IsUnique a g.fds u)
Call-Closes _ g _ (moves a b v) u = ((sym (append-nil g.closed), tt), move-IsUnique a b g v u)
Call-Closes _ g _ (assigns_itself a) u = (assign_itself-Closed a g, assign-IsUnique a a g u)
Call-Closes _ g _ (assigns a b n) u = (assign-Closed a b g n u, assign-IsUnique a b g u)
Call-Closes _ g _ (releases a) u = ((sym (append-nil g.closed), tt), emptied-IsUnique a g.fds u)
Call-Closes _ g _ (resets_same a) u = (reset_same-Closed a g, reset_same-IsUnique a g u)
Call-Closes _ g _ (resets a fd n f) u = (reset-Closed a fd g n u, reset-IsUnique a fd g f u)
