-- ===== src/FdGuard.antt =====
-- fdguard.h: guards that own descriptors. A guard is named by its address, so that an assignment of
-- a guard to itself is seen. The calls of ::close are a log.
pub mod Ownership
use reactor_web_server.Common.{
  ℕ, ◌==◌, Bool, true, false, List, [], ◌∷◌, ◌++◌, ℤ, minus_one, eq_ℤ, if◌then◌else◌, update,
}

pub record Guards : Type 0 where
  pub fds : ℕ → ℤ
  pub closed : List ℤ

unfoldable pub close_held : ℤ → List ℤ → List ℤ
close_held fd log = if eq_ℤ fd minus_one then log else log ++ fd ∷ []

-- The constructor, at an address where no guard lives.
unfoldable pub fd_guard : ℕ → ℤ → Guards → Guards
fd_guard a fd g = record g { fds = update g.fds a fd }

unfoldable pub destroy : ℕ → Guards → Guards
unfolding close_held
destroy a g = record { fds = update g.fds a minus_one; closed = close_held (g.fds a) g.closed }

-- FdGuard(FdGuard&& other): the new guard at `a` takes the descriptor of `b`.
unfoldable pub move : ℕ → ℕ → Guards → Guards
move a b g = record g { fds = update (update g.fds a (g.fds b)) b minus_one }

-- operator=(FdGuard&& other)
unfoldable pub assign : ℕ → ℕ → Guards → Guards
unfolding close_held
assign a b g = if a == b then g else record {
  fds = update (update g.fds a (g.fds b)) b minus_one;
  closed = close_held (g.fds a) g.closed;
}

unfoldable pub release : ℕ → Guards → ℤ × Guards
release a g = (g.fds a, record g { fds = update g.fds a minus_one })

unfoldable pub reset : ℕ → ℤ → Guards → Guards
unfolding close_held
reset a fd g =
    if eq_ℤ fd (g.fds a)
    then g
    else record { fds = update g.fds a fd; closed = close_held (g.fds a) g.closed }
