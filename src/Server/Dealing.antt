-- ===== src/Server/Dealing.antt =====
-- server.cpp: which sub-reactor gets which connection.
use reactor_web_server.Common.{
  ℕ, ◌+◌, ◌%◌, ◌≤◌, ◌<◌, ◌≡◌, refl, ap, sym, ◌∙◌, arith, Bool, true, false, ◌==◌, some, List, [],
  ◌∷◌, ◌++◌, append-nil, append_assoc, ℤ, pos, negsuc, leb, if◌then◌else◌, Bool-cases, inl, inr,
  ==_iff,
}
use reactor_web_server.Http.{Address, Closed}
use reactor_web_server.SubReactor.{SubMsg, new_conn, max_fd, dispatch_new_conn}
use reactor_web_server.Server.{
  Server, u32_mod, sub_count, server, Accept, accepted, eagain, eintr, other_error, next_sub,
  deal_accepted, deal_new_conn,
}

-- The script goes on until accept has no more connections or fails.
abbrev pub ends : List Accept → Bool
ends [] = false
ends (accepted cfd addr ∷ os) = ends os
ends (eintr ∷ os) = ends os
ends (eagain ∷ os) = true
ends (other_error ∷ os) = true

-- The messages for the connections that are taken, in order.
abbrev pub taken : List Accept → List SubMsg
taken [] = []
taken (accepted cfd addr ∷ os) =
    let rest = taken os in if leb max_fd cfd then rest else new_conn (pos cfd) addr ∷ rest
taken (eintr ∷ os) = taken os
taken (eagain ∷ os) = []
taken (other_error ∷ os) = []

-- The descriptors that are too large for the tables.
abbrev pub too_large : List Accept → Closed
too_large [] = []
too_large (accepted cfd addr ∷ os) =
    let rest = too_large os in if leb max_fd cfd then pos cfd ∷ rest else rest
too_large (eintr ∷ os) = too_large os
too_large (eagain ∷ os) = []
too_large (other_error ∷ os) = []

-- Of a list whose elements are numbered from `i`, those with the remainder `j` by `n`.
abbrev pub every : ℕ → ℕ → ℕ → List SubMsg → List SubMsg
every n i j [] = []
every n i j (m ∷ ms) =
    let rest = every n ((i + 1) % u32_mod) j ms in if j == i % n then m ∷ rest else rest

pub record Dealt (s : Server) (os : List Accept) (t : Server) : Type 0 where
  pub msgs : (j : ℕ) → (t.subs j).msgs ≡ (s.subs j).msgs ++ every s.num_subs s.rr_index j (taken os)
  pub refused : t.closed ≡ s.closed ++ too_large os
  pub same_subs : t.num_subs ≡ s.num_subs

unchanged : (s : Server) (os : List Accept) → taken os ≡ [] → too_large os ≡ [] → Dealt s os s
unchanged s os e f = record {
  msgs = λ j. rw e (sym (append-nil (s.subs j).msgs));
  refused = rw f (sym (append-nil s.closed));
  same_subs = refl;
}

accepted-Dealt :
    (s t : Server) (cfd : ℕ) (addr : Address) (os : List Accept)
    → Dealt (deal_accepted cfd addr s) os t
    → Dealt s (accepted cfd addr ∷ os) t
unfolding deal_accepted next_sub dispatch_new_conn
accepted-Dealt s t cfd addr os d = elim (Bool-cases (leb max_fd cfd)) [
  | inl big ↦ record {
    msgs = λ j. rw big (rw big at (d.msgs j));
    refused = rw big ((rw big at d.refused) ∙ append_assoc s.closed (pos cfd ∷ []) (too_large os));
    same_subs = rw big at d.same_subs;
  }
  | inr fits ↦ record {
    msgs = λ j. elim (Bool-cases (j == s.rr_index % s.num_subs)) [
      | inl e ↦
          rw (fits, e)
            ((rw (fits, e) at (d.msgs j))
              ∙ in_turn (s.rr_index % s.num_subs) j (new_conn (pos cfd) addr)
                  (every s.num_subs ((s.rr_index + 1) % u32_mod) j (taken os)) e)
      | inr e ↦ rw (fits, e) (rw (fits, e) at (d.msgs j))
    ];
    refused = rw fits (rw fits at d.refused);
    same_subs = rw fits at d.same_subs;
  }
]
  where
    in_turn :
        (k j : ℕ) (m : SubMsg) (ms : List SubMsg)
        → (j == k) ≡ true
        → ((s.subs k).msgs ++ m ∷ []) ++ ms ≡ (s.subs j).msgs ++ m ∷ ms
    in_turn k j m ms e =
        append_assoc (s.subs k).msgs (m ∷ []) ms
        ∙ ap (λ i. (s.subs i).msgs ++ m ∷ ms) (sym ((==_iff j k).0 e))

-- When accept has given its last answer, the main reactor returns. The connections that fit the
-- tables went to the sub-reactors in turn, each to exactly one and in order, the others are
-- closed, and nothing else changed in a queue.
pub deal_new_conn-Dealt :
    (os : List Accept) (s : Server)
    → ends os ≡ true
    → (t : Server) × (deal_new_conn os s ≡ some t) × Dealt s os t
unfolding deal_new_conn
deal_new_conn-Dealt [] s e = cc
deal_new_conn-Dealt (accepted cfd addr ∷ os) s e =
    let (t, p, d) = deal_new_conn-Dealt os (deal_accepted cfd addr s) e in
    (t, p, accepted-Dealt s t cfd addr os d)
deal_new_conn-Dealt (eintr ∷ os) s e =
    let (t, p, d) = deal_new_conn-Dealt os s e in
    (t, p, record { msgs = d.msgs; refused = d.refused; same_subs = d.same_subs })
deal_new_conn-Dealt (eagain ∷ os) s e = (s, refl, unchanged s (eagain ∷ os) refl refl)
deal_new_conn-Dealt (other_error ∷ os) s e = (s, refl, unchanged s (other_error ∷ os) refl refl)

sub_count-positive : (n : ℤ) (hw : ℕ) → 1 ≤ sub_count n hw
unfolding sub_count
sub_count-positive (pos n) hw = ground arith
sub_count-positive (negsuc n) hw = ground arith

-- The index into the vector of sub-reactors is always inside it, since a server has at least one.
next_sub-lt :
    (n : ℤ) (hw : ℕ) (fds : ℕ → ℤ × ℤ) (os : List Accept) (t : Server)
    → Dealt (server n hw fds) os t
    → next_sub t < t.num_subs
unfolding server next_sub
next_sub-lt n hw fds os t d = omega (arith, d.same_subs, sub_count-positive n hw)
