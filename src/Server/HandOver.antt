-- ===== src/Server/HandOver.antt =====
-- server.cpp and sub_reactor.cpp: a connection on its way from accept to the table of a sub-reactor.
use reactor_web_server.Common.{
  ℕ, ◌<◌, ◌≡◌, refl, Bool-cases, inl, inr, ap, sym, subst, ◌∙◌, ◌≢◌, ◌++◌, ◌||◌, All, append_assoc,
  either_way, negsuc, arith, true, false, Option, none, some, List, [], ◌∷◌, ℤ, pos, leb, eq_ℤ,
  ◌==◌,
}
use reactor_web_server.Common.Text.{Bytes}
use reactor_web_server.Http
use reactor_web_server.Http.{Address, init_state}
use reactor_web_server.Http.Resource.{Files}
use reactor_web_server.SubReactor.{
  SubReactor, SubMsg, bus_done, epollout, modfd, removefd, close_connection, Interest, new_conn,
  max_fd, timeout_sec, addfd, arm_timerfd, dispatch_new_conn,
}
use reactor_web_server.SubReactor.Handlers.{
  not_own, bus_done_on, add_timer, add_new_conn, handle_msg, handle_all, handle_wakeup,
}
use reactor_web_server.SubReactor.Closing.{update_same, update_other}
use reactor_web_server.SubReactor.Events.{owns}
use reactor_web_server.SubReactor.Loop.{Ready}
use reactor_web_server.SubReactor.Messages.{handle_all-append}
use reactor_web_server.SubReactor.Watch.{
  live, live-add_self, live-add_other, live-invalidate_other, Watched,
}
use reactor_web_server.SubReactor.Watch.Turns.{handle_all_partly-Watched, taken-Watched}
use reactor_web_server.SubReactor.System.{Reach}
use reactor_web_server.SubReactor.System.Sound.{Reach-IsSafe}
use reactor_web_server.Server.{Server, next_sub, deal_accepted}

-- The connection is open on its own descriptor, which is registered, and its timer runs.
pub record IsServed (s : SubReactor) (fd : ℕ) : Type 0 where
  pub open_here : owns s fd ≡ true
  pub registered : (i : Interest) × (s.epoll fd ≡ some i)
  pub timed : live s.timers fd ≡ true

addfd-some :
    (o : Option Interest)
    → (i : Interest) × (elim o as (λ q. Option Interest) [
      | some i ↦ some i
      | none ↦ some (record { reads = true; writes = false; one_shot = true; enabled = true })
    ]
        ≡ some i)
addfd-some none = (_, refl)
addfd-some (some i) = (i, refl)

not_too_large : (fd : ℕ) → fd < max_fd → leb max_fd fd ≡ false
not_too_large fd lt = ground arith

same_number : (fd : ℕ) → (fd == fd) ≡ true
same_number fd = ground arith

add_new_conn-IsServed :
    (s : SubReactor) (fd : ℕ) (addr : Address) (now : ℕ)
    → fd < max_fd
    → s.timers.max_fd ≡ max_fd
    → IsServed (add_new_conn s fd addr now) fd
unfolding add_new_conn arm_timerfd addfd Http.init
add_new_conn-IsServed s fd addr now lt e =
    let (i, p) = addfd-some (s.epoll fd) in
    rw (not_too_large fd lt) (record {
      open_here =
          ap (λ c. eq_ℤ c.sockfd (pos fd))
            (update_same s.users fd (Http.init (s.users fd) (pos fd) addr))
          ∙ same_number fd;
      registered = (i, update_same s.epoll fd _ ∙ p);
      timed = live-add_self s.timers fd timeout_sec now (omega (arith, lt, e));
    })

-- A message that is about another descriptor.
abbrev pub Elsewhere : ℕ → SubMsg → Type 0
Elsewhere fd (new_conn (pos d) addr) = fd ≢ d
Elsewhere fd (new_conn (negsuc _) addr) = Unit
Elsewhere fd (bus_done (pos d) result) = fd ≢ d
Elsewhere fd (bus_done (negsuc _) result) = Unit

-- Only this of the state is looked at.
same-IsServed :
    (s t : SubReactor) (fd : ℕ)
    → t.users fd ≡ s.users fd
    → t.epoll fd ≡ s.epoll fd
    → live t.timers fd ≡ live s.timers fd
    → IsServed s fd
    → IsServed t fd
same-IsServed s t fd u e l v = record {
  open_here = ap (λ c. eq_ℤ c.sockfd (pos fd)) u ∙ v.open_here;
  registered = (v.registered.0, e ∙ v.registered.1);
  timed = l ∙ v.timed;
}

add_new_conn-apart :
    (s : SubReactor) (d : ℕ) (addr : Address) (now fd : ℕ)
    → fd ≢ d
    → IsServed s fd
    → IsServed (add_new_conn s d addr now) fd
unfolding add_new_conn arm_timerfd addfd
add_new_conn-apart s d addr now fd ne v = elim (Bool-cases (leb max_fd d)) [
  | inl e ↦ rw e (same-IsServed s _ fd refl refl refl v)
  | inr e ↦ rw e (
      same-IsServed s _ fd (update_other s.users d fd _ ne) (update_other s.epoll d fd _ ne)
        (live-add_other s.timers d timeout_sec now fd ne) v)
]

close_connection-apart :
    (s : SubReactor) (d fd : ℕ) → fd ≢ d → IsServed s fd → IsServed (close_connection s d) fd
unfolding close_connection removefd
close_connection-apart s d fd ne v =
    same-IsServed s _ fd (update_other s.users d fd _ ne) (update_other s.epoll d fd _ ne)
      (live-invalidate_other s.timers d fd ne) v

bus_done_on-apart :
    (s : SubReactor) (d result now fd : ℕ)
    → fd ≢ d
    → IsServed s fd
    → IsServed (bus_done_on s d result now) fd
unfolding bus_done_on arm_timerfd modfd
bus_done_on-apart s d result now fd ne v =
    either_way (λ t. IsServed t fd) (leb max_fd d || not_own d (s.users d).sockfd) s _ v
      (either_way (λ t. IsServed t fd) (result == 1)
        (add_timer (record s { epoll = modfd s.epoll d epollout }) d now) (close_connection s d)
        (same-IsServed s _ fd refl (update_other s.epoll d fd _ ne)
          (live-add_other s.timers d timeout_sec now fd ne) v)
        (close_connection-apart s d fd ne v))

handle_msg-apart :
    (s : SubReactor) (m : SubMsg) (now fd : ℕ)
    → Elsewhere fd m
    → IsServed s fd
    → IsServed (handle_msg s m now) fd
unfolding handle_msg
handle_msg-apart s (new_conn (pos d) addr) now fd ne v = add_new_conn-apart s d addr now fd ne v
handle_msg-apart s (new_conn (negsuc _) addr) now fd ne v = v
handle_msg-apart s (bus_done (pos d) result) now fd ne v = bus_done_on-apart s d result now fd ne v
handle_msg-apart s (bus_done (negsuc _) result) now fd ne v = v

handle_all-apart :
    (s : SubReactor) (ms : List SubMsg) (now fd : ℕ)
    → All (Elsewhere fd) ms
    → IsServed s fd
    → IsServed (handle_all s ms now) fd
unfolding handle_all
handle_all-apart s [] now fd ne v = v
handle_all-apart s (m ∷ ms) now fd (h, hs) v =
    handle_all-apart (handle_msg s m now) ms now fd hs (handle_msg-apart s m now fd h v)

-- A new connection among the messages, with none about its descriptor behind it.
taken-IsServed :
    (s : SubReactor) (before after : List SubMsg) (fd : ℕ) (addr : Address) (now : ℕ)
    → s.msgs ≡ before ++ new_conn (pos fd) addr ∷ after
    → fd < max_fd
    → Watched [] s
    → All (Elsewhere fd) after
    → IsServed (handle_wakeup s now) fd
unfolding handle_wakeup handle_all handle_msg
taken-IsServed s before after fd addr now e lt w ne =
    let r = record s { msgs = [] } in
    let v = subst (λ ms. Watched ms r) e (taken-Watched s w) in
    let u = (handle_all_partly-Watched r before (new_conn (pos fd) addr ∷ after) now v).table in
    subst (λ ms. IsServed (handle_all r ms now) fd) (sym e)
      (subst (λ x. IsServed x fd)
        (sym (handle_all-append r before (new_conn (pos fd) addr ∷ after) now))
        (handle_all-apart (add_new_conn (handle_all r before now) fd addr now) after now fd ne
          (add_new_conn-IsServed (handle_all r before now) fd addr now lt u)))

-- A connection that accept gives the main reactor, with a descriptor below MAX_FD, is put behind
-- the messages of the chosen sub-reactor. In every state that the sub-reactor and its threads reach
-- in which those messages are not taken yet, and in which no message that came behind them is about
-- the same descriptor, a wake-up leaves the connection open in the table on its own descriptor, the
-- descriptor registered in its epoll, and a timer node of the current version in its heap.
pub deal_accepted-IsServed :
    (fs : Files) (root : Bytes) (eventfd timerfd : ℤ) (s : Server) (fd : ℕ) (addr : Address)
    (t : SubReactor) (es : List Ready) (after : List SubMsg) (now : ℕ)
    → fd < max_fd
    → Reach fs root eventfd timerfd (record { reactor = t; pending = es })
    → t.msgs ≡ ((deal_accepted fd addr s).subs (next_sub s)).msgs ++ after
    → All (Elsewhere fd) after
    → IsServed (handle_wakeup t now) fd
unfolding deal_accepted dispatch_new_conn
deal_accepted-IsServed fs root eventfd timerfd s fd addr t es after now lt r e ne =
    let before = (s.subs (next_sub s)).msgs in
    let w = (Reach-IsSafe fs root eventfd timerfd _ r).sound.watch in
    taken-IsServed t before after fd addr now
      (e
        ∙ rw (not_too_large fd lt) (
            ap (λ (x : SubReactor). x.msgs ++ after)
              (update_same s.subs (next_sub s)
                (dispatch_new_conn (s.subs (next_sub s)) (pos fd) addr))
            ∙ append_assoc before (new_conn (pos fd) addr ∷ []) after))
      lt w ne
