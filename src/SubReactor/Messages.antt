-- ===== src/SubReactor/Messages.antt =====
-- sub_reactor.cpp: the messages of other threads are handled in order, and all of them.
use reactor_web_server.Common.{
  ℕ, ◌≡◌, refl, ◌∙◌, List, [], ◌∷◌, ◌++◌, ℤ, pos, negsuc, leb, ◌==◌, ◌||◌, Bool-cases, inl, inr,
}
use reactor_web_server.Http.{Address}
use reactor_web_server.SubReactor.{
  SubReactor, SubMsg, new_conn, bus_done, max_fd, arm_timerfd, notify_bus_done, close_connection,
}
use reactor_web_server.SubReactor.Handlers.{
  add_new_conn, not_own, bus_done_on, handle_msg, handle_all, handle_wakeup,
}

pub handle_all-append :
    (s : SubReactor) (ms ns : List SubMsg) (now : ℕ)
    → handle_all s (ms ++ ns) now ≡ handle_all (handle_all s ms now) ns now
unfolding handle_all
handle_all-append s [] ns now = refl
handle_all-append s (m ∷ ms) ns now = handle_all-append (handle_msg s m now) ms ns now

arm_timerfd-msgs : (s : SubReactor) (now : ℕ) → (arm_timerfd s now).msgs ≡ s.msgs
unfolding arm_timerfd
arm_timerfd-msgs s now = refl

add_new_conn-msgs :
    (s : SubReactor) (fd : ℕ) (addr : Address) (now : ℕ)
    → (add_new_conn s fd addr now).msgs ≡ s.msgs
unfolding add_new_conn
add_new_conn-msgs s fd addr now = elim (Bool-cases (leb max_fd fd)) [
  | inl e ↦ rw e refl
  | inr e ↦ rw e (arm_timerfd-msgs _ now)
]

close_connection-msgs : (s : SubReactor) (fd : ℕ) → (close_connection s fd).msgs ≡ s.msgs
unfolding close_connection
close_connection-msgs s fd = refl

bus_done_on-msgs :
    (s : SubReactor) (fd result now : ℕ) → (bus_done_on s fd result now).msgs ≡ s.msgs
unfolding bus_done_on
bus_done_on-msgs s fd result now =
    elim (Bool-cases (leb max_fd fd || not_own fd (s.users fd).sockfd)) [
      | inl e ↦ rw e refl
      | inr e ↦ rw e (elim (Bool-cases (result == 1)) [
        | inl f ↦ rw f (arm_timerfd-msgs _ now)
        | inr f ↦ rw f (close_connection-msgs s fd)
      ])
    ]

handle_msg-msgs : (s : SubReactor) (m : SubMsg) (now : ℕ) → (handle_msg s m now).msgs ≡ s.msgs
unfolding handle_msg
handle_msg-msgs s (new_conn (pos fd) addr) now = add_new_conn-msgs s fd addr now
handle_msg-msgs s (new_conn (negsuc _) addr) now = refl
handle_msg-msgs s (bus_done (negsuc _) result) now = refl
handle_msg-msgs s (bus_done (pos fd) result) now = bus_done_on-msgs s fd result now

handle_all-msgs :
    (s : SubReactor) (ms : List SubMsg) (now : ℕ) → (handle_all s ms now).msgs ≡ s.msgs
unfolding handle_all
handle_all-msgs s [] now = refl
handle_all-msgs s (m ∷ ms) now =
    handle_all-msgs (handle_msg s m now) ms now ∙ handle_msg-msgs s m now

-- A wake-up handles a message that came last after all the others, and leaves none.
handle_wakeup-last :
    (s : SubReactor) (cfd : ℤ) (result now : ℕ)
    → (handle_wakeup (notify_bus_done s cfd result) now
        ≡ handle_msg (handle_wakeup s now) (bus_done cfd result) now)
      × ((handle_wakeup (notify_bus_done s cfd result) now).msgs ≡ [])
unfolding handle_wakeup notify_bus_done handle_all
handle_wakeup-last s cfd result now = (
  handle_all-append (record s { msgs = [] }) s.msgs (bus_done cfd result ∷ []) now,
  handle_all-msgs (record s { msgs = [] }) (s.msgs ++ bus_done cfd result ∷ []) now,
)
