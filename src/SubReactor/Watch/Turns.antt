-- ===== src/SubReactor/Watch/Turns.antt =====
-- sub_reactor.cpp: wake-ups, tasks and timeouts leave every open connection watched.
use reactor_web_server.Common.{
  ◌++◌, ℕ, ◌<◌, ◌≡◌, refl, ap, inl, inr, Bool, true, false, List, [], ◌∷◌, leb, ◌==◌, ◌||◌, update,
  Bool-cases, arith, ℤ, pos, negsuc, eq_ℤ,
}
use reactor_web_server.Common.Text.{Bytes}
use reactor_web_server.Http.{Address, init}
use reactor_web_server.Http.Resource.{Files}
use reactor_web_server.SubReactor.{
  SubReactor, SubMsg, new_conn, bus_done, max_fd, addfd, modfd, timer_setting, arm_timerfd,
  notify_bus_done,
}
use reactor_web_server.SubReactor.Handlers.{
  add_timer, add_new_conn, task_result, run_task, not_own, bus_done_on, handle_msg, handle_all,
  handle_wakeup,
}
use reactor_web_server.SubReactor.Closing.{update_other}
use reactor_web_server.SubReactor.Events.{owns}
use reactor_web_server.SubReactor.Watch.{has, has-append, Watched, completes-append}
use reactor_web_server.SubReactor.Watch.Effects.{
  Looks-Watched, close-Looks, same-Looks, handled-Looks, timer-Looks,
}

Watched-skip_more :
    (fd result : ℕ) (ms : List SubMsg) (s : SubReactor)
    → (fd < max_fd → owns s fd ≡ false)
    → Watched (bus_done (pos fd) result ∷ ms) s
    → Watched ms s
Watched-skip_more fd result ms s unowned w = record {
  table = w.table;
  armed = w.armed;
  below = w.below;
  all = λ g lt o. elim (Bool-cases (fd == g)) [
    | inl e ↦ absurd (ground (arith, unowned, ap (λ x. owns s x) (same e)))
    | inr e ↦ ground (arith, w.all g lt o)
  ];
}
  where
    same : {g : ℕ} → (fd == g) ≡ true → fd ≡ g
    same e = ground arith

bus_done_on-Watched :
    (s : SubReactor) (fd result now : ℕ) (ms : List SubMsg)
    → Watched (bus_done (pos fd) result ∷ ms) s
    → Watched ms (bus_done_on s fd result now)
unfolding bus_done_on arm_timerfd modfd timer_setting
bus_done_on-Watched s fd result now ms w =
    elim (Bool-cases (leb max_fd fd || not_own fd (s.users fd).sockfd)) [
      | inl e ↦ rw e (Watched-skip_more fd result ms s (λ lt. ground arith) w)
      | inr e ↦ rw e (elim (Bool-cases (result == 1)) [
        | inl f ↦ rw f (
            Looks-Watched fd (bus_done (pos fd) result ∷ ms) ms s _ (below _ e)
              (handled-Looks fd result ms s _ (
                same-Looks fd ms s (add_timer s fd now) _ s.closed (
                  timer-Looks s fd ms s.users now (omega (arith, w.table, below _ e))
                    (λ g ne. refl))))
              w)
        | inr f ↦ rw f (
            Looks-Watched fd (bus_done (pos fd) result ∷ ms) ms s _ (below _ e)
              (handled-Looks fd result ms s _ (close-Looks s fd ms s.users (λ g ne. refl))) w)
      ])
    ]
  where
    below : (b : Bool) → (leb max_fd fd || b) ≡ false → fd < max_fd
    below b e = ground arith

-- A message that is no completion counts for nothing.
skip_new_conn :
    (z : ℤ) (addr : Address) (ms : List SubMsg) (s : SubReactor)
    → Watched (new_conn z addr ∷ ms) s
    → Watched ms s
skip_new_conn z addr ms s w = record {
  table = w.table;
  armed = w.armed;
  below = w.below;
  all = w.all;
}

skip_late :
    (k result : ℕ) (ms : List SubMsg) (s : SubReactor)
    → Watched (bus_done (negsuc k) result ∷ ms) s
    → Watched ms s
skip_late k result ms s w = record {
  table = w.table;
  armed = w.armed;
  below = w.below;
  all = w.all;
}

add_new_conn-Watched :
    (s : SubReactor) (fd : ℕ) (addr : Address) (now : ℕ) (ms : List SubMsg)
    → Watched ms s
    → Watched ms (add_new_conn s fd addr now)
unfolding add_new_conn arm_timerfd addfd timer_setting
add_new_conn-Watched s fd addr now ms w = elim (Bool-cases (leb max_fd fd)) [
  | inl e ↦ rw e (record { table = w.table; armed = w.armed; below = w.below; all = w.all })
  | inr e ↦
      let us = update s.users fd (init (s.users fd) (pos fd) addr) in
      rw e (
        Looks-Watched fd ms ms s _ (ground (arith, e))
          (same-Looks fd ms s (add_timer (record s { users = us }) fd now) _ s.closed (
            timer-Looks s fd ms us now (ground (arith, w.table, e))
              (λ g ne. update_other s.users fd g _ ne)))
          w)
]

handle_msg-Watched :
    (s : SubReactor) (m : SubMsg) (ms : List SubMsg) (now : ℕ)
    → Watched (m ∷ ms) s
    → Watched ms (handle_msg s m now)
unfolding handle_msg
handle_msg-Watched s (new_conn (pos fd) addr) ms now w =
    add_new_conn-Watched s fd addr now ms (skip_new_conn (pos fd) addr ms s w)
handle_msg-Watched s (new_conn (negsuc k) addr) ms now w = skip_new_conn (negsuc k) addr ms s w
handle_msg-Watched s (bus_done (negsuc k) result) ms now w = skip_late k result ms s w
handle_msg-Watched s (bus_done (pos fd) result) ms now w = bus_done_on-Watched s fd result now ms w

handle_all-Watched :
    (s : SubReactor) (ms : List SubMsg) (now : ℕ) → Watched ms s → Watched [] (handle_all s ms now)
unfolding handle_all
handle_all-Watched s [] now w = w
handle_all-Watched s (m ∷ ms) now w =
    handle_all-Watched (handle_msg s m now) ms now (handle_msg-Watched s m ms now w)

-- In the middle of a wake-up, the messages that are left still count.
pub handle_all_partly-Watched :
    (s : SubReactor) (ms rest : List SubMsg) (now : ℕ)
    → Watched (ms ++ rest) s
    → Watched rest (handle_all s ms now)
unfolding handle_all
handle_all_partly-Watched s [] rest now w = w
handle_all_partly-Watched s (m ∷ ms) rest now w =
    handle_all_partly-Watched (handle_msg s m now) ms rest now
      (handle_msg-Watched s m (ms ++ rest) now w)

pub taken-Watched : (s : SubReactor) → Watched [] s → Watched s.msgs (record s { msgs = [] })
taken-Watched s w = record { table = w.table; armed = w.armed; below = w.below; all = w.all }

pub handle_wakeup-Watched :
    (s : SubReactor) (now : ℕ) → Watched [] s → Watched [] (handle_wakeup s now)
unfolding handle_wakeup
handle_wakeup-Watched s now w =
    handle_all-Watched (record s { msgs = [] }) s.msgs now (taken-Watched s w)

-- A task that is done, wherever it stood in the queue.
has_task :
    (s : SubReactor) (us : List ℕ) (fd : ℕ) (ts : List ℕ) (g : ℕ)
    → s.tasks ≡ us ++ fd ∷ ts
    → has g s.tasks ≡ (fd == g || has g (us ++ ts))
has_task s us fd ts g e = ground (arith, e, has-append g us (fd ∷ ts), has-append g us ts)

-- The worker answers for the descriptor of its task.
pub run_task-Watched :
    (fs : Files) (root : Bytes) (s : SubReactor) (us : List ℕ) (fd : ℕ) (ts : List ℕ)
    → s.tasks ≡ us ++ fd ∷ ts
    → Watched [] s
    → Watched [] (run_task fs root (record s { tasks = us ++ ts }) fd)
unfolding run_task notify_bus_done
run_task-Watched fs root s us fd ts e w =
    let done = bus_done (pos fd) (task_result fs root s fd (s.users fd)).0 in
    Looks-Watched fd [] [] s _ (w.below fd (ground (arith, has_task s us fd ts fd e)))
      (record {
        same_table = refl;
        arms = λ a. a;
        gives = λ g h. inl (ground (arith, has_task s us fd ts g e, h));
        same_owner = λ g ne. ap (λ d. eq_ℤ d.sockfd (pos g)) (update_other s.users fd g _ ne);
        same_watch =
            λ g ne. ground (arith, has_task s us fd ts g e, completes-append g s.msgs (done ∷ []));
        own_watch = λ _. ground (arith, completes-append fd s.msgs (done ∷ []));
      })
      w
