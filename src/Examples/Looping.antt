-- ===== src/Examples/Looping.antt =====
-- Runs of the event loops and of the back end of the log.
use reactor_web_server.Common.{
  ◌<◌, ℕ, ℤ, ◌≤◌, ◌≡◌, refl, arith, true, false, ◌||◌, List, [], ◌∷◌, pos, inl, minus_one,
}
use reactor_web_server.Common.Text.{codes}
use reactor_web_server.Http
use reactor_web_server.Http.{no_address}
use reactor_web_server.Http.Write.{other_error}
use reactor_web_server.SubReactor.{
  SubReactor, new_conn, sub_reactor, dispatch_new_conn, arm_timerfd,
}
use reactor_web_server.SubReactor.Handlers.{handle_wakeup, handle_all, handle_msg, add_new_conn}
use reactor_web_server.SubReactor.Loop
use reactor_web_server.SubReactor.Loop.{
  Ready, drain, Turn, report_all, handle_ready, handle_batch, loop,
}
use reactor_web_server.SubReactor.Lifecycle.{
  count, is_spawns, is_joins, is_wakes, life, life_complete,
}
use reactor_web_server.SubReactor.Slots.{KeepsSlots}
use reactor_web_server.SubReactor.Watch.{has, completes, live}
use reactor_web_server.SubReactor.System.{dispatches, waits, handles, created, later}
use reactor_web_server.SubReactor.System.Created.{Own}
use reactor_web_server.SubReactor.System.Sound.{
  reached-KeepsSlots, reached-watched, Indexed, reached-Indexed,
}
use reactor_web_server.SubReactor.System.Run.{looped_state, Reached, loop-Reached}
use reactor_web_server.Server.{server, accepted, eagain, next_sub, deal_accepted}
use reactor_web_server.Server.HandOver.{IsServed, deal_accepted-IsServed}
use reactor_web_server.Server.Running as Main
use reactor_web_server.Server.Running.{MainTurn, MainReactor, left, main_reactor, start}
use reactor_web_server.Server.Starting.{start_refused}
use reactor_web_server.AsyncLog
use reactor_web_server.AsyncLog.{async_log}
use reactor_web_server.AsyncLog.Backend.{Clock, log_file, Backend, logs, stops, Round, backend_loop}
use reactor_web_server.AsyncLog.Finishing.{IsFinished, backend_loop_complete}
use reactor_web_server.Examples.Reacting.{one_file}

-- The eventfd is 3, the timerfd is 4.
abbrev wake : Ready
wake = record {
  fd = 3;
  flags = record { readable = true; writable = false; broken = false };
  kernel = record { reads = []; file = []; errno = other_error; writes = [] };
  drained = Loop.got ∷ Loop.again ∷ [];
  later = 1;
  now = 1;
}

abbrev own_fds : ℕ → ℤ × ℤ
own_fds i = (pos 3, pos 4)

abbrev with_conn : SubReactor
with_conn = dispatch_new_conn (sub_reactor (pos 3) (pos 4)) (pos 5) no_address

abbrev woken : SubReactor
woken = handle_wakeup (report_all (wake ∷ []) with_conn) 1

with_conn-Reached : Reached one_file [] (pos 3) (pos 4) with_conn []
with_conn-Reached =
    later _ _ created (dispatches (sub_reactor (pos 3) (pos 4)) [] (pos 5) no_address)

waiting-Reached : Reached one_file [] (pos 3) (pos 4) (report_all (wake ∷ []) with_conn) (wake ∷ [])
waiting-Reached = later _ _ with_conn-Reached (waits with_conn (wake ∷ []) (inl refl, tt))

woken-Reached : Reached one_file [] (pos 3) (pos 4) woken []
unfolding handle_ready drain
woken-Reached =
    later _ _ waiting-Reached (handles (report_all (wake ∷ []) with_conn) woken wake [] refl)

reached-KeepsSlots_example : KeepsSlots (Own (pos 3) (pos 4)) woken
reached-KeepsSlots_example =
    reached-KeepsSlots one_file [] (pos 3) (pos 4) (record { reactor = woken; pending = [] })
      woken-Reached

reached-watched_example :
    (has 5 woken.tasks || (completes 5 woken.msgs || live woken.timers 5) ≡ true)
    × (woken.has_timerfd ≡ true → live woken.timers 5 ≡ true → 1 ≤ woken.timer_value)
unfolding handle_wakeup handle_all handle_msg add_new_conn report_all dispatch_new_conn sub_reactor
    arm_timerfd Http.init
reached-watched_example =
    reached-watched one_file [] (pos 3) (pos 4) (record { reactor = woken; pending = [] })
      woken-Reached 5 (omega arith) refl

reached-Indexed_example :
    Indexed one_file [] (pos 3) (pos 4) (wake ∷ [])
    × ((fd : ℕ) → has fd (report_all (wake ∷ []) with_conn).tasks ≡ true → fd < 65536)
reached-Indexed_example =
    reached-Indexed one_file [] (pos 3) (pos 4)
      (record { reactor = report_all (wake ∷ []) with_conn; pending = wake ∷ [] }) waiting-Reached

abbrev two_turns : List Turn
two_turns =
    record { stop = false; wait = Loop.ready (wake ∷ []) }
    ∷ record { stop = true; wait = Loop.eintr }
    ∷ []

loop-Reached_example :
    Reached one_file []
      (pos 3)
      (pos 4)
      (looped_state (loop one_file [] (pos 3) (pos 4) two_turns with_conn))
      []
unfolding handle_batch handle_ready drain
loop-Reached_example =
    loop-Reached one_file [] (pos 3) (pos 4) two_turns with_conn with_conn-Reached
      ((inl refl, tt), tt)

life_complete_example :
    (count is_spawns (life true (true ∷ false ∷ false ∷ [])).calls
      ≡ count is_joins (life true (true ∷ false ∷ false ∷ [])).calls)
    × ((life true (true ∷ false ∷ false ∷ [])).joinable ≡ false)
    × ((life true (true ∷ false ∷ false ∷ [])).stopped ≡ true)
    × (count is_wakes (life true (true ∷ false ∷ false ∷ [])).calls ≡ 1)
life_complete_example = life_complete true (true ∷ false ∷ false ∷ [])

abbrev main_turns : List MainTurn
main_turns =
    record {
      stop = false;
      wait = Main.ready (record { fd = 3; accepts = accepted 5 no_address ∷ eagain ∷ [] } ∷ []);
    }
    ∷ record { stop = true; wait = Main.eintr }
    ∷ []

start_refused_example :
    (start
        (record { socket = minus_one; bind_ok = true; listen_ok = false })
        main_turns
        (main_reactor (pos 2) 0 own_fds)
      ≡ left (main_reactor (pos 2) 0 own_fds))
    × (start
          (record { socket = pos 3; bind_ok = true; listen_ok = false })
          main_turns
          (main_reactor (pos 2) 0 own_fds)
        ≡ left (record (main_reactor (pos 2) 0 own_fds) {
          server = record (server (pos 2) 0 own_fds) { closed = pos 3 ∷ [] };
        }))
start_refused_example = start_refused (pos 2) 0 own_fds 3 true false main_turns refl

abbrev noon : Clock
noon = record { mday = 7; roll_mday = 7; roll_date = codes "2025-01-07"; opens = true }

abbrev running_backend : Backend
running_backend = record { log = AsyncLog.init 1 0 async_log; out = log_file }

abbrev last_round : Round
last_round = record { before = logs (codes "one") ∷ []; meanwhile = stops ∷ []; clock = λ i. noon }

backend_loop_complete_example :
    ((backend_loop 8 (last_round ∷ []) running_backend).0 ≡ false)
    × IsFinished 8 (codes "one") (backend_loop 8 (last_round ∷ []) running_backend).1
unfolding AsyncLog.init async_log log_file
backend_loop_complete_example =
    backend_loop_complete 8 (last_round ∷ []) running_backend ((omega arith, tt), tt, tt) refl
      (record { closes = refl; written = refl }) refl

-- The sub-reactor that the connection was dealt to, with another one behind it.
abbrev two_dealt : SubReactor
two_dealt = dispatch_new_conn with_conn (pos 6) no_address

two_dealt-Reached : Reached one_file [] (pos 3) (pos 4) two_dealt []
two_dealt-Reached = later _ _ with_conn-Reached (dispatches with_conn [] (pos 6) no_address)

deal_accepted-IsServed_example : IsServed (handle_wakeup two_dealt 1) 5
unfolding server sub_reactor dispatch_new_conn deal_accepted next_sub
deal_accepted-IsServed_example =
    deal_accepted-IsServed one_file [] (pos 3) (pos 4) (server (pos 2) 0 own_fds) 5 no_address
      two_dealt [] (new_conn (pos 6) no_address ∷ []) 1 (omega arith) two_dealt-Reached refl
      (omega arith, tt)
