-- ===== src/Examples/Reacting.antt =====
-- Runs of a sub-reactor with one connection, descriptor 5.
use reactor_web_server.Common.{
  ℕ, ◌≡◌, ◌<◌, refl, arith, true, false, some, [], ◌∷◌, ◌++◌, pos, replicate,
}
use reactor_web_server.Common.Text.{codes}
use reactor_web_server.Timer.{next_expire}
use reactor_web_server.Timer.Expiry.{NoneOver}
use reactor_web_server.Timer.Order.{timer_heap-IsValid}
use reactor_web_server.Http.{HttpConn, no_address, http_conn}
use reactor_web_server.Http.Read.{received, recv_failed, store, read_once}
use reactor_web_server.Http.Write.{eagain, other_error}
use reactor_web_server.Http.Resource.{Files, regular}
use reactor_web_server.Http.Parser.Invariant.{IsValid}
use reactor_web_server.SubReactor.{SubReactor, Interest, sub_reactor, close_connection}
use reactor_web_server.SubReactor.Handlers.{
  after_parse, after_response, deal_read, on_expiry, handle_timeout,
}
use reactor_web_server.SubReactor.Events.{Flags, Kernel}
use reactor_web_server.SubReactor.Closing.{Shut, Apart, close_connection-Shut}
use reactor_web_server.SubReactor.Reading.{Handled, deal_read-Ends}
use reactor_web_server.SubReactor.Busy.{report, reports, second_task_reports}
use reactor_web_server.SubReactor.Writing.{Continued, after_response-Ends}
use reactor_web_server.SubReactor.Reused.{for_writing, after_reuse, stale_completion_taken}
use reactor_web_server.SubReactor.Timeouts.{IsSetFor, handle_timeout-settles}

abbrev pub one_file : Files
one_file = record { stat = λ _. some (record { kind = regular; size = 4 }); open_read = λ _. pos 7 }

-- A connection that has read "GET" and has some more room.
abbrev half_line : HttpConn
half_line = record http_conn {
  sockfd = pos 5;
  read_buf = codes "GET" ++ replicate 8 0;
  read_idx = 3;
}

half_line-IsValid : IsValid half_line
unfolding http_conn
half_line-IsValid = record {
  start-le = omega arith;
  checked-le = omega arith;
  read-le = omega arith;
  body-lt = omega arith;
}

abbrev one_conn : SubReactor
one_conn = record (sub_reactor (pos 3) (pos 4)) {
  users = λ _. half_line;
  epoll = λ _. some (record { reads = true; writes = false; one_shot = true; enabled = true });
}

abbrev armed : Interest
armed = record { reads = true; writes = false; one_shot = true; enabled = true }

deal_read-Ends_example :
    (t : SubReactor) × (deal_read one_file [] one_conn 5 0
        (received (codes " /") ∷ recv_failed eagain ∷ [])
      ≡ some t)
    × Handled one_file [] one_conn 5 true (store half_line (codes " /")) t
    × IsValid (t.users 5)
unfolding sub_reactor http_conn read_once store
deal_read-Ends_example =
    deal_read-Ends one_file [] one_conn 5 0 (received (codes " /") ∷ recv_failed eagain ∷ []) true
      (store half_line (codes " /")) half_line-IsValid (omega arith) refl

after_response-Ends_example :
    (t : SubReactor) × (after_response one_file [] one_conn 5 ≡ some t)
    × Continued one_file [] one_conn 5 t
    × IsValid (t.users 5)
unfolding sub_reactor
after_response-Ends_example = after_response-Ends one_file [] one_conn 5 half_line-IsValid

stale_completion_taken_example :
    ((after_reuse one_conn 5 no_address 3 4).epoll 5 ≡ some for_writing)
    × (((after_reuse one_conn 5 no_address 3 4).users 5).response_head ≡ [])
stale_completion_taken_example = stale_completion_taken one_conn 5 3 4 no_address (omega arith)

second_task_reports_example :
    (reports (after_parse (report (after_parse one_conn 5 (0, half_line)) 5) 5 (1, half_line)) 5
      ≡ true)
    × ((after_parse (report (after_parse one_conn 5 (0, half_line)) 5) 5 (1, half_line)).tasks
        ≡ 5 ∷ [])
unfolding sub_reactor
second_task_reports_example = second_task_reports one_conn 5 half_line half_line armed refl

close_connection-Shut_example :
    Shut 5 (close_connection one_conn 5)
    × Apart one_conn 5 (close_connection one_conn 5)
    × ((close_connection one_conn 5).closed ≡ pos 5 ∷ [])
    × ((close_connection one_conn 5).timers.heap ≡ one_conn.timers.heap)
unfolding sub_reactor http_conn
close_connection-Shut_example = close_connection-Shut one_conn 5

handle_timeout-settles_example :
    NoneOver on_expiry 20 (handle_timeout one_conn 20 21).timers.heap
    × ((e : ℕ)
        → next_expire (handle_timeout one_conn 20 21).timers ≡ some e
        → (20 < e) × IsSetFor 21 (handle_timeout one_conn 20 21).timer_value e)
unfolding sub_reactor
handle_timeout-settles_example =
    handle_timeout-settles one_conn 20 21 (timer_heap-IsValid 65536) refl

abbrev hung_up : Flags
hung_up = record { readable = false; writable = false; broken = true }

abbrev silent : Kernel
silent = record { reads = []; file = []; errno = other_error; writes = [] }
