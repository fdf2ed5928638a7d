-- ===== src/Examples/Timers.antt =====
-- Runs of the timer heap: one connection, descriptor 3, with a timeout of 15 seconds.
use reactor_web_server.Common.{ℕ, ◌≡◌, ◌<◌, refl, arith, [], pos, some}
use reactor_web_server.Timer.{TimerHeap, push, timer_heap, add, invalidate, next_expire, tick}
use reactor_web_server.Timer.Order.{IsValid, timer_heap-IsValid, add-IsValid}
use reactor_web_server.Timer.Expiry.{
  calls_for, close_and_log, NoneOver, KeepsNodes, calls_for-tick, tick-settles,
}
use reactor_web_server.Timer.Versions.{invalidate_revives}

abbrev one_conn : TimerHeap
one_conn = add (timer_heap 8) (pos 3) 15 0

one_conn-IsValid : IsValid one_conn
unfolding timer_heap
one_conn-IsValid = add-IsValid (timer_heap 8) 3 15 0 (omega arith) (timer_heap-IsValid 8)

add-IsValid_example : IsValid one_conn
unfolding timer_heap
add-IsValid_example = add-IsValid (timer_heap 8) 3 15 0 (omega arith) (timer_heap-IsValid 8)

calls_for-tick_example : calls_for 3 (tick close_and_log 20 (one_conn, [])).1 ≡ 1
unfolding add timer_heap push
calls_for-tick_example = calls_for-tick one_conn 20 3 one_conn-IsValid

close_and_log-KeepsNodes : KeepsNodes close_and_log 20
unfolding close_and_log invalidate
close_and_log-KeepsNodes fd (h, out) = ground arith

tick-settles_example :
    NoneOver close_and_log 20 (tick close_and_log 20 (one_conn, [])).0.heap
    × ((e : ℕ) → next_expire (tick close_and_log 20 (one_conn, [])).0 ≡ some e → 20 < e)
tick-settles_example =
    tick-settles close_and_log 20 (one_conn, []) close_and_log-KeepsNodes one_conn-IsValid

-- The new timeout would be second 25.
invalidate_revives_example :
    calls_for 3 (tick close_and_log 15 (add (invalidate one_conn (pos 3)) (pos 3) 15 10, [])).1 ≡ 1
unfolding add timer_heap push
invalidate_revives_example =
    invalidate_revives one_conn 3 15 10 15 one_conn-IsValid (omega arith) refl

first_expiry : next_expire one_conn ≡ some 15
unfolding add timer_heap push next_expire
first_expiry = refl
