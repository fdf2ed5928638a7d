-- ===== src/SubReactor/Lifecycle.antt =====
-- sub_reactor.cpp: start, stop and the destructor, by the calls that they make on the thread and the eventfd.
use reactor_web_server.Common.{
  ℕ, ◌+◌, ◌≡◌, refl, ◌∙◌, Bool, true, false, List, [], ◌∷◌, ◌++◌, if◌then◌else◌, arith,
}

-- A thread begins, a thread is waited for, the eventfd is written.
pub data Call : Type 0 where
  spawns joins wakes : Call

pub record Lifecycle : Type 0 where
  -- m_eventfd is valid
  pub has_eventfd : Bool
  pub stopped : Bool
  pub joinable : Bool
  pub calls : List Call

unfoldable pub lifecycle : Bool → Lifecycle
lifecycle has_eventfd = record {
  has_eventfd = has_eventfd;
  stopped = false;
  joinable = false;
  calls = [];
}

unfoldable pub start : Lifecycle → Lifecycle
start l = if l.joinable then l else record l { joinable = true; calls = l.calls ++ spawns ∷ [] }

unfoldable pub wakeup : Lifecycle → Lifecycle
wakeup l = if l.has_eventfd then record l { calls = l.calls ++ wakes ∷ [] } else l

-- if (m_thread.joinable()) m_thread.join(); the call is counted, and taken to return.
unfoldable pub join : Lifecycle → Lifecycle
join l = if l.joinable then record l { joinable = false; calls = l.calls ++ joins ∷ [] } else l

unfoldable pub stop : Lifecycle → Lifecycle
unfolding wakeup join
stop l = if l.stopped then join l else join (wakeup (record l { stopped = true }))

-- A call from outside: `true` is start, `false` is stop.
unfoldable pub run : List Bool → Lifecycle → Lifecycle
unfolding start stop
run [] l = l
run (true ∷ bs) l = run bs (start l)
run (false ∷ bs) l = run bs (stop l)

-- The life of a reactor: its calls, then the destructor.
unfoldable pub life : Bool → List Bool → Lifecycle
unfolding run lifecycle
life has_eventfd bs = stop (run bs (lifecycle has_eventfd))

abbrev pub is_spawns : Call → Bool
is_spawns spawns = true
is_spawns joins = false
is_spawns wakes = false

abbrev pub is_joins : Call → Bool
is_joins spawns = false
is_joins joins = true
is_joins wakes = false

abbrev pub is_wakes : Call → Bool
is_wakes spawns = false
is_wakes joins = false
is_wakes wakes = true

abbrev pub count : (Call → Bool) → List Call → ℕ
count p [] = 0
count p (c ∷ cs) = (if p c then 1 else 0) + count p cs

count-snoc :
    (p : Call → Bool) (cs : List Call) (c : Call)
    → count p (cs ++ c ∷ []) ≡ count p cs + (if p c then 1 else 0)
count-snoc p [] c = ground arith
count-snoc p (d ∷ cs) c = ground (arith, count-snoc p cs c)

-- Every thread but the current one was waited for, and the first stop has written the eventfd.
record Counted (l : Lifecycle) : Type 0 where
  threads : count is_spawns l.calls ≡ count is_joins l.calls + (if l.joinable then 1 else 0)
  wake_ups : count is_wakes l.calls ≡ (if l.stopped then (if l.has_eventfd then 1 else 0) else 0)

start-Counted : (l : Lifecycle) → Counted l → Counted (start l)
unfolding start
start-Counted l c = record {
  threads =
      ground
        (arith, c.threads, count-snoc is_spawns l.calls spawns, count-snoc is_joins l.calls spawns);
  wake_ups = ground (arith, c.wake_ups, count-snoc is_wakes l.calls spawns);
}

join-Counted : (l : Lifecycle) → Counted l → Counted (join l)
unfolding join
join-Counted l c = record {
  threads =
      ground
        (arith, c.threads, count-snoc is_spawns l.calls joins, count-snoc is_joins l.calls joins);
  wake_ups = ground (arith, c.wake_ups, count-snoc is_wakes l.calls joins);
}

wakeup-Counted :
    (l : Lifecycle) → l.stopped ≡ false → Counted l → Counted (wakeup (record l { stopped = true }))
unfolding wakeup
wakeup-Counted l e c = record {
  threads =
      ground
        (arith, c.threads, count-snoc is_spawns l.calls wakes, count-snoc is_joins l.calls wakes);
  wake_ups = ground (arith, e, c.wake_ups, count-snoc is_wakes l.calls wakes);
}

chosen-Counted :
    (b : Bool) (x y : Lifecycle)
    → Counted x
    → (b ≡ false → Counted y)
    → Counted (if b then x else y)
chosen-Counted true x y p q = p
chosen-Counted false x y p q = q refl

stop-Counted : (l : Lifecycle) → Counted l → Counted (stop l)
unfolding stop
stop-Counted l c =
    chosen-Counted l.stopped (join l) (join (wakeup (record l { stopped = true })))
      (join-Counted l c)
      (λ e. join-Counted (wakeup (record l { stopped = true })) (wakeup-Counted l e c))

run-Counted : (bs : List Bool) (l : Lifecycle) → Counted l → Counted (run bs l)
unfolding run
run-Counted [] l c = c
run-Counted (true ∷ bs) l c = run-Counted bs (start l) (start-Counted l c)
run-Counted (false ∷ bs) l c = run-Counted bs (stop l) (stop-Counted l c)

start-has_eventfd : (l : Lifecycle) → (start l).has_eventfd ≡ l.has_eventfd
unfolding start
start-has_eventfd l = ground arith

stop-has_eventfd : (l : Lifecycle) → (stop l).has_eventfd ≡ l.has_eventfd
unfolding stop join wakeup
stop-has_eventfd l = ground arith

run-has_eventfd : (bs : List Bool) (l : Lifecycle) → (run bs l).has_eventfd ≡ l.has_eventfd
unfolding run
run-has_eventfd [] l = refl
run-has_eventfd (true ∷ bs) l = run-has_eventfd bs (start l) ∙ start-has_eventfd l
run-has_eventfd (false ∷ bs) l = run-has_eventfd bs (stop l) ∙ stop-has_eventfd l

pub stop_ends : (l : Lifecycle) → ((stop l).stopped ≡ true) × ((stop l).joinable ≡ false)
unfolding stop join wakeup
stop_ends l = (ground arith, ground arith)

-- Whatever start and stop calls a reactor gets, its destructor leaves no thread: every thread that began was
-- waited for, none is joinable, m_stop is set, and the eventfd was written exactly once if there is one.
pub life_complete :
    (b : Bool) (bs : List Bool)
    → (count is_spawns (life b bs).calls ≡ count is_joins (life b bs).calls)
      × ((life b bs).joinable ≡ false)
      × ((life b bs).stopped ≡ true)
      × (count is_wakes (life b bs).calls ≡ (if b then 1 else 0))
unfolding life lifecycle
life_complete b bs =
    let l = run bs (lifecycle b) in
    let c =
      stop-Counted l (run-Counted bs (lifecycle b) (record { threads = refl; wake_ups = refl })) in
    let (s, j) = stop_ends l in
    let h = stop-has_eventfd l ∙ run-has_eventfd bs (lifecycle b) in
    (ground (arith, c.threads, j), j, s, ground (arith, c.wake_ups, s, h))
