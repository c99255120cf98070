-- ===== src/Sync/Tests.antt =====
-- A semaphore with one waiting coroutine.
use nimbus_store.Base.{◌+◌, List, [], ◌∷◌, ◌++◌, true, false, some, ◌≡◌, refl, arith}
use nimbus_store.Sync.Semaphore.{
  Semaphore, signal, try_wait, await_suspend, Event, signalled, tried, suspended, Run, run_nil,
  run_cons, signal_step, try_wait_step, suspend_step, taken, signals, resumed, queued,
}
use nimbus_store.Sync.Accounts.{permits_counted, waiting_resumed, Among}

abbrev closed : Semaphore
closed = record { count = 0; waiters = [] }

abbrev one_waits : Semaphore
one_waits = record { count = 0; waiters = 7 ∷ [] }

abbrev still_open : Semaphore
still_open = record { count = 1; waiters = [] }

-- the coroutine 7 waits, one signal resumes it, and a try succeeds
abbrev events : List Event
events = suspended false 7 ∷ signalled (some 7) ∷ tried true ∷ []

later-Run : Run one_waits (signalled (some 7) ∷ tried true ∷ []) closed
unfolding signal try_wait
later-Run =
    run_cons one_waits still_open closed (signalled (some 7)) (tried true ∷ [])
      (signal_step one_waits)
      (run_cons still_open closed closed (tried true) [] (try_wait_step still_open)
        (run_nil closed))

whole-Run : Run closed events closed
unfolding await_suspend
whole-Run =
    run_cons closed one_waits closed (suspended false 7) (signalled (some 7) ∷ tried true ∷ [])
      (suspend_step closed 7) later-Run

permits_counted_example :
    (taken events + 0 ≡ 0 + signals events) × (resumed events ++ [] ≡ [] ++ queued events)
permits_counted_example = permits_counted closed closed events whole-Run

waiting_resumed_example : Among 7 (resumed (signalled (some 7) ∷ tried true ∷ []))
waiting_resumed_example =
    waiting_resumed one_waits closed (signalled (some 7) ∷ tried true ∷ []) [] [] 7 later-Run refl
      (omega arith)
