-- ===== src/Sync/Semaphore.antt =====
-- `Semaphore` of include/nebulastore/common/semaphore.h. Every method holds the mutex, so that it is
-- one step here. A coroutine handle is a number, and `wait` is a step only where it does not block.
-- The count stays within `int`.
use nimbus_store.Base.{
  ℕ, ◌+◌, ◌-◌, List, [], ◌∷◌, ◌++◌, Bool, true, false, Option, none, some, ltb, if◌then◌else◌, ◌≡◌,
}

pub record Semaphore : Type 0 where
  pub count : ℕ
  pub waiters : List ℕ

-- the coroutine that is resumed, and the rest
abbrev pub resume_first : ℕ → List ℕ → Option ℕ × Semaphore
resume_first count [] = (none, record { count = count; waiters = [] })
resume_first count (h ∷ waiters) = (some h, record { count = count; waiters = waiters })

unfoldable pub signal : Semaphore → Option ℕ × Semaphore
signal s = resume_first (s.count + 1) s.waiters

unfoldable pub try_wait : Semaphore → Bool × Semaphore
try_wait s = if ltb 0 s.count then (true, record s { count = s.count - 1 }) else (false, s)

-- `none` where the thread blocks
unfoldable pub wait : Semaphore → Option Semaphore
wait s = if ltb 0 s.count then some (record s { count = s.count - 1 }) else none

-- `await_ready` of `co_wait`
unfoldable pub await_ready : Semaphore → Bool × Semaphore
unfolding try_wait
await_ready s = try_wait s

-- whether the coroutine goes on at once
unfoldable pub await_suspend : Semaphore → ℕ → Bool × Semaphore
await_suspend s h =
    if ltb 0 s.count
    then (true, record s { count = s.count - 1 })
    else (false, record s { waiters = s.waiters ++ h ∷ [] })

pub data Event : Type 0 where
  signalled : Option ℕ → Event
  tried : Bool → Event
  waited : Event
  suspended : Bool → ℕ → Event

-- one call of any thread
pub data Step : Semaphore → Event → Semaphore → Type 0 where
  signal_step : (s : Semaphore) → Step s (signalled (signal s).0) (signal s).1
  try_wait_step : (s : Semaphore) → Step s (tried (try_wait s).0) (try_wait s).1
  wait_step : (s s' : Semaphore) → wait s ≡ some s' → Step s waited s'
  suspend_step :
      (s : Semaphore) (h : ℕ) → Step s (suspended (await_suspend s h).0 h) (await_suspend s h).1

-- calls one after the other, of all threads together
pub data Run : Semaphore → List Event → Semaphore → Type 0 where
  run_nil : (s : Semaphore) → Run s [] s
  run_cons :
      (s t u : Semaphore) (e : Event) (es : List Event) → Step s e t → Run t es u → Run s (e ∷ es) u

-- how many calls signalled, and how many took one off the count
abbrev pub signals : List Event → ℕ
signals [] = 0
signals (signalled h ∷ es) = signals es + 1
signals (tried b ∷ es) = signals es
signals (waited ∷ es) = signals es
signals (suspended b h ∷ es) = signals es

abbrev pub taken : List Event → ℕ
taken [] = 0
taken (signalled h ∷ es) = taken es
taken (tried true ∷ es) = taken es + 1
taken (tried false ∷ es) = taken es
taken (waited ∷ es) = taken es + 1
taken (suspended true h ∷ es) = taken es + 1
taken (suspended false h ∷ es) = taken es

-- the coroutines that were queued, and those that a signal resumed, in the order of the calls
abbrev pub queued : List Event → List ℕ
queued [] = []
queued (signalled h ∷ es) = queued es
queued (tried b ∷ es) = queued es
queued (waited ∷ es) = queued es
queued (suspended true h ∷ es) = queued es
queued (suspended false h ∷ es) = h ∷ queued es

abbrev pub resumed : List Event → List ℕ
resumed [] = []
resumed (signalled none ∷ es) = resumed es
resumed (signalled (some h) ∷ es) = h ∷ resumed es
resumed (tried b ∷ es) = resumed es
resumed (waited ∷ es) = resumed es
resumed (suspended b h ∷ es) = resumed es
