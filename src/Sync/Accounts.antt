-- ===== src/Sync/Accounts.antt =====
-- What holds of every sequence of calls of a semaphore, by induction over the steps.
use nimbus_store.Base.{
  ℕ, ◌+◌, ◌-◌, ◌<◌, List, [], ◌∷◌, ◌++◌, Option, none, some, ltb, length, append_assoc, append-nil,
  ◌≡◌, ◌⊎◌, refl, ap, sym, ◌∙◌, arith, Bool-cases, inl, inr,
}
use mathlib.Core.Option.{none-ne-some}
use nimbus_store.Sync.Semaphore.{
  Semaphore, resume_first, signal, try_wait, wait, await_suspend, Event, signalled, Step,
  signal_step, try_wait_step, wait_step, suspend_step, Run, run_nil, run_cons, signals, taken,
  queued, resumed,
}

-- What holds after a step and the events that follow it, from what holds after the events.
abbrev Accounts : Semaphore → List Event → ℕ → List ℕ → Type 0
Accounts s es count waiters =
    (taken es + count ≡ s.count + signals es) × (resumed es ++ waiters ≡ s.waiters ++ queued es)

resume_first-Accounts :
    (n : ℕ) (first : List ℕ) (es : List Event) (count : ℕ) (waiters : List ℕ)
    → Accounts (resume_first (n + 1) first).1 es count waiters
    → (taken es + count ≡ n + (signals es + 1))
      × (resumed (signalled (resume_first (n + 1) first).0 ∷ es) ++ waiters ≡ first ++ queued es)
resume_first-Accounts n [] es count waiters a = (omega (arith, a.0), a.1)
resume_first-Accounts n (h ∷ first) es count waiters a = (omega (arith, a.0), ap (◌∷◌ h) a.1)

abbrev value_or : Semaphore → Option Semaphore → Semaphore
value_or s none = s
value_or s (some t) = t

wait_lem :
    (s t : Semaphore)
    → wait s ≡ some t
    → (0 < s.count) × (t.count ≡ s.count - 1) × (t.waiters ≡ s.waiters)
unfolding wait
wait_lem s t = elim (Bool-cases (ltb 0 s.count)) [
  | inl f ↦ rw f (λ g. (
    ground (arith, f),
    ap (λ o. (value_or s o).count) (sym g),
    ap (λ o. (value_or s o).waiters) (sym g),
  ))
  | inr f ↦ rw f (λ g. absurd (none-ne-some t g))
]

Step-Accounts :
    (s t : Semaphore) (e : Event) (es : List Event) (count : ℕ) (waiters : List ℕ)
    → Step s e t
    → Accounts t es count waiters
    → Accounts s (e ∷ es) count waiters
unfolding signal try_wait wait await_suspend
Step-Accounts s t e es count waiters (signal_step _) =
    resume_first-Accounts s.count s.waiters es count waiters
Step-Accounts s t e es count waiters (try_wait_step _) = elim (Bool-cases (ltb 0 s.count)) [
  | inl f ↦
      let positive : 0 < s.count = ground (arith, f) in
      rw f (λ a. (omega (arith, a.0, positive), a.1))
  | inr f ↦ rw f (λ a. a)
]
Step-Accounts s t e es count waiters (wait_step _ _ g) =
    let (positive, fewer, same) = wait_lem s t g in
    λ a. (omega (arith, a.0, positive, fewer), a.1 ∙ ap (λ w. w ++ queued es) same)
Step-Accounts s t e es count waiters (suspend_step _ c) = elim (Bool-cases (ltb 0 s.count)) [
  | inl f ↦
      let positive : 0 < s.count = ground (arith, f) in
      rw f (λ a. (omega (arith, a.0, positive), a.1))
  | inr f ↦ rw f (λ a. (a.0, a.1 ∙ append_assoc s.waiters (c ∷ []) (queued es)))
]

-- Over any sequence of calls of a semaphore, by any threads, the calls that took one off the count
-- and the count at the end are as many as the count at the start and the signals; and the coroutines
-- that signals resumed, followed by those that still wait, are those that waited at the start
-- followed by those that were queued, in this order.
pub permits_counted :
    (s s' : Semaphore) (es : List Event)
    → Run s es s'
    → (taken es + s'.count ≡ s.count + signals es)
      × (resumed es ++ s'.waiters ≡ s.waiters ++ queued es)
permits_counted s s' es (run_nil _) = (omega arith, sym (append-nil s.waiters))
permits_counted s s' es (run_cons _ t _ e es' step run) =
    Step-Accounts s t e es' s'.count s'.waiters step (permits_counted t s' es' run)

abbrev pub Among : ℕ → List ℕ → Type 0
Among h [] = ⊥
Among h (x ∷ xs) = (h ≡ x) ⊎ Among h xs

resumed-signal :
    (s : Semaphore) (es : List Event) (before after : List ℕ) (h : ℕ)
    → ((others : List ℕ)
        → (signal s).1.waiters ≡ others ++ h ∷ after
        → length others < signals es
        → Among h (resumed es))
    → s.waiters ≡ before ++ h ∷ after
    → length before < signals es + 1
    → Among h (resumed (signalled (signal s).0 ∷ es))
unfolding signal
resumed-signal s es [] after h rest e l = rw e (inl refl)
resumed-signal s es (b ∷ before) after h rest e l =
    let found = rest before (rw e refl) (omega (arith, l)) in rw e (inr found)

waiters-try_wait : (s : Semaphore) → (try_wait s).1.waiters ≡ s.waiters
unfolding try_wait
waiters-try_wait s = elim (Bool-cases (ltb 0 s.count)) [ inl f ↦ rw f refl | inr f ↦ rw f refl ]

waiters-await_suspend :
    (s : Semaphore) (c : ℕ) → (more : List ℕ) × ((await_suspend s c).1.waiters ≡ s.waiters ++ more)
unfolding await_suspend
waiters-await_suspend s c = elim (Bool-cases (ltb 0 s.count)) [
  | inl f ↦ ([], rw f (sym (append-nil s.waiters)))
  | inr f ↦ (c ∷ [], rw f refl)
]

-- Let a coroutine wait behind some others. After any sequence of calls with more signals than there
-- are others before it, it is among the coroutines that a signal resumed.
pub waiting_resumed :
    (s s' : Semaphore) (es : List Event) (before after : List ℕ) (h : ℕ)
    → Run s es s'
    → s.waiters ≡ before ++ h ∷ after
    → length before < signals es
    → Among h (resumed es)
waiting_resumed s s' es before after h (run_nil _) e l = absurd (omega (arith, l))
waiting_resumed s s' es before after h (run_cons _ t _ _ es' (signal_step _) run) e l =
    resumed-signal s es' before after h
      (λ others e' l'. waiting_resumed t s' es' others after h run e' l') e l
waiting_resumed s s' es before after h (run_cons _ t _ _ es' (try_wait_step _) run) e l =
    waiting_resumed t s' es' before after h run (waiters-try_wait s ∙ e) l
waiting_resumed s s' es before after h (run_cons _ t _ _ es' (wait_step _ _ g) run) e l =
    waiting_resumed t s' es' before after h run ((wait_lem s t g).2 ∙ e) l
waiting_resumed s s' es before after h (run_cons _ t _ _ es' (suspend_step _ c) run) e l =
    let (more, longer) = waiters-await_suspend s c in
    waiting_resumed t s' es' before (after ++ more) h run
      (longer ∙ ap (λ w. w ++ more) e ∙ append_assoc before (h ∷ after) more) l
