-- ===== src/Daemon/Call/Cancellation.antt =====
-- src/daemon/actor.rs and src/daemon/mod.rs: what a cancellation says is what happens.
use opencode_native_memory.Prelude.{
  ℕ, ◌+◌, ◌-◌, ◌≤◌, Bool, true, false, not, ◌&&◌, ◌≡◌, refl, Option, none, some, List, [], ◌∷◌,
  if◌then◌else◌, ◌==◌, any, is_some, is_none, arith,
}
use opencode_native_memory.Daemon.Call.{
  CallState, queued, running, completed, cancelled, CancelOutcome, cancelled_before_start,
  already_started, already_completed, Reply, rejected, cancelled_error, deadline_error,
  setup_failure, handled, Stage, admitting, waiting, deadline_first, preparing, failing_setup,
  deadline_second, starting, executing, finishing, done, Call, new_call, exchange_queued,
  cancel_outcome, cancel_call, admit, work, Action, admission, worker, cancellation, step, run,
}

abbrev is_cancelled_answer : CancelOutcome → Bool
is_cancelled_answer cancelled_before_start = true
is_cancelled_answer already_started = false
is_cancelled_answer already_completed = false

abbrev is_started_answer : CancelOutcome → Bool
is_started_answer cancelled_before_start = false
is_started_answer already_started = true
is_started_answer already_completed = false

-- whether some cancellation was answered so
abbrev pub told_cancelled : Call → Bool
told_cancelled c = any is_cancelled_answer c.told

abbrev pub told_started : Call → Bool
told_started c = any is_started_answer c.told

abbrev is_handled : Option Reply → Bool
is_handled (some handled) = true
is_handled (some rejected) = false
is_handled (some cancelled_error) = false
is_handled (some deadline_error) = false
is_handled (some setup_failure) = false
is_handled none = false

-- Before the operation runs, the state is `queued`, or `cancelled`.
abbrev not_started : CallState → ℕ → Bool → Bool → Option Reply → Bool
not_started queued n c s r = (n == 0) && (not c && (not s && is_none r))
not_started cancelled n c s r = (n == 0) && (not s && is_none r)
not_started running n c s r = false
not_started completed n c s r = false

abbrev is_running : CallState → Bool
is_running running = true
is_running queued = false
is_running completed = false
is_running cancelled = false

-- At the end, the operation ran once and was answered, or never.
abbrev is_over : CallState → ℕ → Bool → Bool → Option Reply → Bool
is_over completed n c s r =
    is_some r && (if is_handled r then (n == 1) && not c else (n == 0) && not s)
is_over cancelled n c s r = is_some r && (not (is_handled r) && ((n == 0) && not s))
is_over queued n c s r = false
is_over running n c s r = false

abbrev sound_at : Stage → CallState → ℕ → Bool → Bool → Option Reply → Bool
sound_at admitting = not_started
sound_at waiting = not_started
sound_at deadline_first = not_started
sound_at preparing = not_started
sound_at failing_setup = not_started
sound_at deadline_second = not_started
sound_at starting = not_started
sound_at executing = λ x n c s r. is_running x && ((n == 0) && (not c && is_none r))
sound_at finishing = λ x n c s r. is_running x && ((n == 1) && (not c && is_none r))
sound_at done = is_over

abbrev sound : Call → Bool
sound c = sound_at c.stage c.state c.executions (told_cancelled c) (told_started c) c.reply

cancel_call-sound : (c : Call) → sound c ≡ true → sound (cancel_call c) ≡ true
unfolding cancel_call exchange_queued cancel_outcome any
cancel_call-sound c h = ground (arith, h)

admit-sound : (accepted : Bool) (c : Call) → sound c ≡ true → sound (admit accepted c) ≡ true
unfolding admit
admit-sound accepted c h = ground (arith, h)

work-sound :
    (expired prepared : Bool) (c : Call) → sound c ≡ true → sound (work expired prepared c) ≡ true
unfolding work exchange_queued
work-sound expired prepared c h = ground (arith, h)

step-sound : (a : Action) (c : Call) → sound c ≡ true → sound (step a c) ≡ true
unfolding step
step-sound (admission accepted) c h = admit-sound accepted c h
step-sound (worker expired prepared) c h = work-sound expired prepared c h
step-sound cancellation c h = cancel_call-sound c h

pub run-sound : (actions : List Action) (c : Call) → sound c ≡ true → sound (run actions c) ≡ true
unfolding run
run-sound [] c h = h
run-sound (a ∷ rest) c h = run-sound rest (step a c) (step-sound a c h)

start-sound : sound new_call ≡ true
unfolding any
start-sound = refl

sound-cancelled : (c : Call) → sound c ≡ true → told_cancelled c ≡ true → c.executions ≡ 0
sound-cancelled c h t = ground (arith, h, t)

sound-started :
    (c : Call)
    → sound c ≡ true
    → told_started c ≡ true
    → c.stage ≡ done
    → (c.executions ≡ 1) × (c.reply ≡ some handled)
sound-started c h t d = ground (arith, h, t, d)

-- If any cancellation of a call was answered with `CancelledBeforeStart`, then its operation has not
-- run, however the client's and the actor's steps interleave, before that answer or after it.
pub run-cancelled :
    (actions : List Action)
    → told_cancelled (run actions new_call) ≡ true
    → (run actions new_call).executions ≡ 0
run-cancelled actions t = sound-cancelled _ (run-sound actions new_call start-sound) t

-- If any cancellation of a call was answered with `AlreadyStarted`, then, once the actor is done with
-- the call, its operation has run exactly once, and the reply is what it returned.
pub run-started :
    (actions : List Action)
    → told_started (run actions new_call) ≡ true
    → (run actions new_call).stage ≡ done
    → ((run actions new_call).executions ≡ 1) × ((run actions new_call).reply ≡ some handled)
run-started actions t d = sound-started _ (run-sound actions new_call start-sound) t d

-- the most steps of the actor that are left
abbrev rank : Stage → ℕ
rank admitting = 8
rank waiting = 7
rank deadline_first = 6
rank preparing = 5
rank failing_setup = 1
rank deadline_second = 4
rank starting = 3
rank executing = 2
rank finishing = 1
rank done = 0

abbrev is_worker : Action → ℕ
is_worker (admission _) = 0
is_worker (worker _ _) = 1
is_worker cancellation = 0

unfoldable pub worker_steps : List Action → ℕ
worker_steps [] = 0
worker_steps (a ∷ rest) = is_worker a + worker_steps rest

work-rank :
    (expired prepared : Bool) (c : Call)
    → rank c.stage ≤ 7
    → rank (work expired prepared c).stage ≤ rank c.stage - 1
unfolding work exchange_queued
work-rank expired prepared c h = ground (arith, h)

step-rank :
    (a : Action) (c : Call) → rank c.stage ≤ 7 → rank (step a c).stage ≤ rank c.stage - is_worker a
unfolding step admit cancel_call
step-rank (admission accepted) c h = ground (arith, h)
step-rank (worker expired prepared) c h = work-rank expired prepared c h
step-rank cancellation c h = ground (arith, h)

run-rank :
    (actions : List Action) (c : Call)
    → rank c.stage ≤ 7
    → rank (run actions c).stage ≤ rank c.stage - worker_steps actions
unfolding run worker_steps
run-rank [] c h = omega (arith, h)
run-rank (a ∷ rest) c h =
    let s = step-rank a c h in omega (arith, h, s, run-rank rest (step a c) (omega (arith, h, s)))

rank-done :
    (c : Call) → sound c ≡ true → rank c.stage ≤ 0 → (c.stage ≡ done) × (is_some c.reply ≡ true)
rank-done c h r = ground (arith, h, r)

-- A call that was admitted to the queue is answered after seven steps of the actor on it, whatever
-- else happens in between.
pub run-finishes :
    (actions : List Action)
    → 7 ≤ worker_steps actions
    → ((run (admission true ∷ actions) new_call).stage ≡ done)
      × (is_some (run (admission true ∷ actions) new_call).reply ≡ true)
unfolding run step admit
run-finishes actions enough =
    let c = admit true new_call in
    rank-done _ (run-sound actions c (admit-sound true new_call start-sound))
      (omega (arith, enough, run-rank actions c (omega arith)))
