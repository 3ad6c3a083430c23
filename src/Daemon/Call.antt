-- ===== src/Daemon/Call.antt =====
-- src/daemon/actor.rs and src/daemon/mod.rs: the life of one project call. The client's side admits it
-- to the queue and may cancel it; the actor's thread takes it from the queue and runs it. Both sides
-- meet in one atomic `call_state`, and every access to that is a step of its own.
pub mod Cancellation
use opencode_native_memory.Prelude.{
  ℕ, suc, ◌+◌, Bool, true, false, Option, none, some, List, [], ◌∷◌, if◌then◌else◌,
}

-- the constants `CALL_QUEUED`, `CALL_RUNNING`, `CALL_COMPLETED` and `CALL_CANCELLED`
pub data CallState : Type 0 where
  queued running completed cancelled : CallState

pub data CancelOutcome : Type 0 where
  cancelled_before_start already_started already_completed : CancelOutcome

-- What the actor sends back. `handled` is the result of the project operation, or its panic.
pub data Reply : Type 0 where
  rejected cancelled_error deadline_error setup_failure handled : Reply

-- Where the call is: before the queue, in it, and then at each check that the actor makes.
pub data Stage : Type 0 where
  admitting waiting deadline_first preparing failing_setup deadline_second starting executing
        finishing done :
      Stage

pub record Call : Type 0 where
  pub state : CallState
  pub stage : Stage
  pub executions : ℕ
  pub told : List CancelOutcome
  pub reply : Option Reply

abbrev pub new_call : Call
new_call = record { state = queued; stage = admitting; executions = 0; told = []; reply = none }

-- `compare_exchange(CALL_QUEUED, next, ...)`: the new state, if the exchange is made
unfoldable pub exchange_queued : CallState → CallState → Option CallState
exchange_queued queued next = some next
exchange_queued running next = none
exchange_queued completed next = none
exchange_queued cancelled next = none

-- the outcome of `cancel_call` once the call is found
unfoldable pub cancel_outcome : CallState → CancelOutcome
cancel_outcome queued = cancelled_before_start
cancel_outcome running = already_started
cancel_outcome completed = already_completed
cancel_outcome cancelled = cancelled_before_start

unfoldable pub cancel_call : Call → Call
unfolding exchange_queued cancel_outcome
cancel_call c = record c {
  state = elim (exchange_queued c.state cancelled) [ none ↦ c.state | some next ↦ next ];
  told = cancel_outcome c.state ∷ c.told;
}

abbrev finish : Reply → Call → Call
finish reply c = record c { stage = done; reply = some reply }

-- the end of `ProjectActor::call` for a call that does not reach the queue, and `try_send`
unfoldable pub admit : Bool → Call → Call
admit accepted c = elim c.stage [
  | admitting ↦
      if accepted
      then record c { stage = waiting }
      else finish rejected (record c { state = completed })
  | _ ↦ c
]

abbrev check_deadline : Bool → Stage → Call → Call
check_deadline expired next c =
    if expired
    then finish deadline_error (record c { state = cancelled })
    else record c { stage = next }

-- One step of the actor's thread on a `Call` command: whether the deadline has passed, and whether
-- `prepare_project_request` succeeds.
unfoldable pub work : Bool → Bool → Call → Call
unfolding exchange_queued
work expired prepared c = elim c.stage [
  | admitting ↦ c
  | waiting ↦ elim c.state [
    | queued ↦ record c { stage = deadline_first }
    | _ ↦ finish cancelled_error c
  ]
  | deadline_first ↦ check_deadline expired preparing c
  | preparing ↦
      if prepared then record c { stage = deadline_second } else record c { stage = failing_setup }
  | failing_setup ↦ elim (exchange_queued c.state completed) [
    | some next ↦ finish setup_failure (record c { state = next })
    | none ↦ finish cancelled_error c
  ]
  | deadline_second ↦ check_deadline expired starting c
  | starting ↦ elim (exchange_queued c.state running) [
    | some next ↦ record c { state = next; stage = executing }
    | none ↦ finish cancelled_error c
  ]
  | executing ↦ record c { stage = finishing; executions = c.executions + 1 }
  | finishing ↦ finish handled (record c { state = completed })
  | done ↦ c
]

pub data Action : Type 0 where
  admission : Bool → Action
  worker : Bool → Bool → Action
  cancellation : Action

unfoldable pub step : Action → Call → Call
unfolding admit work cancel_call
step (admission accepted) c = admit accepted c
step (worker expired prepared) c = work expired prepared c
step cancellation c = cancel_call c

unfoldable pub run : List Action → Call → Call
unfolding step
run [] c = c
run (a ∷ rest) c = run rest (step a c)
