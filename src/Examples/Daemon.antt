-- ===== src/Examples/Daemon.antt =====
-- Calls, permits and actors at concrete inputs.
use opencode_native_memory.Prelude.{
  ◌≡◌, refl, true, false, none, some, [], ◌∷◌, List, is_some, all, arith, any,
}
use opencode_native_memory.Daemon.Permits
use opencode_native_memory.Daemon.Permits.Accounting.{IsAccounted}
use opencode_native_memory.Daemon.Permits.Runs.{run-IsAccounted}
use opencode_native_memory.Daemon.Call
use opencode_native_memory.Daemon.Call.Cancellation.{
  run-cancelled, run-started, run-finishes, worker_steps,
}
use opencode_native_memory.Daemon.Actor
use opencode_native_memory.Daemon.Actor.Tracking.{IsTracked}
use opencode_native_memory.Daemon.Actor.Channel.{is_front}
use opencode_native_memory.Daemon.Actor.Order.{run-is_front}
use opencode_native_memory.Daemon.Actor.Runs.{run-IsTracked, run-idle, is_stop}

-- Two calls of two projects, the second of which is refused by the shared counter.
abbrev contended : List Permits.Action
contended =
    Permits.Action.reserve_project "a" 60
    ∷ Permits.Action.reserve_project "b" 50
    ∷ Permits.Action.reserve_global 1
    ∷ Permits.Action.reserve_global 0
    ∷ Permits.Action.roll_back 0
    ∷ []

abbrev released : List Permits.Action
released =
    Permits.Action.reserve_project "a" 60
    ∷ Permits.Action.reserve_global 0
    ∷ Permits.Action.drop_project 0
    ∷ Permits.Action.drop_global 0
    ∷ []

run-IsAccounted_example : IsAccounted 100 (Permits.run 100 contended Permits.no_permits)
run-IsAccounted_example = run-IsAccounted 100 contended (omega arith)

-- Cancelled while it waits in the queue, and cancelled while it runs.
abbrev cancelled_early : List Call.Action
cancelled_early =
    Call.Action.admission true ∷ Call.Action.cancellation ∷ Call.Action.worker false true ∷ []

abbrev worked : List Call.Action
worked =
    Call.Action.worker false true
    ∷ Call.Action.worker false true
    ∷ Call.Action.worker false true
    ∷ Call.Action.worker false true
    ∷ Call.Action.worker false true
    ∷ Call.Action.cancellation
    ∷ Call.Action.worker false true
    ∷ Call.Action.worker false true
    ∷ []

run-cancelled_example : (Call.run cancelled_early Call.new_call).executions ≡ 0
unfolding Call.run any
run-cancelled_example = run-cancelled cancelled_early refl

run-started_example :
    ((Call.run (Call.Action.admission true ∷ worked) Call.new_call).executions ≡ 1)
    × ((Call.run (Call.Action.admission true ∷ worked) Call.new_call).reply
        ≡ some Call.Reply.handled)
unfolding Call.run any
run-started_example = run-started (Call.Action.admission true ∷ worked) refl refl

run-finishes_example :
    ((Call.run (Call.Action.admission true ∷ worked) Call.new_call).stage ≡ Call.Stage.done)
    × (is_some (Call.run (Call.Action.admission true ∷ worked) Call.new_call).reply ≡ true)
unfolding worker_steps
run-finishes_example = run-finishes worked (omega arith)

-- An actor that was leased, ran one call, and was due for maintenance.
abbrev served : List Actor.Action
served =
    Actor.Action.opened
    ∷ Actor.Action.acquire_lease
    ∷ Actor.Action.call_sent true
    ∷ Actor.Action.received
    ∷ Actor.Action.finished (Actor.Outcome.handled true false)
    ∷ []

abbrev left : List Actor.Action
left =
    Actor.Action.opened
    ∷ Actor.Action.acquire_lease
    ∷ Actor.Action.call_sent true
    ∷ Actor.Action.received
    ∷ Actor.Action.finished (Actor.Outcome.handled true false)
    ∷ Actor.Action.release_lease
    ∷ []

run-IsTracked_example : IsTracked (Actor.run served (Actor.spawned false))
run-IsTracked_example = run-IsTracked false served

run-idle_example :
    (all is_stop (Actor.run left (Actor.spawned false)).queue ≡ true)
    × ((Actor.run left (Actor.spawned false)).current ≡ none)
    × ((Actor.run left (Actor.spawned false)).leases ≡ 0)
    × ((Actor.run left (Actor.spawned false)).switch_active ≡ false)
unfolding Actor.run Actor.is_idle_for
run-idle_example = run-idle false true left refl

-- An actor that has served a call, is due for maintenance, and gets another call.
abbrev maintained : List Actor.Action
maintained =
    Actor.Action.opened
    ∷ Actor.Action.acquire_lease
    ∷ Actor.Action.call_sent true
    ∷ Actor.Action.received
    ∷ Actor.Action.finished (Actor.Outcome.handled true false)
    ∷ Actor.Action.maintenance_seen
    ∷ Actor.Action.maintenance_due true false
    ∷ Actor.Action.call_sent true
    ∷ []

run-is_front_example :
    ((Actor.run maintained (Actor.spawned false)).current ≡ none)
    × (is_front (Actor.run maintained (Actor.spawned false)).queue ≡ true)
unfolding Actor.run
run-is_front_example = run-is_front false maintained refl
