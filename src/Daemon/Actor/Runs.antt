-- ===== src/Daemon/Actor/Runs.antt =====
-- src/daemon/actor.rs: an actor that is asked anything keeps track, and what follows from it.
use opencode_native_memory.Prelude.{
  Bool, true, false, ◌≡◌, refl, none, List, [], ◌∷◌, if◌then◌else◌, arith, all,
}
use opencode_native_memory.Daemon.Actor.{
  ActorCommand, call, maintenance, switch_step, stop, ProjectActor, spawned, has_queued_work,
  has_work, is_idle_for, notice_maintenance, notice_switch_step, Action, acquire_lease,
  release_lease, drain, send_stop_command, received, opened, call_sent, maintenance_seen,
  maintenance_due, switch_seen, switch_due, finished, step, run,
}
use opencode_native_memory.Daemon.Actor.Tracking.{
  IsTracked, is_command, count, send_call-IsTracked, enqueue_maintenance-IsTracked,
  enqueue_switch_step-IsTracked, send_stop-IsTracked, begin_draining-IsTracked,
}
use opencode_native_memory.Daemon.Actor.Thread.{receive_at, finish_at}

either_way :
    (test : Bool) {a b : ProjectActor}
    → IsTracked a
    → IsTracked b
    → IsTracked (if test then a else b)
either_way true ta tb = ta
either_way false ta tb = tb

pub step-IsTracked : (x : Action) (a : ProjectActor) → IsTracked a → IsTracked (step x a)
unfolding step notice_maintenance notice_switch_step
step-IsTracked acquire_lease a t = record {
  pending = t.pending;
  active = t.active;
  maintenance_flag = t.maintenance_flag;
  switch_flag = t.switch_flag;
  room = t.room;
}
step-IsTracked release_lease a t = record {
  pending = t.pending;
  active = t.active;
  maintenance_flag = t.maintenance_flag;
  switch_flag = t.switch_flag;
  room = t.room;
}
step-IsTracked maintenance_seen a t = record {
  pending = t.pending;
  active = t.active;
  maintenance_flag = t.maintenance_flag;
  switch_flag = t.switch_flag;
  room = t.room;
}
step-IsTracked switch_seen a t = record {
  pending = t.pending;
  active = t.active;
  maintenance_flag = t.maintenance_flag;
  switch_flag = t.switch_flag;
  room = t.room;
}
step-IsTracked drain a t = begin_draining-IsTracked a t
step-IsTracked send_stop_command a t = send_stop-IsTracked a t
step-IsTracked received a t = either_way a.started (receive_at a.queue a.current a refl refl t) t
step-IsTracked opened a t = either_way a.started t (record {
  pending = t.pending;
  active = t.active;
  maintenance_flag = t.maintenance_flag;
  switch_flag = t.switch_flag;
  room = t.room;
})
step-IsTracked (call_sent sent) a t = send_call-IsTracked sent a t
step-IsTracked (maintenance_due sent too_soon) a t = enqueue_maintenance-IsTracked sent too_soon a t
step-IsTracked (switch_due sent) a t = enqueue_switch_step-IsTracked sent a t
step-IsTracked (finished outcome) a t = finish_at a.current outcome a refl t

run_from : (actions : List Action) (a : ProjectActor) → IsTracked a → IsTracked (run actions a)
unfolding run
run_from [] a t = t
run_from (x ∷ rest) a t = run_from rest (step x a) (step-IsTracked x a t)

pub spawned-IsTracked : (switching : Bool) → IsTracked (spawned switching)
unfolding count
spawned-IsTracked switching = record {
  pending = refl;
  active = refl;
  maintenance_flag = refl;
  switch_flag = refl;
  room = omega arith;
}

-- Whatever an actor is asked to do, and in whatever order, `pending_commands` is the number of
-- commands whose permit is alive, `active_commands` tells whether one runs, and each of the two flags
-- tells whether such a command is in the channel or runs, of which there is at most one.
pub run-IsTracked :
    (switching : Bool) (actions : List Action) → IsTracked (run actions (spawned switching))
run-IsTracked switching actions = run_from actions (spawned switching) (spawned-IsTracked switching)

abbrev pub is_stop : ActorCommand → Bool
is_stop stop = true
is_stop call = false
is_stop maintenance = false
is_stop switch_step = false

count-stop : (cs : List ActorCommand) → count is_command cs ≡ 0 → all is_stop cs ≡ true
unfolding count all
count-stop [] h = refl
count-stop (stop ∷ cs) h = count-stop cs (omega (arith, h))
count-stop (call ∷ cs) h = absurd (omega (arith, h))
count-stop (maintenance ∷ cs) h = absurd (omega (arith, h))
count-stop (switch_step ∷ cs) h = absurd (omega (arith, h))

not-queued_work :
    (a : ProjectActor)
    → IsTracked a
    → has_queued_work a ≡ false
    → (all is_stop a.queue ≡ true) × (a.current ≡ none)
not-queued_work a t h =
    (count-stop a.queue (ground (arith, t.pending, h)), ground (arith, t.active, h))

-- An actor that `is_idle_for` finds idle has no lease, runs nothing, has no command in its channel
-- but `Stop`, and is in no model switch.
pub run-idle :
    (switching quiet : Bool) (actions : List Action)
    → is_idle_for quiet (run actions (spawned switching)) ≡ true
    → (all is_stop (run actions (spawned switching)).queue ≡ true)
      × ((run actions (spawned switching)).current ≡ none)
      × ((run actions (spawned switching)).leases ≡ 0)
      × ((run actions (spawned switching)).switch_active ≡ false)
unfolding is_idle_for has_work
run-idle switching quiet actions h =
    let a = run actions (spawned switching) in
    let (stopped, nothing) =
      not-queued_work a (run-IsTracked switching actions) (ground (arith, h)) in
    (stopped, nothing, ground (arith, h), ground (arith, h))
