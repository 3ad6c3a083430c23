-- ===== src/Daemon/Actor.antt =====
-- src/daemon/actor.rs: what a project's actor has queued and what it runs. Each method is one
-- step; the two rounds of checks of `enqueue_maintenance` and of `enqueue_switch_step`, and the two
-- halves of the thread's work on a command, are two. The clock enters as the result of a
-- comparison, and the service as what it returned.
pub mod Tracking
pub mod Thread
pub mod Runs
pub mod Channel
pub mod Order
use opencode_native_memory.Prelude.{
  ℕ, ◌+◌, ◌%◌, Bool, true, false, not, ◌&&◌, ◌||◌, Option, none, some, List, [], ◌∷◌, ◌++◌, length,
  ltb, ◌==◌, is_some, if◌then◌else◌,
}
use opencode_native_memory.Daemon.Permits.{usize_values, fetch_sub}

abbrev pub project_queue_capacity : ℕ
project_queue_capacity = 64

pub data ActorState : Type 0 where
  opening ready draining failed closed : ActorState

pub data ActorCommand : Type 0 where
  call maintenance switch_step stop : ActorCommand

pub record ProjectActor : Type 0 where
  pub state : ActorState
  pub accepting : Bool
  pub leases : ℕ
  pub active_commands : ℕ
  pub pending_commands : ℕ
  pub engine_initialized : Bool
  pub maintenance_queued : Bool
  pub switch_active : Bool
  pub switch_queued : Bool
  -- whether the thread has sent `Ready`, which it does before it receives anything
  pub started : Bool
  -- whether the caller of `enqueue_maintenance`, or of `enqueue_switch_step`, has passed the first of
  -- the two rounds of checks
  pub maintenance_noticed : Bool
  pub switch_noticed : Bool
  -- the channel, and the command that the thread has taken from it
  pub queue : List ActorCommand
  pub current : Option ActorCommand

abbrev pub spawned : Bool → ProjectActor
spawned switching = record {
  state = opening;
  accepting = true;
  leases = 0;
  active_commands = 0;
  pending_commands = 0;
  engine_initialized = false;
  maintenance_queued = false;
  switch_active = switching;
  switch_queued = false;
  started = false;
  maintenance_noticed = false;
  switch_noticed = false;
  queue = [];
  current = none;
}

unfoldable pub fetch_add : ℕ → ℕ → ℕ
fetch_add current more = (current + more) % usize_values

-- the `Drop` of the permit that a command carries, its bytes apart
unfoldable pub drop_permit : ActorCommand → ProjectActor → ProjectActor
unfolding fetch_sub
drop_permit call a = record a { pending_commands = fetch_sub a.pending_commands 1 }
drop_permit maintenance a = record a {
  pending_commands = fetch_sub a.pending_commands 1;
  maintenance_queued = false;
}
drop_permit switch_step a = record a {
  pending_commands = fetch_sub a.pending_commands 1;
  switch_queued = false;
}
drop_permit stop a = a

abbrev pub is_closed : ActorState → Bool
is_closed closed = true
is_closed opening = false
is_closed ready = false
is_closed draining = false
is_closed failed = false

abbrev pub has_room : ProjectActor → Bool
has_room a = not (is_closed a.state) && ltb (length a.queue) project_queue_capacity

-- `sender.try_send(command)`, which drops the command when it fails. Whether it succeeds is the first
-- argument; as documented, a bounded channel takes no more than its capacity, nor anything once its
-- receiver is gone.
unfoldable pub try_send : Bool → ActorCommand → ProjectActor → Bool × ProjectActor
unfolding drop_permit
try_send sent command a =
    if sent && has_room a
    then (true, record a { queue = a.queue ++ command ∷ [] })
    else (false, drop_permit command a)

abbrev pub has_queued_work : ProjectActor → Bool
has_queued_work a = ltb 0 a.pending_commands || ltb 0 a.active_commands

unfoldable pub has_work : ProjectActor → Bool
has_work a = has_queued_work a || a.switch_active

unfoldable pub is_idle_for : Bool → ProjectActor → Bool
unfolding has_work
is_idle_for quiet a = (a.leases == 0) && (not (has_work a) && ((a.active_commands == 0) && quiet))

abbrev pub is_draining : ProjectActor → Bool
is_draining a = elim a.state [ draining ↦ true | failed ↦ true | closed ↦ true | _ ↦ false ]

-- what `enqueue_maintenance` checks before it takes the `accepting` lock, and again under it
abbrev pub not_due : ProjectActor → Bool
not_due a = (a.leases == 0) || (not a.engine_initialized || (a.switch_active || has_queued_work a))

-- the first half of `enqueue_maintenance`
unfoldable pub notice_maintenance : ProjectActor → ProjectActor
notice_maintenance a = record a { maintenance_noticed = not (not_due a) }

-- The second half, under the lock, which a caller comes to that the first half let through. The
-- second argument is whether the last attempt is less than `interval` ago.
unfoldable pub enqueue_maintenance : Bool → Bool → ProjectActor → Bool × ProjectActor
unfolding try_send fetch_add
enqueue_maintenance sent too_soon a =
    let b = record a { maintenance_noticed = false } in
    if not a.maintenance_noticed
    then (false, a)
    else if not a.accepting || (not_due a || (too_soon || a.maintenance_queued))
    then (false, b)
    else try_send sent maintenance
        (record b { maintenance_queued = true; pending_commands = fetch_add b.pending_commands 1 })

abbrev pub no_step_due : ProjectActor → Bool
no_step_due a = not a.switch_active || has_queued_work a

-- the first checks of `enqueue_switch_step`
unfoldable pub notice_switch_step : ProjectActor → ProjectActor
notice_switch_step a = record a { switch_noticed = not (no_step_due a) }

-- the rest of `enqueue_switch_step`
unfoldable pub enqueue_switch_step : Bool → ProjectActor → Bool × ProjectActor
unfolding try_send fetch_add
enqueue_switch_step sent a =
    let b = record a { switch_noticed = false } in
    if not a.switch_noticed
    then (false, a)
    else if no_step_due a || a.switch_queued
    then (false, b)
    else try_send sent switch_step
        (record b { switch_queued = true; pending_commands = fetch_add b.pending_commands 1 })

-- the part of `call` under the `accepting` lock
unfoldable pub send_call : Bool → ProjectActor → Bool × ProjectActor
unfolding try_send fetch_add
send_call sent a =
    if not a.accepting
    then (false, a)
    else try_send sent call (record a { pending_commands = fetch_add a.pending_commands 1 })

unfoldable pub begin_draining : ProjectActor → ProjectActor
begin_draining a = if not a.accepting then a else elim a.state [
  | failed ↦ record a { accepting = false }
  | closed ↦ record a { accepting = false }
  | _ ↦ record a { accepting = false; state = draining }
]

-- the first half of `stop`; `send` waits until there is room
unfoldable pub send_stop : ProjectActor → ProjectActor
send_stop a = if has_room a then record a { queue = a.queue ++ stop ∷ [] } else a

-- What the receiver does with the commands in the channel when it is dropped.
unfoldable pub drop_all : List ActorCommand → ProjectActor → ProjectActor
unfolding drop_permit
drop_all [] a = record a { queue = [] }
drop_all (command ∷ rest) a = drop_all rest (drop_permit command (record a { queue = rest }))

-- the end of the thread
unfoldable pub shut_down : ProjectActor → ProjectActor
unfolding drop_all
shut_down a = drop_all a.queue (record a { state = closed; current = none })

-- the thread's receipt of a command; a call's permit is dropped at once
unfoldable pub receive : ProjectActor → ProjectActor
unfolding drop_permit shut_down fetch_add
receive a = elim a.current [
  | some _ ↦ a
  | none ↦ elim a.queue [
    | [] ↦ a
    | stop ∷ rest ↦ shut_down (record a { queue = rest })
    | call ∷ rest ↦ drop_permit call (record a {
      queue = rest;
      active_commands = fetch_add a.active_commands 1;
      current = some call;
    })
    | maintenance ∷ rest ↦ record a {
      queue = rest;
      active_commands = fetch_add a.active_commands 1;
      current = some maintenance;
    }
    | switch_step ∷ rest ↦ record a {
      queue = rest;
      active_commands = fetch_add a.active_commands 1;
      current = some switch_step;
    }
  ]
]

-- whether a maintenance command that was received does anything
unfoldable pub should_run : ProjectActor → Bool
should_run a =
    ltb 0 a.leases && (a.engine_initialized && (not a.switch_active && not (is_draining a)))

-- How the work on the current command went: a call that was not run, a call or switch step after
-- which (or after whose panic) the engine is or is not there and a switch is or is not going on.
pub data Outcome : Type 0 where
  skipped : Outcome
  handled switch_failed stepped panicked : Bool → Bool → Outcome

-- the stores of `engine_initialized` and `switch_active` after a call, and after a switch step
abbrev pub store_flags : Bool → Bool → ProjectActor → ProjectActor
store_flags initialized switching a = record a {
  engine_initialized = initialized;
  switch_active = if initialized then switching else a.switch_active;
}

abbrev pub after_call : Outcome → ProjectActor → ProjectActor
after_call skipped a = a
after_call (panicked initialized switching) a = store_flags initialized switching a
after_call (handled initialized switching) a = store_flags initialized switching a
after_call (switch_failed initialized switching) a = store_flags initialized switching a
after_call (stepped initialized switching) a = store_flags initialized switching a

abbrev pub after_switch_step : Outcome → ProjectActor → ProjectActor
after_switch_step skipped a = a
after_switch_step (panicked _ _) a = a
after_switch_step (handled _ _) a = a
after_switch_step (switch_failed initialized switching) a = store_flags initialized switching a
after_switch_step (stepped initialized active) a = record a {
  engine_initialized = initialized;
  switch_active = active;
}

abbrev pub ended : ProjectActor → ProjectActor
ended a = record a { active_commands = fetch_sub a.active_commands 1; current = none }

abbrev pub close_if_panicked : Outcome → ProjectActor → ProjectActor
close_if_panicked (panicked _ _) a = shut_down a
close_if_panicked skipped a = a
close_if_panicked (handled _ _) a = a
close_if_panicked (switch_failed _ _) a = a
close_if_panicked (stepped _ _) a = a

-- the thread's work on the command, up to the end of the loop's body
unfoldable pub finish : Outcome → ProjectActor → ProjectActor
unfolding drop_permit shut_down fetch_sub should_run
finish outcome a = elim a.current [
  | none ↦ a
  | some call ↦ close_if_panicked outcome (ended (after_call outcome a))
  | some maintenance ↦
      close_if_panicked (if should_run a then outcome else skipped)
        (drop_permit maintenance (ended a))
  | some switch_step ↦
      close_if_panicked outcome (after_switch_step outcome (drop_permit switch_step (ended a)))
  | some stop ↦ a
]

pub data Action : Type 0 where
  acquire_lease release_lease drain send_stop_command received opened : Action
  maintenance_seen switch_seen : Action
  call_sent switch_due : Bool → Action
  maintenance_due : Bool → Bool → Action
  finished : Outcome → Action

unfoldable pub step : Action → ProjectActor → ProjectActor
unfolding notice_maintenance enqueue_maintenance notice_switch_step enqueue_switch_step send_call
    begin_draining send_stop receive finish fetch_add fetch_sub
step acquire_lease a = record a { leases = fetch_add a.leases 1 }
step release_lease a = record a { leases = fetch_sub a.leases 1 }
step drain a = begin_draining a
step send_stop_command a = send_stop a
step received a = if a.started then receive a else a
step opened a = if a.started then a else record a { state = ready; started = true }
step (call_sent sent) a = (send_call sent a).1
step maintenance_seen a = notice_maintenance a
step switch_seen a = notice_switch_step a
step (maintenance_due sent too_soon) a = (enqueue_maintenance sent too_soon a).1
step (switch_due sent) a = (enqueue_switch_step sent a).1
step (finished outcome) a = finish outcome a

unfoldable pub run : List Action → ProjectActor → ProjectActor
unfolding step
run [] a = a
run (x ∷ rest) a = run rest (step x a)
