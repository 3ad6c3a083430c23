-- ===== src/Daemon/Actor/Order.antt =====
-- src/daemon/actor.rs: maintenance does not wait behind other work.
use opencode_native_memory.Prelude.{
  Bool, true, false, ◌≡◌, refl, none, some, Option, List, [], ◌∷◌, if◌then◌else◌, arith, ap, ◌∙◌,
}
use opencode_native_memory.Daemon.Actor.{
  ActorCommand, call, maintenance, switch_step, stop, ProjectActor, fetch_add, spawned, drop_permit,
  try_send, receive, Outcome, skipped, panicked, handled, switch_failed, stepped, should_run, ended,
  after_call, after_switch_step, close_if_panicked, finish, send_call, send_stop, begin_draining,
  notice_maintenance, notice_switch_step, enqueue_maintenance, enqueue_switch_step, Action,
  acquire_lease, release_lease, drain, send_stop_command, received, opened, call_sent,
  maintenance_seen, maintenance_due, switch_seen, switch_due, finished, step, run,
}
use opencode_native_memory.Daemon.Actor.Tracking.{IsTracked, count}
use opencode_native_memory.Daemon.Actor.Runs.{spawned-IsTracked, step-IsTracked}
use opencode_native_memory.Daemon.Actor.Channel.{
  is_front, has_maintenance, is_first, is_front-append, is_maintenance_command,
  has_maintenance-append, has_maintenance-count, is_front-stops, drop_permit-queue,
  drop_permit-current, shut_down-queue,
}

-- A command other than maintenance, sent or refused.
try_send-is_first :
    (sent : Bool) (c : ActorCommand) (a : ProjectActor)
    → is_maintenance_command c ≡ false
    → is_first a ≡ true
    → is_first (try_send sent c a).1 ≡ true
unfolding try_send
try_send-is_first sent c a other h = ground (
  arith,
  h,
  other,
  has_maintenance-append a.queue c,
  is_front-append a.queue c,
  drop_permit-queue c a,
  drop_permit-current c a,
)

send_call-is_first :
    (sent : Bool) (a : ProjectActor) → is_first a ≡ true → is_first (send_call sent a).1 ≡ true
unfolding send_call
send_call-is_first sent a h =
    let counted = record a { pending_commands = fetch_add a.pending_commands 1 } in
    ground (arith, h, try_send-is_first sent call counted refl)

send_stop-is_first : (a : ProjectActor) → is_first a ≡ true → is_first (send_stop a) ≡ true
unfolding send_stop
send_stop-is_first a h =
    ground (arith, h, has_maintenance-append a.queue stop, is_front-append a.queue stop)

begin_draining-is_first :
    (a : ProjectActor) → is_first a ≡ true → is_first (begin_draining a) ≡ true
unfolding begin_draining
begin_draining-is_first a h = ground (arith, h)

enqueue_switch_step-is_first :
    (sent : Bool) (a : ProjectActor)
    → is_first a ≡ true
    → is_first (enqueue_switch_step sent a).1 ≡ true
unfolding enqueue_switch_step
enqueue_switch_step-is_first sent a h =
    let counted = record a {
      switch_noticed = false;
      switch_queued = true;
      pending_commands = fetch_add a.pending_commands 1;
    } in
    ground (arith, h, try_send-is_first sent switch_step counted refl)

enqueue_maintenance-is_first :
    (sent too_soon : Bool) (a : ProjectActor)
    → IsTracked a
    → is_first a ≡ true
    → is_first (enqueue_maintenance sent too_soon a).1 ≡ true
unfolding enqueue_maintenance try_send
enqueue_maintenance-is_first sent too_soon a t h =
    let counted = record a {
      maintenance_noticed = false;
      maintenance_queued = true;
      pending_commands = fetch_add a.pending_commands 1;
    } in
    ground (
      arith,
      h,
      t.pending,
      t.active,
      is_front-stops a.queue,
      drop_permit-queue maintenance counted,
      drop_permit-current maintenance counted,
    )

receive-is_first :
    (queue : List ActorCommand) (a : ProjectActor)
    → a.queue ≡ queue
    → IsTracked a
    → is_first a ≡ true
    → is_first (receive a) ≡ true
unfolding receive count
receive-is_first [] a q t h = ground (arith, q, h)
receive-is_first (stop ∷ rest) a q t h =
    ground (arith, q, h, shut_down-queue (record a { queue = rest }))
receive-is_first (call ∷ rest) a q t h =
    let taken = record a {
      queue = rest;
      active_commands = fetch_add a.active_commands 1;
      current = some call;
    } in
    ground (arith, q, h, drop_permit-queue call taken, drop_permit-current call taken)
receive-is_first (maintenance ∷ rest) a q t h =
    ground (arith, q, h, t.maintenance_flag, has_maintenance-count rest)
receive-is_first (switch_step ∷ rest) a q t h = ground (arith, q, h)

close_if_panicked-queue :
    (outcome : Outcome) (a : ProjectActor)
    → has_maintenance a.queue ≡ false
    → has_maintenance (close_if_panicked outcome a).queue ≡ false
close_if_panicked-queue (panicked _ _) a h = ap has_maintenance (shut_down-queue a)
close_if_panicked-queue skipped a h = h
close_if_panicked-queue (handled _ _) a h = h
close_if_panicked-queue (switch_failed _ _) a h = h
close_if_panicked-queue (stepped _ _) a h = h

after_call-queue : (outcome : Outcome) (a : ProjectActor) → (after_call outcome a).queue ≡ a.queue
after_call-queue skipped a = refl
after_call-queue (panicked _ _) a = refl
after_call-queue (handled _ _) a = refl
after_call-queue (switch_failed _ _) a = refl
after_call-queue (stepped _ _) a = refl

after_switch_step-queue :
    (outcome : Outcome) (a : ProjectActor) → (after_switch_step outcome a).queue ≡ a.queue
after_switch_step-queue skipped a = refl
after_switch_step-queue (panicked _ _) a = refl
after_switch_step-queue (handled _ _) a = refl
after_switch_step-queue (switch_failed _ _) a = refl
after_switch_step-queue (stepped _ _) a = refl

finish-is_first :
    (current : Option ActorCommand) (outcome : Outcome) (a : ProjectActor)
    → a.current ≡ current
    → is_first a ≡ true
    → is_first (finish outcome a) ≡ true
unfolding finish
finish-is_first none outcome a c h = ground (arith, c, h)
finish-is_first (some call) outcome a c h =
    let e = ended (after_call outcome a) in
    let free : has_maintenance a.queue ≡ false = ground (arith, c, h) in
    let same : has_maintenance e.queue ≡ false =
      ap has_maintenance (after_call-queue outcome a) ∙ free in
    ground (arith, c, close_if_panicked-queue outcome e same)
finish-is_first (some maintenance) outcome a c h =
    let e = drop_permit maintenance (ended a) in
    let free : has_maintenance a.queue ≡ false = ground (arith, c, h) in
    let same : has_maintenance e.queue ≡ false =
      ap has_maintenance (drop_permit-queue maintenance (ended a)) ∙ free in
    ground (arith, c, close_if_panicked-queue (if should_run a then outcome else skipped) e same)
finish-is_first (some switch_step) outcome a c h =
    let d = drop_permit switch_step (ended a) in
    let e = after_switch_step outcome d in
    let free : has_maintenance a.queue ≡ false = ground (arith, c, h) in
    let same : has_maintenance e.queue ≡ false =
      ap has_maintenance
        (after_switch_step-queue outcome d ∙ drop_permit-queue switch_step (ended a))
      ∙ free in
    ground (arith, c, close_if_panicked-queue outcome e same)
finish-is_first (some stop) outcome a c h = ground (arith, c, h)

step-is_first :
    (x : Action) (a : ProjectActor) → IsTracked a → is_first a ≡ true → is_first (step x a) ≡ true
unfolding step notice_maintenance notice_switch_step
step-is_first acquire_lease a t h = h
step-is_first release_lease a t h = h
step-is_first drain a t h = begin_draining-is_first a h
step-is_first send_stop_command a t h = send_stop-is_first a h
step-is_first received a t h = ground (arith, h, receive-is_first a.queue a refl t h)
step-is_first opened a t h = ground (arith, h)
step-is_first (call_sent sent) a t h = send_call-is_first sent a h
step-is_first maintenance_seen a t h = h
step-is_first (maintenance_due sent too_soon) a t h =
    enqueue_maintenance-is_first sent too_soon a t h
step-is_first switch_seen a t h = h
step-is_first (switch_due sent) a t h = enqueue_switch_step-is_first sent a h
step-is_first (finished outcome) a t h = finish-is_first a.current outcome a refl h

run_from-is_first :
    (actions : List Action) (a : ProjectActor)
    → IsTracked a
    → is_first a ≡ true
    → is_first (run actions a) ≡ true
unfolding run
run_from-is_first [] a t h = h
run_from-is_first (x ∷ rest) a t h =
    run_from-is_first rest (step x a) (step-IsTracked x a t) (step-is_first x a t h)

-- Whatever an actor is asked to do, and in whatever order, maintenance never waits behind other work:
-- while such a command is in the channel, nothing runs, and no command but `Stop` is before it.
pub run-is_front :
    (switching : Bool) (actions : List Action)
    → has_maintenance (run actions (spawned switching)).queue ≡ true
    → ((run actions (spawned switching)).current ≡ none)
      × (is_front (run actions (spawned switching)).queue ≡ true)
run-is_front switching actions waiting =
    let first = run_from-is_first actions (spawned switching) (spawned-IsTracked switching) refl in
    (ground (arith, first, waiting), ground (arith, first, waiting))
