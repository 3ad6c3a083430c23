-- ===== src/Daemon/Actor/Tracking.antt =====
-- src/daemon/actor.rs: the counters and flags of an actor agree with its queue, whatever happens.
use opencode_native_memory.Prelude.{
  ℕ, ◌+◌, ◌≤◌, ◌<◌, Bool, true, false, ◌≡◌, Option, none, some, List, [], ◌∷◌, ◌++◌, length,
  is_some, arith,
}
use opencode_native_memory.Daemon.Permits.{fetch_sub}
use opencode_native_memory.Daemon.Actor.{
  project_queue_capacity, ActorCommand, call, maintenance, switch_step, stop, ProjectActor,
  fetch_add, drop_permit, try_send, enqueue_maintenance, enqueue_switch_step, send_call,
  begin_draining, send_stop,
}

abbrev pub is_command : ActorCommand → ℕ
is_command stop = 0
is_command call = 1
is_command maintenance = 1
is_command switch_step = 1

abbrev pub is_maintenance : ActorCommand → ℕ
is_maintenance maintenance = 1
is_maintenance stop = 0
is_maintenance call = 0
is_maintenance switch_step = 0

abbrev pub is_switch_step : ActorCommand → ℕ
is_switch_step switch_step = 1
is_switch_step stop = 0
is_switch_step call = 0
is_switch_step maintenance = 0

unfoldable pub count : (ActorCommand → ℕ) → List ActorCommand → ℕ
count f [] = 0
count f (c ∷ cs) = f c + count f cs

-- The current command still holds its permit, unless it is a call.
abbrev pub holds : (ActorCommand → ℕ) → Option ActorCommand → ℕ
holds f none = 0
holds f (some stop) = 0
holds f (some call) = 0
holds f (some maintenance) = f maintenance
holds f (some switch_step) = f switch_step

abbrev pub bit : Bool → ℕ
bit true = 1
bit false = 0

-- The counters and flags agree with the channel and with the command that runs.
pub record IsTracked (a : ProjectActor) : Type 0 where
  pub pending : a.pending_commands ≡ count is_command a.queue + holds is_command a.current
  pub active : a.active_commands ≡ bit (is_some a.current)
  pub maintenance_flag :
      bit a.maintenance_queued ≡ count is_maintenance a.queue + holds is_maintenance a.current
  pub switch_flag :
      bit a.switch_queued ≡ count is_switch_step a.queue + holds is_switch_step a.current
  pub room : length a.queue ≤ project_queue_capacity

count-append :
    (f : ActorCommand → ℕ) (cs : List ActorCommand) (c : ActorCommand)
    → count f (cs ++ c ∷ []) ≡ count f cs + f c
unfolding count
count-append f [] c = omega arith
count-append f (x ∷ cs) c = omega (arith, count-append f cs c)

length-append_one :
    (cs : List ActorCommand) (c : ActorCommand) → length (cs ++ c ∷ []) ≡ length cs + 1
length-append_one [] c = omega arith
length-append_one (x ∷ cs) c = omega (arith, length-append_one cs c)

pub count-le : (cs : List ActorCommand) → count is_command cs ≤ length cs
unfolding count
count-le [] = omega arith
count-le (c ∷ cs) = ground (arith, count-le cs)

pub fetch_sub_one : (n : ℕ) → n < 100 → fetch_sub (n + 1) 1 ≡ n
unfolding fetch_sub
fetch_sub_one n h = omega (arith, h)

pub fetch_add_one : (n : ℕ) → n < 100 → fetch_add n 1 ≡ n + 1
unfolding fetch_add
fetch_add_one n h = omega (arith, h)

-- A command appended to the queue, once its permit has been counted.
pub send_call-IsTracked :
    (sent : Bool) (a : ProjectActor) → IsTracked a → IsTracked (send_call sent a).1
unfolding send_call try_send drop_permit
send_call-IsTracked sent a t =
    let le = count-le a.queue in
    let up = fetch_add_one a.pending_commands in
    let down = fetch_sub_one a.pending_commands in
    record {
      pending =
          ground (arith, t.pending, t.room, le, up, down, count-append is_command a.queue call);
      active = ground (arith, t.active);
      maintenance_flag =
          ground (arith, t.maintenance_flag, count-append is_maintenance a.queue call);
      switch_flag = ground (arith, t.switch_flag, count-append is_switch_step a.queue call);
      room = ground (arith, t.room, length-append_one a.queue call);
    }

pub enqueue_maintenance-IsTracked :
    (sent too_soon : Bool) (a : ProjectActor)
    → IsTracked a
    → IsTracked (enqueue_maintenance sent too_soon a).1
unfolding enqueue_maintenance try_send drop_permit
enqueue_maintenance-IsTracked sent too_soon a t =
    let le = count-le a.queue in
    let up = fetch_add_one a.pending_commands in
    let down = fetch_sub_one a.pending_commands in
    record {
      pending =
          ground
            (arith, t.pending, t.room, le, up, down, count-append is_command a.queue maintenance);
      active = ground (arith, t.active);
      maintenance_flag =
          ground (arith, t.maintenance_flag, count-append is_maintenance a.queue maintenance);
      switch_flag = ground (arith, t.switch_flag, count-append is_switch_step a.queue maintenance);
      room = ground (arith, t.room, length-append_one a.queue maintenance);
    }

pub enqueue_switch_step-IsTracked :
    (sent : Bool) (a : ProjectActor) → IsTracked a → IsTracked (enqueue_switch_step sent a).1
unfolding enqueue_switch_step try_send drop_permit
enqueue_switch_step-IsTracked sent a t =
    let le = count-le a.queue in
    let up = fetch_add_one a.pending_commands in
    let down = fetch_sub_one a.pending_commands in
    record {
      pending =
          ground
            (arith, t.pending, t.room, le, up, down, count-append is_command a.queue switch_step);
      active = ground (arith, t.active);
      maintenance_flag =
          ground (arith, t.maintenance_flag, count-append is_maintenance a.queue switch_step);
      switch_flag = ground (arith, t.switch_flag, count-append is_switch_step a.queue switch_step);
      room = ground (arith, t.room, length-append_one a.queue switch_step);
    }

pub send_stop-IsTracked : (a : ProjectActor) → IsTracked a → IsTracked (send_stop a)
unfolding send_stop
send_stop-IsTracked a t = record {
  pending = ground (arith, t.pending, count-append is_command a.queue stop);
  active = ground (arith, t.active);
  maintenance_flag = ground (arith, t.maintenance_flag, count-append is_maintenance a.queue stop);
  switch_flag = ground (arith, t.switch_flag, count-append is_switch_step a.queue stop);
  room = ground (arith, t.room, length-append_one a.queue stop);
}

pub begin_draining-IsTracked : (a : ProjectActor) → IsTracked a → IsTracked (begin_draining a)
unfolding begin_draining
begin_draining-IsTracked a t = record {
  pending = ground (arith, t.pending);
  active = ground (arith, t.active);
  maintenance_flag = ground (arith, t.maintenance_flag);
  switch_flag = ground (arith, t.switch_flag);
  room = ground (arith, t.room);
}
