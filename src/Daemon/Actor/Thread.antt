-- ===== src/Daemon/Actor/Thread.antt =====
-- src/daemon/actor.rs: the thread's receipt of a command, its work and its end keep track.
use opencode_native_memory.Prelude.{Bool, ◌≡◌, refl, Option, none, some, List, [], ◌∷◌, arith, ◌∙◌}
use opencode_native_memory.Daemon.Actor.{
  closed, ActorCommand, call, maintenance, switch_step, stop, ProjectActor, drop_permit, drop_all,
  shut_down, receive, Outcome, skipped, panicked, handled, switch_failed, stepped, store_flags,
  after_call, after_switch_step, close_if_panicked, finish, ended, run,
}
use opencode_native_memory.Daemon.Actor.Tracking.{
  IsTracked, is_command, count, fetch_sub_one, fetch_add_one, count-le,
}

-- Dropping the first command of the channel takes it off the counters, if nothing runs.
drop_permit-IsTracked :
    (c : ActorCommand) (rest : List ActorCommand) (a : ProjectActor)
    → a.queue ≡ c ∷ rest
    → a.current ≡ none
    → IsTracked a
    → IsTracked (drop_permit c (record a { queue = rest }))
unfolding count drop_permit
drop_permit-IsTracked c rest a q idle t =
    let down = fetch_sub_one (count is_command rest) in
    let le = count-le rest in
    record {
      pending = ground (arith, t.pending, t.room, down, le, q, idle);
      active = ground (arith, t.active, q, idle);
      maintenance_flag = ground (arith, t.maintenance_flag, q, idle);
      switch_flag = ground (arith, t.switch_flag, q, idle);
      room = ground (arith, t.room, q);
    }

drop_permit-queue :
    (c : ActorCommand) (a : ProjectActor)
    → ((drop_permit c a).queue ≡ a.queue) × ((drop_permit c a).current ≡ a.current)
unfolding drop_permit
drop_permit-queue call a = (refl, refl)
drop_permit-queue maintenance a = (refl, refl)
drop_permit-queue switch_step a = (refl, refl)
drop_permit-queue stop a = (refl, refl)

drop_all-IsTracked :
    (cs : List ActorCommand) (a : ProjectActor)
    → a.queue ≡ cs
    → a.current ≡ none
    → IsTracked a
    → IsTracked (drop_all cs a)
unfolding drop_all
drop_all-IsTracked [] a q idle t = record {
  pending = ground (arith, t.pending, q);
  active = t.active;
  maintenance_flag = ground (arith, t.maintenance_flag, q);
  switch_flag = ground (arith, t.switch_flag, q);
  room = omega arith;
}
drop_all-IsTracked (c ∷ cs) a q idle t =
    let (same, still) = drop_permit-queue c (record a { queue = cs }) in
    drop_all-IsTracked cs (drop_permit c (record a { queue = cs })) same (still ∙ idle)
      (drop_permit-IsTracked c cs a q idle t)

shut_down-IsTracked : (a : ProjectActor) → a.current ≡ none → IsTracked a → IsTracked (shut_down a)
unfolding shut_down
shut_down-IsTracked a idle t =
    drop_all-IsTracked a.queue (record a { state = closed; current = none }) refl refl
      (record {
        pending = ground (arith, t.pending, idle);
        active = ground (arith, t.active, idle);
        maintenance_flag = ground (arith, t.maintenance_flag, idle);
        switch_flag = ground (arith, t.switch_flag, idle);
        room = t.room;
      })

pub receive_at :
    (queue : List ActorCommand) (current : Option ActorCommand) (a : ProjectActor)
    → a.queue ≡ queue
    → a.current ≡ current
    → IsTracked a
    → IsTracked (receive a)
unfolding receive count drop_permit
receive_at queue (some c) a q run t = rw (run, receive) t
receive_at [] none a q idle t = rw (idle, q, receive) t
receive_at (stop ∷ rest) none a q idle t =
    rw (idle, q, receive)
      (shut_down-IsTracked (record a { queue = rest }) idle
        (record {
          pending = ground (arith, t.pending, q, idle);
          active = t.active;
          maintenance_flag = ground (arith, t.maintenance_flag, q, idle);
          switch_flag = ground (arith, t.switch_flag, q, idle);
          room = ground (arith, t.room, q);
        }))
receive_at (call ∷ rest) none a q idle t =
    rw (idle, q, receive)
      (record {
        pending = ground (
          arith,
          t.pending,
          t.room,
          count-le rest,
          q,
          idle,
          fetch_sub_one (count is_command rest),
        );
        active = ground (arith, t.active, q, idle, fetch_add_one a.active_commands);
        maintenance_flag = ground (arith, t.maintenance_flag, q, idle);
        switch_flag = ground (arith, t.switch_flag, q, idle);
        room = ground (arith, t.room, q);
      })
receive_at (maintenance ∷ rest) none a q idle t =
    rw (idle, q, receive)
      (record {
        pending = ground (arith, t.pending, q, idle);
        active = ground (arith, t.active, q, idle, fetch_add_one a.active_commands);
        maintenance_flag = ground (arith, t.maintenance_flag, q, idle);
        switch_flag = ground (arith, t.switch_flag, q, idle);
        room = ground (arith, t.room, q);
      })
receive_at (switch_step ∷ rest) none a q idle t =
    rw (idle, q, receive)
      (record {
        pending = ground (arith, t.pending, q, idle);
        active = ground (arith, t.active, q, idle, fetch_add_one a.active_commands);
        maintenance_flag = ground (arith, t.maintenance_flag, q, idle);
        switch_flag = ground (arith, t.switch_flag, q, idle);
        room = ground (arith, t.room, q);
      })

close_if_panicked-IsTracked :
    (outcome : Outcome) (a : ProjectActor)
    → a.current ≡ none
    → IsTracked a
    → IsTracked (close_if_panicked outcome a)
close_if_panicked-IsTracked (panicked _ _) a idle t = shut_down-IsTracked a idle t
close_if_panicked-IsTracked skipped a idle t = t
close_if_panicked-IsTracked (handled _ _) a idle t = t
close_if_panicked-IsTracked (switch_failed _ _) a idle t = t
close_if_panicked-IsTracked (stepped _ _) a idle t = t

store_flags-IsTracked :
    (initialized switching : Bool) (a : ProjectActor)
    → IsTracked a
    → IsTracked (store_flags initialized switching a)
store_flags-IsTracked initialized switching a t = record {
  pending = t.pending;
  active = t.active;
  maintenance_flag = t.maintenance_flag;
  switch_flag = t.switch_flag;
  room = t.room;
}

after_call-IsTracked :
    (outcome : Outcome) (a : ProjectActor) → IsTracked a → IsTracked (after_call outcome a)
after_call-IsTracked skipped a t = t
after_call-IsTracked (panicked i s) a t = store_flags-IsTracked i s a t
after_call-IsTracked (handled i s) a t = store_flags-IsTracked i s a t
after_call-IsTracked (switch_failed i s) a t = store_flags-IsTracked i s a t
after_call-IsTracked (stepped i s) a t = store_flags-IsTracked i s a t

after_call-current :
    (outcome : Outcome) (a : ProjectActor) → (after_call outcome a).current ≡ a.current
after_call-current skipped a = refl
after_call-current (panicked _ _) a = refl
after_call-current (handled _ _) a = refl
after_call-current (switch_failed _ _) a = refl
after_call-current (stepped _ _) a = refl

after_switch_step-IsTracked :
    (outcome : Outcome) (a : ProjectActor) → IsTracked a → IsTracked (after_switch_step outcome a)
after_switch_step-IsTracked skipped a t = t
after_switch_step-IsTracked (panicked _ _) a t = t
after_switch_step-IsTracked (handled _ _) a t = t
after_switch_step-IsTracked (switch_failed i s) a t = store_flags-IsTracked i s a t
after_switch_step-IsTracked (stepped _ _) a t = record {
  pending = t.pending;
  active = t.active;
  maintenance_flag = t.maintenance_flag;
  switch_flag = t.switch_flag;
  room = t.room;
}

after_switch_step-current :
    (outcome : Outcome) (a : ProjectActor) → (after_switch_step outcome a).current ≡ a.current
after_switch_step-current skipped a = refl
after_switch_step-current (panicked _ _) a = refl
after_switch_step-current (handled _ _) a = refl
after_switch_step-current (switch_failed _ _) a = refl
after_switch_step-current (stepped _ _) a = refl

pub finish_at :
    (current : Option ActorCommand) (outcome : Outcome) (a : ProjectActor)
    → a.current ≡ current
    → IsTracked a
    → IsTracked (finish outcome a)
unfolding finish drop_permit
finish_at none outcome a now t = rw (now, finish) t
finish_at (some stop) outcome a now t = rw (now, finish) t
finish_at (some call) outcome a now t =
    let flagged = after_call outcome a in
    let f = after_call-IsTracked outcome a t in
    let busy = after_call-current outcome a ∙ now in
    rw (now, finish)
      (close_if_panicked-IsTracked outcome _ refl (record {
        pending = ground (arith, f.pending, busy);
        active = ground (arith, f.active, busy, fetch_sub_one 0);
        maintenance_flag = ground (arith, f.maintenance_flag, busy);
        switch_flag = ground (arith, f.switch_flag, busy);
        room = f.room;
      }))
finish_at (some maintenance) outcome a now t =
    rw (now, finish)
      (close_if_panicked-IsTracked _ (drop_permit maintenance (ended a)) refl (record {
        pending = ground (
          arith,
          t.pending,
          t.room,
          count-le a.queue,
          now,
          fetch_sub_one (count is_command a.queue),
        );
        active = ground (arith, t.active, now, fetch_sub_one 0);
        maintenance_flag = ground (arith, t.maintenance_flag, now);
        switch_flag = ground (arith, t.switch_flag, now);
        room = t.room;
      }))
finish_at (some switch_step) outcome a now t =
    rw (now, finish)
      (close_if_panicked-IsTracked outcome _ (after_switch_step-current outcome _) (
        after_switch_step-IsTracked outcome _ (record {
          pending = ground (
            arith,
            t.pending,
            t.room,
            count-le a.queue,
            now,
            fetch_sub_one (count is_command a.queue),
          );
          active = ground (arith, t.active, now, fetch_sub_one 0);
          maintenance_flag = ground (arith, t.maintenance_flag, now);
          switch_flag = ground (arith, t.switch_flag, now);
          room = t.room;
        })))
