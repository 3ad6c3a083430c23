-- ===== src/Daemon/Actor/Channel.antt =====
-- src/daemon/actor.rs: where maintenance stands in the channel of an actor.
use opencode_native_memory.Prelude.{
  Bool, true, false, not, ◌&&◌, ◌||◌, ◌≡◌, refl, List, [], ◌∷◌, ◌++◌, is_some, arith,
}
use opencode_native_memory.Daemon.Actor.{
  ActorCommand, call, maintenance, switch_step, stop, ProjectActor, drop_permit, drop_all,
  shut_down,
}
use opencode_native_memory.Daemon.Actor.Tracking.{is_command, is_maintenance, count}

-- Nothing but `Stop` is before the first maintenance command.
abbrev pub is_front : List ActorCommand → Bool
is_front [] = true
is_front (stop ∷ cs) = is_front cs
is_front (maintenance ∷ cs) = true
is_front (call ∷ cs) = false
is_front (switch_step ∷ cs) = false

abbrev pub has_maintenance : List ActorCommand → Bool
has_maintenance [] = false
has_maintenance (maintenance ∷ cs) = true
has_maintenance (stop ∷ cs) = has_maintenance cs
has_maintenance (call ∷ cs) = has_maintenance cs
has_maintenance (switch_step ∷ cs) = has_maintenance cs

-- No maintenance is in the channel, or nothing runs and nothing is before it.
abbrev pub is_first : ProjectActor → Bool
is_first a = not (has_maintenance a.queue) || (not (is_some a.current) && is_front a.queue)

pub is_front-append :
    (cs : List ActorCommand) (c : ActorCommand)
    → has_maintenance cs ≡ true
    → is_front (cs ++ c ∷ []) ≡ is_front cs
is_front-append [] c h = absurd (ground (arith, h))
is_front-append (stop ∷ cs) c h = is_front-append cs c h
is_front-append (maintenance ∷ cs) c h = refl
is_front-append (call ∷ cs) c h = refl
is_front-append (switch_step ∷ cs) c h = refl

abbrev pub is_maintenance_command : ActorCommand → Bool
is_maintenance_command c = has_maintenance (c ∷ [])

pub has_maintenance-append :
    (cs : List ActorCommand) (c : ActorCommand)
    → has_maintenance (cs ++ c ∷ []) ≡ (has_maintenance cs || is_maintenance_command c)
has_maintenance-append [] c = refl
has_maintenance-append (stop ∷ cs) c = has_maintenance-append cs c
has_maintenance-append (maintenance ∷ cs) c = refl
has_maintenance-append (call ∷ cs) c = has_maintenance-append cs c
has_maintenance-append (switch_step ∷ cs) c = has_maintenance-append cs c

pub has_maintenance-count :
    (cs : List ActorCommand) → count is_maintenance cs ≡ 0 → has_maintenance cs ≡ false
unfolding count
has_maintenance-count [] h = refl
has_maintenance-count (stop ∷ cs) h = has_maintenance-count cs (omega (arith, h))
has_maintenance-count (maintenance ∷ cs) h = absurd (omega (arith, h))
has_maintenance-count (call ∷ cs) h = has_maintenance-count cs (omega (arith, h))
has_maintenance-count (switch_step ∷ cs) h = has_maintenance-count cs (omega (arith, h))

pub is_front-stops :
    (cs : List ActorCommand) → count is_command cs ≡ 0 → is_front (cs ++ maintenance ∷ []) ≡ true
unfolding count
is_front-stops [] h = refl
is_front-stops (stop ∷ cs) h = is_front-stops cs (omega (arith, h))
is_front-stops (maintenance ∷ cs) h = refl
is_front-stops (call ∷ cs) h = absurd (omega (arith, h))
is_front-stops (switch_step ∷ cs) h = absurd (omega (arith, h))

drop_all-queue : (cs : List ActorCommand) (a : ProjectActor) → (drop_all cs a).queue ≡ []
unfolding drop_all
drop_all-queue [] a = refl
drop_all-queue (c ∷ cs) a = drop_all-queue cs (drop_permit c (record a { queue = cs }))

pub drop_permit-queue : (c : ActorCommand) (a : ProjectActor) → (drop_permit c a).queue ≡ a.queue
unfolding drop_permit
drop_permit-queue call a = refl
drop_permit-queue maintenance a = refl
drop_permit-queue switch_step a = refl
drop_permit-queue stop a = refl

pub drop_permit-current :
    (c : ActorCommand) (a : ProjectActor) → (drop_permit c a).current ≡ a.current
unfolding drop_permit
drop_permit-current call a = refl
drop_permit-current maintenance a = refl
drop_permit-current switch_step a = refl
drop_permit-current stop a = refl

pub shut_down-queue : (a : ProjectActor) → (shut_down a).queue ≡ []
unfolding shut_down
shut_down-queue a = drop_all-queue a.queue _
