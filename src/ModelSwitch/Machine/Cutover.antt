-- ===== src/ModelSwitch/Machine/Cutover.antt =====
-- src/engine/model_switch.rs: the pointer and the journal agree on whether a switch took place.
use opencode_native_memory.Prelude.{
  ℕ, zero, suc, ◌+◌, ◌-◌, ◌≤◌, ◌≡◌, ◌⊎◌, Bool, true, false, not, ◌&&◌, ◌||◌, List, [], ◌∷◌, arith,
  if◌then◌else◌,
}
use opencode_native_memory.ModelSwitch.{SwitchPhase, is_terminal, can_cancel}
use opencode_native_memory.ModelSwitch.Machine.{
  Switch, started, Progress, run_inner, reindex_next_batch, commit_target_generation, fail_switch,
  run_step, cancel_switch, Action, step, cancel, act, run,
}

abbrev is_committing : SwitchPhase → Bool
is_committing p = elim p [ SwitchPhase.committing ↦ true | _ ↦ false ]

abbrev pub is_succeeded : SwitchPhase → Bool
is_succeeded p = elim p [ SwitchPhase.succeeded ↦ true | _ ↦ false ]

abbrev is_cancel_phase : SwitchPhase → Bool
is_cancel_phase p = elim p [
  | SwitchPhase.cancel_requested ↦ true
  | SwitchPhase.cancelled ↦ true
  | SwitchPhase.failed ↦ true
  | _ ↦ false
]

-- The pointer is on the target only while committing and after success; a cancelled switch stays so.
abbrev pub agrees : Switch → Bool
agrees s =
    (if s.on_target
      then is_committing s.phase || is_succeeded s.phase
      else not (is_succeeded s.phase))
    && (if s.asked_to_cancel then is_cancel_phase s.phase && not s.on_target else true)

act-agrees : (a : Action) (s : Switch) → agrees s ≡ true → agrees (act a s) ≡ true
unfolding act run_step run_inner fail_switch cancel_switch reindex_next_batch
    commit_target_generation is_terminal can_cancel
act-agrees (step installs p readable) s h = ground (arith, h)
act-agrees cancel s h = ground (arith, h)

run-agrees : (actions : List Action) (s : Switch) → agrees s ≡ true → agrees (run actions s) ≡ true
unfolding run
run-agrees [] s h = h
run-agrees (a ∷ rest) s h = run-agrees rest (act a s) (act-agrees a s h)

started-agrees : (direct : Bool) (records : ℕ) → agrees (started direct records) ≡ true
started-agrees direct records = ground arith

agrees-pointer :
    (s : Switch)
    → agrees s ≡ true
    → (s.phase ≡ SwitchPhase.succeeded → s.on_target ≡ true)
      × (s.on_target ≡ true
          → (s.phase ≡ SwitchPhase.committing) ⊎ (s.phase ≡ SwitchPhase.succeeded))
agrees-pointer s h = (λ e. ground (arith, h, e), λ t. ground (arith, h, t))

-- However a switch to a generation that is not active yet and its cancellation go, and wherever its
-- steps fail, it is recorded as succeeded only when the pointer names the target, and while the
-- pointer names the target the journal says that the switch is committing or has succeeded, never that
-- it failed or was cancelled.
pub run-pointer :
    (direct : Bool) (records : ℕ) (actions : List Action)
    → ((run actions (started direct records)).phase ≡ SwitchPhase.succeeded
        → (run actions (started direct records)).on_target ≡ true)
      × ((run actions (started direct records)).on_target ≡ true
          → ((run actions (started direct records)).phase ≡ SwitchPhase.committing)
            ⊎ ((run actions (started direct records)).phase ≡ SwitchPhase.succeeded))
run-pointer direct records actions =
    agrees-pointer (run actions (started direct records))
      (run-agrees actions (started direct records) (started-agrees direct records))

act-asked :
    (a : Action) (s : Switch)
    → agrees s ≡ true
    → s.asked_to_cancel ≡ true
    → (act a s).asked_to_cancel ≡ true
unfolding act run_step run_inner fail_switch cancel_switch reindex_next_batch
    commit_target_generation is_terminal can_cancel
act-asked (step installs p readable) s h asked = ground (arith, h, asked)
act-asked cancel s h asked = ground (arith, h, asked)

run-asked :
    (actions : List Action) (s : Switch)
    → agrees s ≡ true
    → s.asked_to_cancel ≡ true
    → (run actions s).asked_to_cancel ≡ true
unfolding run
run-asked [] s h asked = asked
run-asked (a ∷ rest) s h asked = run-asked rest (act a s) (act-agrees a s h) (act-asked a s h asked)

agrees-asked :
    (s : Switch)
    → agrees s ≡ true
    → s.asked_to_cancel ≡ true
    → (s.on_target ≡ false) × (is_succeeded s.phase ≡ false)
agrees-asked s h asked = (ground (arith, h, asked), ground (arith, h, asked))

cancel_switch-asked :
    (s : Switch) → can_cancel s.phase ≡ true → (cancel_switch s).asked_to_cancel ≡ true
unfolding cancel_switch
cancel_switch-asked s may = ground (arith, may)

-- A switch to a generation that is not active yet, which could still be cancelled, and was, never
-- takes place afterwards: whatever steps follow, the pointer does not come to name the target, and
-- the switch does not succeed.
pub run-cancelled_switch :
    (direct : Bool) (records : ℕ) (before later : List Action)
    → can_cancel (run before (started direct records)).phase ≡ true
    → ((run later (cancel_switch (run before (started direct records)))).on_target ≡ false)
      × (is_succeeded (run later (cancel_switch (run before (started direct records)))).phase
          ≡ false)
unfolding act
run-cancelled_switch direct records before later may =
    let s = run before (started direct records) in
    let h =
      act-agrees cancel s
        (run-agrees before (started direct records) (started-agrees direct records)) in
    agrees-asked (run later (cancel_switch s)) (run-agrees later (cancel_switch s) h)
      (run-asked later (cancel_switch s) h (cancel_switch-asked s may))

-- the steps that are left, when nothing fails
abbrev steps_left : Switch → ℕ
steps_left s = elim s.phase [
  | SwitchPhase.queued ↦ 7 + (s.records - s.cursor)
  | SwitchPhase.validating ↦ 6 + (s.records - s.cursor)
  | SwitchPhase.downloading ↦ 5 + (s.records - s.cursor)
  | SwitchPhase.preparing ↦ 4 + (s.records - s.cursor)
  | SwitchPhase.reindexing ↦ 3 + (s.records - s.cursor)
  | SwitchPhase.verifying ↦ 2
  | SwitchPhase.committing ↦ 1
  | SwitchPhase.succeeded ↦ 0
  | _ ↦ 0
]

abbrev is_healthy : Switch → Bool
is_healthy s = not s.asked_to_cancel && not (is_cancel_phase s.phase)

-- a step in which nothing fails
abbrev pub good_step : Action
good_step = step true Progress.saved true

good_step-steps_left :
    (s : Switch)
    → is_healthy s ≡ true
    → (is_healthy (act good_step s) ≡ true) × (steps_left (act good_step s) ≤ steps_left s - 1)
unfolding act run_step run_inner fail_switch reindex_next_batch commit_target_generation is_terminal
good_step-steps_left s h = (ground (arith, h), ground (arith, h))

abbrev pub good_steps : ℕ → List Action
good_steps zero = []
good_steps (suc n) = good_step ∷ good_steps n

run-good_steps :
    (n : ℕ) (s : Switch)
    → is_healthy s ≡ true
    → steps_left s ≤ n
    → (run (good_steps n) s).phase ≡ SwitchPhase.succeeded
unfolding run
run-good_steps zero s h left = ground (arith, h, left)
run-good_steps (suc n) s h left =
    let (h', left') = good_step-steps_left s h in
    run-good_steps n (act good_step s) h' (omega (arith, left, left'))

-- A switch of which no step fails and that nobody cancels has succeeded after as many steps as there
-- are records, and seven more.
pub run-succeeds :
    (direct : Bool) (records : ℕ)
    → (run (good_steps (records + 7)) (started direct records)).phase ≡ SwitchPhase.succeeded
run-succeeds direct records =
    run-good_steps (records + 7) (started direct records) (ground arith) (ground arith)
