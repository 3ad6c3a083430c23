-- ===== src/Examples/Switches.antt =====
-- Model switches and their journal at concrete inputs.
use opencode_native_memory.Prelude.{◌≡◌, ◌⊎◌, refl, true, false, none, some, [], ◌∷◌, List, String}
use opencode_native_memory.Prelude.Int.{pos}
use opencode_native_memory.Prelude.Text.{byte_length}
use opencode_native_memory.Prelude.Result.{ok, for_each}
use opencode_native_memory.ModelSwitch.{
  SwitchPhase, Job, Store, validate_store, replace_current, find_switch, can_cancel,
}
use opencode_native_memory.ModelSwitch.Journal.{replace_current-validate}
use opencode_native_memory.ModelSwitch.Machine.{Action, Progress, started, run, cancel_switch}
use opencode_native_memory.ModelSwitch.Machine.Cutover.{
  run-pointer, run-cancelled_switch, run-succeeds, good_steps, is_succeeded,
}

abbrev digest : String
digest = "0123456789abcdef0123456789abcdef0123456789abcdef0123456789abcdef"

abbrev first_job : Job String
first_job = record {
  switch_id = "s1";
  request_digest = digest;
  source_generation_id = "legacy";
  source_profile_id = "small";
  source_embedding = some "small.gguf";
  target_embedding = none;
  target_generation_id = "gen_1";
  target_profile_id = "large";
  phase = SwitchPhase.succeeded;
  cursor = 3;
  completed_records = 3;
  total_records = 3;
  switch_cancel_requested = false;
  source_state_revision = 5;
  source_content_digest = digest;
  allow_dense_downtime = false;
  retain_previous = true;
  target_preexisting = false;
  created_at_ms = pos 10;
  updated_at_ms = pos 20;
  completed_at_ms = some (pos 20);
  error_code = none;
  error_message = none;
}

abbrev second_job : Job String
second_job = record first_job {
  switch_id = "s2";
  source_generation_id = "gen_1";
  target_generation_id = "gen_2";
  phase = SwitchPhase.queued;
}

abbrev cancelled_job : Job String
cancelled_job = record second_job {
  switch_cancel_requested = true;
  phase = SwitchPhase.cancel_requested;
  updated_at_ms = pos 30;
}

abbrev kept : Store String
kept = record { format_version = 1; project_id = "p"; current = some first_job; history = [] }

replace_current-validate_example :
    (validate_store (replace_current second_job kept) "p" ≡ ok tt)
    × (find_switch (replace_current second_job kept) "s2" ≡ some second_job)
unfolding validate_store byte_length for_each
replace_current-validate_example = replace_current-validate second_job kept "p" refl refl

-- A direct rollback, whose pointer is never installed.
abbrev steps : List Action
steps =
    Action.step false Progress.saved true
    ∷ Action.step false Progress.saved true
    ∷ Action.step false Progress.unsaved true
    ∷ []

run-pointer_example :
    ((run steps (started true 2)).phase ≡ SwitchPhase.succeeded
      → (run steps (started true 2)).on_target ≡ true)
    × ((run steps (started true 2)).on_target ≡ true
        → ((run steps (started true 2)).phase ≡ SwitchPhase.committing)
          ⊎ ((run steps (started true 2)).phase ≡ SwitchPhase.succeeded))
run-pointer_example = run-pointer true 2 steps

run-cancelled_switch_example :
    ((run (good_steps 3) (cancel_switch (run [] (started false 2)))).on_target ≡ false)
    × (is_succeeded (run (good_steps 3) (cancel_switch (run [] (started false 2)))).phase ≡ false)
unfolding run can_cancel
run-cancelled_switch_example = run-cancelled_switch false 2 [] (good_steps 3) refl

run-succeeds_example : (run (good_steps 9) (started false 2)).phase ≡ SwitchPhase.succeeded
run-succeeds_example = run-succeeds false 2
