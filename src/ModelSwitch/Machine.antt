-- ===== src/ModelSwitch/Machine.antt =====
-- src/engine/model_switch.rs: the steps of one model switch, from its start to its end, in one life of
-- the process. Loading, embedding and writing are given by how far a step gets.
pub mod Cutover
use opencode_native_memory.Prelude.{
  ℕ, ◌+◌, min, Bool, true, false, not, ◌&&◌, ◌||◌, List, [], ◌∷◌, leb, if◌then◌else◌,
}
use opencode_native_memory.ModelSwitch.{
  SwitchPhase, queued, validating, downloading, preparing, reindexing, verifying, committing,
  succeeded, cancel_requested, cancelled, failed, is_terminal, can_cancel,
}

abbrev pub reindex_batch_size : ℕ
reindex_batch_size = 8

-- `on_target` is whether the pointer file, which decides what is opened, names the target generation; the
-- copy of it in memory is taken to agree.
pub record Switch : Type 0 where
  pub phase : SwitchPhase
  pub asked_to_cancel : Bool
  pub cursor : ℕ
  pub records : ℕ
  pub on_target : Bool

-- `start_model_switch`, once it has passed its checks, for a target that is not the active generation
abbrev pub started : Bool → ℕ → Switch
started direct_rollback records = record {
  phase = if direct_rollback then verifying else queued;
  asked_to_cancel = false;
  cursor = if direct_rollback then records else 0;
  records = records;
  on_target = false;
}

-- A step may stop before it changes the journal, fail to save it, or save it.
pub data Progress : Type 0 where
  stopped unsaved saved : Progress

abbrev pub reaches : Progress → Switch → Switch → Switch
reaches stopped s next = s
reaches unsaved s next = next
reaches saved s next = next

abbrev pub succeeds : Progress → Bool
succeeds saved = true
succeeds stopped = false
succeeds unsaved = false

abbrev moved : Progress → SwitchPhase → Switch → Bool × Switch
moved p next s = (succeeds p, reaches p s (record s { phase = next }))

-- `reindex_next_batch`
unfoldable pub reindex_next_batch : Progress → Switch → Bool × Switch
reindex_next_batch p s = if leb s.records s.cursor then moved p verifying s else (
  succeeds p,
  reaches p s (record s { cursor = min (s.cursor + reindex_batch_size) s.records }),
)

-- `commit_target_generation`: whether the pointer is installed, if it was not yet, comes first.
unfoldable pub commit_target_generation : Bool → Progress → Switch → Bool × Switch
commit_target_generation installs p s =
    if s.on_target || installs
    then moved p succeeded (record s { on_target = true })
    else (false, s)

-- `run_model_switch_step_inner`
unfoldable pub run_inner : Bool → Progress → Switch → Bool × Switch
unfolding reindex_next_batch commit_target_generation
run_inner installs p s = if s.asked_to_cancel then moved p cancelled s else elim s.phase [
  | queued ↦ moved p validating s
  | validating ↦ moved p downloading s
  | downloading ↦ moved p preparing s
  | preparing ↦ moved p reindexing s
  | reindexing ↦ reindex_next_batch p s
  | verifying ↦ moved p committing s
  | committing ↦ commit_target_generation installs p s
  | cancel_requested ↦ moved p cancelled s
  | succeeded ↦ (true, s)
  | cancelled ↦ (true, s)
  | failed ↦ (true, s)
]

-- `fail_model_switch`: the pointer may turn out unreadable, which leaves the journal as it is.
unfoldable pub fail_switch : Bool → Switch → Switch
fail_switch readable s =
    if not readable
    then s
    else if s.on_target
    then record s { phase = committing }
    else record s { phase = failed }

-- `run_model_switch_step`
unfoldable pub run_step : Bool → Progress → Bool → Switch → Switch
unfolding run_inner fail_switch is_terminal
run_step installs p readable s =
    if is_terminal s.phase
    then s
    else (let (fine, s') = run_inner installs p s in if fine then s' else fail_switch readable s')

-- `cancel_model_switch` for the current switch
unfoldable pub cancel_switch : Switch → Switch
unfolding can_cancel
cancel_switch s =
    if can_cancel s.phase then record s { phase = cancel_requested; asked_to_cancel = true } else s

pub data Action : Type 0 where
  step : Bool → Progress → Bool → Action
  cancel : Action

unfoldable pub act : Action → Switch → Switch
unfolding run_step cancel_switch
act (step installs p readable) s = run_step installs p readable s
act cancel s = cancel_switch s

unfoldable pub run : List Action → Switch → Switch
unfolding act
run [] s = s
run (a ∷ rest) s = run rest (act a s)
