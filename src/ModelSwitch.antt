-- ===== src/ModelSwitch.antt =====
-- src/embedding_generation.rs and src/engine/model_switch.rs: the journal of changes of the embedding
-- model. At most one change is current; those that ended are kept in a short history.
pub mod Journal
pub mod Machine
use opencode_native_memory.Prelude.{
  ℕ, ◌-◌, Bool, true, false, not, ◌&&◌, Option, none, some, List, [], ◌∷◌, ◌++◌, String, str_eq,
  leb, ltb, ◌==◌, length, drop, find, is_some_and, if◌then◌else◌,
}
use opencode_native_memory.Prelude.Int.{ℤ}
use opencode_native_memory.Prelude.Text.{is_empty, byte_length}
use opencode_native_memory.Prelude.Result.{Result, ok, err, ensure, for_each, ◌>>=◌, ◌>>◌}

abbrev pub max_switch_history : ℕ
max_switch_history = 16

abbrev pub model_switch_format_version : ℕ
model_switch_format_version = 1

pub data SwitchPhase : Type 0 where
  queued validating downloading preparing reindexing verifying committing succeeded cancel_requested
        cancelled failed :
      SwitchPhase

unfoldable pub is_terminal : SwitchPhase → Bool
is_terminal succeeded = true
is_terminal cancelled = true
is_terminal failed = true
is_terminal queued = false
is_terminal validating = false
is_terminal downloading = false
is_terminal preparing = false
is_terminal reindexing = false
is_terminal verifying = false
is_terminal committing = false
is_terminal cancel_requested = false

unfoldable pub can_cancel : SwitchPhase → Bool
can_cancel queued = true
can_cancel validating = true
can_cancel downloading = true
can_cancel preparing = true
can_cancel reindexing = true
can_cancel verifying = true
can_cancel cancel_requested = true
can_cancel committing = false
can_cancel succeeded = false
can_cancel cancelled = false
can_cancel failed = false

-- The type of the two configurations, which only the embedder reads, is a parameter.
pub record ModelSwitchJournal (EmbeddingConfig : Type 0) : Type 0 where
  pub switch_id : String
  pub request_digest : String
  pub source_generation_id : String
  pub source_profile_id : String
  pub source_embedding : Option EmbeddingConfig
  pub target_embedding : Option EmbeddingConfig
  pub target_generation_id : String
  pub target_profile_id : String
  pub phase : SwitchPhase
  pub cursor : ℕ
  pub completed_records : ℕ
  pub total_records : ℕ
  pub switch_cancel_requested : Bool
  pub source_state_revision : ℕ
  pub source_content_digest : String
  pub allow_dense_downtime : Bool
  pub retain_previous : Bool
  pub target_preexisting : Bool
  pub created_at_ms : ℤ
  pub updated_at_ms : ℤ
  pub completed_at_ms : Option ℤ
  pub error_code : Option String
  pub error_message : Option String

pub record ModelSwitchStore (EmbeddingConfig : Type 0) : Type 0 where
  pub format_version : ℕ
  pub project_id : String
  pub current : Option (ModelSwitchJournal EmbeddingConfig)
  pub history : List (ModelSwitchJournal EmbeddingConfig)

pub data SwitchError : Type 0 where
  bad_version other_project history_too_long invalid_job write_failed clock_failed : SwitchError

pub data CancelOutcome : Type 0 where
  not_found already_committing already_committed already_terminal requested : CancelOutcome

abbrev pub Job : Type 0 → Type 0
Job EmbeddingConfig = ModelSwitchJournal EmbeddingConfig

abbrev pub Store : Type 0 → Type 0
Store EmbeddingConfig = ModelSwitchStore EmbeddingConfig

module _ {EmbeddingConfig : Type 0} where
  abbrev pub has_id : String → Job EmbeddingConfig → Bool
  has_id id job = str_eq job.switch_id id

  -- `ModelSwitchStore::find`
  unfoldable pub find_switch : Store EmbeddingConfig → String → Option (Job EmbeddingConfig)
  unfolding find
  find_switch store id = elim store.current [
    | none ↦ find (has_id id) store.history
    | some job ↦ if has_id id job then some job else find (has_id id) store.history
  ]

  -- `history.drain(..history.len() - MAX_SWITCH_HISTORY)`, when it is longer
  unfoldable pub trim_history : List (Job EmbeddingConfig) → List (Job EmbeddingConfig)
  trim_history jobs =
      if ltb max_switch_history (length jobs)
      then drop (length jobs - max_switch_history) jobs
      else jobs

  unfoldable pub replace_current :
      Job EmbeddingConfig → Store EmbeddingConfig → Store EmbeddingConfig
  unfolding trim_history is_terminal
  replace_current job store = elim store.current [
    | none ↦ record store { current = some job }
    | some previous ↦
        if is_terminal previous.phase
        then record store {
          current = some job;
          history = trim_history (store.history ++ previous ∷ []);
        }
        else record store { current = some job }
  ]

  unfoldable pub validate_job : Job EmbeddingConfig → Result SwitchError (Unit {0})
  validate_job job =
      ensure
        (not (is_empty job.switch_id)
          && (not (is_empty job.source_generation_id)
              && (not (is_empty job.target_generation_id)
                  && (not (is_empty job.source_profile_id)
                      && (not (is_empty job.target_profile_id)
                          && ((byte_length job.request_digest == 64)
                              && leb job.completed_records job.total_records))))))
        invalid_job

  -- `ModelSwitchStore::validate`
  unfoldable pub validate_store : Store EmbeddingConfig → String → Result SwitchError (Unit {0})
  unfolding validate_job for_each
  validate_store store project_id = do
    ensure (store.format_version == model_switch_format_version) bad_version
    ensure (str_eq store.project_id project_id) other_project
    ensure (leb (length store.history) max_switch_history) history_too_long
    elim store.current [ none ↦ ok tt | some job ↦ validate_job job ]
    for_each validate_job store.history

  abbrev pub has_active_model_switch : Store EmbeddingConfig → Bool
  has_active_model_switch store = is_some_and store.current (λ job. not (is_terminal job.phase))

  -- The part of `cancel_model_switch` that looks at the phase. The clock may fail, as `now_ms` may.
  unfoldable pub cancel_job :
      Result SwitchError ℤ
      → Job EmbeddingConfig
      → Result SwitchError (CancelOutcome × Job EmbeddingConfig)
  unfolding can_cancel
  cancel_job clock job = elim job.phase [
    | committing ↦ ok (already_committing, job)
    | succeeded ↦ ok (already_committed, job)
    | cancelled ↦ ok (already_terminal, job)
    | failed ↦ ok (already_terminal, job)
    | _ ↦ elim clock [
      | err e ↦ err e
      | ok now ↦ ok (
        requested,
        record job {
          switch_cancel_requested = true;
          phase = cancel_requested;
          updated_at_ms = now;
        },
      )
    ]
  ]
