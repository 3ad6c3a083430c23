-- ===== src/Graph/Jobs/Completion.antt =====
-- src/graph/mod.rs: how a worker's report ends a job, `finish_job_with_learning`.
use opencode_native_memory.Prelude.{
  ℕ, Bool, true, false, not, none, some, String, str_eq, if◌then◌else◌,
}
use opencode_native_memory.Prelude.Map.{get, modify}
use opencode_native_memory.Prelude.Result.{Result, ok, ensure, ok_or, ◌>>=◌, ◌>>◌}
use opencode_native_memory.Prelude.Text.{is_empty, is_blank}
use opencode_native_memory.State.Validate.{points_to}
use opencode_native_memory.Graph.Defs.{completed, failed, GraphExtractionJob, GraphState, GraphRun}
use opencode_native_memory.Graph.Validate.{
  GraphError, validate_run_id, validate_job_id, validate_job_token, validate_job_error,
  job_not_found, stale_token, run_id_changed, outcome_changed, material_changed, receipt_missing,
  unexpected_error, error_required, upsert_failed,
}
use opencode_native_memory.Graph.Jobs.{
  clear_job_lease, queue_or_fail_job, end_cancelled, recover_expired_jobs, Change, Finish,
  GraphJobFinishOutcome, completes, retryable_failure, permanent_failure, Upsert,
}
use opencode_native_memory.Graph.Jobs.Operations.{check_lease}

abbrev pub is_completes : GraphJobFinishOutcome → Bool
is_completes completes = true
is_completes retryable_failure = false
is_completes permanent_failure = false

abbrev pub failed_job : Finish → ℕ → GraphExtractionJob → GraphExtractionJob
failed_job f now_ms j = clear_job_lease (record j {
  state = failed;
  updated_at_ms = now_ms;
  next_attempt_at_ms = none;
  error_code = f.error_code;
  error_message = f.error_message;
})

abbrev pub with_upsert : Upsert → GraphState → GraphState
with_upsert u s = record s {
  entities = u.entities;
  relations = u.relations;
  facts = u.facts;
  observations = u.observations;
  mentions = u.mentions;
  runs = u.runs;
}

abbrev pub put_job : String → GraphExtractionJob × GraphState → Change GraphExtractionJob
put_job id (job, next) = ok (job, some (record next { jobs = modify next.jobs id (λ _. job) }))

module _ (hash_hex : String → String) where
  -- A completion that is reported again gets the receipt of the first.
  unfoldable pub replay_completion :
      Finish → GraphExtractionJob → GraphState → Result GraphError GraphRun
  replay_completion f j next = do
    ensure (str_eq j.extraction_run_id f.extraction_run_id) run_id_changed
    ensure (is_completes f.outcome) outcome_changed
    ensure (points_to j.completion_digest f.digest) material_changed
    ensure (points_to j.completion_lease_token_hash (hash_hex f.lease_token)) stale_token
    ok_or (get next.runs f.extraction_run_id) receipt_missing

  abbrev pub completed_job : Finish → ℕ → GraphExtractionJob → GraphExtractionJob
  completed_job f now_ms j = clear_job_lease (record j {
    state = completed;
    updated_at_ms = now_ms;
    next_attempt_at_ms = none;
    error_code = "";
    error_message = "";
    completion_digest = some f.digest;
    completion_lease_token_hash = some (hash_hex f.lease_token);
  })

  -- what an uncancelled worker's report makes of its job, and of the graph
  unfoldable pub settle :
      Finish
      → ℕ
      → GraphExtractionJob
      → GraphState
      → Result GraphError (GraphExtractionJob × GraphState)
  unfolding clear_job_lease queue_or_fail_job
  settle f now_ms j next = elim f.outcome [
    | completes ↦ (do
      ensure (is_empty f.error_code) unexpected_error
      u ← ok_or f.upsert upsert_failed
      ok (completed_job f now_ms j, with_upsert u next))
    | retryable_failure ↦ (do
      ensure (not (is_blank f.error_code)) error_required
      ok (queue_or_fail_job f.error_code f.error_message now_ms j, next))
    | permanent_failure ↦ (do
      ensure (not (is_blank f.error_code)) error_required
      ok (failed_job f now_ms j, next))
  ]

  unfoldable pub end_or_settle :
      Finish
      → ℕ
      → GraphExtractionJob
      → GraphState
      → Result GraphError (GraphExtractionJob × GraphState)
  unfolding end_cancelled settle
  end_or_settle f now_ms j next =
      if j.cancel_requested then ok (end_cancelled now_ms j, next) else settle f now_ms j next

  -- `finish_job_with_learning`, once the job is found and is not completed
  unfoldable pub finish_active :
      Finish → ℕ → GraphExtractionJob → GraphState → Change GraphExtractionJob
  unfolding check_lease end_or_settle
  finish_active f now_ms j next = do
    check_lease f.lease_token now_ms j
    ensure (str_eq j.extraction_run_id f.extraction_run_id) run_id_changed
    ended ← end_or_settle f now_ms j next
    put_job f.job_id ended

  unfoldable pub finish_job_with_learning : Finish → ℕ → GraphState → Change GraphExtractionJob
  unfolding recover_expired_jobs replay_completion finish_active validate_job_id validate_job_token
      validate_run_id validate_job_error
  finish_job_with_learning f now_ms s = do
    validate_job_id f.job_id
    validate_job_token f.lease_token
    validate_run_id f.extraction_run_id
    validate_job_error f.error_code true
    validate_job_error f.error_message true
    let next = recover_expired_jobs now_ms s
    j ← ok_or (get next.jobs f.job_id) job_not_found
    elim j.state [
      | completed ↦ (do _ ← replay_completion f j next; ok (j, none))
      | _ ↦ finish_active f now_ms j next
    ]
