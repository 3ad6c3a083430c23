-- ===== src/Graph/Jobs/Operations.antt =====
-- src/graph/mod.rs: the operations on the extraction jobs.
use opencode_native_memory.Prelude.{
  ℕ, ◌+◌, min, Bool, true, false, not, ◌&&◌, Option, none, some, String, str_eq, leb, ltb, length,
  all, map, is_some_and, unwrap_or, find, if◌then◌else◌,
}
use opencode_native_memory.Prelude.Map.{get, insert, modify}
use opencode_native_memory.Prelude.Result.{Result, ok, err, ensure, ok_or, ◌>>=◌, ◌>>◌}
use opencode_native_memory.Prelude.Text.{is_empty}
use opencode_native_memory.State.Validate.{points_to}
use opencode_native_memory.Graph.Defs.{
  GraphSource, queued, claimed, running, failed, cancelled, is_terminal, is_active, job_source,
  GraphExtractionJob, GraphState,
}
use opencode_native_memory.Graph.Validate.{
  GraphError, max_graph_units, max_graph_text_bytes, max_graph_total_text_bytes, max_graph_jobs,
  max_graph_job_attempts, validate_job_id, validate_job_token, validate_job_lease,
  validate_job_error, validate_provider, is_nil, invalid_limit, id_reused, too_many, job_not_found,
  not_active, stale_token, lease_expired, remote_ineligible, job_lease,
}
use opencode_native_memory.Graph.Jobs.{
  u32_max, add_u64, clear_job_lease, recover_expired_jobs, has_expired_job, claimable_job,
  prune_terminal_jobs, first_claimable, Change, JobRequest, Claim, CancelReply, already_terminal,
  cancel_pending, now_cancelled,
}

-- the checks at the top of `enqueue_job`
unfoldable pub check_request : JobRequest → Result GraphError (Unit {0})
unfolding validate_job_id validate_provider all
check_request r = do
  validate_job_id r.job_id
  validate_provider r.provider
  ensure (not (is_nil r.sources) && leb (length r.sources) max_graph_units) too_many
  ensure (all (λ (s : GraphSource). s.remote_eligible) r.sources) remote_ineligible
  ensure (leb 1 r.max_attempts && leb r.max_attempts max_graph_job_attempts) invalid_limit
  ensure (leb 1 r.max_unit_text_bytes && leb r.max_unit_text_bytes max_graph_text_bytes)
      invalid_limit
  ensure
      (leb r.max_unit_text_bytes r.max_total_text_bytes
        && leb r.max_total_text_bytes max_graph_total_text_bytes)
      invalid_limit

-- `renew_job` and `finish_job_with_learning` accept a worker that holds the lease.
unfoldable pub check_lease : String → ℕ → GraphExtractionJob → Result GraphError (Unit {0})
check_lease lease_token now_ms j = do
  ensure (is_active j.state) not_active
  ensure (points_to j.lease_token lease_token) stale_token
  ensure (is_some_and j.lease_expires_at_ms (λ e. ltb now_ms e)) lease_expired

abbrev pub set_job : GraphState → GraphExtractionJob → GraphState
set_job s j = record s { jobs = modify s.jobs j.job_id (λ _. j) }

-- the change of a job that `renew_job` makes: the lease never ends earlier than before
unfoldable pub renewed_job : ℕ → ℕ → GraphExtractionJob → GraphExtractionJob
renewed_job lease_ttl_ms now_ms j =
    let expiry = unwrap_or j.lease_expires_at_ms 0 in
    let renewed = add_u64 now_ms lease_ttl_ms in
    record j {
      state = running;
      updated_at_ms = now_ms;
      lease_expires_at_ms = some (if ltb expiry renewed then renewed else expiry);
    }

-- the change of a job that `cancel_job` makes, and its answer
unfoldable pub cancelled_by : String → ℕ → GraphExtractionJob → GraphExtractionJob × CancelReply
unfolding clear_job_lease
cancelled_by reason now_ms j =
    let asked : GraphExtractionJob = record j { cancel_requested = true; updated_at_ms = now_ms } in
    if is_terminal j.state
    then (j, already_terminal)
    else if is_active j.state
    then (
      if is_empty reason
          then asked
          else record asked { error_code = "cancel_requested"; error_message = reason },
      cancel_pending,
    )
    else (
      clear_job_lease (record asked {
        state = cancelled;
        next_attempt_at_ms = none;
        error_code = "cancelled";
        error_message = reason;
      }),
      now_cancelled,
    )

-- the end of a job whose source was changed or deleted
unfoldable pub source_changed : String → ℕ → GraphExtractionJob → GraphExtractionJob
unfolding clear_job_lease
source_changed message now_ms j = clear_job_lease (record j {
  state = failed;
  updated_at_ms = now_ms;
  error_code = "source_changed";
  error_message = message;
  cancel_requested = false;
  next_attempt_at_ms = none;
})

module _ (job_digest : JobRequest → String) (run_id_of : String → String) where
  abbrev pub new_job : JobRequest → ℕ → GraphExtractionJob
  new_job r now_ms = record {
    job_id = r.job_id;
    idempotency_digest = job_digest r;
    state = queued;
    sources = map job_source r.sources;
    provider = r.provider;
    attempt_count = 0;
    max_attempts = r.max_attempts;
    created_at_ms = now_ms;
    updated_at_ms = now_ms;
    lease_expires_at_ms = none;
    lease_token = none;
    claim_request_id = none;
    worker_id = none;
    extraction_run_id = run_id_of r.job_id;
    next_attempt_at_ms = none;
    cancel_requested = false;
    error_code = "";
    error_message = "";
    max_unit_text_bytes = r.max_unit_text_bytes;
    max_total_text_bytes = r.max_total_text_bytes;
    completion_digest = none;
    completion_lease_token_hash = none;
  }

  -- The second part of the reply is whether the job was there already.
  unfoldable pub enqueue_job : JobRequest → ℕ → GraphState → Change (GraphExtractionJob × Bool)
  unfolding check_request prune_terminal_jobs
  enqueue_job r now_ms s = do
    check_request r
    elim (get s.jobs r.job_id) [
      | some existing ↦ (do
        ensure (str_eq existing.idempotency_digest (job_digest r)) id_reused
        ok ((existing, true), none))
      | none ↦
          let next = prune_terminal_jobs s in
          let job = new_job r now_ms in
          (do
            ensure (ltb (length next.jobs) max_graph_jobs) too_many
            ok ((job, false), some (record next { jobs = insert next.jobs r.job_id job })))
    ]

-- a claim that is asked again while its lease lasts
abbrev pub is_replay : Claim → (GraphExtractionJob → Bool) → GraphExtractionJob → Bool
is_replay c is_visible j =
    points_to j.claim_request_id c.claim_request_id
    && (points_to j.worker_id c.worker_id && (is_active j.state && is_visible j))

unfoldable pub select_job :
    Claim → ℕ → (GraphExtractionJob → Bool) → GraphState → Option GraphExtractionJob
unfolding first_claimable claimable_job
select_job c now_ms is_visible s =
    let test = λ (j : GraphExtractionJob). claimable_job now_ms j && is_visible j in
    elim c.requested_job_id [
      | none ↦ first_claimable test s.jobs
      | some id ↦ elim (get s.jobs id) [ none ↦ none | some j ↦ if test j then some j else none ]
    ]

module _ (lease_token_of : String → String → String → ℕ → ℕ → String) where
  abbrev pub claimed_job : Claim → ℕ → ℕ → GraphExtractionJob → GraphExtractionJob
  claimed_job c now_ms generation j =
      let attempt = min (j.attempt_count + 1) u32_max in
      record j {
        state = claimed;
        attempt_count = attempt;
        updated_at_ms = now_ms;
        lease_expires_at_ms = some (add_u64 now_ms c.lease_ttl_ms);
        lease_token =
            some (lease_token_of j.job_id c.claim_request_id c.worker_id attempt generation);
        claim_request_id = some c.claim_request_id;
        worker_id = some c.worker_id;
        next_attempt_at_ms = none;
        error_code = "";
        error_message = "";
      }

  unfoldable pub claim_job :
      Claim
      → ℕ
      → (GraphExtractionJob → Bool)
      → GraphState
      → Change (Option (GraphExtractionJob × String))
  unfolding recover_expired_jobs select_job find validate_job_id validate_job_lease
  claim_job c now_ms is_visible s = do
    validate_job_id c.claim_request_id
    validate_job_id c.worker_id
    validate_job_lease c.lease_ttl_ms
    elim c.requested_job_id [ none ↦ ok tt | some id ↦ validate_job_id id ]
    let next = recover_expired_jobs now_ms s
    let recovered = if has_expired_job now_ms s then some next else none
    elim (find (λ (_, j). is_replay c is_visible j) next.jobs) [
      | some (_, j) ↦ elim j.lease_token [
        | none ↦ err job_lease
        | some t ↦ ok (some (j, t), recovered)
      ]
      | none ↦ elim (select_job c now_ms is_visible next) [
        | none ↦ ok (none, recovered)
        | some j ↦
            let job = claimed_job c now_ms (add_u64 s.generation 1) j in
            ok (some (job, unwrap_or job.lease_token ""), some (set_job next job))
      ]
    ]

unfoldable pub renew_job : String → String → ℕ → ℕ → GraphState → Change GraphExtractionJob
unfolding recover_expired_jobs check_lease renewed_job validate_job_id validate_job_token
    validate_job_lease
renew_job job_id lease_token lease_ttl_ms now_ms s = do
  validate_job_id job_id
  validate_job_token lease_token
  validate_job_lease lease_ttl_ms
  let next = recover_expired_jobs now_ms s
  j ← ok_or (get next.jobs job_id) job_not_found
  check_lease lease_token now_ms j
  let job = renewed_job lease_ttl_ms now_ms j
  ok (job, some (record next { jobs = modify next.jobs job_id (λ _. job) }))

unfoldable pub recover_job_leases : ℕ → GraphState → Change Bool
unfolding recover_expired_jobs
recover_job_leases now_ms s =
    if has_expired_job now_ms s
    then ok (true, some (recover_expired_jobs now_ms s))
    else ok (false, none)

unfoldable pub cancel_job :
    String → String → ℕ → GraphState → Change (GraphExtractionJob × CancelReply)
unfolding recover_expired_jobs cancelled_by validate_job_id validate_job_error
cancel_job job_id reason now_ms s = do
  validate_job_id job_id
  validate_job_error reason true
  let next = recover_expired_jobs now_ms s
  j ← ok_or (get next.jobs job_id) job_not_found
  let (job, reply) = cancelled_by reason now_ms j
  ok ((job, reply), some (record next { jobs = modify next.jobs job_id (λ _. job) }))

unfoldable pub mark_job_source_changed :
    String → String → ℕ → GraphState → Change GraphExtractionJob
unfolding source_changed validate_job_id validate_job_error
mark_job_source_changed job_id message now_ms s = do
  validate_job_id job_id
  validate_job_error message false
  j ← ok_or (get s.jobs job_id) job_not_found
  let job = if is_terminal j.state then j else source_changed message now_ms j
  ok (job, some (record s { jobs = modify s.jobs job_id (λ _. job) }))
