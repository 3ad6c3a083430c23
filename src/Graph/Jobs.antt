-- ===== src/Graph/Jobs.antt =====
-- src/graph/mod.rs: the extraction jobs of the graph, which workers claim for a time. Each operation
-- gives its reply and, where it commits one, the next state. Digests and hashes are parameters.
pub mod Operations
pub mod Completion
pub mod Invariant
pub mod Preserves
pub mod Claims
pub mod Reports
pub mod Runs
pub mod Ended
pub mod Safety
pub mod Fencing
pub mod Attempts
use opencode_native_memory.Prelude.{
  ℕ, zero, suc, ◌+◌, ◌-◌, ◌*◌, ◌^◌, min, Bool, true, false, not, ◌&&◌, ◌||◌, Option, none, some,
  List, [], ◌∷◌, String, str_eq, leb, ltb, ◌==◌, length, all, any, map, take, is_some_and,
  is_none_or, unwrap_or, find, if◌then◌else◌,
}
use opencode_native_memory.Prelude.Map.{map_values, Map, get, insert, remove, modify, contains_key}
use opencode_native_memory.Prelude.Result.{Result, ok, err, ensure, ok_or, for_each, ◌>>=◌, ◌>>◌}
use opencode_native_memory.Prelude.Text.{is_empty, is_blank}
use opencode_native_memory.State.Save.{str_leb, u64_max}
use opencode_native_memory.Graph.Defs.{
  GraphSource, GraphJobState, queued, claimed, running, completed, failed, cancelled, is_terminal,
  is_active, job_source, GraphProvider, GraphExtractionJob, GraphState, GraphEntity, GraphRelation,
  DerivedFact, GraphObservation, GraphMention, GraphRun,
}
use opencode_native_memory.Graph.Validate.{
  GraphError, max_graph_units, max_graph_text_bytes, max_graph_total_text_bytes, max_graph_jobs,
  max_graph_job_attempts, validate_run_id, validate_job_id, validate_job_token, validate_job_lease,
  validate_job_error, validate_provider, is_nil, invalid_limit, id_reused, too_many, job_not_found,
  not_active, stale_token, lease_expired, run_id_changed, outcome_changed, material_changed,
  receipt_missing, unexpected_error, error_required, upsert_failed, remote_ineligible,
}

abbrev pub u32_max : ℕ
u32_max = 2 ^ 32 - 1

-- `u64::saturating_add`
abbrev pub add_u64 : ℕ → ℕ → ℕ
add_u64 a b = min (a + b) u64_max

unfoldable pub clear_job_lease : GraphExtractionJob → GraphExtractionJob
clear_job_lease j = record j {
  lease_expires_at_ms = none;
  lease_token = none;
  claim_request_id = none;
  worker_id = none;
}

unfoldable pub retry_delay_ms : ℕ → ℕ
retry_delay_ms attempt_count = min (min (1000 * 2 ^ min (attempt_count - 1) 6) u64_max) 60000

unfoldable pub queue_or_fail_job : String → String → ℕ → GraphExtractionJob → GraphExtractionJob
unfolding clear_job_lease retry_delay_ms
queue_or_fail_job code message now_ms j =
    let cleared = clear_job_lease (record j {
      updated_at_ms = now_ms;
      error_code = code;
      error_message = message;
      cancel_requested = false;
    }) in
    if ltb j.attempt_count j.max_attempts
    then record cleared {
      state = queued;
      next_attempt_at_ms = some (add_u64 now_ms (retry_delay_ms j.attempt_count));
    }
    else record cleared { state = failed; next_attempt_at_ms = none }

-- the end of an active job that was asked to cancel
unfoldable pub end_cancelled : ℕ → GraphExtractionJob → GraphExtractionJob
unfolding clear_job_lease
end_cancelled now_ms j = clear_job_lease (record j {
  state = cancelled;
  updated_at_ms = now_ms;
  next_attempt_at_ms = none;
  error_code = "cancelled";
  error_message =
      if is_empty j.error_message then "graph extraction was cancelled" else j.error_message;
})

abbrev pub is_expired_job : ℕ → GraphExtractionJob → Bool
is_expired_job now_ms j = is_active j.state && is_some_and j.lease_expires_at_ms (λ e. leb e now_ms)

unfoldable pub recover_job : ℕ → GraphExtractionJob → GraphExtractionJob
unfolding queue_or_fail_job end_cancelled
recover_job now_ms j =
    if not (is_expired_job now_ms j)
    then j
    else if j.cancel_requested
    then end_cancelled now_ms j
    else queue_or_fail_job "lease_expired" "graph worker lease expired" now_ms j

-- `recover_expired_jobs`, and whether it changed a job
unfoldable pub recover_expired_jobs : ℕ → GraphState → GraphState
unfolding recover_job map_values
recover_expired_jobs now_ms s = record s { jobs = map_values (recover_job now_ms) s.jobs }

abbrev pub has_expired_job : ℕ → GraphState → Bool
has_expired_job now_ms s = any (λ (_, j). is_expired_job now_ms j) s.jobs

unfoldable pub claimable_job : ℕ → GraphExtractionJob → Bool
claimable_job now_ms j = elim j.state [
  | queued ↦
      not j.cancel_requested
      && (ltb j.attempt_count j.max_attempts && is_none_or j.next_attempt_at_ms (λ t. leb t now_ms))
  | _ ↦ false
]

-- the order of pairs of a time and an id
abbrev pub pair_leb : ℕ × String → ℕ × String → Bool
pair_leb (t, a) (u, b) = ltb t u || ((t == u) && str_leb a b)

insert_pair : ℕ × String → List (ℕ × String) → List (ℕ × String)
insert_pair x [] = x ∷ []
insert_pair x (y ∷ ys) =
    let rest = insert_pair x ys in if pair_leb x y then x ∷ y ∷ ys else y ∷ rest

unfoldable pub sort_pairs : List (ℕ × String) → List (ℕ × String)
unfolding insert_pair
sort_pairs [] = []
sort_pairs (x ∷ xs) = insert_pair x (sort_pairs xs)

-- the terminal jobs, each with the time of its last change
unfoldable pub terminal_jobs : Map GraphExtractionJob → List (ℕ × String)
terminal_jobs [] = []
terminal_jobs ((_, j) ∷ m) =
    let rest = terminal_jobs m in
    if is_terminal j.state then (j.updated_at_ms, j.job_id) ∷ rest else rest

unfoldable pub remove_all : List (ℕ × String) → Map GraphExtractionJob → Map GraphExtractionJob
remove_all [] m = m
remove_all ((_, id) ∷ ids) m = remove_all ids (remove m id)

unfoldable pub prune_terminal_jobs : GraphState → GraphState
unfolding sort_pairs terminal_jobs remove_all
prune_terminal_jobs s = if ltb (length s.jobs) max_graph_jobs then s else record s {
  jobs =
      remove_all (take (length s.jobs - max_graph_jobs + 1) (sort_pairs (terminal_jobs s.jobs)))
        s.jobs;
}

-- `values().filter(...).min_by_key(...)`, by the time of creation and the id
unfoldable pub first_claimable :
    (GraphExtractionJob → Bool) → Map GraphExtractionJob → Option GraphExtractionJob
first_claimable test [] = none
first_claimable test ((_, j) ∷ m) =
    let rest = first_claimable test m in
    if not (test j) then rest else elim rest [
      | none ↦ some j
      | some other ↦
          if pair_leb (j.created_at_ms, j.job_id) (other.created_at_ms, other.job_id)
          then some j
          else some other
    ]

-- the reply of an operation, and the state it commits
abbrev pub Change : Type 0 → Type 0
Change Reply = Result GraphError (Reply × Option GraphState)

pub record JobRequest : Type 0 where
  pub job_id : String
  pub sources : List GraphSource
  pub provider : GraphProvider
  pub max_attempts : ℕ
  pub max_unit_text_bytes : ℕ
  pub max_total_text_bytes : ℕ

pub record Claim : Type 0 where
  pub requested_job_id : Option String
  pub claim_request_id : String
  pub worker_id : String
  pub lease_ttl_ms : ℕ

pub data GraphJobFinishOutcome : Type 0 where
  completes retryable_failure permanent_failure : GraphJobFinishOutcome

-- What `apply_upsert` makes of the graph; it does not change the jobs.
pub record Upsert : Type 0 where
  pub entities : Map GraphEntity
  pub relations : Map GraphRelation
  pub facts : Map DerivedFact
  pub observations : Map GraphObservation
  pub mentions : List GraphMention
  pub runs : Map GraphRun

pub record Finish : Type 0 where
  pub job_id : String
  pub lease_token : String
  pub extraction_run_id : String
  pub outcome : GraphJobFinishOutcome
  -- `upsert_digest` of the material, and the result of `apply_upsert` on it
  pub digest : String
  pub upsert : Option Upsert
  pub error_code : String
  pub error_message : String

pub data CancelReply : Type 0 where
  already_terminal cancel_pending now_cancelled : CancelReply
