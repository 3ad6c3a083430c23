-- ===== src/Examples/Graph/Jobs.antt =====
-- Extraction jobs at concrete inputs.
use opencode_native_memory.Prelude.{
  ℕ, Bool, true, ◌≡◌, ◌⊎◌, refl, none, some, List, [], ◌∷◌, String, find, leb, length,
}
use opencode_native_memory.Prelude.Map.{get, insert, modify}
use opencode_native_memory.Prelude.Text.{trim, any_char, all_chars, byte_length}
use opencode_native_memory.Prelude.Result.{ok}
use opencode_native_memory.Graph.Defs.{GraphJobState, GraphExtractionJob, GraphState, default_graph}
use opencode_native_memory.Graph.Validate.{max_graph_jobs}
use opencode_native_memory.Graph.Jobs.{
  JobRequest, Claim, Finish, completes, claimable_job, recover_job, queue_or_fail_job,
  clear_job_lease, retry_delay_ms,
}
use opencode_native_memory.Graph.Jobs.Operations.{
  select_job, enqueue_job, claim_job, cancel_job, new_job, claimed_job,
}
use opencode_native_memory.Graph.Jobs.Completion.{finish_job_with_learning}
use opencode_native_memory.Graph.Jobs.Invariant.{jobs_ok}
use opencode_native_memory.Graph.Jobs.Runs.{
  Step, enqueues, claims, cancels, run, stepped, run-jobs_ok,
}
use opencode_native_memory.Graph.Jobs.Attempts.{Attempt, all_lapsed, all_lapsed-fails}
use opencode_native_memory.Graph.Jobs.Safety.{ended_job-stays}
use opencode_native_memory.Graph.Jobs.Fencing.{
  graph_parts, Held, Settled, finish_job_with_learning-fenced,
}
use opencode_native_memory.Examples.Graph.{provider, source}

abbrev request : JobRequest
request = record {
  job_id = "j1";
  sources = source ∷ [];
  provider = provider;
  max_attempts = 3;
  max_unit_text_bytes = 100;
  max_total_text_bytes = 100;
}

abbrev claim : Claim
claim = record {
  requested_job_id = none;
  claim_request_id = "c1";
  worker_id = "w1";
  lease_ttl_ms = 60000;
}

abbrev digest_of : JobRequest → String
digest_of r = r.job_id

abbrev run_id : String → String
run_id id = id

abbrev hash : String → String
hash text = text

abbrev token : String
token = "0123456789abcdef0123456789abcdef0123456789abcdef0123456789abcdef"

abbrev token_of : String → String → String → ℕ → ℕ → String
token_of _ _ _ _ _ = token

abbrev new : GraphExtractionJob
new = new_job digest_of run_id request 10

abbrev held_job : GraphExtractionJob
held_job = claimed_job token_of claim 20 2 new

abbrev all_visible : GraphExtractionJob → Bool
all_visible _ = true

abbrev claim_steps : List Step
claim_steps =
    record { action = enqueues request; now_ms = 10; committed = true }
    ∷ record { action = claims claim all_visible; now_ms = 20; committed = true }
    ∷ []

claimed_state :
    get (run digest_of run_id hash token_of claim_steps default_graph).jobs "j1" ≡ some held_job
unfolding run get claim_job select_job enqueue_job byte_length any_char trim insert modify find
claimed_state = refl

run-jobs_ok_example : jobs_ok (run digest_of run_id hash token_of claim_steps default_graph) ≡ true
run-jobs_ok_example = run-jobs_ok digest_of run_id hash token_of claim_steps

abbrev cancel_steps : List Step
cancel_steps =
    record { action = enqueues request; now_ms = 10; committed = true }
    ∷ record { action = cancels "j1" "why"; now_ms = 20; committed = true }
    ∷ []

abbrev cancelled_job : GraphExtractionJob
cancelled_job = record new {
  state = GraphJobState.cancelled;
  updated_at_ms = 20;
  cancel_requested = true;
  error_code = "cancelled";
  error_message = "why";
}

abbrev late_claim : Step
late_claim = record { action = claims claim all_visible; now_ms = 30; committed = true }

cancelled_state :
    get (run digest_of run_id hash token_of cancel_steps default_graph).jobs "j1"
    ≡ some cancelled_job
unfolding run get cancel_job enqueue_job byte_length any_char trim insert modify
cancelled_state = refl

ended_job-stays_example :
    let s = run digest_of run_id hash token_of cancel_steps default_graph in
    let next = stepped digest_of run_id hash token_of late_claim s in
    ((leb max_graph_jobs (length s.jobs) ≡ true) × (get next.jobs "j1" ≡ none))
    ⊎ (get next.jobs "j1" ≡ some cancelled_job)
ended_job-stays_example =
    ended_job-stays digest_of run_id hash token_of cancel_steps late_claim "j1" cancelled_job
      cancelled_state refl

abbrev held_state : GraphState
held_state = record default_graph { jobs = ("j1", held_job) ∷ [] }

abbrev pub report : Finish
report = record {
  job_id = "j1";
  lease_token = token;
  extraction_run_id = "j1";
  outcome = completes;
  digest = "d";
  upsert = some (graph_parts default_graph);
  error_code = "";
  error_message = "";
}

abbrev pub finished_job : GraphExtractionJob
finished_job = record held_job {
  state = GraphJobState.completed;
  updated_at_ms = 30;
  lease_expires_at_ms = none;
  lease_token = none;
  claim_request_id = none;
  worker_id = none;
  completion_digest = some "d";
  completion_lease_token_hash = some token;
}

abbrev finished_state : GraphState
finished_state = record default_graph { jobs = ("j1", finished_job) ∷ [] }

reported :
    finish_job_with_learning hash report 30 held_state ≡ ok (finished_job, some finished_state)
unfolding finish_job_with_learning byte_length any_char all_chars get modify
reported = refl

finish_job_with_learning-fenced_example :
    (j : GraphExtractionJob) × (get held_state.jobs "j1" ≡ some j)
    × Held report 30 j
    × Settled report held_state finished_job finished_state
finish_job_with_learning-fenced_example =
    finish_job_with_learning-fenced hash report 30 held_state finished_job finished_state reported

abbrev attempt_at : ℕ → Attempt
attempt_at now_ms = record { claim = claim; now_ms = now_ms; generation = 2 }

abbrev two_attempts : List Attempt
two_attempts = attempt_at 20 ∷ attempt_at 100000 ∷ []

abbrev again : GraphExtractionJob
again = all_lapsed token_of two_attempts new

-- after two of its three attempts
all_lapsed-fails_example :
    (again.attempt_count ≡ 2)
    × (again.state ≡ GraphJobState.queued)
    × (claimable_job 200000 again ≡ true)
unfolding all_lapsed recover_job queue_or_fail_job clear_job_lease retry_delay_ms
all_lapsed-fails_example =
    all_lapsed-fails token_of two_attempts 200000 new refl refl refl refl refl
