-- ===== src/Graph/Jobs/Safety.antt =====
-- src/graph/mod.rs: what no sequence of operations on the jobs does to one of them.
use opencode_native_memory.Prelude.{
  ℕ, Bool, true, ◌≡◌, ◌⊎◌, inr, some, none, String, leb, length, List,
}
use opencode_native_memory.Prelude.Map.{get}
use opencode_native_memory.Graph.Defs.{is_terminal, GraphExtractionJob, GraphState, default_graph}
use opencode_native_memory.Graph.Validate.{max_graph_jobs}
use opencode_native_memory.Graph.Jobs.{JobRequest}
use opencode_native_memory.Graph.Jobs.Operations.{
  enqueue_job, claim_job, renew_job, recover_job_leases, cancel_job, mark_job_source_changed,
}
use opencode_native_memory.Graph.Jobs.Completion.{finish_job_with_learning}
use opencode_native_memory.Graph.Jobs.Invariant.{jobs_ok}
use opencode_native_memory.Graph.Jobs.Ended.{
  Stays, after-over, enqueue_job-over, claim_job-over, renew_job-over, recover_job_leases-over,
  cancel_job-over, mark_job_source_changed-over, finish_job_with_learning-over,
}
use opencode_native_memory.Graph.Jobs.Runs.{
  Action, enqueues, claims, renews, recovers, cancels, marks_changed, finishes, Step, acted,
  stepped, run, run-jobs_ok,
}

module _ (job_digest : JobRequest → String) (run_id_of hash_hex : String → String)
    (lease_token_of : String → String → String → ℕ → ℕ → String) where
  acted-over :
      (c : Bool) (now_ms : ℕ) (a : Action) (s : GraphState) (id : String) (j : GraphExtractionJob)
      → jobs_ok s ≡ true
      → get s.jobs id ≡ some j
      → (over : is_terminal j.state ≡ true)
      → Stays id j over s (acted job_digest run_id_of hash_hex lease_token_of c now_ms a s)
  acted-over c now_ms (enqueues r) s id j h here over =
      after-over id j over c (enqueue_job job_digest run_id_of r now_ms s) s here
        (enqueue_job-over id j over job_digest run_id_of r now_ms s here)
  acted-over c now_ms (claims cl is_visible) s id j h here over =
      after-over id j over c (claim_job lease_token_of cl now_ms is_visible s) s here
        (λ reply next e.
          inr (claim_job-over id j over lease_token_of cl now_ms is_visible s h here reply next e))
  acted-over c now_ms (renews k lease_token ttl) s id j h here over =
      after-over id j over c (renew_job k lease_token ttl now_ms s) s here (λ reply next e.
        inr (renew_job-over id j over k lease_token ttl now_ms s here reply next e))
  acted-over c now_ms recovers s id j h here over =
      after-over id j over c (recover_job_leases now_ms s) s here
        (λ reply next e. inr (recover_job_leases-over id j over now_ms s here reply next e))
  acted-over c now_ms (cancels k reason) s id j h here over =
      after-over id j over c (cancel_job k reason now_ms s) s here
        (λ reply next e. inr (cancel_job-over id j over k reason now_ms s here reply next e))
  acted-over c now_ms (marks_changed k message) s id j h here over =
      after-over id j over c (mark_job_source_changed k message now_ms s) s here (λ reply next e.
        inr (mark_job_source_changed-over id j over k message now_ms s here reply next e))
  acted-over c now_ms (finishes f) s id j h here over =
      after-over id j over c (finish_job_with_learning hash_hex f now_ms s) s here (λ reply next e.
        inr (finish_job_with_learning-over id j over hash_hex f now_ms s h here reply next e))

  -- After any operations from the empty graph, one further operation on the jobs leaves a job that
  -- is completed, failed or cancelled exactly as it is, or, if the store then holds its full number
  -- of jobs, has removed it.
  pub ended_job-stays :
      (before : List Step) (t : Step) (id : String) (j : GraphExtractionJob)
      → get (run job_digest run_id_of hash_hex lease_token_of before default_graph).jobs id ≡ some j
      → is_terminal j.state ≡ true
      → let s = run job_digest run_id_of hash_hex lease_token_of before default_graph in
        let next = stepped job_digest run_id_of hash_hex lease_token_of t s in
        ((leb max_graph_jobs (length s.jobs) ≡ true) × (get next.jobs id ≡ none))
        ⊎ (get next.jobs id ≡ some j)
  ended_job-stays before t id j here over =
      acted-over t.committed t.now_ms t.action
        (run job_digest run_id_of hash_hex lease_token_of before default_graph) id j
        (run-jobs_ok job_digest run_id_of hash_hex lease_token_of before) here over
