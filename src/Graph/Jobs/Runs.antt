-- ===== src/Graph/Jobs/Runs.antt =====
-- src/graph/mod.rs: the operations on the jobs in any order, with commits that succeed or fail.
use opencode_native_memory.Prelude.{ℕ, Bool, true, ◌≡◌, refl, List, [], ◌∷◌, String, all}
use opencode_native_memory.Prelude.Values.{distinct_keys}
use opencode_native_memory.Graph.Defs.{GraphExtractionJob, GraphState, default_graph}
use opencode_native_memory.Graph.Jobs.{JobRequest, Claim, Finish}
use opencode_native_memory.Graph.Jobs.Operations.{
  enqueue_job, claim_job, renew_job, recover_job_leases, cancel_job, mark_job_source_changed,
}
use opencode_native_memory.Graph.Jobs.Completion.{finish_job_with_learning}
use opencode_native_memory.Graph.Jobs.Invariant.{jobs_ok}
use opencode_native_memory.Graph.Jobs.Preserves.{
  after, after-ok, cancel_job-ok, mark_job_source_changed-ok, renew_job-ok, recover_job_leases-ok,
  enqueue_job-ok,
}
use opencode_native_memory.Graph.Jobs.Claims.{claim_job-ok}
use opencode_native_memory.Graph.Jobs.Reports.{finish_job_with_learning-ok}

pub data Action : Type 0 where
  enqueues : JobRequest → Action
  claims : Claim → (GraphExtractionJob → Bool) → Action
  renews : (id lease_token : String) → (lease_ttl_ms : ℕ) → Action
  recovers : Action
  cancels : (id reason : String) → Action
  marks_changed : (id message : String) → Action
  finishes : Finish → Action

pub record Step : Type 0 where
  pub action : Action
  pub now_ms : ℕ
  -- whether the commit of the operation reaches the memory of the store
  pub committed : Bool

module _ (job_digest : JobRequest → String) (run_id_of hash_hex : String → String)
    (lease_token_of : String → String → String → ℕ → ℕ → String) where
  abbrev pub acted : Bool → ℕ → Action → GraphState → GraphState
  acted c now_ms (enqueues r) s = after c (enqueue_job job_digest run_id_of r now_ms s) s
  acted c now_ms (claims cl is_visible) s =
      after c (claim_job lease_token_of cl now_ms is_visible s) s
  acted c now_ms (renews id lease_token ttl) s = after c (renew_job id lease_token ttl now_ms s) s
  acted c now_ms recovers s = after c (recover_job_leases now_ms s) s
  acted c now_ms (cancels id reason) s = after c (cancel_job id reason now_ms s) s
  acted c now_ms (marks_changed id message) s =
      after c (mark_job_source_changed id message now_ms s) s
  acted c now_ms (finishes f) s = after c (finish_job_with_learning hash_hex f now_ms s) s

  abbrev pub stepped : Step → GraphState → GraphState
  stepped t s = acted t.committed t.now_ms t.action s

  unfoldable pub run : List Step → GraphState → GraphState
  run [] s = s
  run (t ∷ ts) s = run ts (stepped t s)

  pub acted-ok :
      (c : Bool) (now_ms : ℕ) (a : Action) (s : GraphState)
      → jobs_ok s ≡ true
      → jobs_ok (acted c now_ms a s) ≡ true
  acted-ok c now_ms (enqueues r) s h =
      after-ok c (enqueue_job job_digest run_id_of r now_ms s) s h
        (enqueue_job-ok job_digest run_id_of r now_ms s h)
  acted-ok c now_ms (claims cl is_visible) s h =
      after-ok c (claim_job lease_token_of cl now_ms is_visible s) s h
        (claim_job-ok lease_token_of cl now_ms is_visible s h)
  acted-ok c now_ms (renews id lease_token ttl) s h =
      after-ok c (renew_job id lease_token ttl now_ms s) s h
        (renew_job-ok id lease_token ttl now_ms s h)
  acted-ok c now_ms recovers s h =
      after-ok c (recover_job_leases now_ms s) s h (recover_job_leases-ok now_ms s h)
  acted-ok c now_ms (cancels id reason) s h =
      after-ok c (cancel_job id reason now_ms s) s h (cancel_job-ok id reason now_ms s h)
  acted-ok c now_ms (marks_changed id message) s h =
      after-ok c (mark_job_source_changed id message now_ms s) s h
        (mark_job_source_changed-ok id message now_ms s h)
  acted-ok c now_ms (finishes f) s h =
      after-ok c (finish_job_with_learning hash_hex f now_ms s) s h
        (finish_job_with_learning-ok hash_hex f now_ms s h)

  run-from-ok : (ts : List Step) (s : GraphState) → jobs_ok s ≡ true → jobs_ok (run ts s) ≡ true
  unfolding run
  run-from-ok [] s h = h
  run-from-ok (t ∷ ts) s h =
      run-from-ok ts (stepped t s) (acted-ok t.committed t.now_ms t.action s h)

  -- From the empty graph, whatever operations on the jobs are made, in whatever order, at whatever
  -- times and whichever of their commits fail: every job stands under its own id and no id twice,
  -- an active job has a lease, a token, a worker, a claim and an attempt counted, no other job has
  -- any lease, exactly the completed jobs have a completion fence, no job has been attempted more
  -- often than it may be, at most five times, and no queued job has a cancellation pending.
  pub run-jobs_ok : (ts : List Step) → jobs_ok (run ts default_graph) ≡ true
  unfolding all distinct_keys
  run-jobs_ok ts = run-from-ok ts default_graph refl
