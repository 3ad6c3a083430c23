-- ===== src/Graph/Jobs/Invariant.antt =====
-- src/graph/mod.rs: what every extraction job satisfies, and that the operations keep it.
use opencode_native_memory.Prelude.{
  ℕ, ◌+◌, ◌-◌, Bool, true, false, not, ◌&&◌, ◌||◌, ◌≡◌, List, [], ◌∷◌, String, str_eq, leb, is_some,
  is_none, arith, if◌then◌else◌, take, length,
}
use opencode_native_memory.Prelude.Values.{kept, kept-remove, kept-map_values}
use opencode_native_memory.Prelude.Map.{Map, remove}
use opencode_native_memory.Graph.Defs.{
  GraphJobState, queued, claimed, running, completed, failed, cancelled, is_active,
  GraphExtractionJob, GraphState,
}
use opencode_native_memory.Graph.Validate.{max_graph_jobs}
use opencode_native_memory.Graph.Jobs.{
  clear_job_lease, queue_or_fail_job, end_cancelled, recover_job, recover_expired_jobs, remove_all,
  prune_terminal_jobs, sort_pairs, terminal_jobs,
}

abbrev pub is_completed : GraphJobState → Bool
is_completed completed = true
is_completed queued = false
is_completed claimed = false
is_completed running = false
is_completed failed = false
is_completed cancelled = false

abbrev pub is_queued : GraphJobState → Bool
is_queued queued = true
is_queued completed = false
is_queued claimed = false
is_queued running = false
is_queued failed = false
is_queued cancelled = false

-- An active job has a lease and has been attempted, and no other job has a lease.
abbrev pub lease_ok : GraphExtractionJob → Bool
lease_ok j =
    if is_active j.state
    then is_some j.lease_expires_at_ms
      && (is_some j.lease_token
          && (is_some j.claim_request_id && (is_some j.worker_id && leb 1 j.attempt_count)))
    else is_none j.lease_expires_at_ms
      && (is_none j.lease_token && (is_none j.claim_request_id && is_none j.worker_id))

-- A completed job has a completion fence, and no other job has one.
abbrev pub fence_ok : GraphExtractionJob → Bool
fence_ok j =
    if is_completed j.state
    then is_some j.completion_digest && is_some j.completion_lease_token_hash
    else is_none j.completion_digest && is_none j.completion_lease_token_hash

abbrev pub job_ok : GraphExtractionJob → Bool
job_ok j =
    lease_ok j
    && (fence_ok j
        && (leb j.attempt_count j.max_attempts
            && (leb j.max_attempts 5 && (not (is_queued j.state) || not j.cancel_requested))))

abbrev pub entry_ok : String × GraphExtractionJob → Bool
entry_ok (id, j) = str_eq id j.job_id && job_ok j

-- Every job is kept once, under its own id, and satisfies the above.
abbrev pub jobs_ok : GraphState → Bool
jobs_ok s = kept entry_ok s.jobs

pub queue_or_fail_job-ok :
    (code message : String) (now_ms : ℕ) (id : String) (j : GraphExtractionJob)
    → is_active j.state ≡ true
    → entry_ok (id, j) ≡ true
    → entry_ok (id, queue_or_fail_job code message now_ms j) ≡ true
unfolding queue_or_fail_job clear_job_lease
queue_or_fail_job-ok code message now_ms id j active h = ground (arith, active, h)

pub end_cancelled-ok :
    (now_ms : ℕ) (id : String) (j : GraphExtractionJob)
    → is_active j.state ≡ true
    → entry_ok (id, j) ≡ true
    → entry_ok (id, end_cancelled now_ms j) ≡ true
unfolding end_cancelled clear_job_lease
end_cancelled-ok now_ms id j active h = ground (arith, active, h)

recover_job-ok :
    (now_ms : ℕ) (id : String) (j : GraphExtractionJob)
    → entry_ok (id, j) ≡ true
    → entry_ok (id, recover_job now_ms j) ≡ true
unfolding recover_job
recover_job-ok now_ms id j h = ground (
  arith,
  h,
  end_cancelled-ok now_ms id j,
  queue_or_fail_job-ok "lease_expired" "graph worker lease expired" now_ms id j,
)

pub recover_expired_jobs-ok :
    (now_ms : ℕ) (s : GraphState)
    → jobs_ok s ≡ true
    → jobs_ok (recover_expired_jobs now_ms s) ≡ true
unfolding recover_expired_jobs
recover_expired_jobs-ok now_ms s h =
    kept-map_values entry_ok s.jobs (recover_job now_ms) (recover_job-ok now_ms) h

remove_all-ok :
    (ids : List (ℕ × String)) (m : Map GraphExtractionJob)
    → kept entry_ok m ≡ true
    → kept entry_ok (remove_all ids m) ≡ true
unfolding remove_all
remove_all-ok [] m h = h
remove_all-ok ((t, id) ∷ ids) m h = remove_all-ok ids (remove m id) (kept-remove entry_ok m id h)

pub prune_terminal_jobs-ok :
    (s : GraphState) → jobs_ok s ≡ true → jobs_ok (prune_terminal_jobs s) ≡ true
unfolding prune_terminal_jobs
prune_terminal_jobs-ok s h = ground (
  arith,
  h,
  remove_all-ok (take (length s.jobs - max_graph_jobs + 1) (sort_pairs (terminal_jobs s.jobs)))
      s.jobs h,
)
