-- ===== src/Graph/Jobs/Preserves.antt =====
-- src/graph/mod.rs: the operations on the jobs keep what every job satisfies.
use opencode_native_memory.Prelude.{
  ℕ, Bool, true, false, ◌≡◌, refl, inl, inr, none, some, String, eq_refl, leb, arith, Option-cases,
  if◌then◌else◌,
}
use opencode_native_memory.Prelude.Values.{kept-insert, kept-modify, kept-get}
use opencode_native_memory.Prelude.Map.{get}
use opencode_native_memory.Prelude.Result.{ok, err}
use opencode_native_memory.Graph.Defs.{is_terminal, is_active, GraphExtractionJob, GraphState}
use opencode_native_memory.Graph.Jobs.{
  add_u64, clear_job_lease, recover_expired_jobs, prune_terminal_jobs, Change, JobRequest,
  CancelReply,
}
use opencode_native_memory.Graph.Jobs.Operations.{
  check_request, check_lease, enqueue_job, renew_job, recover_job_leases, cancelled_by, renewed_job,
  source_changed, cancel_job, mark_job_source_changed, new_job,
}
use opencode_native_memory.Graph.Jobs.Invariant.{
  entry_ok, jobs_ok, recover_expired_jobs-ok, prune_terminal_jobs-ok,
}

-- The state after an operation: its commit may fail, and counts the generation up.
abbrev pub after : {Reply : Type 0} → Bool → Change Reply → GraphState → GraphState
after committed (err _) s = s
after committed (ok (_, none)) s = s
after committed (ok (_, some next)) s =
    if committed then record next { generation = add_u64 s.generation 1 } else s

pub after-ok :
    {Reply : Type 0} (committed : Bool) (change : Change Reply) (s : GraphState)
    → jobs_ok s ≡ true
    → ((reply : Reply) (next : GraphState) → change ≡ ok (reply, some next) → jobs_ok next ≡ true)
    → jobs_ok (after committed change s) ≡ true
after-ok committed (err _) s h keep = h
after-ok committed (ok (_, none)) s h keep = h
after-ok false (ok (_, some next)) s h keep = h
after-ok true (ok (reply, some next)) s h keep = keep reply next refl

pub renewed_job-ok :
    (lease_ttl_ms now_ms : ℕ) (id : String) (j : GraphExtractionJob)
    → is_active j.state ≡ true
    → entry_ok (id, j) ≡ true
    → entry_ok (id, renewed_job lease_ttl_ms now_ms j) ≡ true
unfolding renewed_job
renewed_job-ok lease_ttl_ms now_ms id j active h = ground (arith, active, h)

pub cancelled_by-ok :
    (reason : String) (now_ms : ℕ) (id : String) (j : GraphExtractionJob)
    → entry_ok (id, j) ≡ true
    → entry_ok (id, (cancelled_by reason now_ms j).0) ≡ true
unfolding cancelled_by clear_job_lease
cancelled_by-ok reason now_ms id j h = ground (arith, h)

pub source_changed-ok :
    (message : String) (now_ms : ℕ) (id : String) (j : GraphExtractionJob)
    → is_terminal j.state ≡ false
    → entry_ok (id, j) ≡ true
    → entry_ok (id, source_changed message now_ms j) ≡ true
unfolding source_changed clear_job_lease
source_changed-ok message now_ms id j open_yet h = ground (arith, open_yet, h)

pub cancel_job-ok :
    (id reason : String) (now_ms : ℕ) (s : GraphState)
    → jobs_ok s ≡ true
    → (reply : GraphExtractionJob × CancelReply) (next : GraphState)
    → cancel_job id reason now_ms s ≡ ok (reply, some next)
    → jobs_ok next ≡ true
unfolding cancel_job
cancel_job-ok id reason now_ms s h reply next e =
    let r = recover_expired_jobs now_ms s in
    let r_ok = recover_expired_jobs-ok now_ms s h in
    elim (Option-cases (get r.jobs id)) [
      | inl missing ↦ ground (arith, e, missing)
      | inr (j, found) ↦
          let kept = cancelled_by-ok reason now_ms id j (kept-get entry_ok r.jobs id r_ok found) in
          ground (
            arith,
            e,
            found,
            kept-modify entry_ok r.jobs id (cancelled_by reason now_ms j).0 r_ok kept,
          )
    ]

pub mark_job_source_changed-ok :
    (id message : String) (now_ms : ℕ) (s : GraphState)
    → jobs_ok s ≡ true
    → (reply : GraphExtractionJob) (next : GraphState)
    → mark_job_source_changed id message now_ms s ≡ ok (reply, some next)
    → jobs_ok next ≡ true
unfolding mark_job_source_changed
mark_job_source_changed-ok id message now_ms s h reply next e =
    elim (Option-cases (get s.jobs id)) [
      | inl missing ↦ ground (arith, e, missing)
      | inr (j, found) ↦
          let at = kept-get entry_ok s.jobs id h found in
          let job = if is_terminal j.state then j else source_changed message now_ms j in
          let kept : entry_ok (id, job) ≡ true =
            ground (arith, at, source_changed-ok message now_ms id j) in
          ground (arith, e, found, kept-modify entry_ok s.jobs id job h kept)
    ]

pub renew_job-ok :
    (id lease_token : String) (lease_ttl_ms now_ms : ℕ) (s : GraphState)
    → jobs_ok s ≡ true
    → (reply : GraphExtractionJob) (next : GraphState)
    → renew_job id lease_token lease_ttl_ms now_ms s ≡ ok (reply, some next)
    → jobs_ok next ≡ true
unfolding renew_job check_lease
renew_job-ok id lease_token lease_ttl_ms now_ms s h reply next e =
    let r = recover_expired_jobs now_ms s in
    let r_ok = recover_expired_jobs-ok now_ms s h in
    elim (Option-cases (get r.jobs id)) [
      | inl missing ↦ ground (arith, e, missing)
      | inr (j, found) ↦
          let at = kept-get entry_ok r.jobs id r_ok found in
          let job = renewed_job lease_ttl_ms now_ms j in
          ground (
            arith,
            e,
            found,
            renewed_job-ok lease_ttl_ms now_ms id j,
            at,
            kept-modify entry_ok r.jobs id job r_ok,
          )
    ]

pub recover_job_leases-ok :
    (now_ms : ℕ) (s : GraphState)
    → jobs_ok s ≡ true
    → (reply : Bool) (next : GraphState) → recover_job_leases now_ms s ≡ ok (reply, some next)
    → jobs_ok next ≡ true
unfolding recover_job_leases
recover_job_leases-ok now_ms s h reply next e =
    ground (arith, e, recover_expired_jobs-ok now_ms s h)

module _ (job_digest : JobRequest → String) (run_id_of : String → String) where
  pub enqueue_job-ok :
      (r : JobRequest) (now_ms : ℕ) (s : GraphState)
      → jobs_ok s ≡ true
      → (reply : GraphExtractionJob × Bool) (next : GraphState)
      → enqueue_job job_digest run_id_of r now_ms s ≡ ok (reply, some next)
      → jobs_ok next ≡ true
  unfolding enqueue_job check_request
  enqueue_job-ok r now_ms s h reply next e =
      let p = prune_terminal_jobs s in
      let job = new_job job_digest run_id_of r now_ms in
      let p_ok = prune_terminal_jobs-ok s h in
      elim (Option-cases (get s.jobs r.job_id)) [
        | inr (j, found) ↦ ground (arith, e, found)
        | inl missing ↦
            let fresh : leb r.max_attempts 5 ≡ true → entry_ok (r.job_id, job) ≡ true =
              λ few. ground (arith, few, eq_refl r.job_id) in
            ground (arith, e, missing, fresh, kept-insert entry_ok p.jobs r.job_id job p_ok)
      ]
