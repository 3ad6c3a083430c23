-- ===== src/Graph/Jobs/Reports.antt =====
-- src/graph/mod.rs: what an accepted report was checked for, and that it keeps what every job satisfies.
use opencode_native_memory.Prelude.{
  ℕ, true, ◌≡◌, sym, subst, inl, inr, some, String, str_eq, arith, Bool-cases, Option-cases,
}
use opencode_native_memory.Prelude.Values.{kept, kept-modify, kept-get}
use opencode_native_memory.Prelude.Map.{get, modify}
use opencode_native_memory.Prelude.Result.{ok, ensure, ◌>>=◌, >>=-eq-ok}
use opencode_native_memory.Graph.Defs.{is_active, GraphExtractionJob, GraphState}
use opencode_native_memory.Graph.Validate.{run_id_changed}
use opencode_native_memory.Graph.Jobs.{clear_job_lease, recover_expired_jobs, Finish, end_cancelled}
use opencode_native_memory.Graph.Jobs.Operations.{check_lease}
use opencode_native_memory.Graph.Jobs.Completion.{
  settle, end_or_settle, put_job, finish_active, finish_job_with_learning,
}
use opencode_native_memory.Graph.Jobs.Invariant.{
  entry_ok, jobs_ok, queue_or_fail_job-ok, end_cancelled-ok, recover_expired_jobs-ok,
}

pub check_lease-active :
    (token : String) (now_ms : ℕ) (j : GraphExtractionJob)
    → check_lease token now_ms j ≡ ok tt
    → is_active j.state ≡ true
unfolding check_lease
check_lease-active token now_ms j h = ground (arith, h)

module _ (hash_hex : String → String) where
  pub settle-ok :
      (f : Finish) (now_ms : ℕ) (id : String) (j : GraphExtractionJob) (next : GraphState)
      {job : GraphExtractionJob} {next' : GraphState}
      → is_active j.state ≡ true
      → entry_ok (id, j) ≡ true
      → settle hash_hex f now_ms j next ≡ ok (job, next')
      → (entry_ok (id, job) ≡ true) × (next'.jobs ≡ next.jobs)
  unfolding settle clear_job_lease
  settle-ok f now_ms id j next active h e = (
    ground (arith, active, h, e, queue_or_fail_job-ok f.error_code f.error_message now_ms id j),
    ground (arith, e),
  )

  -- what an accepted report was checked for, and what it committed
  pub finish_active-parts :
      (f : Finish) (now_ms : ℕ) (j : GraphExtractionJob) (r : GraphState)
      (reply : GraphExtractionJob) (next : GraphState)
      → finish_active hash_hex f now_ms j r ≡ ok (reply, some next)
      → (check_lease f.lease_token now_ms j ≡ ok tt)
        × (job : GraphExtractionJob) × (next' : GraphState) × (end_or_settle hash_hex f now_ms j r
            ≡ ok (job, next'))
        × (reply ≡ job)
        × (next ≡ record next' { jobs = modify next'.jobs f.job_id (λ _. job) })
  unfolding finish_active
  finish_active-parts f now_ms j r reply next e =
      let (_, lease, e1) =
        >>=-eq-ok (check_lease f.lease_token now_ms j)
          (λ _. ensure (str_eq j.extraction_run_id f.extraction_run_id) run_id_changed >>= λ _.
            end_or_settle hash_hex f now_ms j r >>= put_job f.job_id)
          e in
      let (_, run, e2) =
        >>=-eq-ok (ensure (str_eq j.extraction_run_id f.extraction_run_id) run_id_changed)
          (λ _. end_or_settle hash_hex f now_ms j r >>= put_job f.job_id) e1 in
      let ((job, next'), inner, e3) =
        >>=-eq-ok (end_or_settle hash_hex f now_ms j r) (put_job f.job_id) e2 in
      (lease, job, next', inner, ground (arith, e3), ground (arith, e3))

  pub ended-ok :
      (f : Finish) (now_ms : ℕ) (j : GraphExtractionJob) (r : GraphState) {job : GraphExtractionJob}
      {next' : GraphState}
      → is_active j.state ≡ true
      → entry_ok (f.job_id, j) ≡ true
      → end_or_settle hash_hex f now_ms j r ≡ ok (job, next')
      → (entry_ok (f.job_id, job) ≡ true) × (next'.jobs ≡ r.jobs)
  unfolding end_or_settle
  ended-ok f now_ms j r {job = job} {next' = next'} active at e =
      elim (Bool-cases j.cancel_requested) [
        | inl asked ↦
            let same : job ≡ end_cancelled now_ms j = ground (arith, e, asked) in
            (rw same (end_cancelled-ok now_ms f.job_id j active at), ground (arith, e, asked))
        | inr plain ↦
            settle-ok f now_ms f.job_id j r {job = job} {next' = next'} active at
              (ground (arith, e, plain))
      ]

  pub finish_active-ok :
      (f : Finish) (now_ms : ℕ) (j : GraphExtractionJob) (r : GraphState)
      → jobs_ok r ≡ true
      → entry_ok (f.job_id, j) ≡ true
      → (reply : GraphExtractionJob) (next : GraphState)
      → finish_active hash_hex f now_ms j r ≡ ok (reply, some next)
      → jobs_ok next ≡ true
  finish_active-ok f now_ms j r h at reply next e =
      let (lease, job, next', inner, same, committed) =
        finish_active-parts f now_ms j r reply next e in
      let (fine, untouched) =
        ended-ok f now_ms j r (check_lease-active f.lease_token now_ms j lease) at inner in
      rw committed (
        kept-modify entry_ok next'.jobs f.job_id job
          (subst (λ m. kept entry_ok m ≡ true) (sym untouched) h) fine)

  pub finish_job_with_learning-ok :
      (f : Finish) (now_ms : ℕ) (s : GraphState)
      → jobs_ok s ≡ true
      → (reply : GraphExtractionJob) (next : GraphState)
      → finish_job_with_learning hash_hex f now_ms s ≡ ok (reply, some next)
      → jobs_ok next ≡ true
  unfolding finish_job_with_learning
  finish_job_with_learning-ok f now_ms s h reply next e =
      let r = recover_expired_jobs now_ms s in
      let r_ok = recover_expired_jobs-ok now_ms s h in
      elim (Option-cases (get r.jobs f.job_id)) [
        | inl missing ↦ ground (arith, e, missing)
        | inr (j, found) ↦
            let at = kept-get entry_ok r.jobs f.job_id r_ok found in
            ground (arith, e, found, finish_active-ok f now_ms j r r_ok at reply next)
      ]
