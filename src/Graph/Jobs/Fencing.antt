-- ===== src/Graph/Jobs/Fencing.antt =====
-- src/graph/mod.rs: which reports on a job the store accepts.
use opencode_native_memory.Prelude.{
  ℕ, true, false, ◌≡◌, ◌⊎◌, inl, inr, sym, ◌∙◌, ap, some, String, ltb, is_some_and, arith,
  Bool-cases, Option-cases,
}
use opencode_native_memory.Prelude.Values.{get-map_values}
use opencode_native_memory.Prelude.Map.{get}
use opencode_native_memory.Prelude.Result.{ok}
use opencode_native_memory.State.Validate.{points_to}
use opencode_native_memory.Graph.Defs.{is_active, GraphExtractionJob, GraphState}
use opencode_native_memory.Graph.Jobs.{
  clear_job_lease, queue_or_fail_job, end_cancelled, recover_job, recover_expired_jobs, Finish,
  Upsert,
}
use opencode_native_memory.Graph.Jobs.Operations.{check_lease}
use opencode_native_memory.Graph.Jobs.Completion.{
  is_completes, settle, end_or_settle, finish_active, finish_job_with_learning,
}
use opencode_native_memory.Graph.Jobs.Invariant.{is_completed}
use opencode_native_memory.Graph.Jobs.Reports.{finish_active-parts}

-- the graph without its jobs
abbrev pub graph_parts : GraphState → Upsert
graph_parts s = record {
  entities = s.entities;
  relations = s.relations;
  facts = s.facts;
  observations = s.observations;
  mentions = s.mentions;
  runs = s.runs;
}

-- what a report that the store accepts makes of the graph, and of the job
abbrev pub Settled : Finish → GraphState → GraphExtractionJob → GraphState → Type 0
Settled f s reply next =
    ((is_completed reply.state ≡ true) × (f.upsert ≡ some (graph_parts next)))
    ⊎ ((is_completed reply.state ≡ false) × (graph_parts next ≡ graph_parts s))

recover_job-active :
    (now_ms : ℕ) (v w : GraphExtractionJob)
    → recover_job now_ms w ≡ v
    → is_active v.state ≡ true
    → w ≡ v
unfolding recover_job queue_or_fail_job end_cancelled clear_job_lease
recover_job-active now_ms v w e active = ground (arith, e, active)

recovered-active :
    (now_ms : ℕ) (s : GraphState) (k : String) (v : GraphExtractionJob)
    → get (recover_expired_jobs now_ms s).jobs k ≡ some v
    → is_active v.state ≡ true
    → get s.jobs k ≡ some v
unfolding recover_expired_jobs
recovered-active now_ms s k v found active =
    let mapped = sym (get-map_values (recover_job now_ms) s.jobs k) ∙ found in
    elim (Option-cases (get s.jobs k)) [
      | inl missing ↦ absurd (ground (arith, mapped, missing))
      | inr (w, here) ↦
          let e : recover_job now_ms w ≡ v = ground (arith, mapped, here) in
          here ∙ ap some (recover_job-active now_ms v w e active)
    ]

-- what `finish_active` required of the job it ends
abbrev pub Held : Finish → ℕ → GraphExtractionJob → Type 0
Held f now_ms j =
    (is_active j.state ≡ true)
    × (points_to j.lease_token f.lease_token ≡ true)
    × (is_some_and j.lease_expires_at_ms (λ e. ltb now_ms e) ≡ true)

Settled-recovered :
    (f : Finish) (now_ms : ℕ) (s : GraphState) (reply : GraphExtractionJob) (next : GraphState)
    → Settled f (recover_expired_jobs now_ms s) reply next
    → Settled f s reply next
unfolding recover_expired_jobs
Settled-recovered f now_ms s reply next h = h

module _ (hash_hex : String → String) where
  settle-graph :
      (f : Finish) (now_ms : ℕ) (j : GraphExtractionJob) (r : GraphState) {job : GraphExtractionJob}
      {next : GraphState}
      → is_active j.state ≡ true
      → settle hash_hex f now_ms j r ≡ ok (job, next)
      → Settled f r job next
  unfolding settle clear_job_lease queue_or_fail_job
  settle-graph f now_ms j r active e = elim (Bool-cases (is_completes f.outcome)) [
    | inl full ↦ inl (ground (arith, e, full), ground (arith, e, full))
    | inr plain ↦ inr (ground (arith, e, plain, active), ground (arith, e, plain))
  ]

  ended-graph :
      (f : Finish) (now_ms : ℕ) (j : GraphExtractionJob) (r : GraphState) {job : GraphExtractionJob}
      {next : GraphState}
      → is_active j.state ≡ true
      → end_or_settle hash_hex f now_ms j r ≡ ok (job, next)
      → Settled f r job next
  unfolding end_or_settle end_cancelled clear_job_lease
  ended-graph f now_ms j r {job = job} {next = next} active e =
      elim (Bool-cases j.cancel_requested) [
        | inl asked ↦ inr (ground (arith, e, asked), ground (arith, e, asked))
        | inr plain ↦
            settle-graph f now_ms j r {job = job} {next = next} active (ground (arith, e, plain))
      ]

  check_lease-Held :
      (f : Finish) (now_ms : ℕ) (j : GraphExtractionJob)
      → check_lease f.lease_token now_ms j ≡ ok tt
      → Held f now_ms j
  unfolding check_lease
  check_lease-Held f now_ms j e = (ground (arith, e), ground (arith, e), ground (arith, e))

  finish_active-Held :
      (f : Finish) (now_ms : ℕ) (j : GraphExtractionJob) (r : GraphState)
      (reply : GraphExtractionJob) (next : GraphState)
      → finish_active hash_hex f now_ms j r ≡ ok (reply, some next)
      → Held f now_ms j × Settled f r reply next
  finish_active-Held f now_ms j r reply next e =
      let (lease, job, next', inner, same, committed) =
        finish_active-parts hash_hex f now_ms j r reply next e in
      let held = check_lease-Held f now_ms j lease in
      let settled = ended-graph f now_ms j r {job = job} {next = next'} held.0 inner in
      (held, rw (same, committed) settled)

  -- When a worker's report on a job changes the store, the store held that job, claimed or running,
  -- with the very token of the report, on a lease that had not ended. Then either the job is now
  -- completed and the graph is what the report's material makes of it, or the job is not completed
  -- and nothing of the graph has changed.
  pub finish_job_with_learning-fenced :
      (f : Finish) (now_ms : ℕ) (s : GraphState) (reply : GraphExtractionJob) (next : GraphState)
      → finish_job_with_learning hash_hex f now_ms s ≡ ok (reply, some next)
      → (j : GraphExtractionJob) × (get s.jobs f.job_id ≡ some j)
        × Held f now_ms j
        × Settled f s reply next
  unfolding finish_job_with_learning
  finish_job_with_learning-fenced f now_ms s reply next e =
      let r = recover_expired_jobs now_ms s in
      elim (Option-cases (get r.jobs f.job_id)) [
        | inl missing ↦ absurd (ground (arith, e, missing))
        | inr (j, found) ↦
            let went : finish_active hash_hex f now_ms j r ≡ ok (reply, some next) =
              ground (arith, e, found) in
            let (held, settled) = finish_active-Held f now_ms j r reply next went in
            (
              j,
              recovered-active now_ms s f.job_id j found held.0,
              held,
              Settled-recovered f now_ms s reply next settled,
            )
      ]
