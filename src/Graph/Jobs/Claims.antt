-- ===== src/Graph/Jobs/Claims.antt =====
-- src/graph/mod.rs: a claim takes a job that may be claimed, and keeps what every job satisfies.
use opencode_native_memory.Prelude.{
  sym, eq_iff, subst, ℕ, Bool, true, ◌&&◌, ◌≡◌, ◌∙◌, ap, inl, inr, Option, some, [], ◌∷◌, String,
  eq_refl, all, find, arith, Option-cases,
}
use opencode_native_memory.Prelude.Values.{distinct_keys, kept, kept-modify, kept-get}
use opencode_native_memory.Prelude.Map.{Map, get}
use opencode_native_memory.Prelude.Result.{ok}
use opencode_native_memory.Graph.Defs.{GraphExtractionJob, GraphState}
use opencode_native_memory.Graph.Jobs.{
  add_u64, recover_expired_jobs, claimable_job, first_claimable, Claim,
}
use opencode_native_memory.Graph.Jobs.Operations.{claim_job, claimed_job, is_replay, select_job}
use opencode_native_memory.Graph.Jobs.Invariant.{entry_ok, jobs_ok, recover_expired_jobs-ok}

module _ (test : GraphExtractionJob → Bool) where
  first_claimable-found :
      (m : Map GraphExtractionJob) {j : GraphExtractionJob}
      → kept entry_ok m ≡ true
      → first_claimable test m ≡ some j
      → (test j ≡ true) × (get m j.job_id ≡ some j)
  unfolding first_claimable all distinct_keys get
  first_claimable-found [] h e = cc
  first_claimable-found ((k, v) ∷ m) {j = j} h e = elim (Option-cases (first_claimable test m)) [
    | inl nothing ↦
        let same : v ≡ j = ground (arith, e, nothing) in
        (ground (arith, e, nothing), rw (sym same) (ground (arith, h)))
    | inr (o, found) ↦
        let (t, g) = first_claimable-found m {j = o} (ground (arith, h)) found in
        (
          ground (arith, h, e, found, t),
          ground (arith, h, e, found, g, eq_iff k o.job_id, eq_iff k j.job_id),
        )
  ]

pub select_job-found :
    (c : Claim) (now_ms : ℕ) (is_visible : GraphExtractionJob → Bool) (s : GraphState)
    {j : GraphExtractionJob}
    → jobs_ok s ≡ true
    → select_job c now_ms is_visible s ≡ some j
    → (claimable_job now_ms j ≡ true) × (get s.jobs j.job_id ≡ some j)
unfolding select_job
select_job-found c now_ms is_visible s {j = j} h e =
    let test = λ (v : GraphExtractionJob). claimable_job now_ms v && is_visible v in
    elim (Option-cases c.requested_job_id) [
      | inl anything ↦
          let (t, g) = first_claimable-found test s.jobs {j = j} h (ground (arith, e, anything)) in
          (ground (arith, t), g)
      | inr (id, asked) ↦ elim (Option-cases (get s.jobs id)) [
        | inl missing ↦ absurd (ground (arith, e, asked, missing))
        | inr (v, found) ↦
            let (same, t) : (v ≡ j) × (claimable_job now_ms j ≡ true) =
              (ground (arith, e, asked, found), ground (arith, e, asked, found)) in
            let stored = found ∙ ap some same in
            let at = kept-get entry_ok s.jobs id h stored in
            (
              t,
              subst (λ i. get s.jobs i ≡ some j) ((eq_iff id j.job_id).0 (ground (arith, at)))
                  stored,
            )
      ]
    ]

module _ (lease_token_of : String → String → String → ℕ → ℕ → String) where
  pub claimed_job-ok :
      (c : Claim) (now_ms generation : ℕ) (j : GraphExtractionJob)
      → claimable_job now_ms j ≡ true
      → entry_ok (j.job_id, j) ≡ true
      → entry_ok (j.job_id, claimed_job lease_token_of c now_ms generation j) ≡ true
  unfolding claimable_job
  claimed_job-ok c now_ms generation j may h = ground (arith, may, h, eq_refl j.job_id)

  pub claim_job-ok :
      (c : Claim) (now_ms : ℕ) (is_visible : GraphExtractionJob → Bool) (s : GraphState)
      → jobs_ok s ≡ true
      → (reply : Option (GraphExtractionJob × String)) (next : GraphState)
      → claim_job lease_token_of c now_ms is_visible s ≡ ok (reply, some next)
      → jobs_ok next ≡ true
  unfolding claim_job
  claim_job-ok c now_ms is_visible s h reply next e =
      let r = recover_expired_jobs now_ms s in
      let r_ok = recover_expired_jobs-ok now_ms s h in
      elim (Option-cases (find (λ (_, j). is_replay c is_visible j) r.jobs)) [
        | inr ((_, j), found) ↦ ground (arith, e, found, r_ok)
        | inl no_replay ↦ elim (Option-cases (select_job c now_ms is_visible r)) [
          | inl nothing ↦ ground (arith, e, no_replay, nothing, r_ok)
          | inr (j, chosen) ↦
              let (may, found) = select_job-found c now_ms is_visible r r_ok chosen in
              let fine = kept-get entry_ok r.jobs j.job_id r_ok found in
              let job = claimed_job lease_token_of c now_ms (add_u64 s.generation 1) j in
              let kept = claimed_job-ok c now_ms (add_u64 s.generation 1) j may fine in
              ground
                (arith, e, no_replay, chosen, kept-modify entry_ok r.jobs j.job_id job r_ok kept)
        ]
      ]
