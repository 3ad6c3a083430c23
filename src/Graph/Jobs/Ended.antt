-- ===== src/Graph/Jobs/Ended.antt =====
-- src/graph/mod.rs: a job that has ended stays as it is until it is pruned.
use mathlib.Core.Option
use opencode_native_memory.Prelude.{
  ℕ, ◌-◌, ◌+◌, Bool, ltb, leb, true, false, ◌≡◌, ◌∙◌, refl, ap, ◌⊎◌, inl, inr, Option, none, some,
  List, [], ◌∷◌, String, eq_iff, find, take, length, arith, Option-cases, Bool-cases, if◌then◌else◌,
  str_eq, subst,
}
use opencode_native_memory.Prelude.Values.{kept-get, get-map_values}
use opencode_native_memory.Prelude.Map.{
  Map, get, insert, remove, modify, get-insert, get-remove, get-modify,
}
use opencode_native_memory.Prelude.Result.{ok, err}
use opencode_native_memory.Graph.Defs.{is_terminal, is_active, GraphExtractionJob, GraphState}
use opencode_native_memory.Graph.Validate.{max_graph_jobs}
use opencode_native_memory.Graph.Jobs.{
  add_u64, recover_job, recover_expired_jobs, remove_all, sort_pairs, terminal_jobs,
  prune_terminal_jobs, claimable_job, Change, JobRequest, Claim, Finish, CancelReply,
}
use opencode_native_memory.Graph.Jobs.Operations.{
  check_lease, enqueue_job, claim_job, renew_job, recover_job_leases, cancel_job, cancelled_by,
  mark_job_source_changed, source_changed, is_replay, select_job, new_job, claimed_job, renewed_job,
}
use opencode_native_memory.Graph.Jobs.Completion.{finish_active, finish_job_with_learning}
use opencode_native_memory.Graph.Jobs.Invariant.{entry_ok, jobs_ok, recover_expired_jobs-ok}
use opencode_native_memory.Graph.Jobs.Preserves.{after}
use opencode_native_memory.Graph.Jobs.Claims.{select_job-found}
use opencode_native_memory.Graph.Jobs.Reports.{finish_active-parts, check_lease-active, ended-ok}

module _ (id : String) (j : GraphExtractionJob) (over : is_terminal j.state ≡ true) where
  recover_job-over : (now_ms : ℕ) → recover_job now_ms j ≡ j
  unfolding recover_job
  recover_job-over now_ms = ground (arith, over)

  recovered-over :
      (now_ms : ℕ) (s : GraphState)
      → get s.jobs id ≡ some j
      → get (recover_expired_jobs now_ms s).jobs id ≡ some j
  unfolding recover_expired_jobs
  recovered-over now_ms s here =
      get-map_values (recover_job now_ms) s.jobs id
      ∙ ap (Option.map (recover_job now_ms)) here
      ∙ ap some (recover_job-over now_ms)

  modified-over :
      (m : Map GraphExtractionJob) (k : String) (v w : GraphExtractionJob)
      → get m id ≡ some j
      → get m k ≡ some v
      → (v ≡ j → w ≡ j)
      → get (modify m k (λ _. w)) id ≡ some j
  modified-over m k v w here there same = elim (Bool-cases (str_eq k id)) [
    | inl eq ↦
        let at : get m id ≡ some v = subst (λ i. get m i ≡ some v) ((eq_iff k id).0 eq) there in
        ground (arith, get-modify m k (λ _. w) id, here, at, eq, same)
    | inr other ↦ ground (arith, get-modify m k (λ _. w) id, here, other)
  ]

  pub cancel_job-over :
      (k reason : String) (now_ms : ℕ) (s : GraphState)
      → get s.jobs id ≡ some j
      → (reply : GraphExtractionJob × CancelReply) (next : GraphState)
      → cancel_job k reason now_ms s ≡ ok (reply, some next)
      → get next.jobs id ≡ some j
  unfolding cancel_job cancelled_by
  cancel_job-over k reason now_ms s here reply next e =
      let r = recover_expired_jobs now_ms s in
      let still = recovered-over now_ms s here in
      elim (Option-cases (get r.jobs k)) [
        | inl missing ↦ ground (arith, e, missing)
        | inr (v, found) ↦
            let w = (cancelled_by reason now_ms v).0 in
            let same : v ≡ j → w ≡ j = λ v_j. ground (arith, v_j, over) in
            ground (arith, e, found, modified-over r.jobs k v w still found same)
      ]

  pub mark_job_source_changed-over :
      (k message : String) (now_ms : ℕ) (s : GraphState)
      → get s.jobs id ≡ some j
      → (reply : GraphExtractionJob) (next : GraphState)
      → mark_job_source_changed k message now_ms s ≡ ok (reply, some next)
      → get next.jobs id ≡ some j
  unfolding mark_job_source_changed
  mark_job_source_changed-over k message now_ms s here reply next e =
      elim (Option-cases (get s.jobs k)) [
        | inl missing ↦ ground (arith, e, missing)
        | inr (v, found) ↦
            let w = if is_terminal v.state then v else source_changed message now_ms v in
            let same : v ≡ j → w ≡ j = λ v_j. ground (arith, v_j, over) in
            ground (arith, e, found, modified-over s.jobs k v w here found same)
      ]

  not_active-over : (v : GraphExtractionJob) → is_active v.state ≡ true → ¬ (v ≡ j)
  not_active-over v active same = ground (arith, active, same, over)

  pub renew_job-over :
      (k lease_token : String) (lease_ttl_ms now_ms : ℕ) (s : GraphState)
      → get s.jobs id ≡ some j
      → (reply : GraphExtractionJob) (next : GraphState)
      → renew_job k lease_token lease_ttl_ms now_ms s ≡ ok (reply, some next)
      → get next.jobs id ≡ some j
  unfolding renew_job check_lease
  renew_job-over k lease_token lease_ttl_ms now_ms s here reply next e =
      let r = recover_expired_jobs now_ms s in
      let still = recovered-over now_ms s here in
      elim (Option-cases (get r.jobs k)) [
        | inl missing ↦ ground (arith, e, missing)
        | inr (v, found) ↦
            let w = renewed_job lease_ttl_ms now_ms v in
            let active : is_active v.state ≡ true = ground (arith, e, found) in
            let same : v ≡ j → w ≡ j = λ v_j. absurd (not_active-over v active v_j) in
            ground (arith, e, found, modified-over r.jobs k v w still found same)
      ]

  pub recover_job_leases-over :
      (now_ms : ℕ) (s : GraphState)
      → get s.jobs id ≡ some j
      → (reply : Bool) (next : GraphState) → recover_job_leases now_ms s ≡ ok (reply, some next)
      → get next.jobs id ≡ some j
  unfolding recover_job_leases
  recover_job_leases-over now_ms s here reply next e =
      ground (arith, e, recovered-over now_ms s here)

  pub claim_job-over :
      (lease_token_of : String → String → String → ℕ → ℕ → String) (c : Claim) (now_ms : ℕ)
      (is_visible : GraphExtractionJob → Bool) (s : GraphState)
      → jobs_ok s ≡ true
      → get s.jobs id ≡ some j
      → (reply : Option (GraphExtractionJob × String)) (next : GraphState)
      → claim_job lease_token_of c now_ms is_visible s ≡ ok (reply, some next)
      → get next.jobs id ≡ some j
  unfolding claim_job claimable_job
  claim_job-over lease_token_of c now_ms is_visible s h here reply next e =
      let r = recover_expired_jobs now_ms s in
      let r_ok = recover_expired_jobs-ok now_ms s h in
      let still = recovered-over now_ms s here in
      elim (Option-cases (find (λ (_, j). is_replay c is_visible j) r.jobs)) [
        | inr ((_, v), found) ↦ ground (arith, e, found, still)
        | inl no_replay ↦ elim (Option-cases (select_job c now_ms is_visible r)) [
          | inl nothing ↦ ground (arith, e, no_replay, nothing, still)
          | inr (v, chosen) ↦
              let (may, found) = select_job-found c now_ms is_visible r r_ok chosen in
              let w = claimed_job lease_token_of c now_ms (add_u64 s.generation 1) v in
              let same : v ≡ j → w ≡ j = λ v_j. absurd (ground (arith, may, v_j, over)) in
              ground
                (arith, e, no_replay, chosen, modified-over r.jobs v.job_id v w still found same)
        ]
      ]

  finish_active-over :
      (hash_hex : String → String) (f : Finish) (now_ms : ℕ) (v : GraphExtractionJob)
      (r : GraphState)
      → entry_ok (f.job_id, v) ≡ true
      → get r.jobs f.job_id ≡ some v
      → get r.jobs id ≡ some j
      → (reply : GraphExtractionJob) (next : GraphState)
      → finish_active hash_hex f now_ms v r ≡ ok (reply, some next)
      → get next.jobs id ≡ some j
  finish_active-over hash_hex f now_ms v r at found still reply next went =
      let (lease, job, next', inner, _, committed) =
        finish_active-parts hash_hex f now_ms v r reply next went in
      let active = check_lease-active f.lease_token now_ms v lease in
      let (_, untouched) =
        ended-ok hash_hex f now_ms v r {job = job} {next' = next'} active at inner in
      let same : v ≡ j → job ≡ j = λ v_j. absurd (not_active-over v active v_j) in
      rw (committed, untouched) (modified-over r.jobs f.job_id v job still found same)

  pub finish_job_with_learning-over :
      (hash_hex : String → String) (f : Finish) (now_ms : ℕ) (s : GraphState)
      → jobs_ok s ≡ true
      → get s.jobs id ≡ some j
      → (reply : GraphExtractionJob) (next : GraphState)
      → finish_job_with_learning hash_hex f now_ms s ≡ ok (reply, some next)
      → get next.jobs id ≡ some j
  unfolding finish_job_with_learning
  finish_job_with_learning-over hash_hex f now_ms s h here reply next e =
      let r = recover_expired_jobs now_ms s in
      elim (Option-cases (get r.jobs f.job_id)) [
        | inl missing ↦ ground (arith, e, missing)
        | inr (v, found) ↦
            let at = kept-get entry_ok r.jobs f.job_id (recover_expired_jobs-ok now_ms s h) found in
            let still = recovered-over now_ms s here in
            ground
              (arith, e, found, finish_active-over hash_hex f now_ms v r at found still reply next)
      ]

  remove_all-over :
      (ids : List (ℕ × String)) (m : Map GraphExtractionJob)
      → (get m id ≡ none) ⊎ (get m id ≡ some j)
      → (get (remove_all ids m) id ≡ none) ⊎ (get (remove_all ids m) id ≡ some j)
  unfolding remove_all
  remove_all-over [] m h = h
  remove_all-over ((t, k) ∷ ids) m h =
      remove_all-over ids (remove m k) (ground (arith, h, get-remove m k id))

  -- Only the pruning of a full store removes a job that has ended.
  abbrev pub Stays : GraphState → GraphState → Type 0
  Stays s next =
      ((leb max_graph_jobs (length s.jobs) ≡ true) × (get next.jobs id ≡ none))
      ⊎ (get next.jobs id ≡ some j)

  pruned-over : (s : GraphState) → get s.jobs id ≡ some j → Stays s (prune_terminal_jobs s)
  unfolding prune_terminal_jobs
  pruned-over s here =
      let ids = take (length s.jobs - max_graph_jobs + 1) (sort_pairs (terminal_jobs s.jobs)) in
      elim (Bool-cases (ltb (length s.jobs) max_graph_jobs)) [
        | inl room ↦ inr (ground (arith, room, here))
        | inr full ↦ elim (remove_all-over ids s.jobs (inr here)) [
          | inl gone ↦ inl (ground (arith, full), ground (arith, full, gone))
          | inr still ↦ inr (ground (arith, full, still))
        ]
      ]

  pub enqueue_job-over :
      (job_digest : JobRequest → String) (run_id_of : String → String) (r : JobRequest) (now_ms : ℕ)
      (s : GraphState)
      → get s.jobs id ≡ some j
      → (reply : GraphExtractionJob × Bool) (next : GraphState)
      → enqueue_job job_digest run_id_of r now_ms s ≡ ok (reply, some next)
      → Stays s next
  unfolding enqueue_job
  enqueue_job-over job_digest run_id_of r now_ms s here reply next e =
      let p = prune_terminal_jobs s in
      let job = new_job job_digest run_id_of r now_ms in
      elim (Option-cases (get s.jobs r.job_id)) [
        | inr (v, found) ↦ absurd (ground (arith, e, found))
        | inl missing ↦
            let eq : next.jobs ≡ insert p.jobs r.job_id job = ground (arith, e, missing) in
            let other : str_eq r.job_id id ≡ false =
              ground (arith, missing, here, eq_iff r.job_id id) in
            elim (pruned-over s here) [
              | inl (full, gone) ↦
                  inl (full, ground (arith, eq, gone, other, get-insert p.jobs r.job_id job id))
              | inr still ↦
                  inr (ground (arith, eq, still, other, get-insert p.jobs r.job_id job id))
            ]
      ]

  pub after-over :
      {Reply : Type 0} (committed : Bool) (change : Change Reply) (s : GraphState)
      → get s.jobs id ≡ some j
      → ((reply : Reply) (next : GraphState) → change ≡ ok (reply, some next) → Stays s next)
      → Stays s (after committed change s)
  after-over committed (err _) s here keep = inr here
  after-over committed (ok (_, none)) s here keep = inr here
  after-over false (ok (_, some next)) s here keep = inr here
  after-over true (ok (reply, some next)) s here keep = keep reply next refl
