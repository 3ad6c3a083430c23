-- ===== src/ModelSwitch/Journal.antt =====
-- src/embedding_generation.rs and src/engine/model_switch.rs: what the journal keeps, and what a
-- cancellation may change.
use opencode_native_memory.Prelude.{
  ℕ, zero, suc, ◌-◌, ◌≤◌, ◌≡◌, ◌⊎◌, true, some, List, [], ◌∷◌, ◌++◌, String, length, drop, arith,
  Option-cases, inl, inr, length-drop, eq_refl,
}
use opencode_native_memory.Prelude.Int.{ℤ}
use opencode_native_memory.Prelude.Result.{Result, ok, for_each, >>-eq-ok}
use opencode_native_memory.ModelSwitch.{
  SwitchPhase, is_terminal, can_cancel, Job, Store, find_switch, trim_history, replace_current,
  validate_job, validate_store, SwitchError, CancelOutcome, cancel_job, max_switch_history,
}

module _ {Config : Type 0} where
  for_each-append :
      (xs ys : List (Job Config))
      → for_each validate_job xs ≡ ok tt
      → for_each validate_job ys ≡ ok tt
      → for_each validate_job (xs ++ ys) ≡ ok tt
  unfolding for_each
  for_each-append [] ys h k = k
  for_each-append (x ∷ xs) ys h k = ground (arith, h, k, for_each-append xs ys)

  for_each-drop :
      (n : ℕ) (xs : List (Job Config))
      → for_each validate_job xs ≡ ok tt
      → for_each validate_job (drop n xs) ≡ ok tt
  unfolding for_each
  for_each-drop zero xs h = h
  for_each-drop (suc n) [] h = h
  for_each-drop (suc n) (x ∷ xs) h = for_each-drop n xs (>>-eq-ok (validate_job x) _ h).1

  length-trim_history : (jobs : List (Job Config)) → length (trim_history jobs) ≤ max_switch_history
  unfolding trim_history
  length-trim_history jobs = ground (arith, length-drop (length jobs - max_switch_history) jobs)

  for_each-trim_history :
      (jobs : List (Job Config))
      → for_each validate_job jobs ≡ ok tt
      → for_each validate_job (trim_history jobs) ≡ ok tt
  unfolding trim_history
  for_each-trim_history jobs h =
      ground (arith, h, for_each-drop (length jobs - max_switch_history) jobs)

  -- Replacing the current job of a valid store by a valid job leaves a valid store, whose history is
  -- within its limit, and in which the new job is found by its id.
  pub replace_current-validate :
      (job : Job Config) (store : Store Config) (project_id : String)
      → validate_store store project_id ≡ ok tt
      → validate_job job ≡ ok tt
      → (validate_store (replace_current job store) project_id ≡ ok tt)
        × (find_switch (replace_current job store) job.switch_id ≡ some job)
  unfolding replace_current validate_store find_switch for_each
  replace_current-validate job store project_id valid fits = elim (Option-cases store.current) [
    | inl empty ↦ (ground (arith, empty, valid, fits), ground (arith, empty, eq_refl job.switch_id))
    | inr (previous, held) ↦
        let kept : for_each validate_job store.history ≡ ok tt = ground (arith, held, valid) in
        let last : validate_job previous ≡ ok tt = ground (arith, held, valid) in
        let all_kept : for_each validate_job (store.history ++ previous ∷ []) ≡ ok tt =
          for_each-append store.history (previous ∷ []) kept (ground (arith, last)) in
        (
          ground (
            arith,
            held,
            valid,
            fits,
            length-trim_history (store.history ++ previous ∷ []),
            for_each-trim_history (store.history ++ previous ∷ []) all_kept,
          ),
          ground (arith, held, eq_refl job.switch_id),
        )
  ]

  -- A cancellation that is granted finds a job that may still be cancelled, and marks it; any other
  -- answer leaves the job as it was, which is then committing or at its end.
  pub cancel_job-granted :
      (clock : Result SwitchError ℤ) (job after : Job Config) (outcome : CancelOutcome)
      → cancel_job clock job ≡ ok (outcome, after)
      → ((outcome ≡ CancelOutcome.requested)
          × (can_cancel job.phase ≡ true)
          × (after.phase ≡ SwitchPhase.cancel_requested)
          × (after.switch_cancel_requested ≡ true))
        ⊎ ((after ≡ job) × ((job.phase ≡ SwitchPhase.committing) ⊎ (is_terminal job.phase ≡ true)))
  unfolding cancel_job is_terminal can_cancel
  cancel_job-granted clock job after outcome h = ground (arith, h)
