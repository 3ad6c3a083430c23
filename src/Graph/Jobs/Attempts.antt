-- ===== src/Graph/Jobs/Attempts.antt =====
-- src/graph/mod.rs: a job whose workers all disappear is not attempted for ever.
use opencode_native_memory.Prelude.{
  ℕ, ◌+◌, ◌&&◌, Bool, true, false, ◌≡◌, ◌∙◌, ap, sym, inl, inr, is_none_or, Bool-cases, List, [],
  ◌∷◌, String, leb, ltb, length, arith, if◌then◌else◌,
}
use opencode_native_memory.Graph.Defs.{queued, failed, GraphExtractionJob}
use opencode_native_memory.Graph.Jobs.{
  Claim, claimable_job, add_u64, recover_job, queue_or_fail_job, clear_job_lease,
}
use opencode_native_memory.Graph.Jobs.Operations.{claimed_job}

-- One attempt: a claim at a time and a generation, the end of whose lease a recovery finds.
pub record Attempt : Type 0 where
  pub claim : Claim
  pub now_ms : ℕ
  pub generation : ℕ

module _ (lease_token_of : String → String → String → ℕ → ℕ → String) where
  abbrev pub lapsed : Attempt → GraphExtractionJob → GraphExtractionJob
  lapsed a j =
      recover_job (add_u64 a.now_ms a.claim.lease_ttl_ms)
        (claimed_job lease_token_of a.claim a.now_ms a.generation j)

  unfoldable pub all_lapsed : List Attempt → GraphExtractionJob → GraphExtractionJob
  all_lapsed [] j = j
  all_lapsed (a ∷ attempts) j = all_lapsed attempts (lapsed a j)

  lapsed-next :
      (a : Attempt) (j : GraphExtractionJob)
      → leb (j.attempt_count + 1) 5 ≡ true
      → j.cancel_requested ≡ false
      → let next = lapsed a j in
        (next.attempt_count ≡ j.attempt_count + 1)
        × (next.max_attempts ≡ j.max_attempts)
        × (next.cancel_requested ≡ false)
        × (next.state ≡ (if ltb (j.attempt_count + 1) j.max_attempts then queued else failed))
  unfolding recover_job queue_or_fail_job clear_job_lease
  lapsed-next a j few plain = (
    ground (arith, few, plain),
    ground (arith, few, plain),
    ground (arith, few, plain),
    ground (arith, few, plain),
  )

  claimable-queued :
      (now_ms : ℕ) (j : GraphExtractionJob)
      → j.cancel_requested ≡ false
      → j.state ≡ (if ltb j.attempt_count j.max_attempts then queued else failed)
      → claimable_job now_ms j ≡ (
          ltb j.attempt_count j.max_attempts && is_none_or j.next_attempt_at_ms (λ t. leb t now_ms))
  unfolding claimable_job
  claimable-queued now_ms j plain state = elim (Bool-cases (ltb j.attempt_count j.max_attempts)) [
    | inl more ↦ ground (arith, plain, state, more)
    | inr none_left ↦ ground (arith, plain, state, none_left)
  ]

  all_lapsed-next :
      (attempts : List Attempt) (j : GraphExtractionJob)
      → j.cancel_requested ≡ false
      → leb j.max_attempts 5 ≡ true
      → leb (j.attempt_count + length attempts) j.max_attempts ≡ true
      → leb 1 (length attempts) ≡ true
      → let next = all_lapsed attempts j in
        (next.attempt_count ≡ j.attempt_count + length attempts)
        × (next.max_attempts ≡ j.max_attempts)
        × (next.cancel_requested ≡ false)
        × (next.state
            ≡ (if ltb (j.attempt_count + length attempts) j.max_attempts then queued else failed))
  unfolding all_lapsed
  all_lapsed-next [] j plain few left some_left = absurd (ground (arith, some_left))
  all_lapsed-next (a ∷ []) j plain few left some_left =
      lapsed-next a j (ground (arith, few, left)) plain
  all_lapsed-next (a ∷ b ∷ attempts) j plain few left some_left =
      let (count, limit, plain', _) = lapsed-next a j (ground (arith, few, left)) plain in
      let (count', limit', plain'', state) =
        all_lapsed-next (b ∷ attempts) (lapsed a j) plain' (ground (arith, few, limit))
          (ground (arith, left, count, limit)) (ground arith) in
      (
        ground (arith, count, count'),
        ground (arith, limit, limit'),
        plain'',
        ground (arith, state, count, limit),
      )

  -- A queued job that may be attempted at most five times, and that was not asked to cancel, whose
  -- workers let the leases of some of the attempts that it has left expire: it counts these attempts;
  -- while some are left it is queued again, and can be claimed at any time that is not before its next
  -- attempt; when none is left it has failed, and cannot be claimed any more.
  pub all_lapsed-fails :
      (attempts : List Attempt) (now_ms : ℕ) (j : GraphExtractionJob)
      → j.state ≡ queued
      → j.cancel_requested ≡ false
      → leb j.max_attempts 5 ≡ true
      → leb (j.attempt_count + length attempts) j.max_attempts ≡ true
      → leb 1 (length attempts) ≡ true
      → let next = all_lapsed attempts j in
        let more = ltb (j.attempt_count + length attempts) j.max_attempts in
        (next.attempt_count ≡ j.attempt_count + length attempts)
        × (next.state ≡ (if more then queued else failed))
        × (claimable_job now_ms next
            ≡ (more && is_none_or next.next_attempt_at_ms (λ t. leb t now_ms)))
  all_lapsed-fails attempts now_ms j at plain few left some_left =
      let next = all_lapsed attempts j in
      let (count, limit, plain', state) = all_lapsed-next attempts j plain few left some_left in
      let more : ltb (j.attempt_count + length attempts) j.max_attempts
          ≡ ltb next.attempt_count next.max_attempts =
        ground (arith, count, limit) in
      (
        count,
        state,
        claimable-queued now_ms next plain'
              (state ∙ ap (λ (b : Bool). if b then queued else failed) more)
            ∙ ap (λ b. b && is_none_or next.next_attempt_at_ms (λ t. leb t now_ms)) (sym more),
      )
