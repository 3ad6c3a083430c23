-- ===== src/Capture/Decisions.antt =====
-- src/capture.rs: what an accepted candidate satisfies, and which candidates are quarantined.
use opencode_native_memory.Prelude.{◌≡◌, ◌∙◌, ap, ◌↔◌, ◌⊎◌, inl, inr, true, false, arith}
use opencode_native_memory.Prelude.Result.{ok, >>=-eq-ok, ◌>>=◌}
use opencode_native_memory.Float.{F32, flt, fle, in_unit, fmin-le_right, fmin-in_unit}
use opencode_native_memory.Capture.{
  SourceTrust, CaptureSafety, CaptureSignals, CapturePlan, CaptureDecision, CaptureGate,
  QuarantineReason, validate_unit_finite, new_gate, is_untrusted, is_duplicate_candidate,
  check_signals, blend_actionability, decide, screen, evaluate,
}

-- what a candidate's signals and plan satisfy once it is accepted
pub record IsAccepted (mul add : F32 → F32 → F32) (gate : CaptureGate) (s : CaptureSignals)
    (p : CapturePlan) : Type 0 where
  pub no_secret : s.safety ≡ CaptureSafety.secret_leak → ⊥
  pub no_injection : s.safety ≡ CaptureSafety.injection → ⊥
  pub evidence :
      s.safety ≡ CaptureSafety.untrusted_claim
      → s.source_trust ≡ SourceTrust.untrusted
      → s.has_valid_evidence ≡ true
  pub not_duplicate : is_duplicate_candidate s.novelty ≡ false
  pub significant : flt s.significance gate.significance_threshold ≡ false
  pub actionable : flt (blend_actionability mul add s) gate.actionability_threshold ≡ false
  pub confidence_in_unit : in_unit p.confidence ≡ true
  pub confidence_within_cap :
      is_untrusted s.source_trust ≡ true
      → fle p.confidence gate.auto_compaction_confidence_cap ≡ true

-- A secret, an injection, or an untrusted claim without evidence.
abbrev pub IsUnsafe : CaptureSignals → Type 0
IsUnsafe s =
    (s.safety ≡ CaptureSafety.secret_leak)
    ⊎ ((s.safety ≡ CaptureSafety.injection)
        ⊎ ((s.safety ≡ CaptureSafety.untrusted_claim)
            × (s.source_trust ≡ SourceTrust.untrusted)
            × (s.has_valid_evidence ≡ false)))

unit_finite-in_unit : (v : F32) → validate_unit_finite v ≡ ok tt → in_unit v ≡ true
unfolding validate_unit_finite
unit_finite-in_unit v h = ground (arith, h)

cap-in_unit :
    (a b c : F32) (gate : CaptureGate)
    → new_gate a b c ≡ ok gate
    → in_unit gate.auto_compaction_confidence_cap ≡ true
unfolding new_gate
cap-in_unit a b c gate h = ground (arith, h, unit_finite-in_unit c)

importance-in_unit : (s : CaptureSignals) → check_signals s ≡ ok tt → in_unit s.importance ≡ true
unfolding check_signals
importance-in_unit s h = ground (arith, h, unit_finite-in_unit s.importance)

module _ (mul add : F32 → F32 → F32) where
  evaluate-parts :
      (gate : CaptureGate) (s : CaptureSignals) (d : CaptureDecision)
      → evaluate mul add gate s ≡ ok d
      → (check_signals s ≡ ok tt) × (screen mul add gate s ≡ d)
  unfolding evaluate
  evaluate-parts gate s d h =
      let (_, checked, screened) =
        >>=-eq-ok (check_signals s) (λ _. ok (screen mul add gate s)) h in
      (checked, cc)

  -- A candidate that a gate accepts carries no secret or injection, is no duplicate, reaches both
  -- thresholds, and gets a confidence within [0, 1] that, for an untrusted source, is at most the
  -- gate's cap; an untrusted claim from an untrusted source has valid evidence.
  pub evaluate-IsAccepted :
      (a b c : F32) (gate : CaptureGate) (s : CaptureSignals) (p : CapturePlan)
      → new_gate a b c ≡ ok gate
      → evaluate mul add gate s ≡ ok (CaptureDecision.accept p)
      → IsAccepted mul add gate s p
  unfolding screen decide
  evaluate-IsAccepted a b c gate s p built h =
      let (checked, screened) = evaluate-parts gate s (CaptureDecision.accept p) h in
      let cap = cap-in_unit a b c gate built in
      let unit = importance-in_unit s checked in
      let low = fmin-le_right s.importance gate.auto_compaction_confidence_cap cap unit in
      let both = fmin-in_unit s.importance gate.auto_compaction_confidence_cap unit cap in
      record {
        no_secret = λ e. ground (arith, screened, e);
        no_injection = λ e. ground (arith, screened, e);
        evidence = λ e u. ground (arith, screened, e, u);
        not_duplicate = ground (arith, screened);
        significant = ground (arith, screened);
        actionable = ground (arith, screened);
        confidence_in_unit = ground (arith, screened, unit, both);
        confidence_within_cap = λ u. ground (arith, screened, u, low);
      }

  quarantine-parts :
      (gate : CaptureGate) (s : CaptureSignals) (r : QuarantineReason)
      → screen mul add gate s ≡ CaptureDecision.quarantine r
      → IsUnsafe s
  unfolding screen decide
  quarantine-parts gate s r h = ground (arith, h)

  screen-unsafe :
      (gate : CaptureGate) (s : CaptureSignals)
      → IsUnsafe s
      → (r : QuarantineReason) × (screen mul add gate s ≡ CaptureDecision.quarantine r)
  unfolding screen
  screen-unsafe gate s (inl e) = (QuarantineReason.leaked, ground (arith, e))
  screen-unsafe gate s (inr (inl e)) = (QuarantineReason.injected, ground (arith, e))
  screen-unsafe gate s (inr (inr (e, u, v))) =
      (QuarantineReason.claim_without_evidence, ground (arith, e, u, v))

  evaluate-screen :
      (gate : CaptureGate) (s : CaptureSignals)
      → check_signals s ≡ ok tt
      → evaluate mul add gate s ≡ ok (screen mul add gate s)
  unfolding evaluate
  evaluate-screen gate s checked = ap (λ m. m >>= λ _. ok (screen mul add gate s)) checked

  -- Signals within their ranges are always decided on, and they are quarantined exactly when they
  -- report a secret, an injection, or an untrusted source's claim without evidence.
  pub evaluate-quarantine_iff :
      (gate : CaptureGate) (s : CaptureSignals)
      → check_signals s ≡ ok tt
      → ((d : CaptureDecision) × (evaluate mul add gate s ≡ ok d))
        × (((r : QuarantineReason) × (evaluate mul add gate s ≡ ok (CaptureDecision.quarantine r)))
            ↔ IsUnsafe s)
  evaluate-quarantine_iff gate s checked =
      let decided = evaluate-screen gate s checked in
      (
        (screen mul add gate s, decided),
        (
          λ (r, h).
              quarantine-parts gate s r (evaluate-parts gate s (CaptureDecision.quarantine r) h).1,
          λ unsafe. let (r, e) = screen-unsafe gate s unsafe in (r, decided ∙ ap ok e),
        ),
      )
