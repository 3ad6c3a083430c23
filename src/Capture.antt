-- ===== src/Capture.antt =====
-- src/capture.rs: the gate that decides whether a candidate memory is kept, from signals that the
-- caller supplies. The product and the sum of two `f32` are parameters.
pub mod Decisions
use opencode_native_memory.Prelude.{
  ℕ, Bool, true, false, not, ◌&&◌, List, String, leb, length, if◌then◌else◌,
}
use opencode_native_memory.Prelude.Result.{Result, ok, err, ensure, ◌>>=◌, ◌>>◌}
use opencode_native_memory.Float.{F32, scaled, is_finite, flt, fmin, in_unit}
use opencode_native_memory.State.Save.{normalize_id_list}

abbrev pub max_suggested_relation_ids : ℕ
max_suggested_relation_ids = 64

-- 0.4 and 0.3, each the nearest `f32`
abbrev pub actionability_importance_weight : F32
actionability_importance_weight = scaled 13421773 124

abbrev pub actionability_impact_weight : F32
actionability_impact_weight = scaled 10066330 124

abbrev pub actionability_rarity_weight : F32
actionability_rarity_weight = scaled 10066330 124

pub data SourceTrust : Type 0 where
  authoritative user agent untrusted : SourceTrust

pub data CaptureSafety : Type 0 where
  safe secret_leak injection untrusted_claim : CaptureSafety

pub data NoveltyDisposition : Type 0 where
  novel duplicate supersedes conflicts : NoveltyDisposition

pub record CaptureSignals : Type 0 where
  pub significance : F32
  pub importance : F32
  pub impact : F32
  pub rarity : F32
  pub source_trust : SourceTrust
  pub safety : CaptureSafety
  pub novelty : NoveltyDisposition
  pub has_valid_evidence : Bool
  pub suggested_supersession_ids : List String
  pub suggested_conflict_ids : List String

pub data SkipReason : Type 0 where
  low_significance low_actionability is_duplicate : SkipReason

pub data QuarantineReason : Type 0 where
  leaked injected claim_without_evidence : QuarantineReason

pub record CapturePlan : Type 0 where
  pub confidence : F32
  pub superseded_ids : List String
  pub conflict_ids : List String
  pub confidence_capped : Bool

pub data CaptureDecision : Type 0 where
  skip : SkipReason → F32 → F32 → CaptureDecision
  quarantine : QuarantineReason → CaptureDecision
  accept : CapturePlan → CaptureDecision

pub data CaptureError : Type 0 where
  not_finite out_of_range too_many_supersessions too_many_conflicts : CaptureError

pub record CaptureGate : Type 0 where
  pub significance_threshold : F32
  pub actionability_threshold : F32
  pub auto_compaction_confidence_cap : F32

unfoldable pub validate_unit_finite : F32 → Result CaptureError (Unit {0})
validate_unit_finite v = do ensure (is_finite v) not_finite; ensure (in_unit v) out_of_range

-- `CaptureGate::new`
unfoldable pub new_gate : F32 → F32 → F32 → Result CaptureError CaptureGate
unfolding validate_unit_finite
new_gate significance actionability cap = do
  validate_unit_finite significance
  validate_unit_finite actionability
  validate_unit_finite cap
  ok (record {
    significance_threshold = significance;
    actionability_threshold = actionability;
    auto_compaction_confidence_cap = cap;
  })

abbrev pub is_untrusted : SourceTrust → Bool
is_untrusted untrusted = true
is_untrusted authoritative = false
is_untrusted user = false
is_untrusted agent = false

abbrev pub is_duplicate_candidate : NoveltyDisposition → Bool
is_duplicate_candidate duplicate = true
is_duplicate_candidate novel = false
is_duplicate_candidate supersedes = false
is_duplicate_candidate conflicts = false

-- the checks at the top of `evaluate`
unfoldable pub check_signals : CaptureSignals → Result CaptureError (Unit {0})
unfolding validate_unit_finite
check_signals s = do
  validate_unit_finite s.significance
  validate_unit_finite s.importance
  validate_unit_finite s.impact
  validate_unit_finite s.rarity
  ensure (leb (length s.suggested_supersession_ids) max_suggested_relation_ids)
      too_many_supersessions
  ensure (leb (length s.suggested_conflict_ids) max_suggested_relation_ids) too_many_conflicts

module _ (mul add : F32 → F32 → F32) where
  unfoldable pub blend_actionability : CaptureSignals → F32
  blend_actionability s =
      add
        (add (mul actionability_importance_weight s.importance)
          (mul actionability_impact_weight s.impact))
        (mul actionability_rarity_weight s.rarity)

  -- the part of `evaluate` after the quarantine
  unfoldable pub decide : CaptureGate → CaptureSignals → CaptureDecision
  unfolding blend_actionability
  decide gate s =
      let actionability = blend_actionability s in
      if is_duplicate_candidate s.novelty
      then skip is_duplicate s.significance actionability
      else if flt s.significance gate.significance_threshold
      then skip low_significance s.significance actionability
      else if flt actionability gate.actionability_threshold
      then skip low_actionability s.significance actionability
      else accept (record {
        confidence =
            if is_untrusted s.source_trust
            then fmin s.importance gate.auto_compaction_confidence_cap
            else s.importance;
        superseded_ids = normalize_id_list s.suggested_supersession_ids;
        conflict_ids = normalize_id_list s.suggested_conflict_ids;
        confidence_capped =
            is_untrusted s.source_trust && flt gate.auto_compaction_confidence_cap s.importance;
      })

  unfoldable pub screen : CaptureGate → CaptureSignals → CaptureDecision
  unfolding decide
  screen gate s = elim s.safety [
    | secret_leak ↦ quarantine leaked
    | injection ↦ quarantine injected
    | untrusted_claim ↦
        if is_untrusted s.source_trust && not s.has_valid_evidence
        then quarantine claim_without_evidence
        else decide gate s
    | safe ↦ decide gate s
  ]

  -- `CaptureGate::evaluate`
  unfoldable pub evaluate : CaptureGate → CaptureSignals → Result CaptureError CaptureDecision
  unfolding check_signals screen
  evaluate gate s = do check_signals s; ok (screen gate s)
