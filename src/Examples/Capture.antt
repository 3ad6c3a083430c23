-- ===== src/Examples/Capture.antt =====
-- The capture gate at concrete signals. The arithmetic of `f32` is replaced by two functions that
-- keep their first argument.
use opencode_native_memory.Prelude.{◌≡◌, refl, true, false, [], ◌∷◌, any, ◌↔◌}
use opencode_native_memory.Prelude.Result.{ok}
use opencode_native_memory.Float.{F32, scaled, flt, in_unit, fmin}
use opencode_native_memory.State.Save.{normalize_id_list}
use opencode_native_memory.Capture
use opencode_native_memory.Capture.{
  CaptureGate, CaptureSignals, CapturePlan, evaluate, check_signals,
}
use opencode_native_memory.Capture.Decisions.{
  IsAccepted, IsUnsafe, evaluate-IsAccepted, evaluate-quarantine_iff,
}

abbrev first : F32 → F32 → F32
first a b = a

abbrev second : F32 → F32 → F32
second a b = b

abbrev half : F32
half = scaled 1 148

abbrev gate : CaptureGate
gate = record {
  significance_threshold = half;
  actionability_threshold = scaled 1 147;
  auto_compaction_confidence_cap = half;
}

-- an untrusted candidate with evidence, of importance 3/4
abbrev claimed : CaptureSignals
claimed = record {
  significance = scaled 3 147;
  importance = scaled 3 147;
  impact = half;
  rarity = half;
  source_trust = Capture.SourceTrust.untrusted;
  safety = Capture.CaptureSafety.untrusted_claim;
  novelty = Capture.NoveltyDisposition.novel;
  has_valid_evidence = true;
  suggested_supersession_ids = " m1" ∷ [];
  suggested_conflict_ids = [];
}

abbrev unproven : CaptureSignals
unproven = record claimed { has_valid_evidence = false }

abbrev plan : CapturePlan
plan = record {
  confidence = half;
  superseded_ids = "m1" ∷ [];
  conflict_ids = [];
  confidence_capped = true;
}

evaluate-IsAccepted_example : IsAccepted second first gate claimed plan
unfolding Capture.new_gate Capture.evaluate normalize_id_list in_unit flt fmin any
evaluate-IsAccepted_example =
    evaluate-IsAccepted second first half (scaled 1 147) half gate claimed plan refl refl

evaluate-quarantine_iff_example :
    ((d : Capture.CaptureDecision) × (evaluate second first gate unproven ≡ ok d))
    × (((r : Capture.QuarantineReason) × (evaluate second first gate unproven
            ≡ ok (Capture.CaptureDecision.quarantine r)))
        ↔ IsUnsafe unproven)
unfolding Capture.check_signals in_unit
evaluate-quarantine_iff_example = evaluate-quarantine_iff second first gate unproven refl
