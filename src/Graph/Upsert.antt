-- ===== src/Graph/Upsert.antt =====
-- src/graph/mod.rs: what an extraction adds to the graph, `apply_upsert` and the builders that it
-- calls. The hash of a text, Unicode normalisation, the decimal form of a time, and the scanners of
-- `Validation` are fields of `Services`.
pub mod Evidence
pub mod Resolve
pub mod Entities
pub mod Relations
pub mod Facts
pub mod Observations
pub mod Apply
pub mod Passes
pub mod Built
pub mod Known
pub mod Sound
pub mod Valid
pub mod References
pub mod Grounded
pub mod Runs
pub mod Frame
pub mod Settles
use opencode_native_memory.Prelude.{
  ℕ, Bool, true, false, not, ◌&&◌, Option, none, some, List, [], ◌∷◌, String, str_eq, any, all,
  if◌then◌else◌,
}
use opencode_native_memory.Prelude.Result.{Result, ok, err}
use opencode_native_memory.Float.{F32, F64}
use opencode_native_memory.State.Validate.{contains}
use opencode_native_memory.Validation.Scan.{ValidationPolicy, Scanners, scan_sensitive_with_policy}
use opencode_native_memory.Validation.Injection.{
  Classifiers, contains_instruction_injection_with_policy,
}
use opencode_native_memory.Graph.Defs.{
  GraphScope, GraphEvidence, GraphEntity, GraphRelation, DerivedFact, GraphObservation,
  GraphMention, GraphRun, GraphState, GraphSource,
}
use opencode_native_memory.Graph.Validate.{GraphError}

pub record Services : Type 0 where
  -- `&hash_hex(text.as_bytes())[..32]`, and the whole of it
  pub hash32 : String → String
  pub hash_hex : String → String
  -- `text.nfkc().collect::<String>().to_lowercase()`
  pub fold_case : String → String
  -- `{:?}` of an optional time
  pub debug_time : Option ℕ → String
  pub scanners : Scanners
  pub classifiers : Classifiers
  pub policy : ValidationPolicy

pub record GraphEvidenceInput : Type 0 where
  pub source_unit_id : String
  pub quote : String
  pub utf8_start : Option ℕ
  pub utf8_end : Option ℕ
  pub occurrence_index : ℕ

pub record GraphEntityInput : Type 0 where
  pub mention : String
  pub canonical_hint : String
  pub entity_type : String
  pub aliases : List String
  pub evidence : List GraphEvidenceInput
  pub confidence : F64
  pub embedding : List F32
  pub embedding_generation_id : String

pub record GraphRelationInput : Type 0 where
  pub subject_mention : String
  pub predicate : String
  pub object_mention : String
  pub relation_type : String
  pub valid_at_ms : Option ℕ
  pub invalid_at_ms : Option ℕ
  pub evidence : List GraphEvidenceInput
  pub confidence : F64

pub record GraphFactInput : Type 0 where
  pub text : String
  pub fact_type : String
  pub context : String
  pub occurred_start_ms : Option ℕ
  pub occurred_end_ms : Option ℕ
  pub mentioned_at_ms : Option ℕ
  pub entity_mentions : List String
  pub causal_fact_indexes : List ℕ
  pub evidence : List GraphEvidenceInput
  pub confidence : F64
  pub embedding : List F32
  pub embedding_generation_id : String

pub record GraphObservationInput : Type 0 where
  pub statement : String
  pub source_fact_indexes : List ℕ
  pub confidence : F64
  pub embedding : List F32
  pub embedding_generation_id : String

pub record GraphRunMetrics : Type 0 where
  pub input_bytes : ℕ
  pub output_bytes : ℕ
  pub latency_ms : ℕ

pub data UpsertError : Type 0 where
  invalid : GraphError → UpsertError
  sensitive injected bad_fact_type long_context bad_time_range : UpsertError
  evidence_count bad_quote unknown_unit bad_offsets quote_missing no_evidence crosses_scopes :
      UpsertError
  ambiguous_entity crossed_resolution unsupported_predicate subject_missing object_missing :
      UpsertError
  relation_conflict : String → UpsertError
  unaccepted_cause causal_crosses_scope unaccepted_fact fact_count : UpsertError
  too_many_candidates run_reused units_not_unique run_reserved : UpsertError

abbrev pub from_graph {ℓ} : {A : Type ℓ} → Result GraphError A → Result UpsertError A
from_graph (ok a) = ok a
from_graph (err e) = err (invalid e)

-- `scan_sensitive_with_policy(...)?` and the guard on injections, which come together
unfoldable pub check_text : Services → String → Result UpsertError (Unit {0})
unfolding scan_sensitive_with_policy contains_instruction_injection_with_policy
check_text sv text = elim (scan_sensitive_with_policy sv.scanners sv.policy text) [
  | err _ ↦ err sensitive
  | ok _ ↦
      if contains_instruction_injection_with_policy sv.classifiers sv.policy text
      then err injected
      else ok tt
]

-- The graph under construction, and the mentions that join it at the end.
pub record Work : Type 0 where
  pub graph : GraphState
  pub mentions : List GraphMention

-- `set.insert(id)` and `set.extend(ids)` of a set that is a list without repetitions
abbrev pub insert_id : List String → String → List String
insert_id ids id = if contains ids id then ids else id ∷ ids

unfoldable pub extend_ids : List String → List String → List String
extend_ids ids [] = ids
extend_ids ids (x ∷ xs) = extend_ids (insert_id ids x) xs

-- `==` of two sets
unfoldable pub same_ids : List String → List String → Bool
same_ids xs ys = all (contains ys) xs && all (contains xs) ys
