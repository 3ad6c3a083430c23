-- ===== src/Graph/Upsert/Observations.antt =====
-- src/graph/mod.rs: `build_observation`.
use Prim.Native.String.{◌++◌}
use mathlib.Core.List.{◌++◌ as append}
use opencode_native_memory.Prelude.{
  ℕ, false, not, ◌||◌, ◌&&◌, Option, none, some, List, [], ◌∷◌, String, str_eq, leb, length, map,
  all, if◌then◌else◌,
}
use opencode_native_memory.Prelude.Map.{Map, get, insert, modify}
use opencode_native_memory.Prelude.Result.{Result, ok, err, ensure, ok_or, ◌>>=◌, ◌>>◌}
use opencode_native_memory.Float.{fmax64}
use opencode_native_memory.Graph.Defs.{
  GraphScope, GraphEvidence, DerivedFact, GraphObservation, GraphProvider, GraphState,
}
use opencode_native_memory.Graph.Validate.{validate_name, validate_confidence, same_scope, is_nil}
use opencode_native_memory.Graph.Erase.{collect_set}
use opencode_native_memory.Graph.Upsert.{
  Services, GraphObservationInput, UpsertError, from_graph, unaccepted_fact, fact_count,
  crosses_scopes, no_evidence, check_text, extend_ids, same_ids,
}
use opencode_native_memory.Graph.Upsert.Evidence.{dedup_evidence}
use opencode_native_memory.Graph.Upsert.Resolve.{normalize_name, scope_key, joined}
use opencode_native_memory.Graph.Upsert.Facts.{sorted_texts, Accepted, accepted_fact}

abbrev pub max_graph_facts : ℕ
max_graph_facts = 64

unfoldable pub source_facts : Accepted → List ℕ → Result UpsertError (List DerivedFact)
unfolding accepted_fact
source_facts accepted [] = ok []
source_facts accepted (index ∷ indexes) =
    let rest = source_facts accepted indexes in
    ok_or (accepted_fact accepted index) unaccepted_fact >>= λ f. rest >>= λ fs. ok (f ∷ fs)

unfoldable pub fact_evidence : List DerivedFact → List GraphEvidence
fact_evidence [] = []
fact_evidence (f ∷ fs) = append f.evidence (fact_evidence fs)

unfoldable pub facts_scope : List DerivedFact → Result UpsertError GraphScope
unfolding same_scope all
facts_scope [] = err no_evidence
facts_scope (f ∷ fs) = do
  ensure (all (λ (x : DerivedFact). same_scope x.scope f.scope) (f ∷ fs)) crosses_scopes
  ok f.scope

-- What a candidate comes to: the ids of its facts and of their memories, and the revisions it covers.
pub record Proof : Type 0 where
  pub scope : GraphScope
  pub source_fact_ids : List String
  pub source_memory_ids : List String
  pub consolidated_through_revision : String

-- the checks that a candidate passes before its facts are looked up
unfoldable pub check_statement : Services → GraphObservationInput → Result UpsertError (Unit {0})
unfolding validate_name check_text validate_confidence
check_statement sv c = do
  from_graph (validate_name c.statement)
  check_text sv c.statement
  from_graph (validate_confidence c.confidence)
  ensure (not (is_nil c.source_fact_indexes) && leb (length c.source_fact_indexes) max_graph_facts)
      fact_count

abbrev pub revision_of : Services → List GraphEvidence → String
revision_of sv evidence =
    sv.hash_hex
      (joined (sorted_texts (map (λ (e : GraphEvidence). e.extraction_revision) evidence)))

abbrev pub proof_of : Services → List DerivedFact → GraphScope → Proof
proof_of sv facts scope =
    let evidence = fact_evidence facts in
    record {
      scope = scope;
      source_fact_ids = collect_set (map (λ (f : DerivedFact). f.fact_id) facts);
      source_memory_ids = collect_set (map (λ (e : GraphEvidence). e.source_memory_id) evidence);
      consolidated_through_revision = revision_of sv evidence;
    }

unfoldable pub find_proof : Services → Accepted → List ℕ → Result UpsertError Proof
unfolding source_facts facts_scope fact_evidence dedup_evidence sorted_texts collect_set
find_proof sv accepted indexes = do
  facts ← source_facts accepted indexes
  scope ← facts_scope facts
  ensure (not (is_nil (dedup_evidence (fact_evidence facts)))) no_evidence
  ok (proof_of sv facts scope)

abbrev pub observation_id : Services → GraphObservationInput → GraphScope → String
observation_id sv c scope =
    "obs_" ++ sv.hash32 (joined (scope_key scope ∷ normalize_name sv c.statement ∷ []))

-- the current observations of the same facts, which the new one replaces
unfoldable pub superseded : Proof → String → Map GraphObservation → List String
unfolding same_scope same_ids
superseded p id [] = []
superseded p id ((_, o) ∷ m) =
    let rest = superseded p id m in
    if same_scope o.scope p.scope
      && (same_ids o.source_fact_ids p.source_fact_ids
          && (not (str_eq o.observation_id id) && str_eq o.freshness "current"))
    then o.observation_id ∷ rest
    else rest

unfoldable pub retire : ℕ → List String → Map GraphObservation → Map GraphObservation
retire now_ms [] m = m
retire now_ms (id ∷ ids) m = retire now_ms ids (
    modify m id
      (λ (o : GraphObservation). record o { freshness = "retired"; updated_at_ms = now_ms }))

abbrev pub new_observation :
    Services → GraphProvider → ℕ → GraphObservationInput → Proof → List String → GraphObservation
new_observation sv provider now_ms c p supersedes = record {
  observation_id = observation_id sv c p.scope;
  statement = c.statement;
  normalized_statement = normalize_name sv c.statement;
  scope = p.scope;
  source_fact_ids = p.source_fact_ids;
  source_memory_ids = p.source_memory_ids;
  proof_count = length p.source_fact_ids;
  confidence = c.confidence;
  consolidated_through_revision = p.consolidated_through_revision;
  freshness = "current";
  supersedes_observation_ids = collect_set supersedes;
  provider_id = provider.provider_id;
  model_id = provider.model_id;
  prompt_version = provider.prompt_version;
  schema_version = provider.schema_version;
  created_at_ms = now_ms;
  updated_at_ms = now_ms;
  reviewed = false;
  embedding = c.embedding;
  embedding_generation_id = c.embedding_generation_id;
}

abbrev pub merge_observation :
    ℕ → GraphObservationInput → Proof → GraphObservation → GraphObservation
merge_observation now_ms c p o =
    let source_fact_ids = extend_ids o.source_fact_ids p.source_fact_ids in
    record o {
      source_fact_ids = source_fact_ids;
      source_memory_ids = extend_ids o.source_memory_ids p.source_memory_ids;
      proof_count = length source_fact_ids;
      confidence = fmax64 o.confidence c.confidence;
      consolidated_through_revision = p.consolidated_through_revision;
      freshness =
          if str_eq o.freshness "invalidated" || str_eq o.freshness "retired"
          then o.freshness
          else "current";
      updated_at_ms = now_ms;
      embedding = if is_nil c.embedding then o.embedding else c.embedding;
      embedding_generation_id =
          if is_nil c.embedding then o.embedding_generation_id else c.embedding_generation_id;
    }

abbrev pub put_observation :
    Services
    → GraphProvider
    → ℕ
    → GraphObservationInput
    → Proof
    → Map GraphObservation
    → Option GraphObservation
    → GraphObservation × Map GraphObservation
put_observation sv provider now_ms c p m (some o) =
    let merged = merge_observation now_ms c p o in
    (merged, insert m (observation_id sv c p.scope) merged)
put_observation sv provider now_ms c p m none =
    let id = observation_id sv c p.scope in
    let ids = superseded p id m in
    let fresh = new_observation sv provider now_ms c p ids in
    (fresh, insert (retire now_ms ids m) id fresh)

-- the part of `build_observation` after the checks
unfoldable pub place_observation :
    Services
    → GraphProvider
    → ℕ
    → GraphObservationInput
    → GraphState
    → Proof
    → GraphObservation × GraphState
unfolding normalize_name superseded retire collect_set fmax64 extend_ids
place_observation sv provider now_ms c s p =
    let (o, observations) =
      put_observation sv provider now_ms c p s.observations
        (get s.observations (observation_id sv c p.scope)) in
    (o, record s { observations = observations })

unfoldable pub build_observation :
    Services
    → GraphProvider
    → ℕ
    → Accepted
    → GraphObservationInput
    → GraphState
    → Result UpsertError (GraphObservation × GraphState)
unfolding check_statement find_proof place_observation
build_observation sv provider now_ms accepted c s =
    check_statement sv c
    >> (find_proof sv accepted c.source_fact_indexes >>= λ p.
        ok (place_observation sv provider now_ms c s p))
