-- ===== src/Graph/Validate.antt =====
-- src/graph/mod.rs: what `validate_state` checks before a state of the graph is committed and after it
-- is loaded. The Euclidean norm of an embedding, a sum and a root of `f64`, is a parameter.
mod Fields
unfoldable pub use Fields.*
use Prim.Native.String.{count}
use opencode_native_memory.Prelude.{
  ℕ, ◌*◌, ◌^◌, Bool, true, false, not, ◌&&◌, ◌||◌, Option, none, some, List, [], ◌∷◌, String,
  str_eq, leb, ltb, ◌==◌, length, all, is_some, is_none, is_none_or, is_some_and, unwrap_or,
  if◌then◌else◌,
}
use opencode_native_memory.Prelude.Int.{pos}
use opencode_native_memory.Prelude.Map.{Map, contains_key}
use opencode_native_memory.Prelude.Result.{Result, ensure, for_each, ◌>>◌}
use opencode_native_memory.Prelude.Text.{is_empty, is_blank, byte_length, any_char, all_chars}
use opencode_native_memory.Float.{F32, F64, is_finite, is_finite64, within64}
use opencode_native_memory.Graph.Defs.{
  GraphScopeKind, GraphScope, GraphEvidence, GraphEntity, GraphRelation, DerivedFact,
  GraphObservation, GraphMention, GraphRun, GraphJobState, is_active, GraphJobSource, GraphProvider,
  GraphExtractionJob, GraphState, graph_schema_version, graph_policy_version,
  entity_normalization_version, entity_resolution_version,
}

module _ (norm : List F32 → F64) where
  unfoldable pub validate_embedding : List F32 → String → Result GraphError (Unit {0})
  validate_embedding embedding generation_id =
      ensure
        (is_nil embedding
          || (not (is_blank generation_id)
              && (leb (length embedding) 8192
                  && (all is_finite embedding
                      && (is_finite64 (norm embedding)
                          && within64 (pos (8917127262193582 * 2 ^ 1021))
                              (pos (4548635623644201 * 2 ^ 1022)) (norm embedding))))))
        invalid_embedding

  unfoldable pub validate_entity : String × GraphEntity → Result GraphError (Unit {0})
  unfolding validate_embedding validate_scope
  validate_entity (id, e) = do
    ensure (str_eq id e.entity_id) key_mismatch
    ensure (not (is_empty e.canonical_name)) blank_name
    validate_scope e.scope
    validate_embedding e.embedding e.embedding_generation_id

  unfoldable pub validate_fact :
      Map GraphEntity → Map DerivedFact → String × DerivedFact → Result GraphError (Unit {0})
  unfolding validate_embedding validate_scope validate_name validate_confidence for_each
  validate_fact entities facts (id, f) = do
    ensure (str_eq id f.fact_id) key_mismatch
    validate_name f.text
    ensure (str_eq f.fact_type "world" || str_eq f.fact_type "experience") invalid_fact
    ensure (str_eq f.status "active") invalid_fact
    validate_confidence f.confidence
    validate_scope f.scope
    ensure (not (is_nil f.evidence)) invalid_fact
    ensure (all (λ (e : GraphEvidence). same_scope e.scope f.scope) f.evidence) crosses_scopes
    ensure (all (contains_key entities) f.entity_ids) missing_reference
    ensure (all (contains_key facts) f.causal_fact_ids) missing_reference
    ensure (in_order f.occurred_start_ms f.occurred_end_ms) invalid_fact
    for_each validate_persisted_evidence f.evidence
    validate_embedding f.embedding f.embedding_generation_id

  unfoldable pub validate_observation :
      Map DerivedFact → String × GraphObservation → Result GraphError (Unit {0})
  unfolding validate_embedding validate_scope validate_name validate_confidence
  validate_observation facts (id, o) = do
    ensure (str_eq id o.observation_id) key_mismatch
    validate_name o.statement
    validate_scope o.scope
    validate_confidence o.confidence
    ensure
        (str_eq o.freshness "current"
          || (str_eq o.freshness "stale"
              || (str_eq o.freshness "rebuilding"
                  || (str_eq o.freshness "retired" || str_eq o.freshness "invalidated"))))
        invalid_observation
    ensure (o.proof_count == length o.source_fact_ids) invalid_observation
    ensure (all (contains_key facts) o.source_fact_ids) missing_reference
    ensure (not (str_eq o.freshness "current") || ltb 0 o.proof_count) invalid_observation
    validate_embedding o.embedding o.embedding_generation_id

unfoldable pub validate_relation :
    Map GraphEntity → String × GraphRelation → Result GraphError (Unit {0})
unfolding validate_scope same_scope validate_persisted_evidence for_each
validate_relation entities (id, r) = do
  ensure (str_eq id r.relation_id) key_mismatch
  ensure (contains_key entities r.subject_entity_id) missing_reference
  ensure (contains_key entities r.object_entity_id) missing_reference
  ensure (not (is_nil r.evidence)) invalid_relation
  ensure (is_later r.invalid_at_ms r.valid_at_ms) invalid_relation
  validate_scope r.scope
  ensure (all (λ (e : GraphEvidence). same_scope e.scope r.scope) r.evidence) crosses_scopes
  for_each validate_persisted_evidence r.evidence

unfoldable pub validate_mention : Map GraphEntity → GraphMention → Result GraphError (Unit {0})
unfolding validate_persisted_evidence
validate_mention entities m = do
  ensure (contains_key entities m.entity_id) missing_reference
  validate_persisted_evidence m.evidence

unfoldable pub validate_run : String × GraphRun → Result GraphError (Unit {0})
unfolding validate_run_id validate_scope for_each
validate_run (id, r) = do
  ensure (str_eq id r.extraction_run_id) key_mismatch
  validate_run_id id
  ensure
      (not (is_empty r.idempotency_digest)
        && (not (is_empty r.provider_id)
            && (not (is_empty r.model_id)
                && (not (is_empty r.extractor_version)
                    && (not (is_empty r.prompt_version)
                        && not (is_empty r.candidate_schema_version))))))
      invalid_run
  for_each validate_scope r.scopes

unfoldable pub validate_job_source : GraphJobSource → Result GraphError (Unit {0})
unfolding validate_scope
validate_job_source s = do
  ensure
      (not (is_empty s.source_memory_id)
        && (not (is_empty s.source_unit_id)
            && (not (is_empty s.content_hash)
                && (not (is_empty s.extraction_revision)
                    && (not (is_empty s.origin) && s.remote_eligible)))))
      invalid_job
  validate_scope s.scope
  ensure (str_eq s.policy_revision graph_policy_version) unsupported_version

-- the checks of a job's lease and of its completion fence
unfoldable pub validate_lease : GraphExtractionJob → Result GraphError (Unit {0})
unfolding validate_job_token validate_job_id
validate_lease j =
    if is_active j.state
    then (do
      ensure
          (is_some j.lease_expires_at_ms
            && (is_some j.lease_token && (is_some j.claim_request_id && is_some j.worker_id)))
          job_lease
      validate_job_token (unwrap_or j.lease_token "")
      validate_job_id (unwrap_or j.claim_request_id "")
      validate_job_id (unwrap_or j.worker_id ""))
    else ensure (is_none j.lease_expires_at_ms && is_none j.lease_token) job_lease

unfoldable pub validate_fence : GraphExtractionJob → Result GraphError (Unit {0})
unfolding validate_job_token
validate_fence j = elim j.state [
  | GraphJobState.completed ↦ (do
    ensure (is_some j.completion_digest && is_some j.completion_lease_token_hash) job_fence
    validate_job_token (unwrap_or j.completion_lease_token_hash ""))
  | _ ↦ ensure (is_none j.completion_digest && is_none j.completion_lease_token_hash) job_fence
]

unfoldable pub validate_job : String × GraphExtractionJob → Result GraphError (Unit {0})
unfolding validate_job_id validate_run_id validate_provider validate_job_source validate_lease
    validate_fence validate_job_error for_each
validate_job (id, j) = do
  ensure (str_eq id j.job_id) key_mismatch
  validate_job_id id
  ensure
      (not (is_empty j.idempotency_digest)
        && (not (is_empty j.extraction_run_id)
            && (leb 1 j.max_attempts && leb j.max_attempts max_graph_job_attempts)))
      invalid_job
  validate_run_id j.extraction_run_id
  validate_provider j.provider
  ensure (not (is_nil j.sources) && leb (length j.sources) max_graph_units) invalid_job
  ensure
      ((leb 1 j.max_unit_text_bytes && leb j.max_unit_text_bytes max_graph_text_bytes)
        && (leb j.max_unit_text_bytes j.max_total_text_bytes
            && leb j.max_total_text_bytes max_graph_total_text_bytes))
      invalid_job
  for_each validate_job_source j.sources
  validate_lease j
  validate_fence j
  validate_job_error j.error_code true
  validate_job_error j.error_message true

-- `validate_state`
unfoldable pub validate_graph : (List F32 → F64) → GraphState → Result GraphError (Unit {0})
unfolding validate_entity validate_fact validate_observation validate_relation validate_mention
    validate_run validate_job for_each
validate_graph norm s = do
  ensure (s.schema_version == graph_schema_version) unsupported_version
  ensure (str_eq s.policy_revision graph_policy_version) unsupported_version
  ensure (str_eq s.normalization_version entity_normalization_version) unsupported_version
  ensure (str_eq s.resolution_version entity_resolution_version) unsupported_version
  ensure (leb (length s.entities) 100000) too_many
  ensure (leb (length s.relations) 100000) too_many
  ensure (leb (length s.facts) 100000) too_many
  ensure (leb (length s.observations) 100000) too_many
  ensure (leb (length s.mentions) 500000) too_many
  ensure (leb (length s.jobs) max_graph_jobs) too_many
  for_each (validate_entity norm) s.entities
  for_each (validate_fact norm s.entities s.facts) s.facts
  for_each (validate_observation norm s.facts) s.observations
  for_each (validate_relation s.entities) s.relations
  for_each (validate_mention s.entities) s.mentions
  for_each validate_run s.runs
  for_each validate_job s.jobs
