-- ===== src/Graph/Defs.antt =====
-- src/graph/mod.rs: the records that make up the state of the knowledge graph. A `BTreeSet` of texts
-- is a list without repetitions in which order means nothing, and a `BTreeMap` an association list.
use opencode_native_memory.Prelude.{ℕ, Bool, true, false, Option, List, [], String}
use opencode_native_memory.Prelude.Map.{Map}
use opencode_native_memory.Float.{F32, F64}

abbrev pub graph_schema_version : ℕ
graph_schema_version = 2

abbrev pub graph_policy_version : String
graph_policy_version = "egress-v1"

abbrev pub entity_normalization_version : String
entity_normalization_version = "nfkc-lowercase-whitespace-v1"

abbrev pub entity_resolution_version : String
entity_resolution_version = "exact-alias-token-jaccard-0.9-v1"

pub data GraphScopeKind : Type 0 where
  project repository agent session : GraphScopeKind

pub record GraphScope : Type 0 where
  pub project_id : String
  pub kind : GraphScopeKind
  pub scope_key : Option String

pub record GraphSource : Type 0 where
  pub source_memory_id : String
  pub source_unit_id : String
  pub content_hash : String
  pub extraction_revision : String
  pub scope : GraphScope
  pub origin : String
  pub policy_revision : String
  pub remote_eligible : Bool
  pub reference_time_ms : ℕ
  pub text : String

pub record GraphEvidence : Type 0 where
  pub source_memory_id : String
  pub source_unit_id : String
  pub content_hash : String
  pub extraction_revision : String
  pub scope : GraphScope
  pub quote : String
  pub occurrence_index : ℕ
  pub utf8_start : Option ℕ
  pub utf8_end : Option ℕ

pub record GraphEntity : Type 0 where
  pub entity_id : String
  pub canonical_name : String
  pub normalized_name : String
  pub entity_type : String
  pub aliases : List String
  pub scope : GraphScope
  pub first_seen_at_ms : ℕ
  pub last_seen_at_ms : ℕ
  pub source_count : ℕ
  pub embedding : List F32
  pub embedding_generation_id : String

pub record GraphRelation : Type 0 where
  pub relation_id : String
  pub subject_entity_id : String
  pub predicate : String
  pub object_entity_id : String
  pub relation_type : String
  pub valid_at_ms : Option ℕ
  pub invalid_at_ms : Option ℕ
  pub created_at_ms : ℕ
  pub extracted_at_ms : ℕ
  pub confidence : F64
  pub status : String
  pub evidence : List GraphEvidence
  pub extractor_version : String
  pub scope : GraphScope

pub record DerivedFact : Type 0 where
  pub fact_id : String
  pub text : String
  pub normalized_text : String
  pub fact_type : String
  pub context : String
  pub occurred_start_ms : Option ℕ
  pub occurred_end_ms : Option ℕ
  pub mentioned_at_ms : Option ℕ
  pub learned_at_ms : ℕ
  pub entity_ids : List String
  pub causal_fact_ids : List String
  pub confidence : F64
  pub status : String
  pub evidence : List GraphEvidence
  pub scope : GraphScope
  pub provider_id : String
  pub model_id : String
  pub prompt_version : String
  pub schema_version : String
  pub embedding : List F32
  pub embedding_generation_id : String

pub record GraphObservation : Type 0 where
  pub observation_id : String
  pub statement : String
  pub normalized_statement : String
  pub scope : GraphScope
  pub source_fact_ids : List String
  pub source_memory_ids : List String
  pub proof_count : ℕ
  pub confidence : F64
  pub consolidated_through_revision : String
  pub freshness : String
  pub supersedes_observation_ids : List String
  pub provider_id : String
  pub model_id : String
  pub prompt_version : String
  pub schema_version : String
  pub created_at_ms : ℕ
  pub updated_at_ms : ℕ
  pub reviewed : Bool
  pub embedding : List F32
  pub embedding_generation_id : String

pub record GraphMention : Type 0 where
  pub entity_id : String
  pub evidence : GraphEvidence

pub record GraphRun : Type 0 where
  pub extraction_run_id : String
  pub idempotency_digest : String
  pub outcome : String
  pub committed_at_ms : ℕ
  pub source_count : ℕ
  pub accepted_entity_count : ℕ
  pub accepted_relation_count : ℕ
  pub accepted_fact_count : ℕ
  pub accepted_observation_count : ℕ
  pub rejected_candidate_count : ℕ
  pub conflict_count : ℕ
  pub warning_count : ℕ
  pub terminal : Bool
  pub provider_id : String
  pub model_id : String
  pub extractor_version : String
  pub prompt_version : String
  pub candidate_schema_version : String
  pub scopes : List GraphScope
  pub source_ids : List String
  pub input_bytes : ℕ
  pub output_bytes : ℕ
  pub latency_ms : ℕ

pub data GraphJobState : Type 0 where
  queued claimed running completed failed cancelled : GraphJobState

abbrev pub is_terminal : GraphJobState → Bool
is_terminal completed = true
is_terminal failed = true
is_terminal cancelled = true
is_terminal queued = false
is_terminal claimed = false
is_terminal running = false

abbrev pub is_active : GraphJobState → Bool
is_active claimed = true
is_active running = true
is_active queued = false
is_active completed = false
is_active failed = false
is_active cancelled = false

pub record GraphJobSource : Type 0 where
  pub source_memory_id : String
  pub source_unit_id : String
  pub content_hash : String
  pub extraction_revision : String
  pub scope : GraphScope
  pub origin : String
  pub policy_revision : String
  pub remote_eligible : Bool
  pub reference_time_ms : ℕ

-- `GraphJobSource::from`
abbrev pub job_source : GraphSource → GraphJobSource
job_source s = record {
  source_memory_id = s.source_memory_id;
  source_unit_id = s.source_unit_id;
  content_hash = s.content_hash;
  extraction_revision = s.extraction_revision;
  scope = s.scope;
  origin = s.origin;
  policy_revision = s.policy_revision;
  remote_eligible = s.remote_eligible;
  reference_time_ms = s.reference_time_ms;
}

pub record GraphProvider : Type 0 where
  pub provider_id : String
  pub model_id : String
  pub extractor_version : String
  pub prompt_version : String
  pub schema_version : String
  pub variant : Option String

pub record GraphExtractionJob : Type 0 where
  pub job_id : String
  pub idempotency_digest : String
  pub state : GraphJobState
  pub sources : List GraphJobSource
  pub provider : GraphProvider
  pub attempt_count : ℕ
  pub max_attempts : ℕ
  pub created_at_ms : ℕ
  pub updated_at_ms : ℕ
  pub lease_expires_at_ms : Option ℕ
  pub lease_token : Option String
  pub claim_request_id : Option String
  pub worker_id : Option String
  pub extraction_run_id : String
  pub next_attempt_at_ms : Option ℕ
  pub cancel_requested : Bool
  pub error_code : String
  pub error_message : String
  pub max_unit_text_bytes : ℕ
  pub max_total_text_bytes : ℕ
  pub completion_digest : Option String
  pub completion_lease_token_hash : Option String

pub record GraphState : Type 0 where
  pub schema_version : ℕ
  pub generation : ℕ
  pub policy_revision : String
  pub normalization_version : String
  pub resolution_version : String
  pub entities : Map GraphEntity
  pub relations : Map GraphRelation
  pub facts : Map DerivedFact
  pub observations : Map GraphObservation
  pub mentions : List GraphMention
  pub runs : Map GraphRun
  pub jobs : Map GraphExtractionJob

-- `GraphState::default`
abbrev pub default_graph : GraphState
default_graph = record {
  schema_version = graph_schema_version;
  generation = 0;
  policy_revision = graph_policy_version;
  normalization_version = entity_normalization_version;
  resolution_version = entity_resolution_version;
  entities = [];
  relations = [];
  facts = [];
  observations = [];
  mentions = [];
  runs = [];
  jobs = [];
}
