-- ===== src/Examples/Graph.antt =====
-- The knowledge graph at concrete inputs.
pub mod Jobs
mod Files
pub mod Erasure
pub mod Upserts
mod Searches
use opencode_native_memory.Graph.Store.{Encoding}
use opencode_native_memory.Prelude.{ℕ, List, none, [], ◌∷◌, String, true}
use opencode_native_memory.Prelude.Int.{pos}
use opencode_native_memory.Float.{F32, F64, finite64}
use opencode_native_memory.Graph.Defs.{
  GraphScopeKind, GraphScope, GraphEvidence, GraphEntity, DerivedFact, GraphMention, GraphSource,
  GraphProvider, GraphState, default_graph,
}

abbrev pub scope : GraphScope
scope = record { project_id = "p"; kind = GraphScopeKind.project; scope_key = none }

abbrev pub evidence_of : String → GraphEvidence
evidence_of memory = record {
  source_memory_id = memory;
  source_unit_id = "u";
  content_hash = "h";
  extraction_revision = "r";
  scope = scope;
  quote = "q";
  occurrence_index = 0;
  utf8_start = none;
  utf8_end = none;
}

abbrev pub entity : GraphEntity
entity = record {
  entity_id = "e1";
  canonical_name = "Rust";
  normalized_name = "rust";
  entity_type = "tool";
  aliases = [];
  scope = scope;
  first_seen_at_ms = 1;
  last_seen_at_ms = 1;
  source_count = 1;
  embedding = [];
  embedding_generation_id = "";
}

abbrev pub fact : DerivedFact
fact = record {
  fact_id = "f1";
  text = "t";
  normalized_text = "t";
  fact_type = "world";
  context = "";
  occurred_start_ms = none;
  occurred_end_ms = none;
  mentioned_at_ms = none;
  learned_at_ms = 1;
  entity_ids = "e1" ∷ [];
  causal_fact_ids = [];
  confidence = finite64 (pos 1);
  status = "active";
  evidence = evidence_of "m2" ∷ [];
  scope = scope;
  provider_id = "a";
  model_id = "b";
  prompt_version = "c";
  schema_version = "d";
  embedding = [];
  embedding_generation_id = "";
}

-- a fact from the memory m2 about an entity that the memory m1 alone mentions
abbrev pub small_graph : GraphState
small_graph = record default_graph {
  entities = ("e1", entity) ∷ [];
  facts = ("f1", fact) ∷ [];
  mentions = record { entity_id = "e1"; evidence = evidence_of "m1" } ∷ [];
}

abbrev pub no_norm : List F32 → F64
no_norm _ = finite64 (pos 0)

abbrev pub provider : GraphProvider
provider = record {
  provider_id = "a";
  model_id = "b";
  extractor_version = "c";
  prompt_version = "d";
  schema_version = "e";
  variant = none;
}

abbrev pub source : GraphSource
source = record {
  source_memory_id = "m1";
  source_unit_id = "u";
  content_hash = "h";
  extraction_revision = "r";
  scope = scope;
  origin = "user";
  policy_revision = "egress-v1";
  remote_eligible = true;
  reference_time_ms = 1;
  text = "t";
}

abbrev pub encoding : Encoding
encoding = record { state_bytes = λ _. 100; more_bytes = λ _. 60 }
