-- ===== src/Graph/Search.antt =====
-- src/graph/mod.rs: `search_learning`, which scores what the graph has against a query and follows
-- its relations. The arithmetic of `f64` is `Scores`.
pub mod Scoring
pub mod Rounds
pub mod Results
pub mod Answer
pub mod Reached
pub mod Ranked
pub mod Keyed
pub mod Ends
pub mod Eligible
use opencode_native_memory.Prelude.{ℕ, Option, List, String}
use opencode_native_memory.Prelude.Int.{pos}
use opencode_native_memory.Float.{F32, F64, finite64}
use opencode_native_memory.Graph.Defs.{
  GraphEvidence, GraphEntity, GraphRelation, DerivedFact, GraphObservation,
}

pub data SearchError : Type 0 where
  query_required depth_exceeded fanout_exceeded invalid_result_limit out_of_fuel : SearchError

abbrev pub max_graph_results : ℕ
max_graph_results = 64

abbrev pub max_graph_fanout : ℕ
max_graph_fanout = 32

abbrev pub max_graph_depth : ℕ
max_graph_depth = 2

pub record Scores : Type 0 where
  -- the constants `1.0` and `0.75`, and `matched as f64 / tokens as f64 * 0.6`
  pub exact : F64
  pub contained : F64
  pub share : ℕ → ℕ → F64
  -- `0.1 / (depth + 2) as f64`
  pub nearby : ℕ → F64
  -- `((dot + 1.0) / 2.0).clamp(0.0, 1.0)` of the scalar product of two vectors
  pub similarity : List F32 → List F32 → F64

abbrev pub zero64 : F64
zero64 = finite64 (pos 0)

pub record GraphSearchResult : Type 0 where
  pub memory_id : String
  pub score : F64
  pub entities : List GraphEntity
  pub relations : List GraphRelation
  pub facts : List DerivedFact
  pub observations : List GraphObservation
  pub evidence : List GraphEvidence

-- The arguments of a search.
pub record Query : Type 0 where
  pub query : String
  pub max_depth : ℕ
  pub max_fanout : ℕ
  pub max_results : ℕ
  pub entity_ids : List String
  pub relation_ids : List String
  pub fact_ids : List String
  pub observation_ids : List String
  pub query_embedding : Option (List F32)
  pub embedding_generation_id : String
