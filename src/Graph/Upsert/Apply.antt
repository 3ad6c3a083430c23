-- ===== src/Graph/Upsert/Apply.antt =====
-- src/graph/mod.rs: `apply_upsert`, and `upsert_learning`, which commits what it makes. The digest of
-- the material, a hash of its JSON, is a parameter.
use Prim.Native.String.{compare}
use mathlib.Core.List.{◌++◌ as append}
use opencode_native_memory.Prelude.{
  ℕ, ◌+◌, Bool, true, ◌&&◌, ◌==◌, List, [], ◌∷◌, String, str_eq, leb, length, map, any, retain,
  if◌then◌else◌,
}
use opencode_native_memory.Prelude.Map.{Map}
use opencode_native_memory.Prelude.Result.{Result, ok, err, ensure}
use opencode_native_memory.Graph.Defs.{
  GraphScope, GraphEntity, GraphRelation, DerivedFact, GraphObservation, GraphMention, GraphRun,
  GraphSource, GraphProvider,
}
use opencode_native_memory.Graph.Validate.{same_scope, max_graph_units}
use opencode_native_memory.Graph.Erase.{collect_set}
use opencode_native_memory.Graph.Upsert.{
  GraphEntityInput, GraphRelationInput, GraphFactInput, GraphObservationInput, GraphRunMetrics,
  UpsertError, relation_conflict, too_many_candidates,
}
use opencode_native_memory.Graph.Upsert.Evidence.{sort_by, dedup_by, then_leb}
use opencode_native_memory.Graph.Upsert.Observations.{max_graph_facts}

pub record GraphCandidateRejection : Type 0 where
  pub kind : String
  pub index : ℕ
  pub code : String
  pub message : UpsertError

pub record GraphCandidateConflict : Type 0 where
  pub kind : String
  pub index : ℕ
  pub existing_id : String
  pub code : String

pub record Refusals : Type 0 where
  pub rejected : List GraphCandidateRejection
  pub conflicts : List GraphCandidateConflict

abbrev pub max_graph_entities : ℕ
max_graph_entities = 64

abbrev pub max_graph_relations : ℕ
max_graph_relations = 64

abbrev pub max_graph_observations : ℕ
max_graph_observations = 64

-- The arguments of an upsert, without the time.
pub record Material : Type 0 where
  pub run_id : String
  pub sources : List GraphSource
  pub provider : GraphProvider
  pub entities : List GraphEntityInput
  pub relations : List GraphRelationInput
  pub facts : List GraphFactInput
  pub observations : List GraphObservationInput
  pub metrics : GraphRunMetrics

pub record GraphUpsertOutcome : Type 0 where
  pub run : GraphRun
  pub entities : List (ℕ × GraphEntity)
  pub relations : List (ℕ × GraphRelation)
  pub facts : List (ℕ × DerivedFact)
  pub observations : List (ℕ × GraphObservation)
  pub refusals : Refusals
  pub warnings : List String

abbrev pub reject : String → ℕ → UpsertError → Refusals → Refusals
reject kind index reason r = record r {
  rejected =
      append r.rejected
        (record { kind = kind; index = index; code = "invalid_candidate"; message = reason } ∷ []);
}

-- an error with the prefix `CONFLICT:` is a conflict
abbrev pub reject_relation : ℕ → UpsertError → Refusals → Refusals
reject_relation index (relation_conflict id) r = record r {
  conflicts = append r.conflicts (
      record { kind = "relation"; index = index; existing_id = id; code = "relation_collision" }
      ∷ []);
}
reject_relation index reason r = reject "relation" index reason r

-- The candidates of one kind that are accepted, with their places, and what is refused so far.
pub record Batch (A S : Type 0) : Type 0 where
  pub accepted : List (ℕ × A)
  pub refusals : Refusals
  pub state : S

module _ (refuse : ℕ → UpsertError → Refusals → Refusals) where
  abbrev pub judge : {A S : Type 0} → ℕ → Result UpsertError (A × S) → Batch A S → Batch A S
  judge index (ok (a, s)) b = record b { accepted = append b.accepted ((index, a) ∷ []); state = s }
  judge index (err reason) b = record b { refusals = refuse index reason b.refusals }

  -- `for (index, candidate) in candidates.iter().enumerate()`
  unfoldable pub build_all :
      {C A S : Type 0}
      → (List (ℕ × A) → C → S → Result UpsertError (A × S))
      → ℕ
      → List C
      → Batch A S
      → Batch A S
  build_all build index [] b = b
  build_all build index (c ∷ cs) b =
      build_all build (index + 1) cs (judge index (build b.accepted c b.state) b)

abbrev pub mention_leb : GraphMention → GraphMention → Bool
mention_leb l r = then_leb (compare l.entity_id r.entity_id) (
    then_leb (compare l.evidence.source_memory_id r.evidence.source_memory_id)
      (then_leb (compare l.evidence.quote r.evidence.quote) true))

abbrev pub same_mention : GraphMention → GraphMention → Bool
same_mention l r =
    str_eq l.entity_id r.entity_id
    && (str_eq l.evidence.source_memory_id r.evidence.source_memory_id
        && (str_eq l.evidence.source_unit_id r.evidence.source_unit_id
            && (str_eq l.evidence.quote r.evidence.quote
                && l.evidence.occurrence_index == r.evidence.occurrence_index)))

unfoldable pub merge_mentions : List GraphMention → List GraphMention → List GraphMention
unfolding sort_by dedup_by
merge_mentions old new =
    dedup_by mention_leb same_mention (sort_by mention_leb same_mention (append old new))

-- the memories that an entity is mentioned in
abbrev pub entity_sources : List GraphMention → String → List String
entity_sources mentions id = collect_set (
    map (λ (m : GraphMention). m.evidence.source_memory_id)
      (retain (λ (m : GraphMention). str_eq m.entity_id id) mentions))

abbrev pub recount : List GraphMention → GraphEntity → GraphEntity
recount mentions e = record e { source_count = length (entity_sources mentions e.entity_id) }

-- `unique_scopes_from_vec`, behind the scopes that it has kept
unfoldable pub more_scopes : List GraphScope → List GraphScope → List GraphScope
unfolding same_scope any
more_scopes kept [] = kept
more_scopes kept (s ∷ ss) =
    more_scopes (if any (λ x. same_scope x s) kept then kept else append kept (s ∷ [])) ss

abbrev pub unique_scopes : List GraphSource → List GraphScope
unique_scopes sources = more_scopes [] (map (λ (s : GraphSource). s.scope) sources)

abbrev pub source_by_unit : List GraphSource → Map GraphSource
source_by_unit sources = map (λ (s : GraphSource). (s.source_unit_id, s)) sources

abbrev pub check_counts : Material → Result UpsertError (Unit {0})
check_counts q =
    ensure
      (leb (length q.sources) max_graph_units
        && (leb (length q.entities) max_graph_entities
            && (leb (length q.relations) max_graph_relations
                && (leb (length q.facts) max_graph_facts
                    && leb (length q.observations) max_graph_observations))))
      too_many_candidates

abbrev pub nothing_refused : Refusals
nothing_refused = record { rejected = []; conflicts = [] }

abbrev pub replayed : GraphRun → GraphUpsertOutcome
replayed run = record {
  run = run;
  entities = [];
  relations = [];
  facts = [];
  observations = [];
  refusals = nothing_refused;
  warnings = "identical extraction run already committed" ∷ [];
}
