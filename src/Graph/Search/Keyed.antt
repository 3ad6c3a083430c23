-- ===== src/Graph/Search/Keyed.antt =====
-- src/graph/mod.rs: in a graph that passes `validate_state`, every value stands under its own id.
use opencode_native_memory.Prelude.{Bool, true, ◌&&◌, ◌≡◌, List, String, str_eq, all, arith}
use opencode_native_memory.Prelude.Map.{Map}
use opencode_native_memory.Prelude.Result.{ok}
use opencode_native_memory.Float.{F32, F64}
use opencode_native_memory.Graph.Defs.{
  GraphEntity, GraphRelation, DerivedFact, GraphObservation, GraphState,
}
use opencode_native_memory.Graph.Validate.{
  validate_entity, validate_relation, validate_fact, validate_observation, validate_graph,
}
use opencode_native_memory.Graph.Erase.References.{for_each-all}

abbrev pub relation_keyed : String × GraphRelation → Bool
relation_keyed (k, r) = str_eq k r.relation_id

abbrev pub fact_keyed : String × DerivedFact → Bool
fact_keyed (k, f) = str_eq k f.fact_id

abbrev pub observation_keyed : String × GraphObservation → Bool
observation_keyed (k, o) = str_eq k o.observation_id

abbrev pub entity_keyed : String × GraphEntity → Bool
entity_keyed (k, e) = str_eq k e.entity_id

-- Every value stands under its own id.
unfoldable pub keyed_graph : GraphState → Bool
unfolding all
keyed_graph s =
    all entity_keyed s.entities
    && (all relation_keyed s.relations
        && (all fact_keyed s.facts && all observation_keyed s.observations))

entity-keyed :
    (norm : List F32 → F64) (x : String × GraphEntity)
    → validate_entity norm x ≡ ok tt
    → entity_keyed x ≡ true
unfolding validate_entity
entity-keyed norm (k, e) h = ground (arith, h)

relation-keyed :
    (es : Map GraphEntity) (x : String × GraphRelation)
    → validate_relation es x ≡ ok tt
    → relation_keyed x ≡ true
unfolding validate_relation
relation-keyed es (k, r) h = ground (arith, h)

fact-keyed :
    (norm : List F32 → F64) (es : Map GraphEntity) (fs : Map DerivedFact) (x : String × DerivedFact)
    → validate_fact norm es fs x ≡ ok tt
    → fact_keyed x ≡ true
unfolding validate_fact
fact-keyed norm es fs (k, f) h = ground (arith, h)

observation-keyed :
    (norm : List F32 → F64) (fs : Map DerivedFact) (x : String × GraphObservation)
    → validate_observation norm fs x ≡ ok tt
    → observation_keyed x ≡ true
unfolding validate_observation
observation-keyed norm fs (k, o) h = ground (arith, h)

pub valid-keyed :
    (norm : List F32 → F64) (s : GraphState) → validate_graph norm s ≡ ok tt → keyed_graph s ≡ true
unfolding validate_graph keyed_graph
valid-keyed norm s valid =
    let es : all entity_keyed s.entities ≡ true =
      for_each-all (validate_entity norm) entity_keyed s.entities (entity-keyed norm)
        (ground (arith, valid)) in
    let rs : all relation_keyed s.relations ≡ true =
      for_each-all (validate_relation s.entities) relation_keyed s.relations
        (relation-keyed s.entities) (ground (arith, valid)) in
    let fs : all fact_keyed s.facts ≡ true =
      for_each-all (validate_fact norm s.entities s.facts) fact_keyed s.facts
        (fact-keyed norm s.entities s.facts) (ground (arith, valid)) in
    let os : all observation_keyed s.observations ≡ true =
      for_each-all (validate_observation norm s.facts) observation_keyed s.observations
        (observation-keyed norm s.facts) (ground (arith, valid)) in
    (rw (es, rs, fs, os))
