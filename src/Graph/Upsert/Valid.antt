-- ===== src/Graph/Upsert/Valid.antt =====
-- src/graph/mod.rs: what `validate_state` checks of the ids and of the evidence of a graph.
use opencode_native_memory.Prelude.{Bool, true, ◌&&◌, ◌≡◌, List, String, str_eq, all, arith}
use opencode_native_memory.Prelude.Map.{Map, contains_key}
use opencode_native_memory.Prelude.Values.{all-weaken, all-both}
use opencode_native_memory.Prelude.Result.{ok}
use opencode_native_memory.Float.{F32, F64}
use opencode_native_memory.Graph.Defs.{
  GraphEvidence, GraphEntity, GraphRelation, DerivedFact, GraphObservation, GraphMention,
  GraphState,
}
use opencode_native_memory.Graph.Validate.{
  validate_entity, validate_fact, validate_observation, validate_graph,
}
use opencode_native_memory.Graph.Erase.References.{
  for_each-all, relation_in, mention_in, valid-relations, valid-mentions,
}
use opencode_native_memory.Graph.Upsert.Known.{entity_ok}
use opencode_native_memory.Graph.Upsert.Sound.{
  mention_ok, relation_ok, fact_ok, observation_ok, sound,
}

-- All evidence in the graph passes a test.
unfoldable pub evidence_passes : (GraphEvidence → Bool) → GraphState → Bool
unfolding all
evidence_passes p s =
    all (λ (m : GraphMention). p m.evidence) s.mentions
    && (all (λ (_, r). all p r.evidence) s.relations && all (λ (_, f). all p f.evidence) s.facts)

abbrev fact_in : Map GraphEntity → Map DerivedFact → String × DerivedFact → Bool
fact_in es fs (k, f) =
    str_eq k f.fact_id
    && (all (contains_key es) f.entity_ids && all (contains_key fs) f.causal_fact_ids)

validate_fact-in :
    (norm : List F32 → F64) (es : Map GraphEntity) (fs : Map DerivedFact) (x : String × DerivedFact)
    → validate_fact norm es fs x ≡ ok tt
    → fact_in es fs x ≡ true
unfolding validate_fact
validate_fact-in norm es fs (id, f) e = ground (arith, e)

validate_observation-in :
    (norm : List F32 → F64) (p : GraphEvidence → Bool) (fs : Map DerivedFact)
    (x : String × GraphObservation)
    → validate_observation norm fs x ≡ ok tt
    → observation_ok p fs x ≡ true
unfolding validate_observation
validate_observation-in norm p fs (id, o) e = ground (arith, e)

module _ (norm : List F32 → F64) (s : GraphState) (valid : validate_graph norm s ≡ ok tt) where
  valid-entities : all entity_ok s.entities ≡ true
  unfolding validate_graph validate_entity
  valid-entities =
      for_each-all (validate_entity norm) entity_ok s.entities (λ (id, x) e. ground (arith, e))
        (ground (arith, valid))

  valid-facts : all (fact_in s.entities s.facts) s.facts ≡ true
  unfolding validate_graph
  valid-facts =
      for_each-all (validate_fact norm s.entities s.facts) (fact_in s.entities s.facts) s.facts
        (validate_fact-in norm s.entities s.facts) (ground (arith, valid))

  valid-observations :
      (p : GraphEvidence → Bool) → all (observation_ok p s.facts) s.observations ≡ true
  unfolding validate_graph
  valid-observations p =
      for_each-all (validate_observation norm s.facts) (observation_ok p s.facts) s.observations
        (validate_observation-in norm p s.facts) (ground (arith, valid))

  pub valid-sound : (p : GraphEvidence → Bool) → evidence_passes p s ≡ true → sound p s ≡ true
  unfolding evidence_passes sound
  valid-sound p h =
      let es = s.entities in
      let with_relation = λ (x : String × GraphRelation). all p x.1.evidence in
      let with_fact = λ (x : String × DerivedFact). all p x.1.evidence in
      let mentions : all (mention_ok p es) s.mentions ≡ true =
        all-both (mention_in es) (λ m. p m.evidence) s.mentions (valid-mentions norm s valid)
          (ground (arith, h)) in
      let relations : all (relation_ok p es) s.relations ≡ true =
        all-weaken (λ x. relation_in es x.1 && with_relation x) (relation_ok p es) s.relations
          (λ x k. ground (arith, k))
          (all-both (λ x. relation_in es x.1) with_relation s.relations
            (valid-relations norm s valid) (ground (arith, h))) in
      let facts : all (fact_ok p es s.facts) s.facts ≡ true =
        all-weaken (λ x. fact_in es s.facts x && with_fact x) (fact_ok p es s.facts) s.facts
          (λ x k. ground (arith, k))
          (all-both (fact_in es s.facts) with_fact s.facts valid-facts (ground (arith, h))) in
      ground (arith, mentions, relations, facts, valid-entities, valid-observations p)
