-- ===== src/Graph/Erase/References.antt =====
-- src/graph/mod.rs: what the ids in an erased graph refer to.
use opencode_native_memory.Prelude.{
  Bool, true, not, ◌&&◌, ◌||◌, ◌≡◌, refl, List, [], ◌∷◌, String, eq_iff, eq_refl, any, all, retain,
  ◌==◌, arith, ap,
}
use opencode_native_memory.Prelude.Values.{
  all-retain, all-retain-keep, all-both, all-values-to, all-values, all-weaken,
}
use opencode_native_memory.Prelude.Map.{Map, get, contains_key}
use opencode_native_memory.Prelude.Result.{Result, ok, for_each, >>-eq-ok}
use opencode_native_memory.Float.{F32, F64}
use opencode_native_memory.State.Validate.{contains}
use opencode_native_memory.Prelude.Map.{map_values}
use opencode_native_memory.Graph.Defs.{
  GraphEntity, GraphRelation, DerivedFact, GraphObservation, GraphMention, GraphState,
}
use opencode_native_memory.Graph.Validate.{
  GraphError, validate_relation, validate_mention, validate_graph,
}
use opencode_native_memory.Graph.Erase.{
  no_evidence, retain_values, keys, linked_fact, evident_facts, erased_facts, grounded_observation,
  erased_observations, erased_mentions, mentioned, evident_relation, erased_relations,
  relation_entities, erased,
}

module _ {ℓ} {V : Type ℓ} where
  contains-keys : (m : Map V) (id : String) → contains (keys m) id ≡ contains_key m id
  unfolding any get
  contains-keys [] id = refl
  contains-keys ((k, v) ∷ m) id = ground (arith, contains-keys m id)

  keys-map_values : (f : V → V) (m : Map V) → keys (map_values f m) ≡ keys m
  unfolding map_values
  keys-map_values f [] = refl
  keys-map_values f ((k, v) ∷ m) = ap (λ ks. k ∷ ks) (keys-map_values f m)

  contains_key-retain :
      (p : String → Bool) (m : Map V) (id : String)
      → contains_key (retain (λ (k, _). p k) m) id ≡ (contains_key m id && p id)
  unfolding retain get
  contains_key-retain p [] id = refl
  contains_key-retain p ((k, v) ∷ m) id = ground (arith, eq_iff k id, contains_key-retain p m id)

pub for_each-all :
    {A : Type 0} (f : A → Result GraphError (Unit {0})) (p : A → Bool) (xs : List A)
    → ((x : A) → f x ≡ ok tt → p x ≡ true)
    → for_each f xs ≡ ok tt
    → all p xs ≡ true
unfolding for_each all
for_each-all f p [] to h = refl
for_each-all f p (x ∷ xs) to h =
    let (first, rest) = >>-eq-ok (f x) (for_each f xs) h in
    ground (arith, to x first, for_each-all f p xs to rest)

abbrev pub relation_in : Map GraphEntity → GraphRelation → Bool
relation_in entities r =
    contains_key entities r.subject_entity_id && contains_key entities r.object_entity_id

abbrev pub mention_in : Map GraphEntity → GraphMention → Bool
mention_in entities m = contains_key entities m.entity_id

pub valid-relations :
    (norm : List F32 → F64) (s : GraphState)
    → validate_graph norm s ≡ ok tt
    → all (λ (_, r). relation_in s.entities r) s.relations ≡ true
unfolding validate_graph validate_relation
valid-relations norm s h =
    for_each-all (validate_relation s.entities) (λ (_, r). relation_in s.entities r) s.relations
      (λ (id, r) e. ground (arith, e)) (ground (arith, h))

pub valid-mentions :
    (norm : List F32 → F64) (s : GraphState)
    → validate_graph norm s ≡ ok tt
    → all (λ m. mention_in s.entities m) s.mentions ≡ true
unfolding validate_graph validate_mention
valid-mentions norm s h =
    for_each-all (validate_mention s.entities) (λ m. mention_in s.entities m) s.mentions
      (λ m e. ground (arith, e)) (ground (arith, h))

mentioned-all :
    (mentions : List GraphMention)
    → all (λ (m : GraphMention). contains (mentioned mentions) m.entity_id) mentions ≡ true
unfolding all any
mentioned-all [] = refl
mentioned-all (m ∷ ms) = ground (
  arith,
  eq_refl m.entity_id,
  all-weaken (λ (n : GraphMention). contains (mentioned ms) n.entity_id)
      (λ (n : GraphMention). contains (mentioned (m ∷ ms)) n.entity_id) ms
      (λ n h. ground (arith, h)) (mentioned-all ms),
)

module _ (ids : List String) (s : GraphState) where
  entity-stays :
      (id : String)
      → contains_key s.entities id ≡ true
      → contains (mentioned (erased ids s).mentions) id ≡ true
      → contains_key (erased ids s).entities id ≡ true
  unfolding erased
  entity-stays id here named =
      let mentions = erased_mentions ids s.mentions in
      let used = relation_entities (erased_relations ids (mentioned mentions) s.relations) in
      ground (
        arith,
        here,
        named,
        contains_key-retain (λ id. contains used id || contains (mentioned mentions) id) s.entities
            id,
      )

  erased-mentions :
      all (λ m. mention_in s.entities m) s.mentions ≡ true
      → all (λ m. mention_in (erased ids s).entities m) (erased ids s).mentions ≡ true
  unfolding erased
  erased-mentions h =
      let mentions = erased_mentions ids s.mentions in
      let named = λ (m : GraphMention). contains (mentioned mentions) m.entity_id in
      all-weaken (λ m. mention_in s.entities m && named m)
        (λ m. mention_in (erased ids s).entities m) mentions
        (λ m both. entity-stays m.entity_id (ground (arith, both)) (ground (arith, both)))
        (all-both (λ m. mention_in s.entities m) named mentions
          (all-retain-keep (λ (m : GraphMention). not (contains ids m.evidence.source_memory_id))
            (λ m. mention_in s.entities m) s.mentions h)
          (mentioned-all mentions))

  erased-relations :
      all (λ (_, r). relation_in s.entities r) s.relations ≡ true
      → all (λ (_, r). relation_in (erased ids s).entities r) (erased ids s).relations ≡ true
  unfolding erased erased_relations
  erased-relations h =
      let names = mentioned (erased_mentions ids s.mentions) in
      let test = λ (r : GraphRelation).
        not (no_evidence r.evidence)
        && (contains names r.subject_entity_id && contains names r.object_entity_id) in
      let inside = relation_in s.entities in
      let made = map_values (evident_relation ids) s.relations in
      all-weaken (λ (_, r). test r && inside r) (λ (_, r). relation_in (erased ids s).entities r)
        (retain_values test made)
        (λ (_, r) both.
          ground (arith, both, entity-stays r.subject_entity_id, entity-stays r.object_entity_id))
        (all-both (λ (_, r). test r) (λ (_, r). inside r) (retain_values test made)
          (all-retain (λ (_, r). test r) (λ _. true) made)
          (all-retain-keep (λ (_, r). test r) (λ (_, r). inside r) made
            (all-values-to (evident_relation ids) inside inside s.relations (λ r e. e) h)))

  erased-facts :
      all (λ (_, f). all (contains_key (erased ids s).facts) f.causal_fact_ids) (erased ids s).facts
      ≡ true
  unfolding erased erased_facts
  erased-facts =
      let facts = evident_facts ids s.facts in
      let link = linked_fact s.entities (keys facts) in
      let linked = map_values link facts in
      let there : (id : String) → contains (keys facts) id ≡ true → contains_key linked id ≡ true =
        λ id h. ground (
          arith,
          h,
          contains-keys linked id,
          ap (λ ks. contains ks id) (keys-map_values link facts),
        ) in
      let causes = λ (f : DerivedFact). all (contains_key linked) f.causal_fact_ids in
      all-values link causes causes facts (λ f.
        all-weaken (λ id. contains (keys facts) id) (contains_key linked)
          (retain (λ id. contains (keys facts) id) f.causal_fact_ids) there
          (all-retain (λ id. contains (keys facts) id) (λ _. true) f.causal_fact_ids))

  erased-observations :
      all
        (λ (_, o). all (contains_key (erased ids s).facts) o.source_fact_ids)
        (erased ids s).observations
      ≡ true
  unfolding erased erased_observations grounded_observation
  erased-observations =
      let facts = erased_facts ids s in
      let test = λ (o : GraphObservation). not (o.proof_count == 0) in
      let drawn = λ (o : GraphObservation). all (contains_key facts) o.source_fact_ids in
      all-retain-keep (λ (_, o). test o) (λ (_, o). drawn o)
        (map_values (grounded_observation facts) s.observations)
        (all-values (grounded_observation facts) drawn drawn s.observations (λ o.
          all-weaken (λ id. contains (keys facts) id) (contains_key facts)
            (retain (λ id. contains (keys facts) id) o.source_fact_ids)
            (λ id h. ground (arith, h, contains-keys facts id))
            (all-retain (λ id. contains (keys facts) id) (λ _. true) o.source_fact_ids)))

  -- The erasure of some memories from a graph that passes the store's validation leaves no id of a
  -- mention's entity, of a relation's two entities, of a fact's causes or of an observation's facts
  -- that refers to nothing. It says nothing of the entities that a fact is about.
  pub erased-references :
      (norm : List F32 → F64)
      → validate_graph norm s ≡ ok tt
      → let next = erased ids s in
        (all (λ m. contains_key next.entities m.entity_id) next.mentions ≡ true)
        × (all
              (λ (_, r).
                contains_key next.entities r.subject_entity_id
                && contains_key next.entities r.object_entity_id)
              next.relations
            ≡ true)
        × (all (λ (_, f). all (contains_key next.facts) f.causal_fact_ids) next.facts ≡ true)
        × (all (λ (_, o). all (contains_key next.facts) o.source_fact_ids) next.observations ≡ true)
  erased-references norm valid = (
    erased-mentions (valid-mentions norm s valid),
    erased-relations (valid-relations norm s valid),
    erased-facts,
    erased-observations,
  )
