-- ===== src/Graph/Search/Eligible.antt =====
-- src/graph/mod.rs: what a search may show.
use mathlib.Core.List.{◌++◌ as append}
use opencode_native_memory.Prelude.{
  Bool, true, false, ◌&&◌, ◌≡◌, refl, subst, Option, none, some, List, [], ◌∷◌, if◌then◌else◌,
  String, str_eq, eq_iff, take, all, arith,
}
use opencode_native_memory.Prelude.Map.{Map, get}
use opencode_native_memory.Prelude.Values.{all-append, all-get}
use opencode_native_memory.Prelude.Result.{ok, >>=-eq-ok, ok-inj}
use opencode_native_memory.State.Save.{str_leb}
use opencode_native_memory.State.Validate.{contains}
use opencode_native_memory.Float.{F32, F64, flt64}
use opencode_native_memory.Graph.Defs.{
  GraphEntity, GraphRelation, DerivedFact, GraphObservation, GraphState,
}
use opencode_native_memory.Graph.Validate.{validate_graph}
use opencode_native_memory.Graph.Upsert.{Services}
use opencode_native_memory.Graph.Upsert.Evidence.{sort_by}
use opencode_native_memory.Graph.Upsert.Built.{all-sort_by}
use opencode_native_memory.Graph.Upsert.Sound.{all-take}
use opencode_native_memory.Graph.Search.{Scores, zero64, GraphSearchResult, Query}
use opencode_native_memory.Graph.Search.Rounds.{walk, start}
use opencode_native_memory.Graph.Search.Results.{
  by_key, result_leb, same_result, values_of, touches, entity_result, add_entity, entity_results,
  fact_result, observation_result,
}
use opencode_native_memory.Graph.Search.Answer.{
  fact_score, fact_results, observation_score, observation_results, first_scores, rounds, ranked,
  check_query, answer, search_learning,
}
use opencode_native_memory.Graph.Search.Keyed.{
  relation_keyed, fact_keyed, observation_keyed, entity_keyed, keyed_graph, valid-keyed,
}
use opencode_native_memory.Graph.Search.Ends.{found}

-- The result shows only what the query may see.
unfoldable pub is_eligible : Query → GraphSearchResult → Bool
unfolding all
is_eligible q r =
    all (λ (e : GraphEntity). contains q.entity_ids e.entity_id) r.entities
    && (all (λ (x : GraphRelation). contains q.relation_ids x.relation_id) r.relations
        && (all (λ (f : DerivedFact). contains q.fact_ids f.fact_id) r.facts
            && all (λ (o : GraphObservation). contains q.observation_ids o.observation_id)
                r.observations))

same_contains :
    (ids : List String) (k id : String)
    → str_eq k id ≡ true
    → contains ids k ≡ true
    → contains ids id ≡ true
same_contains ids k id h c = subst (λ i. contains ids i ≡ true) ((eq_iff k id).0 h) c

values_of-all :
    {V : Type 0} (test : String → V → Bool) (p : V → Bool) (known : String → V → Bool) (m : Map V)
    → ((k : String) (v : V) → known k v ≡ true → test k v ≡ true → p v ≡ true)
    → all (λ (k, v). known k v) m ≡ true
    → all p (values_of test m) ≡ true
unfolding values_of all
values_of-all test p known [] to h = refl
values_of-all test p known ((k, v) ∷ m) to h =
    ground (arith, h, to k v, values_of-all test p known m to)

left_and : (a b : Bool) → (a && b) ≡ true → a ≡ true
left_and true b h = refl
left_and false b h = cc

module _ (q : Query) where
  cons_if :
      (test : Bool) (x : GraphSearchResult) (rest : List GraphSearchResult)
      → (test ≡ true → is_eligible q x ≡ true)
      → all (is_eligible q) rest ≡ true
      → all (is_eligible q) (if test then x ∷ rest else rest) ≡ true
  unfolding all
  cons_if true x rest to h = rw (to refl, h)
  cons_if false x rest to h = h

  fact_result-ok :
      (score : F64) (f : DerivedFact)
      → contains q.fact_ids f.fact_id ≡ true
      → is_eligible q (fact_result score f) ≡ true
  unfolding is_eligible all
  fact_result-ok score f h = ground (arith, h)

  observation_result-ok :
      (facts : Map DerivedFact) (score : F64) (o : GraphObservation)
      → contains q.observation_ids o.observation_id ≡ true
      → is_eligible q (observation_result facts score o) ≡ true
  unfolding is_eligible all
  observation_result-ok facts score o h = ground (arith, h)

module _ (q : Query) (s : GraphState) (keyed : keyed_graph s ≡ true) where
  touching-all :
      (id : String)
      → all
          (λ (x : GraphRelation). contains q.relation_ids x.relation_id)
          (take q.max_fanout (values_of (touches s q id) (by_key s.relations)))
        ≡ true
  unfolding keyed_graph
  touching-all id =
      let p = λ (x : GraphRelation). contains q.relation_ids x.relation_id in
      all-take p q.max_fanout (values_of (touches s q id) (by_key s.relations)) (
        values_of-all (touches s q id) p (λ k r. relation_keyed (k, r)) (by_key s.relations)
          (λ k r same seen.
            same_contains q.relation_ids k r.relation_id same (ground (arith, seen)))
          (all-sort_by (λ (a, _) (b, _). str_leb a b) (λ (a, _) (b, _). str_eq a b) relation_keyed
            s.relations (ground (arith, keyed))))

  entity_result-ok :
      (id : String) (score : F64) (e : GraphEntity)
      → contains q.entity_ids e.entity_id ≡ true
      → is_eligible q (entity_result s q id score e) ≡ true
  unfolding is_eligible
  entity_result-ok id score e h = ground (arith, h, touching-all id)

  add_entity-ok :
      (id : String) (score : F64) (o : Option GraphEntity) (rest : List GraphSearchResult)
      → ((e : GraphEntity) → o ≡ some e → contains q.entity_ids e.entity_id ≡ true)
      → all (is_eligible q) rest ≡ true
      → all (is_eligible q) (add_entity s q id score o rest) ≡ true
  unfolding all
  add_entity-ok id score none rest to h = h
  add_entity-ok id score (some e) rest to h = rw (entity_result-ok id score e (to e refl), h)

  entity_results-ok :
      (scores : Map F64)
      → all (λ (id, _). contains q.entity_ids id) scores ≡ true
      → all (is_eligible q) (entity_results s q scores) ≡ true
  unfolding entity_results all keyed_graph
  entity_results-ok [] h = refl
  entity_results-ok ((id, score) ∷ scores) h =
      add_entity-ok id score (get s.entities id) (entity_results s q scores)
        (λ e at.
          same_contains q.entity_ids id e.entity_id
            (all-get entity_keyed s.entities id (ground (arith, keyed)) at) (ground (arith, h)))
        (entity_results-ok scores (ground (arith, h)))

  fact_results-ok :
      (sv : Services) (sc : Scores) (m : Map DerivedFact)
      → all fact_keyed m ≡ true
      → all (is_eligible q) (fact_results sv sc q s m) ≡ true
  unfolding fact_results all
  fact_results-ok sv sc [] h = refl
  fact_results-ok sv sc ((id, f) ∷ m) h =
      let score = fact_score sv sc q s f in
      cons_if q (contains q.fact_ids id && flt64 zero64 score) (fact_result score f)
        (fact_results sv sc q s m)
        (λ seen.
          fact_result-ok q score f
            (same_contains q.fact_ids id f.fact_id (ground (arith, h)) (left_and _ _ seen)))
        (fact_results-ok sv sc m (ground (arith, h)))

  observation_results-ok :
      (sv : Services) (sc : Scores) (m : Map GraphObservation)
      → all observation_keyed m ≡ true
      → all (is_eligible q) (observation_results sv sc q s m) ≡ true
  unfolding observation_results all
  observation_results-ok sv sc [] h = refl
  observation_results-ok sv sc ((id, o) ∷ m) h =
      let score = observation_score sv sc q s o in
      cons_if q (contains q.observation_ids id && flt64 zero64 score)
        (observation_result s.facts score o) (observation_results sv sc q s m)
        (λ seen. observation_result-ok q s.facts score o (
          same_contains q.observation_ids id o.observation_id (ground (arith, h))
            (left_and _ _ seen)))
        (observation_results-ok sv sc m (ground (arith, h)))

  ranked-ok :
      (sv : Services) (sc : Scores) (scores : Map F64)
      → all (λ (id, _). contains q.entity_ids id) scores ≡ true
      → all (is_eligible q) (ranked sv sc q s scores) ≡ true
  unfolding ranked keyed_graph
  ranked-ok sv sc scores h =
      let es = entity_results s q scores in
      let fs = fact_results sv sc q s s.facts in
      let os = observation_results sv sc q s s.observations in
      all-take (is_eligible q) q.max_results
        (sort_by result_leb same_result (append es (append fs os)))
        (all-sort_by result_leb same_result (is_eligible q) (append es (append fs os)) (
          all-append (is_eligible q) (λ _. true) es (append fs os) (entity_results-ok scores h)
            (all-append (is_eligible q) (λ _. true) fs os
              (fact_results-ok sv sc s.facts (ground (arith, keyed)))
              (observation_results-ok sv sc s.observations (ground (arith, keyed))))))

-- A search over a graph that passes the store's validation shows no entity, relation, fact or
-- observation but those that it was told it may show, also where it follows relations.
pub search_learning-eligible :
    (sv : Services) (sc : Scores) (q : Query) (norm : List F32 → F64) (s : GraphState)
    (rs : List GraphSearchResult)
    → validate_graph norm s ≡ ok tt
    → search_learning sv sc q s ≡ ok rs
    → all (is_eligible q) rs ≡ true
unfolding search_learning
search_learning-eligible sv sc q norm s rs valid h =
    let (t, ends, good) = found sv sc q s in
    let (_, _, h) =
      >>=-eq-ok (check_query sv sc q s)
        (λ _.
          answer sv sc q s
            (walk q sc (by_key s.relations) (rounds sv sc q s) (start (first_scores sv sc q s))))
        h in
    let same : answer sv sc q s (some t) ≡ ok rs = subst (λ w. answer sv sc q s w ≡ ok rs) ends h in
    subst (λ x. all (is_eligible q) x ≡ true) (ok-inj same)
      (ranked-ok q s (valid-keyed norm s valid) sv sc t.scores good)
