-- ===== src/Graph/Search/Answer.antt =====
-- src/graph/mod.rs: `search_learning`, from its checks to its results.
use opencode_native_memory.Prelude.{
  ℕ, ◌+◌, not, ◌&&◌, Option, none, some, List, [], ◌∷◌, ◌++◌, leb, length, take, if◌then◌else◌,
}
use opencode_native_memory.Prelude.Map.{Map}
use opencode_native_memory.Prelude.Result.{Result, ok, err, ensure, ◌>>◌}
use opencode_native_memory.Prelude.Text.{is_blank}
use opencode_native_memory.State.Validate.{contains}
use opencode_native_memory.State.Save.{sort}
use opencode_native_memory.Float.{F64, flt64, fmax64}
use opencode_native_memory.Graph.Defs.{DerivedFact, GraphObservation, GraphState}
use opencode_native_memory.Graph.Upsert.{Services}
use opencode_native_memory.Graph.Upsert.Resolve.{normalize_name}
use opencode_native_memory.Graph.Upsert.Evidence.{sort_by}
use opencode_native_memory.Graph.Upsert.Observations.{fact_evidence}
use opencode_native_memory.Graph.Search.{
  query_required, depth_exceeded, fanout_exceeded, invalid_result_limit, out_of_fuel, SearchError,
  max_graph_results, max_graph_fanout, max_graph_depth, Scores, zero64, GraphSearchResult, Query,
}
use opencode_native_memory.Graph.Search.Scoring.{
  lexical_from, semantic_score, combined, score_entities, score_relations,
}
use opencode_native_memory.Graph.Search.Rounds.{Walk, walk, start}
use opencode_native_memory.Graph.Search.Results.{
  by_key, result_leb, same_result, entity_results, fact_result, facts_of, observation_result,
}

module _ (sv : Services) (sc : Scores) (q : Query) (s : GraphState) where
  abbrev pub fact_score : DerivedFact → F64
  fact_score f =
      combined sv sc q f.embedding f.embedding_generation_id (f.text ∷ f.context ∷ f.fact_type ∷ [])

  unfoldable pub fact_results : Map DerivedFact → List GraphSearchResult
  unfolding normalize_name lexical_from semantic_score fmax64 flt64
  fact_results [] = []
  fact_results ((id, f) ∷ m) =
      let rest = fact_results m in
      if contains q.fact_ids id && flt64 zero64 (fact_score f)
      then fact_result (fact_score f) f ∷ rest
      else rest

  abbrev pub observation_score : GraphObservation → F64
  observation_score o = combined sv sc q o.embedding o.embedding_generation_id (o.statement ∷ [])

  unfoldable pub observation_results : Map GraphObservation → List GraphSearchResult
  unfolding normalize_name lexical_from semantic_score fmax64 flt64 facts_of fact_evidence sort
  observation_results [] = []
  observation_results ((id, o) ∷ m) =
      let rest = observation_results m in
      if contains q.observation_ids id && flt64 zero64 (observation_score o)
      then observation_result s.facts (observation_score o) o ∷ rest
      else rest

  abbrev pub first_scores : Map F64
  first_scores = score_relations sv sc q s.relations (score_entities sv sc q s.entities [])

  -- one round for each entity that is in the queue at first or joins it
  abbrev pub rounds : ℕ
  rounds = length (start first_scores).queue + length q.entity_ids

  unfoldable pub ranked : Map F64 → List GraphSearchResult
  unfolding entity_results fact_results observation_results sort_by
  ranked scores = take q.max_results (
      sort_by result_leb same_result
        (entity_results s q scores ++ (fact_results s.facts ++ observation_results s.observations)))

  abbrev pub check_query : Result SearchError (Unit {0})
  check_query =
      ensure (not (is_blank q.query)) query_required
      >> (ensure (leb q.max_depth max_graph_depth) depth_exceeded
          >> (ensure (leb q.max_fanout max_graph_fanout) fanout_exceeded
              >> ensure (leb 1 q.max_results && leb q.max_results max_graph_results)
                  invalid_result_limit))

  abbrev pub answer : Option Walk → Result SearchError (List GraphSearchResult)
  answer none = err out_of_fuel
  answer (some w) = ok (ranked w.scores)

  unfoldable pub search_learning : Result SearchError (List GraphSearchResult)
  unfolding walk ranked score_entities score_relations
  search_learning =
      check_query >> answer (walk q sc (by_key s.relations) rounds (start first_scores))
