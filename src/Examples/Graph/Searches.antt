-- ===== src/Examples/Graph/Searches.antt =====
-- A search of the small graph.
use opencode_native_memory.Prelude.{◌≤◌, true, ◌≡◌, refl, none, List, [], ◌∷◌, length, all}
use opencode_native_memory.Prelude.Int.{pos}
use opencode_native_memory.Prelude.Map.{get}
use opencode_native_memory.Prelude.Result.{ok}
use opencode_native_memory.Prelude.Text.{trim}
use opencode_native_memory.Float.{finite64}
use opencode_native_memory.Graph.Search.{Scores, GraphSearchResult, Query}
use opencode_native_memory.Graph.Search.Results.{entity_result, entity_results}
use opencode_native_memory.Graph.Search.Answer.{check_query, search_learning}
use opencode_native_memory.Graph.Search.Eligible.{is_eligible, search_learning-eligible}
use opencode_native_memory.Graph.Search.Ends.{search_learning-answers}
use opencode_native_memory.Graph.Search.Ranked.{descending, search_learning-ranked}
use opencode_native_memory.Examples.Graph.{small_graph, entity, no_norm}
use opencode_native_memory.Examples.Graph.Erasure.{small_graph-valid}
use opencode_native_memory.Examples.Graph.Upserts.{services}

-- scores in which a field that is the query weighs most
abbrev plain_scores : Scores
plain_scores = record {
  exact = finite64 (pos 4);
  contained = finite64 (pos 3);
  share = λ matched tokens. finite64 (pos matched);
  nearby = λ depth. finite64 (pos 1);
  similarity = λ _ _. finite64 (pos 0);
}

abbrev rust_query : Query
rust_query = record {
  query = "rust";
  max_depth = 2;
  max_fanout = 8;
  max_results = 5;
  entity_ids = "e1" ∷ [];
  relation_ids = [];
  fact_ids = "f1" ∷ [];
  observation_ids = [];
  query_embedding = none;
  embedding_generation_id = "";
}

-- what the search finds: the entity
abbrev rust_results : List GraphSearchResult
rust_results = entity_result small_graph rust_query "e1" (finite64 (pos 4)) entity ∷ []

found_rust : search_learning services plain_scores rust_query small_graph ≡ ok rust_results
unfolding search_learning entity_results get trim
found_rust = refl

rust_query-checked : check_query services plain_scores rust_query small_graph ≡ ok tt
unfolding trim
rust_query-checked = refl

search_learning-eligible_example : all (is_eligible rust_query) rust_results ≡ true
search_learning-eligible_example =
    search_learning-eligible services plain_scores rust_query no_norm small_graph rust_results
      small_graph-valid found_rust

search_learning-ranked_example :
    (length rust_results ≤ 5) × (5 ≤ 64) × (descending rust_results ≡ true)
search_learning-ranked_example =
    search_learning-ranked services plain_scores rust_query small_graph rust_results found_rust

search_learning-answers_example :
    (rs : List GraphSearchResult) × (search_learning services plain_scores rust_query small_graph
      ≡ ok rs)
search_learning-answers_example =
    search_learning-answers services plain_scores rust_query small_graph rust_query-checked
