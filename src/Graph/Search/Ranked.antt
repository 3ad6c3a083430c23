-- ===== src/Graph/Search/Ranked.antt =====
-- src/graph/mod.rs: the order and the number of the results of a search.
use opencode_native_memory.Prelude.{
  ℕ, zero, suc, ◌≤◌, Bool, true, false, not, ◌&&◌, ◌≡◌, refl, Option, none, some, List, [], ◌∷◌,
  ◌++◌, length, take, arith, subst,
}
use opencode_native_memory.Prelude.Result.{ok, >>=-eq-ok, ok-inj}
use opencode_native_memory.Float.{F64, flt64}
use opencode_native_memory.Graph.Defs.{GraphState}
use opencode_native_memory.Graph.Upsert.{Services}
use opencode_native_memory.Graph.Upsert.Evidence.{insert_by, sort_by}
use opencode_native_memory.Graph.Search.{max_graph_results, Scores, GraphSearchResult, Query}
use opencode_native_memory.Graph.Search.Rounds.{Walk, walk, start}
use opencode_native_memory.Graph.Search.Results.{by_key, result_leb, same_result, entity_results}
use opencode_native_memory.Graph.Search.Answer.{
  fact_results, observation_results, first_scores, rounds, ranked, check_query, answer,
  search_learning,
}

-- the first of the list has no greater score than this one
abbrev starts_below : GraphSearchResult → List GraphSearchResult → Bool
starts_below x [] = true
starts_below x (y ∷ _) = not (flt64 x.score y.score)

-- No result has a greater score than the one before it.
unfoldable pub descending : List GraphSearchResult → Bool
unfolding flt64
descending [] = true
descending (x ∷ xs) = starts_below x xs && descending xs

flt64-asym : (a b : F64) → flt64 a b ≡ true → flt64 b a ≡ false
unfolding flt64
flt64-asym a b h = ground (arith, h)

starts_below-insert_by :
    (x y : GraphSearchResult) (ys : List GraphSearchResult)
    → flt64 y.score x.score ≡ false
    → starts_below y ys ≡ true
    → starts_below y (insert_by result_leb same_result x ys) ≡ true
unfolding insert_by
starts_below-insert_by x y [] h k = ground (arith, h)
starts_below-insert_by x y (z ∷ zs) h k = ground (arith, h, k)

descending-insert_by :
    (x : GraphSearchResult) (ys : List GraphSearchResult)
    → descending ys ≡ true
    → descending (insert_by result_leb same_result x ys) ≡ true
unfolding insert_by descending
descending-insert_by x [] h = refl
descending-insert_by x (y ∷ ys) h =
    ground (
      arith,
      h,
      flt64-asym y.score x.score,
      descending-insert_by x ys,
      starts_below-insert_by x y ys,
    )

descending-sort_by :
    (xs : List GraphSearchResult) → descending (sort_by result_leb same_result xs) ≡ true
unfolding sort_by descending
descending-sort_by [] = refl
descending-sort_by (x ∷ xs) =
    descending-insert_by x (sort_by result_leb same_result xs) (descending-sort_by xs)

descending-take :
    (n : ℕ) (xs : List GraphSearchResult) → descending xs ≡ true → descending (take n xs) ≡ true
unfolding descending
descending-take zero xs h = refl
descending-take (suc n) [] h = refl
descending-take (suc zero) (x ∷ xs) h = refl
descending-take (suc (suc n)) (x ∷ []) h = refl
descending-take (suc (suc n)) (x ∷ y ∷ xs) h = ground (arith, h, descending-take (suc n) (y ∷ xs))

length-take : {A : Type 0} (n : ℕ) (xs : List A) → length (take n xs) ≤ n
length-take zero xs = ground arith
length-take (suc n) [] = ground arith
length-take (suc n) (x ∷ xs) = ground (arith, length-take n xs)

module _ (sv : Services) (sc : Scores) (q : Query) (s : GraphState) where
  limit_ok : check_query sv sc q s ≡ ok tt → q.max_results ≤ max_graph_results
  limit_ok h = ground (arith, h)

  answer-some :
      (o : Option Walk) (rs : List GraphSearchResult)
      → answer sv sc q s o ≡ ok rs
      → (w : Walk) × (ranked sv sc q s w.scores ≡ rs)
  answer-some none rs h = cc
  answer-some (some w) rs h = (w, ok-inj h)

-- A search that answers gives at most as many results as it was asked for, which are
-- at most 64, and none has a greater score than the one before it.
pub search_learning-ranked :
    (sv : Services) (sc : Scores) (q : Query) (s : GraphState) (rs : List GraphSearchResult)
    → search_learning sv sc q s ≡ ok rs
    → (length rs ≤ q.max_results) × (q.max_results ≤ max_graph_results) × (descending rs ≡ true)
unfolding search_learning ranked
search_learning-ranked sv sc q s rs h =
    let walked =
      walk q sc (by_key s.relations) (rounds sv sc q s) (start (first_scores sv sc q s)) in
    let (_, checked, h) = >>=-eq-ok (check_query sv sc q s) (λ _. answer sv sc q s walked) h in
    let (w, same) = answer-some sv sc q s walked rs h in
    let all_results =
      entity_results s q w.scores
      ++ (fact_results sv sc q s s.facts ++ observation_results sv sc q s s.observations) in
    let sorted = sort_by result_leb same_result all_results in
    (
      subst (λ (x : List GraphSearchResult). length x ≤ q.max_results) same
          (length-take q.max_results sorted),
      limit_ok sv sc q s checked,
      subst (λ x. descending x ≡ true) same
          (descending-take q.max_results sorted (descending-sort_by all_results)),
    )
