-- ===== src/Graph/Search/Ends.antt =====
-- src/graph/mod.rs: a search scores entities that it may show, and answers.
use opencode_native_memory.Prelude.{
  ◌≤◌, Bool, true, false, ◌&&◌, ◌≡◌, refl, some, List, [], ◌∷◌, if◌then◌else◌, String, length, all,
  retain, arith,
}
use opencode_native_memory.Prelude.Map.{Map, get, insert}
use opencode_native_memory.Prelude.Values.{all-insert}
use opencode_native_memory.Prelude.Result.{ok}
use opencode_native_memory.State.Validate.{contains}
use opencode_native_memory.Float.{F64}
use opencode_native_memory.Graph.Defs.{GraphEntity, GraphRelation, GraphState}
use opencode_native_memory.Graph.Upsert.{Services}
use opencode_native_memory.Graph.Search.{Scores, GraphSearchResult, Query}
use opencode_native_memory.Graph.Search.Scoring.{
  raised, raise, score_entities, raise_eligible, relation_score, score_relations,
}
use opencode_native_memory.Graph.Search.Rounds.{Walk, walk, start}
use opencode_native_memory.Graph.Search.Results.{by_key}
use opencode_native_memory.Graph.Search.Answer.{
  first_scores, rounds, ranked, check_query, search_learning,
}
use opencode_native_memory.Graph.Search.Reached.{walk_ends, scored, unseen}

module _ (sv : Services) (sc : Scores) (q : Query) where
  abbrev all_eligible : Map F64 → Bool
  all_eligible scores = all (λ (id, _). contains q.entity_ids id) scores

  empty_ok : all_eligible [] ≡ true
  unfolding all
  empty_ok = refl

  insert_if :
      (id : String) (test : Bool) (score : F64) (scores : Map F64)
      → all_eligible scores ≡ true
      → all_eligible (if contains q.entity_ids id && test then insert scores id score else scores)
        ≡ true
  insert_if id test score scores h =
      ground
        (arith, h, all-insert (λ (x : String × F64). contains q.entity_ids x.0) scores id score)

  unless :
      (test : Bool) (scores more : Map F64)
      → all_eligible scores ≡ true
      → all_eligible more ≡ true
      → all_eligible (if test then scores else more) ≡ true
  unless true scores more h k = h
  unless false scores more h k = k

  score_entities-ok :
      (m : Map GraphEntity) (scores : Map F64)
      → all_eligible scores ≡ true
      → all_eligible (score_entities sv sc q m scores) ≡ true
  unfolding score_entities
  score_entities-ok [] scores h = h
  score_entities-ok ((id, e) ∷ m) scores h = score_entities-ok m _ (insert_if id _ _ scores h)

  raise_eligible-ok :
      (id : String) (score : F64) (scores : Map F64)
      → all_eligible scores ≡ true
      → all_eligible (raise_eligible sv sc q id score scores) ≡ true
  unfolding raise
  raise_eligible-ok id score scores h = ground (
    arith,
    h,
    all-insert (λ (x : String × F64). contains q.entity_ids x.0) scores id
        (raised (get scores id) score),
  )

  score_relations-ok :
      (m : Map GraphRelation) (scores : Map F64)
      → all_eligible scores ≡ true
      → all_eligible (score_relations sv sc q m scores) ≡ true
  unfolding score_relations
  score_relations-ok [] scores h = h
  score_relations-ok ((id, r) ∷ m) scores h =
      let score = relation_score sv sc q r in
      score_relations-ok m _ (
        unless _ scores _ h (
          raise_eligible-ok r.object_entity_id score
            (raise_eligible sv sc q r.subject_entity_id score scores)
            (raise_eligible-ok r.subject_entity_id score scores h)))

unseen_all : (ids visited : List String) → unseen ids visited ≤ length ids
unfolding retain
unseen_all [] visited = ground arith
unseen_all (x ∷ xs) visited = ground (arith, unseen_all xs visited)

module _ (sv : Services) (sc : Scores) (q : Query) (s : GraphState) where
  pub found :
      (t : Walk) × (walk q sc
          (by_key s.relations)
          (rounds sv sc q s)
          (start (first_scores sv sc q s))
        ≡ some t)
      × (scored sc q (by_key s.relations) t ≡ true)
  found =
      walk_ends sc q (by_key s.relations) (rounds sv sc q s) (start (first_scores sv sc q s))
        (omega (arith, unseen_all q.entity_ids (start (first_scores sv sc q s)).visited))
        (score_relations-ok sv sc q s.relations (score_entities sv sc q s.entities [])
          (score_entities-ok sv sc q s.entities [] (empty_ok sv sc q)))

  -- A search whose arguments pass the checks answers: the loop that follows relations ends, so that
  -- its rounds are enough.
  pub search_learning-answers :
      check_query sv sc q s ≡ ok tt
      → (rs : List GraphSearchResult) × (search_learning sv sc q s ≡ ok rs)
  unfolding search_learning
  search_learning-answers h =
      let (t, ends, _) = found in (ranked sv sc q s t.scores, ground (arith, h, ends))
