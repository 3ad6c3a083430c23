-- ===== src/Graph/Search/Rounds.antt =====
-- src/graph/mod.rs: the loop of a search, which follows relations from the entities with a score.
use opencode_native_memory.Prelude.{
  ℕ, zero, suc, ◌+◌, not, ◌&&◌, Option, none, some, List, [], ◌∷◌, ◌++◌, String, str_eq, leb, take,
  map, if◌then◌else◌,
}
use opencode_native_memory.Prelude.Map.{Map}
use opencode_native_memory.State.Validate.{contains}
use opencode_native_memory.Float.{F64}
use opencode_native_memory.Graph.Defs.{GraphRelation}
use opencode_native_memory.Graph.Erase.{keys}
use opencode_native_memory.Graph.Search.{Scores, Query}
use opencode_native_memory.Graph.Search.Scoring.{or_insert}

-- The loop's queue, the set of visited entities, and the scores.
pub record Walk : Type 0 where
  pub queue : List (String × ℕ)
  pub visited : List String
  pub scores : Map F64

abbrev pub visit : Scores → ℕ → String → Walk → Walk
visit sc depth id w = if contains w.visited id then w else record {
  queue = w.queue ++ (id, depth + 1) ∷ [];
  visited = id ∷ w.visited;
  scores = or_insert w.scores id (sc.nearby depth);
}

unfoldable pub visit_all : Scores → ℕ → List String → Walk → Walk
unfolding or_insert
visit_all sc depth [] w = w
visit_all sc depth (id ∷ ids) w = visit_all sc depth ids (visit sc depth id w)

module _ (q : Query) where
  -- the entities at the other ends of the eligible relations of one
  unfoldable pub neighbors : String → Map GraphRelation → List String
  neighbors id [] = []
  neighbors id ((relation_id, r) ∷ m) =
      let rest = neighbors id m in
      if not (contains q.relation_ids relation_id)
      then rest
      else if str_eq r.subject_entity_id id
      then (if contains q.entity_ids r.object_entity_id then r.object_entity_id ∷ rest else rest)
      else if str_eq r.object_entity_id id && contains q.entity_ids r.subject_entity_id
      then r.subject_entity_id ∷ rest
      else rest

  -- one round of the loop, on the entity that left the queue
  unfoldable pub expand : Scores → Map GraphRelation → String → ℕ → Walk → Walk
  unfolding visit_all neighbors
  expand sc relations id depth w =
      if leb q.max_depth depth
      then w
      else visit_all sc depth (take q.max_fanout (neighbors id relations)) w

  unfoldable pub walk : Scores → Map GraphRelation → ℕ → Walk → Option Walk
  unfolding expand
  walk sc relations zero w = elim w.queue [ [] ↦ some w | _ ∷ _ ↦ none ]
  walk sc relations (suc fuel) w = elim w.queue [
    | [] ↦ some w
    | (id, depth) ∷ rest ↦
        walk sc relations fuel (expand sc relations id depth (record w { queue = rest }))
  ]

abbrev pub start : Map F64 → Walk
start scores = record {
  queue = map (λ (id, _). (id, 0)) scores;
  visited = keys scores;
  scores = scores;
}
