-- ===== src/Graph/Search/Results.antt =====
-- src/graph/mod.rs: the results that a search makes of entities, facts and observations.
use opencode_native_memory.Prelude.{
  Bool, not, ◌&&◌, ◌||◌, Option, none, some, List, [], ◌∷◌, String, str_eq, take, map, retain,
  if◌then◌else◌,
}
use opencode_native_memory.Prelude.Map.{Map, get}
use opencode_native_memory.State.Validate.{contains}
use opencode_native_memory.State.Save.{str_leb, sort}
use opencode_native_memory.Float.{F64, flt64}
use opencode_native_memory.Graph.Defs.{
  GraphEvidence, GraphEntity, GraphRelation, DerivedFact, GraphObservation, GraphMention,
  GraphState,
}
use opencode_native_memory.Graph.Upsert.Evidence.{max_graph_evidence, sort_by}
use opencode_native_memory.Graph.Upsert.Observations.{fact_evidence}
use opencode_native_memory.Graph.Search.{GraphSearchResult, Query}

abbrev pub first_memory : List GraphEvidence → String
first_memory [] = ""
first_memory (e ∷ _) = e.source_memory_id

abbrev pub first_text : List String → String
first_text [] = ""
first_text (t ∷ _) = t

-- `graph_result_id`
abbrev pub graph_result_id : GraphSearchResult → String
graph_result_id r = elim r.entities [
  | e ∷ _ ↦ e.entity_id
  | [] ↦ elim r.facts [
    | f ∷ _ ↦ f.fact_id
    | [] ↦ elim r.observations [ o ∷ _ ↦ o.observation_id | [] ↦ r.memory_id ]
  ]
]

-- a `BTreeMap` in the order of its keys
abbrev pub by_key {ℓ} : {V : Type ℓ} → Map V → Map V
by_key m = sort_by (λ (a, _) (b, _). str_leb a b) (λ (a, _) (b, _). str_eq a b) m

-- The order of the results. The scores are positive, and `total_cmp` of such numbers is `<`.
abbrev pub result_leb : GraphSearchResult → GraphSearchResult → Bool
result_leb l r =
    flt64 r.score l.score
    || (not (flt64 l.score r.score) && str_leb (graph_result_id l) (graph_result_id r))

abbrev pub same_result : GraphSearchResult → GraphSearchResult → Bool
same_result l r = str_eq (graph_result_id l) (graph_result_id r)

unfoldable pub values_of {ℓ} : {V : Type ℓ} → (String → V → Bool) → Map V → List V
values_of test [] = []
values_of test ((k, v) ∷ m) = let rest = values_of test m in if test k v then v ∷ rest else rest

module _ (s : GraphState) (q : Query) where
  abbrev pub touches : String → String → GraphRelation → Bool
  touches id relation_id r =
      contains q.relation_ids relation_id
      && (str_eq r.subject_entity_id id || str_eq r.object_entity_id id)

  abbrev pub mentions_in : String → List GraphEvidence
  mentions_in id =
      map (λ (m : GraphMention). m.evidence)
        (take max_graph_evidence (retain (λ (m : GraphMention). str_eq m.entity_id id) s.mentions))

  abbrev pub entity_result : String → F64 → GraphEntity → GraphSearchResult
  entity_result id score e = record {
    memory_id = first_memory (mentions_in id);
    score = score;
    entities = e ∷ [];
    relations = take q.max_fanout (values_of (touches id) (by_key s.relations));
    facts = [];
    observations = [];
    evidence = mentions_in id;
  }

  abbrev pub add_entity :
      String → F64 → Option GraphEntity → List GraphSearchResult → List GraphSearchResult
  add_entity id score none rest = rest
  add_entity id score (some e) rest = entity_result id score e ∷ rest

  unfoldable pub entity_results : Map F64 → List GraphSearchResult
  unfolding get values_of retain sort_by
  entity_results [] = []
  entity_results ((id, score) ∷ scores) =
      add_entity id score (get s.entities id) (entity_results scores)

abbrev pub fact_result : F64 → DerivedFact → GraphSearchResult
fact_result score f = record {
  memory_id = first_memory f.evidence;
  score = score;
  entities = [];
  relations = [];
  facts = f ∷ [];
  observations = [];
  evidence = f.evidence;
}

unfoldable pub facts_of : Map DerivedFact → List String → List DerivedFact
unfolding get
facts_of facts [] = []
facts_of facts (id ∷ ids) =
    let rest = facts_of facts ids in elim (get facts id) [ none ↦ rest | some f ↦ f ∷ rest ]

abbrev pub observation_result : Map DerivedFact → F64 → GraphObservation → GraphSearchResult
observation_result facts score o = record {
  memory_id = first_text (sort o.source_memory_ids);
  score = score;
  entities = [];
  relations = [];
  facts = [];
  observations = o ∷ [];
  evidence = fact_evidence (facts_of facts (sort o.source_fact_ids));
}
