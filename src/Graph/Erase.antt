-- ===== src/Graph/Erase.antt =====
-- src/graph/mod.rs: `erase_sources`, which takes what rests on deleted memories out of the graph.
pub mod Forgets
pub mod References
pub mod Durable
use opencode_native_memory.Prelude.{
  ℕ, Bool, true, false, not, ◌&&◌, ◌||◌, ◌==◌, Option, none, some, List, [], ◌∷◌, ◌++◌, String,
  str_eq, length, any, retain, map, if◌then◌else◌,
}
use opencode_native_memory.Prelude.Map.{Map, get, contains_key}
use opencode_native_memory.State.Validate.{contains}
use opencode_native_memory.Prelude.Result.{Result, ok}
use opencode_native_memory.Float.{F32, F64}
use opencode_native_memory.Prelude.Map.{map_values}
use opencode_native_memory.Graph.Validate.{GraphError, is_nil}
use opencode_native_memory.Graph.Store.{Outcomes, GraphStore, commit_state}
use opencode_native_memory.Graph.Defs.{
  default_graph, GraphEvidence, GraphEntity, GraphRelation, DerivedFact, GraphObservation,
  GraphMention, GraphRun, failed, is_terminal, GraphJobSource, GraphExtractionJob, GraphState,
}
use opencode_native_memory.Graph.Jobs.{clear_job_lease}

abbrev pub keys {ℓ} : {V : Type ℓ} → Map V → List String
keys m = map (λ (k, _). k) m

-- `retain(|_, value| test(value))`
abbrev pub retain_values {ℓ} : {V : Type ℓ} → (V → Bool) → Map V → Map V
retain_values test m = retain (λ (_, v). test v) m

abbrev pub no_evidence : List GraphEvidence → Bool
no_evidence [] = true
no_evidence (_ ∷ _) = false

-- the texts of a list, each once, as a `BTreeSet` holds them
unfoldable pub collect_set : List String → List String
collect_set [] = []
collect_set (x ∷ xs) = let rest = collect_set xs in if contains rest x then rest else x ∷ rest

abbrev pub linked_fact : Map GraphEntity → List String → DerivedFact → DerivedFact
linked_fact entities active f = record f {
  entity_ids = retain (λ id. contains_key entities id) f.entity_ids;
  causal_fact_ids = retain (λ id. contains active id) f.causal_fact_ids;
}

unfoldable pub evidence_sources : Map DerivedFact → List String → List String
evidence_sources facts [] = []
evidence_sources facts (id ∷ fact_ids) =
    let rest = evidence_sources facts fact_ids in
    elim (get facts id) [
      | none ↦ rest
      | some f ↦ map (λ (e : GraphEvidence). e.source_memory_id) f.evidence ++ rest
    ]

unfoldable pub grounded_observation : Map DerivedFact → GraphObservation → GraphObservation
unfolding evidence_sources collect_set
grounded_observation facts o =
    let fact_ids = retain (λ id. contains (keys facts) id) o.source_fact_ids in
    record o {
      source_fact_ids = fact_ids;
      source_memory_ids = collect_set (evidence_sources facts fact_ids);
      proof_count = length fact_ids;
      freshness = if length fact_ids == 0 then "stale" else o.freshness;
    }

unfoldable pub erased_observations : Map DerivedFact → Map GraphObservation → Map GraphObservation
unfolding grounded_observation map_values
erased_observations facts observations =
    retain_values (λ (o : GraphObservation). not (o.proof_count == 0))
      (map_values (grounded_observation facts) observations)

abbrev pub mentioned : List GraphMention → List String
mentioned mentions = map (λ (m : GraphMention). m.entity_id) mentions

unfoldable pub relation_entities : Map GraphRelation → List String
relation_entities [] = []
relation_entities ((_, r) ∷ m) = r.subject_entity_id ∷ r.object_entity_id ∷ relation_entities m

module _ (ids : List String) where
  abbrev pub kept_evidence : List GraphEvidence → List GraphEvidence
  kept_evidence evidence =
      retain (λ (e : GraphEvidence). not (contains ids e.source_memory_id)) evidence

  abbrev pub evident_fact : DerivedFact → DerivedFact
  evident_fact f = record f { evidence = kept_evidence f.evidence }

  -- the facts that some evidence is left for
  unfoldable pub evident_facts : Map DerivedFact → Map DerivedFact
  unfolding map_values
  evident_facts facts =
      retain_values (λ (f : DerivedFact). not (no_evidence f.evidence))
        (map_values evident_fact facts)

  unfoldable pub erased_facts : GraphState → Map DerivedFact
  unfolding evident_facts map_values
  erased_facts s =
      let facts = evident_facts s.facts in map_values (linked_fact s.entities (keys facts)) facts

  abbrev pub erased_mentions : List GraphMention → List GraphMention
  erased_mentions mentions =
      retain (λ (m : GraphMention). not (contains ids m.evidence.source_memory_id)) mentions

  abbrev pub evident_relation : GraphRelation → GraphRelation
  evident_relation r = record r { evidence = kept_evidence r.evidence }

  unfoldable pub erased_relations : List String → Map GraphRelation → Map GraphRelation
  unfolding map_values
  erased_relations entity_ids relations =
      retain_values
        (λ (r : GraphRelation).
          not (no_evidence r.evidence)
          && (contains entity_ids r.subject_entity_id && contains entity_ids r.object_entity_id))
        (map_values evident_relation relations)

  abbrev pub erased_run : GraphRun → GraphRun
  erased_run r =
      if any (λ id. contains ids id) r.source_ids
      then record r {
        outcome = "source_deleted";
        terminal = true;
        source_ids = retain (λ id. not (contains ids id)) r.source_ids;
      }
      else r

  unfoldable pub erased_job : GraphExtractionJob → GraphExtractionJob
  unfolding clear_job_lease
  erased_job j =
      if not (is_terminal j.state)
        && any (λ (s : GraphJobSource). contains ids s.source_memory_id) j.sources
      then clear_job_lease (record j {
        state = failed;
        cancel_requested = false;
        next_attempt_at_ms = none;
        error_code = "source_changed";
        error_message = "a source changed or was deleted before graph extraction completed";
      })
      else j

  -- what `erase_sources` commits, when there are ids
  unfoldable pub erased : GraphState → GraphState
  unfolding erased_facts erased_observations erased_relations relation_entities erased_job
      map_values
  erased s =
      let facts = erased_facts s in
      let mentions = erased_mentions s.mentions in
      let relations = erased_relations (mentioned mentions) s.relations in
      let used = relation_entities relations in
      record s {
        facts = facts;
        observations = erased_observations facts s.observations;
        mentions = mentions;
        relations = relations;
        entities =
            retain (λ (id, _). contains used id || contains (mentioned mentions) id) s.entities;
        runs = map_values erased_run s.runs;
        jobs = map_values erased_job s.jobs;
      }

module _ (norm : List F32 → F64) where
  unfoldable pub erase_sources :
      List String → Outcomes → String → GraphStore → Result GraphError (Unit {0}) × GraphStore
  unfolding erased commit_state
  erase_sources ids o transaction_id g =
      if is_nil ids then (ok tt, g) else commit_state norm o transaction_id (erased ids g.state) g

  unfoldable pub purge : Outcomes → String → GraphStore → Result GraphError (Unit {0}) × GraphStore
  unfolding commit_state
  purge o transaction_id g = commit_state norm o transaction_id default_graph g
