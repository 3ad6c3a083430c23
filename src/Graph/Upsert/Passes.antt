-- ===== src/Graph/Upsert/Passes.antt =====
-- src/graph/mod.rs: the passes of `apply_upsert` over the candidates, and the run that it records.
use Prim.Native.String.{◌++◌}
use opencode_native_memory.Prelude.{
  ℕ, true, none, some, List, [], String, str_eq, length, map, any, if◌then◌else◌,
}
use opencode_native_memory.Prelude.Map.{get, insert, map_values}
use opencode_native_memory.Prelude.Result.{Result, ok, err, ensure, ◌>>◌}
use opencode_native_memory.State.Ids.{distinct}
use opencode_native_memory.Float.{F32, F64}
use opencode_native_memory.Graph.Defs.{
  GraphEntity, GraphRelation, DerivedFact, GraphObservation, GraphRun, GraphState, GraphSource,
}
use opencode_native_memory.Graph.Validate.{validate_run_id, validate_provider}
use opencode_native_memory.Graph.Store.{Outcomes, GraphStore, commit_state}
use opencode_native_memory.Graph.Erase.{collect_set}
use opencode_native_memory.Graph.Upsert.{
  Services, UpsertError, run_reused, units_not_unique, run_reserved, from_graph, Work,
}
use opencode_native_memory.Graph.Upsert.Entities.{build_entity}
use opencode_native_memory.Graph.Upsert.Relations.{build_relation}
use opencode_native_memory.Graph.Upsert.Facts.{build_fact}
use opencode_native_memory.Graph.Upsert.Observations.{build_observation}
use opencode_native_memory.Graph.Upsert.Apply.{
  Refusals, Material, GraphUpsertOutcome, reject, reject_relation, Batch, build_all, merge_mentions,
  recount, more_scopes, unique_scopes, source_by_unit, check_counts, nothing_refused, replayed,
}

module _ (sv : Services) (q : Material) (now_ms : ℕ) where
  unfoldable pub entity_pass : Work → Batch GraphEntity Work
  unfolding build_all build_entity
  entity_pass w =
      build_all (reject "entity") (λ _ c w. build_entity sv (source_by_unit q.sources) now_ms c w) 0
        q.entities (record { accepted = []; refusals = nothing_refused; state = w })

  unfoldable pub relation_pass : Refusals → Work → Batch GraphRelation Work
  unfolding build_all build_relation
  relation_pass r w =
      build_all reject_relation
        (λ _ c w. build_relation sv (source_by_unit q.sources) q.provider now_ms c w) 0 q.relations
        (record { accepted = []; refusals = r; state = w })

  unfoldable pub fact_pass : Refusals → GraphState → Batch DerivedFact GraphState
  unfolding build_all build_fact
  fact_pass r s =
      build_all (reject "fact")
        (λ accepted c s. build_fact sv (source_by_unit q.sources) q.provider now_ms accepted c s) 0
        q.facts (record { accepted = []; refusals = r; state = s })

  unfoldable pub observation_pass :
      List (ℕ × DerivedFact) → Refusals → GraphState → Batch GraphObservation GraphState
  unfolding build_all build_observation
  observation_pass facts r s =
      build_all (reject "observation") (λ _ c s. build_observation sv q.provider now_ms facts c s) 0
        q.observations (record { accepted = []; refusals = r; state = s })

  -- `state.mentions` and the counts of sources, after the passes
  unfoldable pub settle_mentions : Work → GraphState → GraphState
  unfolding merge_mentions map_values
  settle_mentions w s =
      let mentions = merge_mentions s.mentions w.mentions in
      record s { mentions = mentions; entities = map_values (recount mentions) s.entities }

  unfoldable pub new_run :
      String
      → Batch GraphEntity Work
      → Batch GraphRelation Work
      → Batch DerivedFact GraphState
      → Batch GraphObservation GraphState
      → GraphRun
  unfolding more_scopes collect_set
  new_run digest es rs fs os = record {
    extraction_run_id = q.run_id;
    idempotency_digest = digest;
    outcome = "committed";
    committed_at_ms = now_ms;
    source_count = length q.sources;
    accepted_entity_count = length es.accepted;
    accepted_relation_count = length rs.accepted;
    accepted_fact_count = length fs.accepted;
    accepted_observation_count = length os.accepted;
    rejected_candidate_count = length os.refusals.rejected;
    conflict_count = length os.refusals.conflicts;
    warning_count = 0;
    terminal = true;
    provider_id = q.provider.provider_id;
    model_id = q.provider.model_id;
    extractor_version = q.provider.extractor_version;
    prompt_version = q.provider.prompt_version;
    candidate_schema_version = q.provider.schema_version;
    scopes = unique_scopes q.sources;
    source_ids = collect_set (map (λ (s : GraphSource). s.source_memory_id) q.sources);
    input_bytes = q.metrics.input_bytes;
    output_bytes = q.metrics.output_bytes;
    latency_ms = q.metrics.latency_ms;
  }

  -- a run that is not there yet, once its material is checked
  unfoldable pub first_run : String → GraphState → GraphUpsertOutcome × GraphState
  unfolding entity_pass relation_pass fact_pass observation_pass settle_mentions new_run insert
  first_run digest s =
      let es = entity_pass (record { graph = s; mentions = [] }) in
      let rs = relation_pass es.refusals es.state in
      let fs = fact_pass rs.refusals rs.state.graph in
      let os = observation_pass fs.accepted fs.refusals fs.state in
      let settled = settle_mentions rs.state os.state in
      let run = new_run digest es rs fs os in
      (
        record {
          run = run;
          entities = es.accepted;
          relations = rs.accepted;
          facts = fs.accepted;
          observations = os.accepted;
          refusals = os.refusals;
          warnings = [];
        },
        record settled { runs = insert settled.runs q.run_id run },
      )

  unfoldable pub apply_upsert :
      (Material → String) → GraphState → Result UpsertError (GraphUpsertOutcome × GraphState)
  unfolding validate_run_id validate_provider distinct first_run
  apply_upsert digest s = do
    from_graph (validate_run_id q.run_id)
    from_graph (validate_provider q.provider)
    check_counts q
    elim (get s.runs q.run_id) [
      | some run ↦
          if str_eq run.idempotency_digest (digest q) then ok (replayed run, s) else err run_reused
      | none ↦
          ensure (distinct (map (λ (x : GraphSource). x.source_unit_id) q.sources)) units_not_unique
          >> ok (first_run (digest q) s)
    ]

  -- `upsert_learning`
  unfoldable pub upsert_learning :
      (List F32 → F64)
      → (Material → String)
      → Outcomes
      → GraphStore
      → Result UpsertError GraphUpsertOutcome × GraphStore
  unfolding apply_upsert commit_state any
  upsert_learning norm digest o g =
      let reserved = any (λ (_, j). str_eq j.extraction_run_id q.run_id) g.state.jobs in
      if reserved then (err run_reserved, g) else elim (apply_upsert digest g.state) [
        | err reason ↦ (err reason, g)
        | ok (outcome, next) ↦
            let (done, after) = commit_state norm o ("run:" ++ q.run_id) next g in
            (from_graph done >> ok outcome, after)
      ]
