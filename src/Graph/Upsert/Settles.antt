-- ===== src/Graph/Upsert/Settles.antt =====
-- src/graph/mod.rs: a worker's report settles to the graph that `apply_upsert` makes.
use opencode_native_memory.Prelude.{ℕ, ◌≡◌, refl, some, [], String, arith, subst}
use opencode_native_memory.Prelude.Result.{ok}
use opencode_native_memory.Graph.Defs.{GraphObservation, GraphExtractionJob, GraphState}
use opencode_native_memory.Graph.Jobs.{Finish, completes, Upsert}
use opencode_native_memory.Graph.Jobs.Completion.{completed_job, with_upsert, settle}
use opencode_native_memory.Graph.Jobs.Fencing.{graph_parts}
use opencode_native_memory.Graph.Upsert.{Services, GraphObservationInput, Work}
use opencode_native_memory.Graph.Upsert.Evidence.{grounds}
use opencode_native_memory.Graph.Upsert.Entities.{check_entity, place_entity, build_entity}
use opencode_native_memory.Graph.Upsert.Relations.{check_relation, place_relation, build_relation}
use opencode_native_memory.Graph.Upsert.Facts.{Accepted, check_fact, place_fact, build_fact}
use opencode_native_memory.Graph.Upsert.Observations.{place_observation, build_observation}
use opencode_native_memory.Graph.Upsert.Apply.{
  Refusals, Material, GraphUpsertOutcome, reject, reject_relation, source_by_unit, nothing_refused,
}
use opencode_native_memory.Graph.Upsert.Passes.{
  entity_pass, relation_pass, fact_pass, observation_pass, settle_mentions, first_run, apply_upsert,
}
use opencode_native_memory.Graph.Upsert.Built.{build_all-keeps}
use opencode_native_memory.Graph.Upsert.Frame.{
  frame, frame-with_upsert, place_entity-frame, place_relation-frame, place_fact-frame, placed,
}

module _ (sv : Services) (q : Material) (now_ms : ℕ) where
  entity_pass-frame : (w : Work) → frame w.graph ≡ frame (entity_pass sv q now_ms w).state.graph
  unfolding entity_pass build_entity
  entity_pass-frame w =
      let sources = source_by_unit q.sources in
      build_all-keeps (λ _ (x : Work). frame w.graph ≡ frame x.graph) (reject "entity")
        (λ _ c x. build_entity sv sources now_ms c x)
        (λ _ c x _ e next k made.
          let (evidence, scope, made) =
            placed (check_entity c) (grounds sources c.evidence)
              (λ (evidence, scope). place_entity sv now_ms c x evidence scope) e next made in
          subst (λ f. frame w.graph ≡ f)
            (place_entity-frame sv now_ms c x evidence scope e next made) k)
        0 q.entities (record { accepted = []; refusals = nothing_refused; state = w }) refl

  relation_pass-frame :
      (r : Refusals) (w : Work) → frame w.graph ≡ frame (relation_pass sv q now_ms r w).state.graph
  unfolding relation_pass build_relation
  relation_pass-frame r w =
      let sources = source_by_unit q.sources in
      build_all-keeps (λ _ (x : Work). frame w.graph ≡ frame x.graph) reject_relation
        (λ _ c x. build_relation sv sources q.provider now_ms c x)
        (λ _ c x _ e next k made.
          let (evidence, scope, made) =
            placed (check_relation c) (grounds sources c.evidence)
              (λ (evidence, scope). place_relation sv q.provider now_ms c x evidence scope) e next
              made in
          subst (λ f. frame w.graph ≡ f)
            (place_relation-frame sv q.provider now_ms c x evidence scope e next made) k)
        0 q.relations (record { accepted = []; refusals = r; state = w }) refl

  fact_pass-frame :
      (r : Refusals) (s : GraphState) → frame s ≡ frame (fact_pass sv q now_ms r s).state
  unfolding fact_pass build_fact
  fact_pass-frame r s =
      let sources = source_by_unit q.sources in
      build_all-keeps (λ _ x. frame s ≡ frame x) (reject "fact")
        (λ accepted c x. build_fact sv sources q.provider now_ms accepted c x)
        (λ accepted c x _ f next k made.
          let (evidence, scope, made) =
            placed (check_fact sv c) (grounds sources c.evidence)
              (λ (evidence, scope).
                place_fact sv sources q.provider now_ms accepted c x evidence scope)
              f next made in
          subst (λ g. frame s ≡ g)
            (place_fact-frame sv sources q.provider now_ms accepted c x evidence scope f next made)
            k)
        0 q.facts (record { accepted = []; refusals = r; state = s }) refl

  build_observation-frame :
      (facts : Accepted) (c : GraphObservationInput) (s next : GraphState) (o : GraphObservation)
      → build_observation sv q.provider now_ms facts c s ≡ ok (o, next)
      → frame s ≡ frame next
  unfolding build_observation place_observation
  build_observation-frame facts c s next o h = ground (arith, h)

  observation_pass-frame :
      (facts : Accepted) (r : Refusals) (s : GraphState)
      → frame s ≡ frame (observation_pass sv q now_ms facts r s).state
  unfolding observation_pass
  observation_pass-frame facts r s =
      build_all-keeps (λ _ x. frame s ≡ frame x) (reject "observation")
        (λ _ c x. build_observation sv q.provider now_ms facts c x)
        (λ _ c x _ o next k made.
          subst (λ g. frame s ≡ g) (build_observation-frame facts c x next o made) k)
        0 q.observations (record { accepted = []; refusals = r; state = s }) refl

  first_run-frame :
      (digest : String) (s : GraphState) → frame s ≡ frame (first_run sv q now_ms digest s).1
  unfolding first_run settle_mentions
  first_run-frame digest s =
      let es = entity_pass sv q now_ms (record { graph = s; mentions = [] }) in
      let rs = relation_pass sv q now_ms es.refusals es.state in
      let fs = fact_pass sv q now_ms rs.refusals rs.state.graph in
      subst (λ f. frame s ≡ f) (observation_pass-frame fs.accepted fs.refusals fs.state)
        (subst (λ f. frame s ≡ f) (fact_pass-frame rs.refusals rs.state.graph)
          (subst (λ f. frame s ≡ f) (relation_pass-frame es.refusals es.state)
            (entity_pass-frame (record { graph = s; mentions = [] }))))

  apply_upsert-frame :
      (digest : Material → String) (s next : GraphState) (outcome : GraphUpsertOutcome)
      → apply_upsert sv q now_ms digest s ≡ ok (outcome, next)
      → frame s ≡ frame next
  unfolding apply_upsert
  apply_upsert-frame digest s next outcome made = ground (arith, made, first_run-frame (digest q) s)

settled :
    (hash_hex : String → String) (f : Finish) (job : GraphExtractionJob) (now_ms : ℕ)
    (s : GraphState) (u : Upsert)
    → f.outcome ≡ completes
    → f.error_code ≡ ""
    → f.upsert ≡ some u
    → settle hash_hex f now_ms job s ≡ ok (completed_job hash_hex f now_ms job, with_upsert u s)
unfolding settle
settled hash_hex f job now_ms s u done no_error given = rw (done, no_error, given)

-- A worker's report that a job is completed, given the parts of the graph that `apply_upsert` makes of
-- its material, settles to exactly the graph of `apply_upsert`: an upsert changes nothing else of it,
-- and no job.
pub settle-apply_upsert :
    (hash_hex : String → String) (f : Finish) (job : GraphExtractionJob) (sv : Services)
    (q : Material) (now_ms : ℕ) (digest : Material → String) (s next : GraphState)
    (outcome : GraphUpsertOutcome)
    → f.outcome ≡ completes
    → f.error_code ≡ ""
    → apply_upsert sv q now_ms digest s ≡ ok (outcome, next)
    → f.upsert ≡ some (graph_parts next)
    → settle hash_hex f now_ms job s ≡ ok (completed_job hash_hex f now_ms job, next)
unfolding settle
settle-apply_upsert hash_hex f job sv q now_ms digest s next outcome done no_error made given =
    let same =
      frame-with_upsert s next (apply_upsert-frame sv q now_ms digest s next outcome made) in
    subst
      (λ (x : GraphState).
        settle hash_hex f now_ms job s ≡ ok (completed_job hash_hex f now_ms job, x))
      same (settled hash_hex f job now_ms s (graph_parts next) done no_error given)
