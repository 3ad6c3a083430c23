-- ===== src/Graph/Upsert/Frame.antt =====
-- src/graph/mod.rs: the builders of `apply_upsert` leave the jobs of the graph alone.
use opencode_native_memory.Prelude.{ℕ, ◌≡◌, ap, List, [], String}
use opencode_native_memory.Prelude.Map.{Map, get}
use opencode_native_memory.Prelude.Result.{Result, ok, ok_or, ◌>>=◌, ◌>>◌, >>=-eq-ok, ok-inj}
use opencode_native_memory.Graph.Defs.{
  GraphScope, GraphEvidence, GraphEntity, GraphRelation, DerivedFact, GraphExtractionJob,
  GraphProvider, GraphSource, GraphState,
}
use opencode_native_memory.Graph.Jobs.{Upsert}
use opencode_native_memory.Graph.Jobs.Completion.{with_upsert}
use opencode_native_memory.Graph.Jobs.Fencing.{graph_parts}
use opencode_native_memory.Graph.Upsert.{
  Services, GraphEntityInput, GraphRelationInput, GraphFactInput, UpsertError, Work,
  subject_missing, object_missing,
}
use opencode_native_memory.Graph.Upsert.Resolve.{
  normalize_name, resolve_entity_id, resolve_mention_entity,
}
use opencode_native_memory.Graph.Upsert.Entities.{
  place_entity, fresh_entity, put_entity, entity_name, entity_id_or_new, found_entity,
}
use opencode_native_memory.Graph.Upsert.Relations.{
  place_relation, relation_id, new_relation, merge_relation, put_relation,
}
use opencode_native_memory.Graph.Upsert.Facts.{
  Accepted, place_fact, fact_id, new_fact, merged_fact, put_fact, mentioned_entities, causal_ids,
}

-- What is left of a graph without the parts of an upsert.
pub record Frame : Type 0 where
  pub schema_version : ℕ
  pub generation : ℕ
  pub policy_revision : String
  pub normalization_version : String
  pub resolution_version : String
  pub jobs : Map GraphExtractionJob

abbrev pub frame : GraphState → Frame
frame s = record {
  schema_version = s.schema_version;
  generation = s.generation;
  policy_revision = s.policy_revision;
  normalization_version = s.normalization_version;
  resolution_version = s.resolution_version;
  jobs = s.jobs;
}

abbrev joined_with : Upsert → Frame → GraphState
joined_with u f = record {
  schema_version = f.schema_version;
  generation = f.generation;
  policy_revision = f.policy_revision;
  normalization_version = f.normalization_version;
  resolution_version = f.resolution_version;
  jobs = f.jobs;
  entities = u.entities;
  relations = u.relations;
  facts = u.facts;
  observations = u.observations;
  mentions = u.mentions;
  runs = u.runs;
}

pub frame-with_upsert :
    (s next : GraphState) → frame s ≡ frame next → with_upsert (graph_parts next) s ≡ next
frame-with_upsert s next h = ap (joined_with (graph_parts next)) h

pub place_entity-frame :
    (sv : Services) (now_ms : ℕ) (c : GraphEntityInput) (w : Work) (evidence : List GraphEvidence)
    (scope : GraphScope) (e : GraphEntity) (next : Work)
    → place_entity sv now_ms c w evidence scope ≡ ok (e, next)
    → frame w.graph ≡ frame next.graph
unfolding place_entity
place_entity-frame sv now_ms c w evidence scope e next made =
    let entities = w.graph.entities in
    let fresh = fresh_entity sv c scope now_ms in
    let put = put_entity sv c now_ms evidence in
    let (resolved, _, made) =
      >>=-eq-ok
        (resolve_entity_id w.graph scope (normalize_name sv c.entity_type) (entity_name sv c))
        (λ resolved.
          let id = entity_id_or_new sv c scope resolved in
          found_entity (fresh id) (get entities id) >>= λ e. ok (put id w e))
        made in
    let id = entity_id_or_new sv c scope resolved in
    let (old, _, made) =
      >>=-eq-ok (found_entity (fresh id) (get entities id)) (λ e. ok (put id w e)) made in
    ap (λ (r : GraphEntity × Work). frame r.1.graph) (ok-inj made)

pub place_relation-frame :
    (sv : Services) (provider : GraphProvider) (now_ms : ℕ) (c : GraphRelationInput) (w : Work)
    (evidence : List GraphEvidence) (scope : GraphScope) (r : GraphRelation) (next : Work)
    → place_relation sv provider now_ms c w evidence scope ≡ ok (r, next)
    → frame w.graph ≡ frame next.graph
unfolding place_relation
place_relation-frame sv provider now_ms c w evidence scope r next made =
    let s = w.graph in
    let look : String → UpsertError → Result UpsertError String =
      λ mention reason. ok_or (resolve_mention_entity sv s scope mention) reason in
    let id =
      λ (subject : String) (object : String). relation_id sv s.relations c scope subject object in
    let merged = λ (subject : String) (object : String).
      merge_relation c now_ms evidence (id subject object)
        (new_relation c provider now_ms evidence scope subject object (id subject object))
        (get s.relations (id subject object)) in
    let (subject, _, made) =
      >>=-eq-ok (look c.subject_mention subject_missing)
        (λ subject. look c.object_mention object_missing >>= λ object.
          merged subject object >>= λ r. ok (put_relation (id subject object) w r))
        made in
    let (object, _, made) =
      >>=-eq-ok (look c.object_mention object_missing)
        (λ object. merged subject object >>= λ r. ok (put_relation (id subject object) w r)) made in
    let (done, _, made) =
      >>=-eq-ok (merged subject object)
        (λ (r : GraphRelation). ok (put_relation (id subject object) w r)) made in
    ap (λ (r : GraphRelation × Work). frame r.1.graph) (ok-inj made)

pub place_fact-frame :
    (sv : Services) (sources : Map GraphSource) (provider : GraphProvider) (now_ms : ℕ)
    (accepted : Accepted) (c : GraphFactInput) (s : GraphState) (evidence : List GraphEvidence)
    (scope : GraphScope) (f : DerivedFact) (next : GraphState)
    → place_fact sv sources provider now_ms accepted c s evidence scope ≡ ok (f, next)
    → frame s ≡ frame next
unfolding place_fact
place_fact-frame sv sources provider now_ms accepted c s evidence scope f next made =
    let id = fact_id sv c scope evidence in
    let entity_ids = mentioned_entities sv s scope c.entity_mentions in
    let fact = λ (causes : List String).
      let fresh = new_fact sv sources provider now_ms c evidence scope entity_ids causes in
      merged_fact c evidence entity_ids causes fresh (get s.facts id) in
    let (causes, _, made) =
      >>=-eq-ok (causal_ids accepted scope [] c.causal_fact_indexes)
        (λ (causes : List String). ok (put_fact id s (fact causes))) made in
    ap (λ (r : DerivedFact × GraphState). frame r.1) (ok-inj made)

-- the stages of a builder before it changes the graph
pub placed :
    {A S : Type 0} (check : Result UpsertError (Unit {0}))
    (found : Result UpsertError (List GraphEvidence × GraphScope))
    (place : List GraphEvidence × GraphScope → Result UpsertError (A × S)) (a : A) (next : S)
    → (check >> (found >>= place)) ≡ ok (a, next)
    → (evidence : List GraphEvidence) × (scope : GraphScope) × (place (evidence, scope)
        ≡ ok (a, next))
placed check found place a next h =
    let (_, _, h) = >>=-eq-ok check (λ _. found >>= place) h in
    let ((evidence, scope), _, h) = >>=-eq-ok found place h in (evidence, scope, h)
