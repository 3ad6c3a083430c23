-- ===== src/Graph/Upsert/Runs.antt =====
-- src/graph/mod.rs: the runs that the graph records of its upserts.
use opencode_native_memory.Prelude.{
  ℕ, ◌+◌, true, ◌≡◌, none, some, List, [], ◌∷◌, String, str_eq, eq_refl, subst, length,
  length-append, arith,
}
use opencode_native_memory.Prelude.Map.{Map, get, insert, get-insert}
use opencode_native_memory.Prelude.Result.{Result, ok, err}
use opencode_native_memory.Graph.Defs.{GraphState, GraphRun}
use opencode_native_memory.Graph.Upsert.{Services, UpsertError, relation_conflict, Work}
use opencode_native_memory.Graph.Upsert.Entities.{build_entity}
use opencode_native_memory.Graph.Upsert.Relations.{build_relation}
use opencode_native_memory.Graph.Upsert.Facts.{Accepted, build_fact}
use opencode_native_memory.Graph.Upsert.Observations.{build_observation}
use opencode_native_memory.Graph.Upsert.Apply.{
  Refusals, Material, GraphUpsertOutcome, reject, reject_relation, Batch, judge, build_all,
  replayed, nothing_refused, source_by_unit,
}
use opencode_native_memory.Graph.Upsert.Passes.{
  entity_pass, relation_pass, fact_pass, observation_pass, new_run, first_run, apply_upsert,
}

insert-recorded :
    (runs : Map GraphRun) (id digest : String) (run : GraphRun)
    → str_eq run.idempotency_digest digest ≡ true
    → (get (insert runs id run) id ≡ some run) × (str_eq run.idempotency_digest digest ≡ true)
insert-recorded runs id digest run h = (ground (arith, get-insert runs id run id, eq_refl id), h)

first_run-recorded :
    (sv : Services) (q : Material) (now_ms : ℕ) (digest : String) (s : GraphState)
    → (get (first_run sv q now_ms digest s).1.runs q.run_id
        ≡ some (first_run sv q now_ms digest s).0.run)
      × (str_eq (first_run sv q now_ms digest s).0.run.idempotency_digest digest ≡ true)
unfolding first_run new_run
first_run-recorded sv q now_ms digest s =
    insert-recorded _ q.run_id digest (first_run sv q now_ms digest s).0.run (eq_refl digest)

-- An upsert that was accepted, made again with the same material at any time, answers with the run
-- that the first one recorded and leaves the graph as it is.
pub apply_upsert-replays :
    (sv : Services) (q : Material) (now_ms later_ms : ℕ) (digest : Material → String)
    (s next : GraphState) (outcome : GraphUpsertOutcome)
    → apply_upsert sv q now_ms digest s ≡ ok (outcome, next)
    → apply_upsert sv q later_ms digest next ≡ ok (replayed outcome.run, next)
unfolding apply_upsert
apply_upsert-replays sv q now_ms later_ms digest s next outcome made =
    ground (arith, made, first_run-recorded sv q now_ms (digest q) s)

-- how many candidates are accepted or refused
abbrev refused : Refusals → ℕ
refused r = length r.rejected + length r.conflicts

abbrev Counts : (ℕ → UpsertError → Refusals → Refusals) → Type 0
Counts refuse =
    (index : ℕ) (e : UpsertError) (r : Refusals) → refused (refuse index e r) ≡ refused r + 1

reject-Counts : (kind : String) → Counts (reject kind)
reject-Counts kind index e r = omega (
  arith,
  length-append r.rejected
      (record { kind = kind; index = index; code = "invalid_candidate"; message = e } ∷ []),
)

reject_relation-Counts : Counts reject_relation
reject_relation-Counts index (relation_conflict id) r = omega (
  arith,
  length-append r.conflicts (
      record { kind = "relation"; index = index; existing_id = id; code = "relation_collision" }
      ∷ []),
)
reject_relation-Counts index e r = reject-Counts "relation" index e r

module _ {C A S : Type 0} (refuse : ℕ → UpsertError → Refusals → Refusals) (counts : Counts refuse)
    (build : List (ℕ × A) → C → S → Result UpsertError (A × S)) where
  judge-counts :
      (index : ℕ) (r : Result UpsertError (A × S)) (b : Batch A S)
      → let next = judge refuse index r b in
        length next.accepted + refused next.refusals ≡ (length b.accepted + refused b.refusals) + 1
  judge-counts index (ok (a, s)) b = omega (arith, length-append b.accepted ((index, a) ∷ []))
  judge-counts index (err e) b = omega (arith, counts index e b.refusals)

  build_all-counts :
      (index : ℕ) (cs : List C) (b : Batch A S)
      → let next = build_all refuse build index cs b in
        length next.accepted + refused next.refusals
        ≡ (length b.accepted + refused b.refusals) + length cs
  unfolding build_all
  build_all-counts index [] b = omega arith
  build_all-counts index (c ∷ cs) b =
      let r = build b.accepted c b.state in
      omega
        (arith, build_all-counts (index + 1) cs (judge refuse index r b), judge-counts index r b)

module _ (sv : Services) (q : Material) (now_ms : ℕ) where
  entity_pass-counts :
      (w : Work)
      → let b = entity_pass sv q now_ms w in
        length b.accepted + refused b.refusals ≡ length q.entities
  unfolding entity_pass
  entity_pass-counts w = omega (
    arith,
    build_all-counts (reject "entity") (reject-Counts "entity")
        (λ _ c w. build_entity sv (source_by_unit q.sources) now_ms c w) 0 q.entities
        (record { accepted = []; refusals = nothing_refused; state = w }),
  )

  relation_pass-counts :
      (r : Refusals) (w : Work)
      → let b = relation_pass sv q now_ms r w in
        length b.accepted + refused b.refusals ≡ refused r + length q.relations
  unfolding relation_pass
  relation_pass-counts r w = omega (
    arith,
    build_all-counts reject_relation reject_relation-Counts
        (λ _ c w. build_relation sv (source_by_unit q.sources) q.provider now_ms c w) 0 q.relations
        (record { accepted = []; refusals = r; state = w }),
  )

  fact_pass-counts :
      (r : Refusals) (s : GraphState)
      → let b = fact_pass sv q now_ms r s in
        length b.accepted + refused b.refusals ≡ refused r + length q.facts
  unfolding fact_pass
  fact_pass-counts r s = omega (
    arith,
    build_all-counts (reject "fact") (reject-Counts "fact")
        (λ accepted c s. build_fact sv (source_by_unit q.sources) q.provider now_ms accepted c s) 0
        q.facts (record { accepted = []; refusals = r; state = s }),
  )

  observation_pass-counts :
      (facts : Accepted) (r : Refusals) (s : GraphState)
      → let b = observation_pass sv q now_ms facts r s in
        length b.accepted + refused b.refusals ≡ refused r + length q.observations
  unfolding observation_pass
  observation_pass-counts facts r s = omega (
    arith,
    build_all-counts (reject "observation") (reject-Counts "observation")
        (λ _ c s. build_observation sv q.provider now_ms facts c s) 0 q.observations
        (record { accepted = []; refusals = r; state = s }),
  )

  first_run-counts :
      (digest : String) (s : GraphState)
      → let run = (first_run sv q now_ms digest s).0.run in
        ((((run.accepted_entity_count + run.accepted_relation_count) + run.accepted_fact_count)
              + run.accepted_observation_count)
            + run.rejected_candidate_count)
          + run.conflict_count
        ≡ ((length q.entities + length q.relations) + length q.facts) + length q.observations
  unfolding first_run new_run
  first_run-counts digest s =
      let es = entity_pass sv q now_ms (record { graph = s; mentions = [] }) in
      let rs = relation_pass sv q now_ms es.refusals es.state in
      let fs = fact_pass sv q now_ms rs.refusals rs.state.graph in
      omega (
        arith,
        entity_pass-counts (record { graph = s; mentions = [] }),
        relation_pass-counts es.refusals es.state,
        fact_pass-counts rs.refusals rs.state.graph,
        observation_pass-counts fs.accepted fs.refusals fs.state,
      )

-- An upsert that is accepted and not a repetition records a run that accounts for every candidate:
-- those that it counts as accepted, of each kind, as rejected and as conflicts are together as many
-- as the entities, relations, facts and observations of its material.
pub apply_upsert-accounts :
    (sv : Services) (q : Material) (now_ms : ℕ) (digest : Material → String) (s next : GraphState)
    (outcome : GraphUpsertOutcome)
    → get s.runs q.run_id ≡ none
    → apply_upsert sv q now_ms digest s ≡ ok (outcome, next)
    → let run = outcome.run in
      (get next.runs q.run_id ≡ some run)
      × (((((run.accepted_entity_count + run.accepted_relation_count) + run.accepted_fact_count)
                + run.accepted_observation_count)
              + run.rejected_candidate_count)
            + run.conflict_count
          ≡ ((length q.entities + length q.relations) + length q.facts) + length q.observations)
unfolding apply_upsert
apply_upsert-accounts sv q now_ms digest s next outcome fresh made =
    let first = first_run sv q now_ms (digest q) s in
    let same : (first ≡ (outcome, next)) = ground (arith, fresh, made) in
    subst
      (λ (r : GraphUpsertOutcome × GraphState).
        (get r.1.runs q.run_id ≡ some r.0.run)
        × (((((r.0.run.accepted_entity_count + r.0.run.accepted_relation_count)
                    + r.0.run.accepted_fact_count)
                  + r.0.run.accepted_observation_count)
                + r.0.run.rejected_candidate_count)
              + r.0.run.conflict_count
            ≡ ((length q.entities + length q.relations) + length q.facts) + length q.observations))
      same
      ((first_run-recorded sv q now_ms (digest q) s).0, first_run-counts sv q now_ms (digest q) s)
