-- ===== src/Graph/Upsert/Sound/Applied.antt =====
-- src/graph/mod.rs: `apply_upsert` keeps the graph sound.
use mathlib.Core.List.{◌++◌ as append}
use opencode_native_memory.Prelude.{ℕ, Bool, true, ◌≡◌, refl, List, [], String, all, arith}
use opencode_native_memory.Prelude.Map.{Map, contains_key, map_values}
use opencode_native_memory.Prelude.Values.{all-append, all-map_values, get-map_values}
use opencode_native_memory.Prelude.Result.{ok}
use opencode_native_memory.Graph.Defs.{
  GraphEvidence, GraphEntity, GraphMention, GraphRun, GraphState,
}
use opencode_native_memory.Graph.Upsert.{Services, GraphEvidenceInput, Work}
use opencode_native_memory.Graph.Upsert.Evidence.{one_evidence, sort_by}
use opencode_native_memory.Graph.Upsert.Entities.{build_entity}
use opencode_native_memory.Graph.Upsert.Relations.{build_relation}
use opencode_native_memory.Graph.Upsert.Facts.{Accepted, build_fact}
use opencode_native_memory.Graph.Upsert.Observations.{build_observation}
use opencode_native_memory.Graph.Upsert.Apply.{
  Refusals, Material, GraphUpsertOutcome, reject, reject_relation, mention_leb, same_mention,
  merge_mentions, recount, source_by_unit, nothing_refused,
}
use opencode_native_memory.Graph.Upsert.Passes.{
  entity_pass, relation_pass, fact_pass, observation_pass, settle_mentions, first_run, apply_upsert,
}
use opencode_native_memory.Graph.Upsert.Built.{all-sort_by, all-dedup_by, build_all-keeps}
use opencode_native_memory.Graph.Upsert.Known.{entity_ok}
use opencode_native_memory.Graph.Upsert.Sound.{mention_ok, sound, work_ok}
use opencode_native_memory.Graph.Upsert.Sound.Entities.{
  build_entity-ok, wider-mentions, wider-relations, wider-facts,
}
use opencode_native_memory.Graph.Upsert.Sound.Relations.{build_relation-ok}
use opencode_native_memory.Graph.Upsert.Sound.Facts.{PassIsSound, build_fact-ok}
use opencode_native_memory.Graph.Upsert.Sound.Observations.{build_observation-ok}

contains_key-map_values :
    {V : Type 0} (f : V → V) (m : Map V) (id : String)
    → contains_key m id ≡ true
    → contains_key (map_values f m) id ≡ true
contains_key-map_values f m id h = ground (arith, h, get-map_values f m id)

module _ (p : GraphEvidence → Bool) where
  fresh_work :
      (s : GraphState) → sound p s ≡ true → work_ok p (record { graph = s; mentions = [] }) ≡ true
  unfolding all
  fresh_work s h = ground (arith, h)

  work-pass : (w : Work) → work_ok p w ≡ true → PassIsSound p w.mentions [] w.graph
  unfolding all
  work-pass w h = (ground (arith, h), refl, ground (arith, h))

  -- runs do not matter
  sound-runs :
      (s : GraphState) (runs : Map GraphRun)
      → sound p s ≡ true
      → sound p (record s { runs = runs }) ≡ true
  unfolding sound
  sound-runs s runs h = h

module _ (p : GraphEvidence → Bool) (sv : Services) (q : Material) (now_ms : ℕ)
    (quoted : (i : GraphEvidenceInput) (e : GraphEvidence)
      → one_evidence (source_by_unit q.sources) i ≡ ok e
      → p e ≡ true) where
  entity_pass-ok :
      (w : Work) → work_ok p w ≡ true → work_ok p (entity_pass sv q now_ms w).state ≡ true
  unfolding entity_pass
  entity_pass-ok w h =
      let sources = source_by_unit q.sources in
      build_all-keeps (λ _ w. work_ok p w ≡ true) (reject "entity")
        (λ _ c w. build_entity sv sources now_ms c w)
        (λ _ c w _ e next k made. build_entity-ok p sources quoted sv now_ms c w e next k made) 0
        q.entities (record { accepted = []; refusals = nothing_refused; state = w }) h

  relation_pass-ok :
      (r : Refusals) (w : Work)
      → work_ok p w ≡ true
      → work_ok p (relation_pass sv q now_ms r w).state ≡ true
  unfolding relation_pass
  relation_pass-ok r w h =
      let sources = source_by_unit q.sources in
      build_all-keeps (λ _ w. work_ok p w ≡ true) reject_relation
        (λ _ c w. build_relation sv sources q.provider now_ms c w)
        (λ _ c w _ e next k made.
          build_relation-ok p sources quoted sv q.provider now_ms c w e next k made)
        0 q.relations (record { accepted = []; refusals = r; state = w }) h

  fact_pass-ok :
      (r : Refusals) (mentions : List GraphMention) (s : GraphState)
      → PassIsSound p mentions [] s
      → let b = fact_pass sv q now_ms r s in PassIsSound p mentions b.accepted b.state
  unfolding fact_pass
  fact_pass-ok r mentions s h =
      let sources = source_by_unit q.sources in
      build_all-keeps (PassIsSound p mentions) (reject "fact")
        (λ accepted c s. build_fact sv sources q.provider now_ms accepted c s)
        (λ accepted c s index f next k made.
          build_fact-ok p mentions sources quoted sv q.provider now_ms accepted c s index f next k
            made)
        0 q.facts (record { accepted = []; refusals = r; state = s }) h

  observation_pass-ok :
      (facts : Accepted) (r : Refusals) (mentions : List GraphMention) (s : GraphState)
      → PassIsSound p mentions facts s
      → PassIsSound p mentions facts (observation_pass sv q now_ms facts r s).state
  unfolding observation_pass
  observation_pass-ok facts r mentions s h =
      build_all-keeps (λ _ s. PassIsSound p mentions facts s) (reject "observation")
        (λ _ c s. build_observation sv q.provider now_ms facts c s)
        (λ _ c s _ o next k made.
          build_observation-ok p mentions sv q.provider now_ms facts c s o next k made)
        0 q.observations (record { accepted = []; refusals = r; state = s }) h

  merge_mentions-ok :
      (es : Map GraphEntity) (old new : List GraphMention)
      → all (mention_ok p es) old ≡ true
      → all (mention_ok p es) new ≡ true
      → all (mention_ok p es) (merge_mentions old new) ≡ true
  unfolding merge_mentions
  merge_mentions-ok es old new h k =
      let sorted = sort_by mention_leb same_mention (append old new) in
      all-dedup_by mention_leb same_mention (mention_ok p es) sorted (
        all-sort_by mention_leb same_mention (mention_ok p es) (append old new)
          (all-append (mention_ok p es) (λ _. true) old new h k))

  settle_mentions-ok :
      (w : Work) (facts : Accepted) (s : GraphState)
      → PassIsSound p w.mentions facts s
      → sound p (settle_mentions sv q now_ms w s) ≡ true
  unfolding settle_mentions sound
  settle_mentions-ok w facts s h =
      let mentions = merge_mentions s.mentions w.mentions in
      let es = map_values (recount mentions) s.entities in
      let wider = contains_key-map_values (recount mentions) s.entities in
      ground (
        arith,
        h,
        all-map_values entity_ok (recount mentions) s.entities (λ k e same. same),
        merge_mentions-ok s.entities s.mentions w.mentions,
        wider-mentions p s.entities es wider mentions,
        wider-relations p s.entities es wider s.relations,
        wider-facts p s.entities es wider s.facts s.facts,
      )

  first_run-ok :
      (digest : String) (s : GraphState)
      → sound p s ≡ true
      → sound p (first_run sv q now_ms digest s).1 ≡ true
  unfolding first_run
  first_run-ok digest s h =
      let es = entity_pass sv q now_ms (record { graph = s; mentions = [] }) in
      let rs = relation_pass sv q now_ms es.refusals es.state in
      let fs = fact_pass sv q now_ms rs.refusals rs.state.graph in
      let os = observation_pass sv q now_ms fs.accepted fs.refusals fs.state in
      let first : work_ok p es.state ≡ true =
        entity_pass-ok (record { graph = s; mentions = [] }) (fresh_work p s h) in
      let second = relation_pass-ok es.refusals es.state first in
      let third =
        fact_pass-ok rs.refusals rs.state.mentions rs.state.graph (work-pass p rs.state second) in
      let last = observation_pass-ok fs.accepted fs.refusals rs.state.mentions fs.state third in
      let settled = settle_mentions sv q now_ms rs.state os.state in
      sound-runs p settled _ (settle_mentions-ok rs.state fs.accepted os.state last)

  pub apply_upsert-sound :
      (digest : Material → String) (s : GraphState) (outcome : GraphUpsertOutcome)
      (next : GraphState)
      → sound p s ≡ true
      → apply_upsert sv q now_ms digest s ≡ ok (outcome, next)
      → sound p next ≡ true
  unfolding apply_upsert
  apply_upsert-sound digest s outcome next h made =
      ground (arith, h, made, first_run-ok (digest q) s h)
