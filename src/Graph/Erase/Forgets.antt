-- ===== src/Graph/Erase/Forgets.antt =====
-- src/graph/mod.rs: after `erase_sources` nothing in the graph rests on a deleted memory.
use opencode_native_memory.Prelude.{
  Bool, true, false, not, ◌&&◌, ◌||◌, ◌==◌, ◌≡◌, refl, inl, inr, List, [], ◌∷◌, String, any, all,
  retain, map, arith, Option-cases,
}
use opencode_native_memory.Prelude.Values.{
  all-retain, all-retain-keep, all-both, all-append, all-values-to, all-values, get-values,
  all-weaken,
}
use opencode_native_memory.Prelude.Map.{Map, get}
use opencode_native_memory.State.Validate.{contains}
use opencode_native_memory.Prelude.Map.{map_values}
use opencode_native_memory.Graph.Defs.{
  GraphEvidence, GraphRelation, DerivedFact, GraphObservation, GraphMention, GraphRun, is_terminal,
  GraphJobSource, GraphExtractionJob, GraphState,
}
use opencode_native_memory.Graph.Jobs.{clear_job_lease}
use opencode_native_memory.Graph.Erase.{
  no_evidence, retain_values, collect_set, evident_fact, evident_facts, linked_fact, erased_facts,
  keys, evidence_sources, grounded_observation, erased_observations, erased_mentions,
  evident_relation, mentioned, erased_relations, erased_run, erased_job, erased,
}

all-collect_set :
    (p : String → Bool) (xs : List String) → all p xs ≡ true → all p (collect_set xs) ≡ true
unfolding all collect_set
all-collect_set p [] h = refl
all-collect_set p (x ∷ xs) h = ground (arith, h, all-collect_set p xs)

module _ (ids : List String) where
  abbrev pub is_alive : String → Bool
  is_alive id = not (contains ids id)

  abbrev pub rests_on_alive : List GraphEvidence → Bool
  rests_on_alive evidence =
      not (no_evidence evidence)
      && all (λ (e : GraphEvidence). is_alive e.source_memory_id) evidence

  abbrev pub fact_alive : DerivedFact → Bool
  fact_alive f = rests_on_alive f.evidence

  abbrev pub relation_alive : GraphRelation → Bool
  relation_alive r = rests_on_alive r.evidence

  abbrev pub observation_alive : GraphObservation → Bool
  observation_alive o = not (o.proof_count == 0) && all (λ id. is_alive id) o.source_memory_ids

  abbrev pub run_alive : GraphRun → Bool
  run_alive r = all (λ id. is_alive id) r.source_ids

  abbrev pub job_alive : GraphExtractionJob → Bool
  job_alive j =
      is_terminal j.state
      || not (any (λ (s : GraphJobSource). contains ids s.source_memory_id) j.sources)

  evident_fact-alive :
      (f : DerivedFact)
      → all (λ (e : GraphEvidence). is_alive e.source_memory_id) (evident_fact ids f).evidence
        ≡ true
  evident_fact-alive f =
      all-retain (λ (e : GraphEvidence). is_alive e.source_memory_id) (λ _. true) f.evidence

  pub erased_facts-alive :
      (s : GraphState) → all (λ (_, f). fact_alive f) (erased_facts ids s) ≡ true
  unfolding erased_facts evident_facts
  erased_facts-alive s =
      let test = λ (f : DerivedFact). not (no_evidence f.evidence) in
      let alive =
        λ (f : DerivedFact). all (λ (e : GraphEvidence). is_alive e.source_memory_id) f.evidence in
      let facts = map_values (evident_fact ids) s.facts in
      let left = all-retain (λ (_, f). test f) (λ _. true) facts in
      let rest =
        all-retain-keep (λ (_, f). test f) (λ (_, f). alive f) facts
          (all-values (evident_fact ids) alive alive s.facts evident_fact-alive) in
      let evident = retain_values test facts in
      all-values-to (linked_fact s.entities (keys evident)) fact_alive fact_alive evident (λ f h. h)
        (all-both (λ (_, f). test f) (λ (_, f). alive f) evident left rest)

  all-sources :
      (evidence : List GraphEvidence)
      → all (λ (e : GraphEvidence). is_alive e.source_memory_id) evidence ≡ true
      → all (λ id. is_alive id) (map (λ (e : GraphEvidence). e.source_memory_id) evidence) ≡ true
  unfolding all
  all-sources [] h = refl
  all-sources (e ∷ es) h = ground (arith, h, all-sources es)

  evidence_sources-alive :
      (facts : Map DerivedFact) (fact_ids : List String)
      → all (λ (_, f). fact_alive f) facts ≡ true
      → all (λ id. is_alive id) (evidence_sources facts fact_ids) ≡ true
  unfolding evidence_sources all
  evidence_sources-alive facts [] h = refl
  evidence_sources-alive facts (id ∷ fact_ids) h = elim (Option-cases (get facts id)) [
    | inl missing ↦ ground (arith, missing, evidence_sources-alive facts fact_ids h)
    | inr (f, found) ↦
        let rest = evidence_sources facts fact_ids in
        let at : all (λ (e : GraphEvidence). is_alive e.source_memory_id) f.evidence ≡ true =
          ground (arith, get-values (λ f. f) fact_alive fact_alive facts id h found) in
        rw (evidence_sources, found)
          (all-append (λ id. is_alive id) (λ _. true)
            (map (λ (e : GraphEvidence). e.source_memory_id) f.evidence) rest
            (all-sources f.evidence at) (evidence_sources-alive facts fact_ids h))
  ]

  pub erased_observations-alive :
      (facts : Map DerivedFact) (observations : Map GraphObservation)
      → all (λ (_, f). fact_alive f) facts ≡ true
      → all (λ (_, o). observation_alive o) (erased_observations facts observations) ≡ true
  unfolding erased_observations grounded_observation
  erased_observations-alive facts observations h =
      let test = λ (o : GraphObservation). not (o.proof_count == 0) in
      let alive = λ (o : GraphObservation). all (λ id. is_alive id) o.source_memory_ids in
      let made = map_values (grounded_observation facts) observations in
      let grounded : (o : GraphObservation) → alive (grounded_observation facts o) ≡ true = λ o.
        all-collect_set (λ id. is_alive id)
          (evidence_sources facts (retain (λ id. contains (keys facts) id) o.source_fact_ids))
          (evidence_sources-alive facts (retain (λ id. contains (keys facts) id) o.source_fact_ids)
            h) in
      all-both (λ (_, o). test o) (λ (_, o). alive o) (retain_values test made)
        (all-retain (λ (_, o). test o) (λ _. true) made)
        (all-retain-keep (λ (_, o). test o) (λ (_, o). alive o) made
          (all-values (grounded_observation facts) alive alive observations grounded))

  evident_relation-alive :
      (r : GraphRelation)
      → all (λ (e : GraphEvidence). is_alive e.source_memory_id) (evident_relation ids r).evidence
        ≡ true
  evident_relation-alive r =
      all-retain (λ (e : GraphEvidence). is_alive e.source_memory_id) (λ _. true) r.evidence

  erased_relations-alive :
      (entity_ids : List String) (relations : Map GraphRelation)
      → all (λ (_, r). relation_alive r) (erased_relations ids entity_ids relations) ≡ true
  unfolding erased_relations
  erased_relations-alive entity_ids relations =
      let test = λ (r : GraphRelation).
        not (no_evidence r.evidence)
        && (contains entity_ids r.subject_entity_id && contains entity_ids r.object_entity_id) in
      let alive = λ (r : GraphRelation).
        all (λ (e : GraphEvidence). is_alive e.source_memory_id) r.evidence in
      let made = map_values (evident_relation ids) relations in
      all-weaken (λ (_, r). test r && alive r) (λ (_, r). relation_alive r)
        (retain_values test made) (λ (_, r) h. ground (arith, h))
        (all-both (λ (_, r). test r) (λ (_, r). alive r) (retain_values test made)
          (all-retain (λ (_, r). test r) (λ _. true) made)
          (all-retain-keep (λ (_, r). test r) (λ (_, r). alive r) made
            (all-values (evident_relation ids) alive alive relations evident_relation-alive)))

  not_any-all :
      (xs : List String)
      → any (λ id. contains ids id) xs ≡ false
      → all (λ id. is_alive id) xs ≡ true
  unfolding all any
  not_any-all [] h = refl
  not_any-all (x ∷ xs) h = ground (arith, h, not_any-all xs)

  erased_run-alive : (r : GraphRun) → run_alive (erased_run ids r) ≡ true
  erased_run-alive r =
      ground
        (arith, not_any-all r.source_ids, all-retain (λ id. is_alive id) (λ _. true) r.source_ids)

  erased_job-alive : (j : GraphExtractionJob) → job_alive (erased_job ids j) ≡ true
  unfolding erased_job clear_job_lease
  erased_job-alive j = ground arith

  -- After the erasure of some memories, whatever the graph was: every fact and every relation has
  -- evidence, none of it from one of those memories; every observation is drawn from a fact, and
  -- names none of those memories; no mention and no run names one either; and every job with such a
  -- source has ended.
  pub erased-forgets :
      (s : GraphState)
      → let next = erased ids s in
        (all (λ (_, f). fact_alive f) next.facts ≡ true)
        × (all (λ (_, o). observation_alive o) next.observations ≡ true)
        × (all (λ (m : GraphMention). is_alive m.evidence.source_memory_id) next.mentions ≡ true)
        × (all (λ (_, r). relation_alive r) next.relations ≡ true)
        × (all (λ (_, r). run_alive r) next.runs ≡ true)
        × (all (λ (_, j). job_alive j) next.jobs ≡ true)
  unfolding erased
  erased-forgets s =
      let facts = erased_facts ids s in
      let mentions = erased_mentions ids s.mentions in
      (
        erased_facts-alive s,
        erased_observations-alive facts s.observations (erased_facts-alive s),
        all-retain (λ (m : GraphMention). is_alive m.evidence.source_memory_id) (λ _. true)
            s.mentions,
        erased_relations-alive (mentioned mentions) s.relations,
        all-values (erased_run ids) run_alive run_alive s.runs erased_run-alive,
        all-values (erased_job ids) job_alive job_alive s.jobs erased_job-alive,
      )
