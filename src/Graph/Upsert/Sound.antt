-- ===== src/Graph/Upsert/Sound.antt =====
-- src/graph/mod.rs: what each builder of `apply_upsert` keeps: the ids in the graph refer to what it
-- has, and its evidence passes a test that every accepted quotation passes.
pub mod Entities
pub mod Relations
pub mod Facts
pub mod Observations
pub mod Applied
use mathlib.Core.List.{◌++◌ as append}
use opencode_native_memory.Prelude.{
  ℕ, zero, suc, Bool, true, false, ◌&&◌, ◌≡◌, refl, ap, Option, none, some, List, [], ◌∷◌, String,
  str_eq, eq_refl, all, map, take, arith, leb, length,
}
use opencode_native_memory.Prelude.Map.{Map, get, insert, contains_key, map_values}
use opencode_native_memory.Prelude.Values.{all-weaken, all-append, all-insert, all-get}
use opencode_native_memory.Prelude.Result.{Result, ok, err, ensure, ok_or, ◌>>=◌, ◌>>◌, >>=-eq-ok}
use opencode_native_memory.Graph.Defs.{
  GraphScope, GraphEvidence, GraphEntity, GraphRelation, DerivedFact, GraphObservation,
  GraphMention, GraphState, GraphSource, GraphProvider,
}
use opencode_native_memory.Graph.Validate.{same_scope}
use opencode_native_memory.Graph.Upsert.{
  Services, GraphEvidenceInput, GraphEntityInput, UpsertError, Work, evidence_count,
}
use opencode_native_memory.Graph.Upsert.Evidence.{
  one_evidence, all_evidence, validate_evidence, dedup_evidence, grounds, max_graph_evidence,
  sort_by, dedup_by, evidence_leb, same_evidence, evidence_scope,
}
use opencode_native_memory.Graph.Upsert.Resolve.{normalize_name, resolve_entity_id}
use opencode_native_memory.Graph.Upsert.Entities.{
  found_entity, put_entity, mentions_of, seen_entity, check_entity, entity_name, entity_id_or_new,
  fresh_entity, place_entity, build_entity,
}
use opencode_native_memory.Graph.Upsert.Built.{all-sort_by, all-dedup_by}
use opencode_native_memory.Graph.Upsert.Known.{contains_key-insert, insert-contains_key, entity_ok}

pub all-take :
    {A : Type 0} (p : A → Bool) (n : ℕ) (xs : List A) → all p xs ≡ true → all p (take n xs) ≡ true
unfolding all
all-take p zero xs h = refl
all-take p (suc n) [] h = refl
all-take p (suc n) (x ∷ xs) h = ground (arith, h, all-take p n xs)

module _ (p : GraphEvidence → Bool) where
  abbrev pub mention_ok : Map GraphEntity → GraphMention → Bool
  mention_ok es m = contains_key es m.entity_id && p m.evidence

  abbrev pub relation_ok : Map GraphEntity → String × GraphRelation → Bool
  relation_ok es (_, r) =
      contains_key es r.subject_entity_id
      && (contains_key es r.object_entity_id && all p r.evidence)

  abbrev pub fact_ok : Map GraphEntity → Map DerivedFact → String × DerivedFact → Bool
  fact_ok es fs (k, f) =
      str_eq k f.fact_id
      && (all (contains_key es) f.entity_ids
          && (all (contains_key fs) f.causal_fact_ids && all p f.evidence))

  abbrev pub observation_ok : Map DerivedFact → String × GraphObservation → Bool
  observation_ok fs (_, o) = all (contains_key fs) o.source_fact_ids

  unfoldable pub sound : GraphState → Bool
  unfolding all
  sound s =
      all entity_ok s.entities
      && (all (mention_ok s.entities) s.mentions
          && (all (relation_ok s.entities) s.relations
              && (all (fact_ok s.entities s.facts) s.facts
                  && all (observation_ok s.facts) s.observations)))

  abbrev pub work_ok : Work → Bool
  work_ok w = sound w.graph && all (mention_ok w.graph.entities) w.mentions

  pub keyed : (s : GraphState) → sound s ≡ true → all entity_ok s.entities ≡ true
  unfolding sound
  keyed s h = ground (arith, h)

  pub facts_ok : (s : GraphState) → sound s ≡ true → all (fact_ok s.entities s.facts) s.facts ≡ true
  unfolding sound
  facts_ok s h = ground (arith, h)

  pub dedup_evidence-all :
      (es : List GraphEvidence) → all p es ≡ true → all p (dedup_evidence es) ≡ true
  unfolding dedup_evidence
  dedup_evidence-all es h =
      let sorted = sort_by evidence_leb same_evidence es in
      all-take p max_graph_evidence (dedup_by evidence_leb same_evidence sorted) (
        all-dedup_by evidence_leb same_evidence p sorted
          (all-sort_by evidence_leb same_evidence p es h))

  module _ (sources : Map GraphSource)
      (quoted : (i : GraphEvidenceInput) (e : GraphEvidence)
        → one_evidence sources i ≡ ok e
        → p e ≡ true) where
    all_evidence-all :
        (is : List GraphEvidenceInput) {es : List GraphEvidence}
        → all_evidence sources is ≡ ok es
        → all p es ≡ true
    unfolding all_evidence all
    all_evidence-all [] h = ground (arith, h)
    all_evidence-all (i ∷ is) h =
        let (e, he, h) =
          >>=-eq-ok (one_evidence sources i) (λ e. all_evidence sources is >>= λ es. ok (e ∷ es))
            h in
        let (es, hs, h) =
          >>=-eq-ok (all_evidence sources is) (λ (es : List GraphEvidence). ok (e ∷ es)) h in
        ground (arith, h, quoted i e he, all_evidence-all is hs)

    pub grounds-all :
        (is : List GraphEvidenceInput) (evidence : List GraphEvidence) (scope : GraphScope)
        → grounds sources is ≡ ok (evidence, scope)
        → all p evidence ≡ true
    unfolding grounds validate_evidence
    grounds-all is evidence scope h =
        let (found, hv, h) =
          >>=-eq-ok (validate_evidence sources is)
            (λ es. evidence_scope es >>= λ scope. ok (es, scope)) h in
        let (_, _, h) = >>=-eq-ok (evidence_scope found) (λ (s : GraphScope). ok (found, s)) h in
        let (_, _, hv) =
          >>=-eq-ok
            (ensure (leb 1 (length is) && leb (length is) max_graph_evidence) evidence_count)
            (λ _. all_evidence sources is >>= λ es. ok (dedup_evidence es)) hv in
        let (es, hs, hv) = >>=-eq-ok (all_evidence sources is) (λ es. ok (dedup_evidence es)) hv in
        ground (arith, h, hv, dedup_evidence-all es (all_evidence-all is hs))
