-- ===== src/Graph/Upsert/Sound/Facts.antt =====
-- src/graph/mod.rs: `build_fact` keeps the graph sound, and its fact is in the graph.
use mathlib.Core.List.{◌++◌ as append}
use opencode_native_memory.Prelude.{
  ℕ, Bool, true, ◌≡◌, refl, ap, Option, none, some, List, [], ◌∷◌, String, eq_refl, eq_iff, subst,
  all, arith,
}
use opencode_native_memory.Prelude.Map.{Map, get, insert, contains_key}
use opencode_native_memory.Prelude.Values.{all-weaken, all-append, all-insert, all-get}
use opencode_native_memory.Prelude.Result.{Result, ok, ◌>>=◌, >>=-eq-ok, ok-inj}
use opencode_native_memory.Graph.Defs.{
  GraphScope, GraphEvidence, GraphEntity, DerivedFact, GraphMention, GraphState, GraphSource,
  GraphProvider,
}
use opencode_native_memory.Graph.Upsert.Evidence.{one_evidence, grounds}
use opencode_native_memory.Graph.Upsert.Sound.{
  mention_ok, fact_ok, observation_ok, sound, keyed, facts_ok, grounds-all, dedup_evidence-all,
}
use opencode_native_memory.Graph.Upsert.Known.{
  contains_key-insert, insert-contains_key, mentioned_entities-known, causal_ids-known, accepted_ok,
  all-extend_ids,
}
use opencode_native_memory.Graph.Upsert.{Services, GraphEvidenceInput, GraphFactInput, UpsertError}
use opencode_native_memory.Graph.Upsert.Facts.{
  Accepted, check_fact, fact_id, new_fact, merged_fact, put_fact, mentioned_entities, causal_ids,
  place_fact, build_fact,
}

-- the facts that are accepted so far are in a sound graph
abbrev pub PassIsSound : (GraphEvidence → Bool) → List GraphMention → Accepted → GraphState → Type 0
PassIsSound p mentions accepted s =
    (sound p s ≡ true)
    × (all (accepted_ok s.facts) accepted ≡ true)
    × (all (mention_ok p s.entities) mentions ≡ true)

module _ (p : GraphEvidence → Bool) (mentions : List GraphMention) where
  merged_fact-ok :
      (es : Map GraphEntity) (fs : Map DerivedFact) (c : GraphFactInput)
      (evidence : List GraphEvidence) (entity_ids causes : List String) (id : String)
      (fresh : DerivedFact) (o : Option DerivedFact)
      → fact_ok p es fs (id, fresh) ≡ true
      → ((old : DerivedFact) → o ≡ some old → fact_ok p es fs (id, old) ≡ true)
      → all p evidence ≡ true
      → all (contains_key es) entity_ids ≡ true
      → all (contains_key fs) causes ≡ true
      → fact_ok p es fs (id, merged_fact c evidence entity_ids causes fresh o) ≡ true
  merged_fact-ok es fs c evidence entity_ids causes id fresh none new old he hi hc = new
  merged_fact-ok es fs c evidence entity_ids causes id fresh (some x) new old he hi hc = ground (
    arith,
    old x refl,
    dedup_evidence-all p (append x.evidence evidence),
    all-append p (λ _. true) x.evidence evidence,
    all-extend_ids (contains_key es) x.entity_ids entity_ids,
    all-extend_ids (contains_key fs) x.causal_fact_ids causes,
    he,
    hi,
    hc,
  )

  put_fact-ok :
      (s : GraphState) (accepted : Accepted) (index : ℕ) (id : String) (f : DerivedFact)
      → PassIsSound p mentions accepted s
      → fact_ok p s.entities s.facts (id, f) ≡ true
      → PassIsSound p mentions (append accepted ((index, f) ∷ [])) (put_fact id s f).1
  unfolding sound
  put_fact-ok s accepted index id f h good =
      let fs = insert s.facts id f in
      let wider = contains_key-insert s.facts id f in
      let wide : all (fact_ok p s.entities fs) s.facts ≡ true =
        all-weaken (fact_ok p s.entities s.facts) (fact_ok p s.entities fs) s.facts
          (λ (_, x) k.
            ground (
              arith,
              k,
              all-weaken (contains_key s.facts) (contains_key fs) x.causal_fact_ids wider,
            ))
          (ground (arith, h)) in
      let cause : all (contains_key fs) f.causal_fact_ids ≡ true =
        all-weaken (contains_key s.facts) (contains_key fs) f.causal_fact_ids wider
          (ground (arith, good)) in
      let seen : all (observation_ok p fs) s.observations ≡ true =
        all-weaken (observation_ok p s.facts) (observation_ok p fs) s.observations
          (λ (_, o) k.
            all-weaken (contains_key s.facts) (contains_key fs) o.source_fact_ids wider k)
          (ground (arith, h)) in
      let last : all (accepted_ok fs) ((index, f) ∷ []) ≡ true = ground (
        arith,
        ap (λ i. contains_key fs i) ((eq_iff id f.fact_id).0 (ground (arith, good))),
        insert-contains_key s.facts id f,
      ) in
      (
        ground
            (arith, h, good, wide, cause, seen, all-insert (fact_ok p s.entities fs) s.facts id f),
        all-append (accepted_ok fs) (λ _. true) accepted ((index, f) ∷ [])
            (all-weaken (accepted_ok s.facts) (accepted_ok fs) accepted
              (λ (_, x) k. wider x.fact_id k) h.1)
            last,
        h.2,
      )

  place_fact-ok :
      (sv : Services) (sources : Map GraphSource) (provider : GraphProvider) (now_ms : ℕ)
      (accepted : Accepted) (c : GraphFactInput) (s : GraphState) (evidence : List GraphEvidence)
      (scope : GraphScope) (index : ℕ) (f : DerivedFact) (next : GraphState)
      → PassIsSound p mentions accepted s
      → all p evidence ≡ true
      → place_fact sv sources provider now_ms accepted c s evidence scope ≡ ok (f, next)
      → PassIsSound p mentions (append accepted ((index, f) ∷ [])) next
  unfolding place_fact all
  place_fact-ok sv sources provider now_ms accepted c s evidence scope index f next h he made =
      let id = fact_id sv c scope evidence in
      let entity_ids = mentioned_entities sv s scope c.entity_mentions in
      let fact = λ (causes : List String).
        let fresh = new_fact sv sources provider now_ms c evidence scope entity_ids causes in
        merged_fact c evidence entity_ids causes fresh (get s.facts id) in
      let (causes, hc, made) =
        >>=-eq-ok (causal_ids accepted scope [] c.causal_fact_indexes)
          (λ (causes : List String). ok (put_fact id s (fact causes))) made in
      let known = causal_ids-known s.facts accepted h.1 scope [] c.causal_fact_indexes refl hc in
      let named = mentioned_entities-known sv s (keyed p s h.0) scope c.entity_mentions in
      let good : fact_ok p s.entities s.facts (id, fact causes) ≡ true =
        merged_fact-ok s.entities s.facts c evidence entity_ids causes id
          (new_fact sv sources provider now_ms c evidence scope entity_ids causes) (get s.facts id)
          (ground (arith, he, known, named, eq_refl id))
          (λ x at. all-get (fact_ok p s.entities s.facts) s.facts id (facts_ok p s h.0) at) he named
          known in
      subst
        (λ (x : DerivedFact × GraphState).
          PassIsSound p mentions (append accepted ((index, x.0) ∷ [])) x.1)
        (ok-inj made) (put_fact-ok s accepted index id (fact causes) h good)

  module _ (sources : Map GraphSource)
      (quoted : (i : GraphEvidenceInput) (e : GraphEvidence)
        → one_evidence sources i ≡ ok e
        → p e ≡ true) where
    pub build_fact-ok :
        (sv : Services) (provider : GraphProvider) (now_ms : ℕ) (accepted : Accepted)
        (c : GraphFactInput) (s : GraphState) (index : ℕ) (f : DerivedFact) (next : GraphState)
        → PassIsSound p mentions accepted s
        → build_fact sv sources provider now_ms accepted c s ≡ ok (f, next)
        → PassIsSound p mentions (append accepted ((index, f) ∷ [])) next
    unfolding build_fact
    build_fact-ok sv provider now_ms accepted c s index f next h made =
        let place : List GraphEvidence × GraphScope
            → Result UpsertError (DerivedFact × GraphState) =
          λ (evidence, scope). place_fact sv sources provider now_ms accepted c s evidence scope in
        let (_, _, made) =
          >>=-eq-ok (check_fact sv c) (λ _. grounds sources c.evidence >>= place) made in
        let ((evidence, scope), found, made) = >>=-eq-ok (grounds sources c.evidence) place made in
        place_fact-ok sv sources provider now_ms accepted c s evidence scope index f next h
          (grounds-all p sources quoted c.evidence evidence scope found) made
