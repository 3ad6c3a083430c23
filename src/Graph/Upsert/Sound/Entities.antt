-- ===== src/Graph/Upsert/Sound/Entities.antt =====
-- src/graph/mod.rs: `build_entity` keeps the graph sound.
use opencode_native_memory.Prelude.{
  ℕ, Bool, true, ◌≡◌, refl, Option, none, some, List, [], ◌∷◌, String, str_eq, eq_refl, all, arith,
}
use opencode_native_memory.Prelude.Map.{Map, get, insert, contains_key}
use opencode_native_memory.Prelude.Values.{all-weaken, all-append, all-insert, all-get}
use opencode_native_memory.Prelude.Result.{Result, ok, ◌>>=◌, >>=-eq-ok}
use opencode_native_memory.Graph.Defs.{
  GraphScope, GraphEvidence, GraphEntity, GraphRelation, DerivedFact, GraphMention, GraphSource,
}
use opencode_native_memory.Graph.Validate.{same_scope}
use opencode_native_memory.Graph.Upsert.{
  Services, GraphEvidenceInput, GraphEntityInput, UpsertError, Work,
}
use opencode_native_memory.Graph.Upsert.Evidence.{one_evidence, grounds}
use opencode_native_memory.Graph.Upsert.Resolve.{normalize_name, resolve_entity_id}
use opencode_native_memory.Graph.Upsert.Entities.{
  found_entity, put_entity, mentions_of, seen_entity, check_entity, entity_name, entity_id_or_new,
  fresh_entity, place_entity, build_entity,
}
use opencode_native_memory.Graph.Upsert.Known.{contains_key-insert, insert-contains_key, entity_ok}
use opencode_native_memory.Graph.Upsert.Sound.{
  mention_ok, relation_ok, fact_ok, sound, work_ok, grounds-all,
}

found_entity-id :
    (id : String) (fresh : GraphEntity) (o : Option GraphEntity) (e : GraphEntity)
    → str_eq id fresh.entity_id ≡ true
    → ((old : GraphEntity) → o ≡ some old → str_eq id old.entity_id ≡ true)
    → found_entity fresh o ≡ ok e
    → str_eq id e.entity_id ≡ true
unfolding same_scope
found_entity-id id fresh none e new old h = ground (arith, new, h)
found_entity-id id fresh (some x) e new old h = ground (arith, old x refl, h)

module _ (p : GraphEvidence → Bool) where
  module _ (es more : Map GraphEntity)
      (wider : (id : String) → contains_key es id ≡ true → contains_key more id ≡ true) where
    pub wider-mentions :
        (ms : List GraphMention)
        → all (mention_ok p es) ms ≡ true
        → all (mention_ok p more) ms ≡ true
    wider-mentions ms h =
        all-weaken (mention_ok p es) (mention_ok p more) ms
          (λ m k. ground (arith, k, wider m.entity_id)) h

    pub wider-relations :
        (rs : Map GraphRelation)
        → all (relation_ok p es) rs ≡ true
        → all (relation_ok p more) rs ≡ true
    wider-relations rs h =
        all-weaken (relation_ok p es) (relation_ok p more) rs
          (λ (_, r) k. ground (arith, k, wider r.subject_entity_id, wider r.object_entity_id)) h

    pub wider-facts :
        (fs all_facts : Map DerivedFact)
        → all (fact_ok p es all_facts) fs ≡ true
        → all (fact_ok p more all_facts) fs ≡ true
    wider-facts fs all_facts h =
        all-weaken (fact_ok p es all_facts) (fact_ok p more all_facts) fs
          (λ (_, f) k.
            ground (arith, k, all-weaken (contains_key es) (contains_key more) f.entity_ids wider))
          h

  mentions_of-all :
      (es : Map GraphEntity) (id : String) (evidence : List GraphEvidence)
      → contains_key es id ≡ true
      → all p evidence ≡ true
      → all (mention_ok p es) (mentions_of id evidence) ≡ true
  unfolding all
  mentions_of-all es id [] here h = refl
  mentions_of-all es id (e ∷ evidence) here h =
      ground (arith, here, h, mentions_of-all es id evidence)

  put_entity-ok :
      (sv : Services) (c : GraphEntityInput) (now_ms : ℕ) (evidence : List GraphEvidence)
      (id : String) (w : Work) (e : GraphEntity)
      → work_ok p w ≡ true
      → all p evidence ≡ true
      → str_eq id e.entity_id ≡ true
      → work_ok p (put_entity sv c now_ms evidence id w e).1 ≡ true
  unfolding sound seen_entity
  put_entity-ok sv c now_ms evidence id w e h he same =
      let s = w.graph in
      let seen = seen_entity sv c now_ms evidence e in
      let es = insert s.entities id seen in
      let wider = contains_key-insert s.entities id seen in
      let here = insert-contains_key s.entities id seen in
      ground (
        arith,
        h,
        same,
        all-insert entity_ok s.entities id seen,
        wider-mentions s.entities es wider s.mentions,
        wider-mentions s.entities es wider w.mentions,
        wider-relations s.entities es wider s.relations,
        wider-facts s.entities es wider s.facts s.facts,
        all-append (mention_ok p es) (λ _. true) w.mentions (mentions_of id evidence),
        mentions_of-all es id evidence here he,
      )

  pub place_entity-ok :
      (sv : Services) (now_ms : ℕ) (c : GraphEntityInput) (w : Work) (evidence : List GraphEvidence)
      (scope : GraphScope) (e : GraphEntity) (next : Work)
      → work_ok p w ≡ true
      → all p evidence ≡ true
      → place_entity sv now_ms c w evidence scope ≡ ok (e, next)
      → work_ok p next ≡ true
  unfolding place_entity sound
  place_entity-ok sv now_ms c w evidence scope e next h he made =
      let entity_type = normalize_name sv c.entity_type in
      let entities = w.graph.entities in
      let fresh = fresh_entity sv c scope now_ms in
      let put = put_entity sv c now_ms evidence in
      let (resolved, _, made) =
        >>=-eq-ok (resolve_entity_id w.graph scope entity_type (entity_name sv c))
          (λ resolved.
            let id = entity_id_or_new sv c scope resolved in
            found_entity (fresh id) (get entities id) >>= λ e. ok (put id w e))
          made in
      let id = entity_id_or_new sv c scope resolved in
      let (old, found, made) =
        >>=-eq-ok (found_entity (fresh id) (get entities id)) (λ e. ok (put id w e)) made in
      let named =
        found_entity-id id (fresh id) (get entities id) old (eq_refl id)
          (λ x at. all-get entity_ok entities id (ground (arith, h)) at) found in
      ground (arith, made, put_entity-ok sv c now_ms evidence id w old h he named)

  module _ (sources : Map GraphSource)
      (quoted : (i : GraphEvidenceInput) (e : GraphEvidence)
        → one_evidence sources i ≡ ok e
        → p e ≡ true) where
    pub build_entity-ok :
        (sv : Services) (now_ms : ℕ) (c : GraphEntityInput) (w : Work) (e : GraphEntity)
        (next : Work)
        → work_ok p w ≡ true
        → build_entity sv sources now_ms c w ≡ ok (e, next)
        → work_ok p next ≡ true
    unfolding build_entity
    build_entity-ok sv now_ms c w e next h made =
        let place : List GraphEvidence × GraphScope → Result UpsertError (GraphEntity × Work) =
          λ (evidence, scope). place_entity sv now_ms c w evidence scope in
        let (_, _, made) =
          >>=-eq-ok (check_entity c) (λ _. grounds sources c.evidence >>= place) made in
        let ((evidence, scope), found, made) = >>=-eq-ok (grounds sources c.evidence) place made in
        place_entity-ok sv now_ms c w evidence scope e next h
          (grounds-all p sources quoted c.evidence evidence scope found) made
