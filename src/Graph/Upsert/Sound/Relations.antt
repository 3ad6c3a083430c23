-- ===== src/Graph/Upsert/Sound/Relations.antt =====
-- src/graph/mod.rs: `build_relation` keeps the graph sound.
use mathlib.Core.List.{◌++◌ as append}
use opencode_native_memory.Prelude.{
  ℕ, Bool, true, ◌≡◌, refl, Option, none, some, List, String, all, arith,
}
use opencode_native_memory.Prelude.Map.{Map, get, contains_key}
use opencode_native_memory.Prelude.Values.{all-append, all-insert, all-get}
use opencode_native_memory.Prelude.Result.{Result, ok, ok_or, ◌>>=◌, >>=-eq-ok}
use opencode_native_memory.Graph.Defs.{
  GraphScope, GraphEvidence, GraphEntity, GraphRelation, GraphSource, GraphProvider,
}
use opencode_native_memory.Graph.Upsert.Evidence.{one_evidence, grounds}
use opencode_native_memory.Graph.Upsert.Sound.{
  relation_ok, sound, work_ok, grounds-all, dedup_evidence-all,
}
use opencode_native_memory.Graph.Upsert.Known.{entity_ok, resolve_mention_entity-known}
use opencode_native_memory.Graph.Upsert.{
  Services, GraphEvidenceInput, GraphRelationInput, UpsertError, Work, subject_missing,
  object_missing,
}
use opencode_native_memory.Graph.Upsert.Resolve.{resolve_mention_entity}
use opencode_native_memory.Graph.Upsert.Relations.{
  check_relation, relation_id, new_relation, merge_relation, put_relation, place_relation,
  build_relation,
}

module _ (p : GraphEvidence → Bool) where
  merge_relation-ok :
      (es : Map GraphEntity) (c : GraphRelationInput) (now_ms : ℕ) (evidence : List GraphEvidence)
      (id : String) (fresh : GraphRelation) (o : Option GraphRelation) (r : GraphRelation)
      → relation_ok p es (id, fresh) ≡ true
      → ((old : GraphRelation) → o ≡ some old → relation_ok p es (id, old) ≡ true)
      → all p evidence ≡ true
      → merge_relation c now_ms evidence id fresh o ≡ ok r
      → relation_ok p es (id, r) ≡ true
  merge_relation-ok es c now_ms evidence id fresh none r new old he h = ground (arith, new, h)
  merge_relation-ok es c now_ms evidence id fresh (some x) r new old he h = ground (
    arith,
    h,
    old x refl,
    dedup_evidence-all p (append x.evidence evidence),
    all-append p (λ _. true) x.evidence evidence,
    he,
  )

  place_relation-ok :
      (sv : Services) (provider : GraphProvider) (now_ms : ℕ) (c : GraphRelationInput) (w : Work)
      (evidence : List GraphEvidence) (scope : GraphScope) (r : GraphRelation) (next : Work)
      → work_ok p w ≡ true
      → all p evidence ≡ true
      → place_relation sv provider now_ms c w evidence scope ≡ ok (r, next)
      → work_ok p next ≡ true
  unfolding place_relation sound
  place_relation-ok sv provider now_ms c w evidence scope r next h he made =
      let s = w.graph in
      let look : String → UpsertError → Result UpsertError String =
        λ mention reason. ok_or (resolve_mention_entity sv s scope mention) reason in
      let id =
        λ (subject : String) (object : String). relation_id sv s.relations c scope subject object in
      let fresh = λ (subject : String) (object : String).
        new_relation c provider now_ms evidence scope subject object (id subject object) in
      let old = λ (subject : String) (object : String). get s.relations (id subject object) in
      let merged = λ (subject : String) (object : String).
        merge_relation c now_ms evidence (id subject object) (fresh subject object)
          (old subject object) in
      let (subject, hs, made) =
        >>=-eq-ok (look c.subject_mention subject_missing)
          (λ subject. look c.object_mention object_missing >>= λ object.
            merged subject object >>= λ r. ok (put_relation (id subject object) w r))
          made in
      let (object, ho, made) =
        >>=-eq-ok (look c.object_mention object_missing)
          (λ object. merged subject object >>= λ r. ok (put_relation (id subject object) w r))
          made in
      let (done, hm, made) =
        >>=-eq-ok (merged subject object)
          (λ (r : GraphRelation). ok (put_relation (id subject object) w r)) made in
      let keyed : all entity_ok s.entities ≡ true = ground (arith, h) in
      let known : (mention : String) (found : String)
          → resolve_mention_entity sv s scope mention ≡ some found
          → contains_key s.entities found ≡ true =
        λ mention found. resolve_mention_entity-known sv s keyed scope mention in
      let good : relation_ok p s.entities (id subject object, done) ≡ true =
        merge_relation-ok s.entities c now_ms evidence (id subject object) (fresh subject object)
          (old subject object) done
          (ground (
            arith,
            he,
            known c.subject_mention subject (ground (arith, hs)),
            known c.object_mention object (ground (arith, ho)),
          ))
          (λ x at.
            all-get (relation_ok p s.entities) s.relations (id subject object) (ground (arith, h))
              at)
          he hm in
      ground (
        arith,
        h,
        made,
        good,
        all-insert (relation_ok p s.entities) s.relations (id subject object) done,
      )

  module _ (sources : Map GraphSource)
      (quoted : (i : GraphEvidenceInput) (e : GraphEvidence)
        → one_evidence sources i ≡ ok e
        → p e ≡ true) where
    pub build_relation-ok :
        (sv : Services) (provider : GraphProvider) (now_ms : ℕ) (c : GraphRelationInput) (w : Work)
        (r : GraphRelation) (next : Work)
        → work_ok p w ≡ true
        → build_relation sv sources provider now_ms c w ≡ ok (r, next)
        → work_ok p next ≡ true
    unfolding build_relation
    build_relation-ok sv provider now_ms c w r next h made =
        let place : List GraphEvidence × GraphScope → Result UpsertError (GraphRelation × Work) =
          λ (evidence, scope). place_relation sv provider now_ms c w evidence scope in
        let (_, _, made) =
          >>=-eq-ok (check_relation c) (λ _. grounds sources c.evidence >>= place) made in
        let ((evidence, scope), found, made) = >>=-eq-ok (grounds sources c.evidence) place made in
        place_relation-ok sv provider now_ms c w evidence scope r next h
          (grounds-all p sources quoted c.evidence evidence scope found) made
