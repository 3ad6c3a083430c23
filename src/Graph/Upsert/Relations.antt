-- ===== src/Graph/Upsert/Relations.antt =====
-- src/graph/mod.rs: `build_relation`.
use Prim.Native.String.{◌++◌}
use mathlib.Core.List.{◌++◌ as append}
use opencode_native_memory.Prelude.{
  ℕ, Bool, true, false, ◌&&◌, ◌==◌, Option, none, some, List, [], ◌∷◌, String, ltb, leb, any,
  is_none_or, is_some_and, if◌then◌else◌,
}
use opencode_native_memory.Prelude.Map.{Map, get, insert}
use opencode_native_memory.Prelude.Result.{Result, ok, ensure, ok_or, ◌>>=◌, ◌>>◌}
use opencode_native_memory.Float.{fmax64}
use opencode_native_memory.State.Validate.{contains}
use opencode_native_memory.Graph.Defs.{
  GraphScope, GraphEvidence, GraphRelation, GraphProvider, GraphSource,
}
use opencode_native_memory.Graph.Validate.{validate_name, validate_confidence}
use opencode_native_memory.Graph.Upsert.{
  Services, GraphRelationInput, UpsertError, from_graph, unsupported_predicate, bad_time_range,
  subject_missing, object_missing, relation_conflict, Work,
}
use opencode_native_memory.Graph.Upsert.Evidence.{grounds, dedup_evidence}
use opencode_native_memory.Graph.Upsert.Resolve.{resolve_mention_entity, scope_key, joined}

abbrev predicates : List String
predicates =
    "uses" ∷ "depends_on" ∷ "implements" ∷ "causes" ∷ "related_to" ∷ "supports" ∷ "contradicts" ∷ []

abbrev pub relation_status : Option ℕ → ℕ → String
relation_status invalid_at_ms now_ms =
    if is_some_and invalid_at_ms (λ at. leb at now_ms) then "invalidated" else "active"

-- `==` of optional times
abbrev pub same_time : Option ℕ → Option ℕ → Bool
same_time none none = true
same_time none (some b) = false
same_time (some a) none = false
same_time (some a) (some b) = a == b

abbrev pub is_contemporary : GraphRelationInput → GraphRelation → Bool
is_contemporary c r =
    same_time r.valid_at_ms c.valid_at_ms && same_time r.invalid_at_ms c.invalid_at_ms

-- The id leaves the times out, unless a relation of other times stands there already.
unfoldable pub relation_id :
    Services → Map GraphRelation → GraphRelationInput → GraphScope → String → String → String
relation_id sv relations c scope subject object =
    let material =
      joined (scope_key scope ∷ subject ∷ c.predicate ∷ object ∷ c.relation_type ∷ []) in
    let base = "rel_" ++ sv.hash32 material in
    let times = sv.debug_time c.valid_at_ms ∷ sv.debug_time c.invalid_at_ms ∷ [] in
    elim (get relations base) [
      | none ↦ base
      | some r ↦
          if is_contemporary c r then base else "rel_" ++ sv.hash32 (joined (material ∷ times))
    ]

abbrev pub new_relation :
    GraphRelationInput
    → GraphProvider
    → ℕ
    → List GraphEvidence
    → GraphScope
    → String
    → String
    → String
    → GraphRelation
new_relation c provider now_ms evidence scope subject object id = record {
  relation_id = id;
  subject_entity_id = subject;
  predicate = c.predicate;
  object_entity_id = object;
  relation_type = c.relation_type;
  valid_at_ms = c.valid_at_ms;
  invalid_at_ms = c.invalid_at_ms;
  created_at_ms = now_ms;
  extracted_at_ms = now_ms;
  confidence = c.confidence;
  status = relation_status c.invalid_at_ms now_ms;
  evidence = evidence;
  extractor_version = provider.extractor_version;
  scope = scope;
}

abbrev pub merged_relation :
    GraphRelationInput → ℕ → List GraphEvidence → GraphRelation → GraphRelation
merged_relation c now_ms evidence r = record r {
  confidence = fmax64 r.confidence c.confidence;
  evidence = dedup_evidence (append r.evidence evidence);
  status = relation_status r.invalid_at_ms now_ms;
}

abbrev pub merge_relation :
    GraphRelationInput
    → ℕ
    → List GraphEvidence
    → String
    → GraphRelation
    → Option GraphRelation
    → Result UpsertError GraphRelation
merge_relation c now_ms evidence id fresh none = ok fresh
merge_relation c now_ms evidence id fresh (some r) =
    ensure (is_contemporary c r) (relation_conflict id) >> ok (merged_relation c now_ms evidence r)

abbrev pub put_relation : String → Work → GraphRelation → GraphRelation × Work
put_relation id w r =
    (r, record w { graph = record w.graph { relations = insert w.graph.relations id r } })

unfoldable pub check_relation : GraphRelationInput → Result UpsertError (Unit {0})
unfolding validate_name validate_confidence any
check_relation c = do
  from_graph (validate_name c.subject_mention)
  from_graph (validate_name c.object_mention)
  from_graph (validate_name c.predicate)
  from_graph (validate_name c.relation_type)
  from_graph (validate_confidence c.confidence)
  ensure (contains predicates c.predicate) unsupported_predicate
  ensure
      (is_none_or c.invalid_at_ms
        (λ invalid. is_none_or c.valid_at_ms (λ valid. ltb valid invalid)))
      bad_time_range

-- the part of `build_relation` after the checks
unfoldable pub place_relation :
    Services
    → GraphProvider
    → ℕ
    → GraphRelationInput
    → Work
    → List GraphEvidence
    → GraphScope
    → Result UpsertError (GraphRelation × Work)
unfolding resolve_mention_entity relation_id dedup_evidence fmax64
place_relation sv provider now_ms c w evidence scope = do
  subject ← ok_or (resolve_mention_entity sv w.graph scope c.subject_mention) subject_missing
  object ← ok_or (resolve_mention_entity sv w.graph scope c.object_mention) object_missing
  let id = relation_id sv w.graph.relations c scope subject object
  r ←
      merge_relation c now_ms evidence id
        (new_relation c provider now_ms evidence scope subject object id) (get w.graph.relations id)
  ok (put_relation id w r)

unfoldable pub build_relation :
    Services
    → Map GraphSource
    → GraphProvider
    → ℕ
    → GraphRelationInput
    → Work
    → Result UpsertError (GraphRelation × Work)
unfolding check_relation grounds place_relation
build_relation sv sources provider now_ms c w =
    check_relation c
    >> (grounds sources c.evidence >>= λ (evidence, scope).
        place_relation sv provider now_ms c w evidence scope)
