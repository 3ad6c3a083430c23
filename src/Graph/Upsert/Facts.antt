-- ===== src/Graph/Upsert/Facts.antt =====
-- src/graph/mod.rs: `build_fact`.
use Prim.Native.String.{◌++◌, count}
use mathlib.Core.List.{◌++◌ as append}
use opencode_native_memory.Prelude.{
  ℕ, ◌||◌, ◌==◌, Option, none, some, List, [], ◌∷◌, String, str_eq, ltb, leb, map, is_none_or,
  if◌then◌else◌,
}
use opencode_native_memory.Prelude.Map.{Map, get, insert}
use opencode_native_memory.Prelude.Result.{Result, ok, ensure, ok_or, ◌>>=◌, ◌>>◌}
use opencode_native_memory.Prelude.Text.{is_empty}
use opencode_native_memory.State.Save.{str_leb}
use opencode_native_memory.Float.{fmax64}
use opencode_native_memory.Graph.Defs.{
  GraphScope, GraphEvidence, DerivedFact, GraphProvider, GraphState, GraphSource,
}
use opencode_native_memory.Graph.Validate.{validate_name, validate_confidence, same_scope, is_nil}
use opencode_native_memory.Graph.Upsert.{
  Services, GraphFactInput, UpsertError, from_graph, bad_fact_type, long_context, bad_time_range,
  unaccepted_cause, causal_crosses_scope, check_text, insert_id, extend_ids,
}
use opencode_native_memory.Graph.Upsert.Evidence.{sort_by, dedup_by, grounds, dedup_evidence}
use opencode_native_memory.Graph.Upsert.Resolve.{
  normalize_name, resolve_mention_entity, scope_key, joined,
}

-- `sort()` and `dedup()` of texts
unfoldable pub sorted_texts : List String → List String
unfolding sort_by dedup_by
sorted_texts texts = dedup_by str_leb str_eq (sort_by str_leb str_eq texts)

-- the facts of a batch that are accepted, each with its place in the batch
abbrev pub Accepted : Type 0
Accepted = List (ℕ × DerivedFact)

unfoldable pub accepted_fact : Accepted → ℕ → Option DerivedFact
accepted_fact [] index = none
accepted_fact ((i, f) ∷ accepted) index =
    if i == index then some f else accepted_fact accepted index

abbrev pub add_found : List String → Option String → List String
add_found ids none = ids
add_found ids (some id) = insert_id ids id

-- the entities that the mentions stand for
unfoldable pub mentioned_entities : Services → GraphState → GraphScope → List String → List String
unfolding resolve_mention_entity
mentioned_entities sv s scope [] = []
mentioned_entities sv s scope (mention ∷ mentions) =
    add_found (mentioned_entities sv s scope mentions) (resolve_mention_entity sv s scope mention)

unfoldable pub causal_ids :
    Accepted → GraphScope → List String → List ℕ → Result UpsertError (List String)
unfolding accepted_fact same_scope
causal_ids accepted scope ids [] = ok ids
causal_ids accepted scope ids (index ∷ indexes) = do
  f ← ok_or (accepted_fact accepted index) unaccepted_cause
  ensure (same_scope f.scope scope) causal_crosses_scope
  causal_ids accepted scope (insert_id ids f.fact_id) indexes

-- the time of the mention, or else that of the source of the first evidence
unfoldable pub mention_time : Map GraphSource → GraphFactInput → List GraphEvidence → Option ℕ
mention_time sources c [] = c.mentioned_at_ms
mention_time sources c (e ∷ _) = elim c.mentioned_at_ms [
  | some at ↦ some at
  | none ↦ elim (get sources e.source_unit_id) [
    | none ↦ none
    | some s ↦ if ltb 0 s.reference_time_ms then some s.reference_time_ms else none
  ]
]

abbrev pub fact_id : Services → GraphFactInput → GraphScope → List GraphEvidence → String
fact_id sv c scope evidence =
    let units =
      sorted_texts (
        map (λ (e : GraphEvidence). e.source_unit_id ++ (":" ++ e.extraction_revision)) evidence) in
    let material = scope_key scope ∷ c.fact_type ∷ normalize_name sv c.text ∷ joined units ∷ [] in
    "fact_" ++ sv.hash32 (joined material)

-- the checks that a candidate passes before its evidence is looked at
unfoldable pub check_fact : Services → GraphFactInput → Result UpsertError (Unit {0})
unfolding validate_name check_text validate_confidence
check_fact sv c = do
  from_graph (validate_name c.text)
  check_text sv c.text
  ensure (str_eq c.fact_type "world" || str_eq c.fact_type "experience") bad_fact_type
  ensure (leb (count c.context) 512) long_context
  if is_empty c.context then ok tt else check_text sv c.context
  from_graph (validate_confidence c.confidence)
  ensure
      (is_none_or c.occurred_start_ms
        (λ start. is_none_or c.occurred_end_ms (λ end. leb start end)))
      bad_time_range

abbrev pub new_fact :
    Services
    → Map GraphSource
    → GraphProvider
    → ℕ
    → GraphFactInput
    → List GraphEvidence
    → GraphScope
    → List String
    → List String
    → DerivedFact
new_fact sv sources p now_ms c evidence scope entity_ids causes = record {
  fact_id = fact_id sv c scope evidence;
  text = c.text;
  normalized_text = normalize_name sv c.text;
  fact_type = c.fact_type;
  context = c.context;
  occurred_start_ms = c.occurred_start_ms;
  occurred_end_ms = c.occurred_end_ms;
  mentioned_at_ms = mention_time sources c evidence;
  learned_at_ms = now_ms;
  entity_ids = entity_ids;
  causal_fact_ids = causes;
  confidence = c.confidence;
  status = "active";
  evidence = evidence;
  scope = scope;
  provider_id = p.provider_id;
  model_id = p.model_id;
  prompt_version = p.prompt_version;
  schema_version = p.schema_version;
  embedding = c.embedding;
  embedding_generation_id = c.embedding_generation_id;
}

abbrev pub merge_fact :
    GraphFactInput → List GraphEvidence → List String → List String → DerivedFact → DerivedFact
merge_fact c evidence entity_ids causes f = record f {
  confidence = fmax64 f.confidence c.confidence;
  evidence = dedup_evidence (append f.evidence evidence);
  entity_ids = extend_ids f.entity_ids entity_ids;
  causal_fact_ids = extend_ids f.causal_fact_ids causes;
  embedding = if is_nil c.embedding then f.embedding else c.embedding;
  embedding_generation_id =
      if is_nil c.embedding then f.embedding_generation_id else c.embedding_generation_id;
  status = "active";
}

abbrev pub merged_fact :
    GraphFactInput
    → List GraphEvidence
    → List String
    → List String
    → DerivedFact
    → Option DerivedFact
    → DerivedFact
merged_fact c evidence entity_ids causes fresh none = fresh
merged_fact c evidence entity_ids causes fresh (some f) = merge_fact c evidence entity_ids causes f

abbrev pub put_fact : String → GraphState → DerivedFact → DerivedFact × GraphState
put_fact id s f = (f, record s { facts = insert s.facts id f })

-- the part of `build_fact` after the checks
unfoldable pub place_fact :
    Services
    → Map GraphSource
    → GraphProvider
    → ℕ
    → Accepted
    → GraphFactInput
    → GraphState
    → List GraphEvidence
    → GraphScope
    → Result UpsertError (DerivedFact × GraphState)
unfolding normalize_name sorted_texts mentioned_entities causal_ids mention_time dedup_evidence
    fmax64 extend_ids
place_fact sv sources p now_ms accepted c s evidence scope = do
  let id = fact_id sv c scope evidence
  let entity_ids = mentioned_entities sv s scope c.entity_mentions
  causes ← causal_ids accepted scope [] c.causal_fact_indexes
  let fresh = new_fact sv sources p now_ms c evidence scope entity_ids causes
  ok (put_fact id s (merged_fact c evidence entity_ids causes fresh (get s.facts id)))

unfoldable pub build_fact :
    Services
    → Map GraphSource
    → GraphProvider
    → ℕ
    → Accepted
    → GraphFactInput
    → GraphState
    → Result UpsertError (DerivedFact × GraphState)
unfolding check_fact grounds place_fact
build_fact sv sources p now_ms accepted c s =
    check_fact sv c
    >> (grounds sources c.evidence >>= λ (evidence, scope).
        place_fact sv sources p now_ms accepted c s evidence scope)
