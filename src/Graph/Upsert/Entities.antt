-- ===== src/Graph/Upsert/Entities.antt =====
-- src/graph/mod.rs: `build_entity`.
use Prim.Native.String.{◌++◌}
use opencode_native_memory.Prelude.{
  ℕ, not, ◌&&◌, Option, none, some, List, [], ◌∷◌, String, str_eq, length, map, retain, unwrap_or,
  if◌then◌else◌,
}
use mathlib.Core.List.{◌++◌ as append}
use opencode_native_memory.Prelude.Map.{Map, get, insert}
use opencode_native_memory.Prelude.Result.{Result, ok, ensure, ◌>>=◌, ◌>>◌}
use opencode_native_memory.Prelude.Text.{is_empty, is_blank}
use opencode_native_memory.Graph.Defs.{
  GraphScope, GraphEvidence, GraphEntity, GraphMention, GraphSource,
}
use opencode_native_memory.Graph.Validate.{validate_name, validate_confidence, same_scope, is_nil}
use opencode_native_memory.Graph.Jobs.{add_u64}
use opencode_native_memory.Graph.Erase.{collect_set}
use opencode_native_memory.Graph.Upsert.{
  Services, GraphEntityInput, UpsertError, from_graph, crossed_resolution, Work, extend_ids,
}
use opencode_native_memory.Graph.Upsert.Evidence.{grounds}
use opencode_native_memory.Graph.Upsert.Resolve.{normalize_name, entity_key, resolve_entity_id}

abbrev pub new_entity : GraphEntityInput → String → String → String → GraphScope → ℕ → GraphEntity
new_entity c id name entity_type scope now_ms = record {
  entity_id = id;
  canonical_name = c.canonical_hint;
  normalized_name = name;
  entity_type = entity_type;
  aliases = [];
  scope = scope;
  first_seen_at_ms = now_ms;
  last_seen_at_ms = now_ms;
  source_count = 0;
  embedding = c.embedding;
  embedding_generation_id = c.embedding_generation_id;
}

abbrev memories : List GraphEvidence → List String
memories evidence = map (λ (e : GraphEvidence). e.source_memory_id) evidence

-- what a candidate adds to the entity that it stands for
unfoldable pub seen_entity :
    Services → GraphEntityInput → ℕ → List GraphEvidence → GraphEntity → GraphEntity
unfolding normalize_name extend_ids retain collect_set
seen_entity sv c now_ms evidence e =
    let names =
      retain (λ alias. not (is_empty alias))
        (append (map (normalize_name sv) c.aliases) (normalize_name sv c.mention ∷ [])) in
    record e {
      last_seen_at_ms = now_ms;
      embedding = if is_nil c.embedding then e.embedding else c.embedding;
      embedding_generation_id =
          if is_nil c.embedding then e.embedding_generation_id else c.embedding_generation_id;
      aliases = extend_ids e.aliases names;
      source_count = add_u64 e.source_count (length (collect_set (memories evidence)));
    }

abbrev pub mentions_of : String → List GraphEvidence → List GraphMention
mentions_of id evidence = map (λ e. record { entity_id = id; evidence = e }) evidence

-- the entity at `id`, or a new one there, once it is known to be of the right scope and type
abbrev pub found_entity : GraphEntity → Option GraphEntity → Result UpsertError GraphEntity
found_entity fresh none = ok fresh
found_entity fresh (some e) =
    ensure (same_scope e.scope fresh.scope && str_eq e.entity_type fresh.entity_type)
      crossed_resolution
    >> ok e

abbrev pub put_entity :
    Services
    → GraphEntityInput
    → ℕ
    → List GraphEvidence
    → String
    → Work
    → GraphEntity
    → GraphEntity × Work
put_entity sv c now_ms evidence id w e =
    let seen = seen_entity sv c now_ms evidence e in
    (
      seen,
      record {
        graph = record w.graph { entities = insert w.graph.entities id seen };
        mentions = append w.mentions (mentions_of id evidence);
      },
    )

unfoldable pub check_entity : GraphEntityInput → Result UpsertError (Unit {0})
unfolding validate_name validate_confidence
check_entity c = do
  from_graph (validate_name c.mention)
  from_graph (validate_name c.canonical_hint)
  from_graph (validate_name c.entity_type)
  from_graph (validate_confidence c.confidence)

abbrev pub entity_name : Services → GraphEntityInput → String
entity_name sv c =
    normalize_name sv (if is_blank c.canonical_hint then c.mention else c.canonical_hint)

abbrev pub entity_id_or_new : Services → GraphEntityInput → GraphScope → Option String → String
entity_id_or_new sv c scope resolved =
    let key = entity_key scope (normalize_name sv c.entity_type) (entity_name sv c) in
    unwrap_or resolved ("ent_" ++ sv.hash32 key)

abbrev pub fresh_entity : Services → GraphEntityInput → GraphScope → ℕ → String → GraphEntity
fresh_entity sv c scope now_ms id =
    new_entity c id (entity_name sv c) (normalize_name sv c.entity_type) scope now_ms

-- the part of `build_entity` after the checks
unfoldable pub place_entity :
    Services
    → ℕ
    → GraphEntityInput
    → Work
    → List GraphEvidence
    → GraphScope
    → Result UpsertError (GraphEntity × Work)
unfolding normalize_name resolve_entity_id seen_entity same_scope
place_entity sv now_ms c w evidence scope = do
  resolved ← resolve_entity_id w.graph scope (normalize_name sv c.entity_type) (entity_name sv c)
  let id = entity_id_or_new sv c scope resolved
  e ← found_entity (fresh_entity sv c scope now_ms id) (get w.graph.entities id)
  ok (put_entity sv c now_ms evidence id w e)

unfoldable pub build_entity :
    Services
    → Map GraphSource
    → ℕ
    → GraphEntityInput
    → Work
    → Result UpsertError (GraphEntity × Work)
unfolding check_entity grounds place_entity
build_entity sv sources now_ms c w =
    check_entity c
    >> (grounds sources c.evidence >>= λ (evidence, scope).
        place_entity sv now_ms c w evidence scope)
