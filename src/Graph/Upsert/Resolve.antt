-- ===== src/Graph/Upsert/Resolve.antt =====
-- src/graph/mod.rs: names, and the entity that a name stands for.
use opencode_native_memory.Prelude.{
  Bool, not, ◌&&◌, ◌||◌, Option, none, some, List, [], ◌∷◌, String, str_eq, leb, ◌*◌, ◌+◌, length,
  retain, unwrap_or, if◌then◌else◌,
}
use opencode_native_memory.Prelude.Map.{Map}
use opencode_native_memory.Prelude.Result.{Result, ok, err}
use opencode_native_memory.Prelude.Text.{split_whitespace, join}
use opencode_native_memory.State.Validate.{contains}
use opencode_native_memory.Graph.Defs.{GraphScopeKind, GraphScope, GraphEntity, GraphState}
use opencode_native_memory.Graph.Validate.{same_scope}
use opencode_native_memory.Graph.Erase.{collect_set}
use opencode_native_memory.Graph.Upsert.{Services, UpsertError, ambiguous_entity}

unfoldable pub normalize_name : Services → String → String
unfolding split_whitespace join
normalize_name sv value = join " " (split_whitespace (sv.fold_case value))

-- `GraphScopeKind::as_str`
abbrev pub scope_kind_as_str : GraphScopeKind → String
scope_kind_as_str GraphScopeKind.project = "project"
scope_kind_as_str GraphScopeKind.repository = "repository"
scope_kind_as_str GraphScopeKind.agent = "agent"
scope_kind_as_str GraphScopeKind.session = "session"

abbrev pub joined : List String → String
joined = join "\0"

abbrev pub scope_key : GraphScope → String
scope_key s = joined (s.project_id ∷ scope_kind_as_str s.kind ∷ unwrap_or s.scope_key "" ∷ [])

abbrev pub entity_key : GraphScope → String → String → String
entity_key scope entity_type name = joined (scope_key scope ∷ entity_type ∷ name ∷ [])

-- `token_jaccard(left, right) >= 0.9`: the quotient of two such counts rounds to less than the `f64`
-- nearest to 0.9 exactly when it is less than 9 / 10.
unfoldable pub is_token_jaccard_close : String → String → Bool
unfolding split_whitespace collect_set retain
is_token_jaccard_close left right =
    let l = collect_set (split_whitespace left) in
    let r = collect_set (split_whitespace right) in
    let common = length (retain (contains r) l) in
    let only_right = length (retain (λ w. not (contains l w)) r) in
    leb 1 (length l) && (leb 1 (length r) && leb (9 * (length l + only_right)) (10 * common))

-- the ids of the entities that pass a test
unfoldable pub matches : (GraphEntity → Bool) → Map GraphEntity → List String
matches test [] = []
matches test ((_, e) ∷ m) = let rest = matches test m in if test e then e.entity_id ∷ rest else rest

-- `take(2)` and the test that there is one
abbrev pub only : List String → Option String
only [] = none
only (id ∷ []) = some id
only (_ ∷ _ ∷ _) = none

unfoldable pub is_called : GraphScope → String → GraphEntity → Bool
unfolding same_scope
is_called scope name e =
    same_scope e.scope scope && (str_eq e.normalized_name name || contains e.aliases name)

unfoldable pub resolve_mention_entity : Services → GraphState → GraphScope → String → Option String
unfolding normalize_name matches is_called
resolve_mention_entity sv s scope mention =
    only (matches (is_called scope (normalize_name sv mention)) s.entities)

unfoldable pub is_entity_like : GraphScope → String → String → GraphEntity → Bool
unfolding same_scope is_token_jaccard_close
is_entity_like scope entity_type name e =
    same_scope e.scope scope
    && (str_eq e.entity_type entity_type
        && (str_eq e.normalized_name name
            || (contains e.aliases name || is_token_jaccard_close e.normalized_name name)))

abbrev pub at_most_one : List String → Result UpsertError (Option String)
at_most_one [] = ok none
at_most_one (id ∷ []) = ok (some id)
at_most_one (_ ∷ _ ∷ _) = err ambiguous_entity

unfoldable pub resolve_entity_id :
    GraphState → GraphScope → String → String → Result UpsertError (Option String)
unfolding matches is_entity_like
resolve_entity_id s scope entity_type name =
    at_most_one (matches (is_entity_like scope entity_type name) s.entities)
