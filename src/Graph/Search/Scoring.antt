-- ===== src/Graph/Search/Scoring.antt =====
-- src/graph/mod.rs: the scores that a search gives to entities and relations.
use text.Mathlib.Text.{find?}
use opencode_native_memory.Prelude.{
  ℕ, not, ◌&&◌, ◌||◌, ◌==◌, Option, none, some, List, [], ◌∷◌, String, str_eq, length, map, any,
  retain, is_some, if◌then◌else◌,
}
use opencode_native_memory.Prelude.Map.{Map, get, insert, contains_key}
use opencode_native_memory.Prelude.Text.{is_empty, split_whitespace}
use opencode_native_memory.State.Validate.{contains}
use opencode_native_memory.Float.{F32, F64, flt64, fmax64}
use opencode_native_memory.Graph.Defs.{GraphEvidence, GraphEntity, GraphRelation}
use opencode_native_memory.Graph.Validate.{is_nil}
use opencode_native_memory.Graph.Upsert.{Services}
use opencode_native_memory.Graph.Upsert.Resolve.{normalize_name}
use opencode_native_memory.Graph.Search.{Scores, zero64, Query}

module _ (sc : Scores) where
  abbrev pub count_words : List String → List String → ℕ
  count_words tokens words = length (retain (λ t. any (λ w. str_eq w t) words) tokens)

  unfoldable pub lexical_field_score : String → List String → String → F64
  unfolding split_whitespace any retain
  lexical_field_score query tokens field =
      let matched = count_words tokens (split_whitespace field) in
      if str_eq field query
      then sc.exact
      else if is_some (find? field query)
      then sc.contained
      else if matched == 0
      then zero64
      else sc.share matched (length tokens)

  unfoldable pub lexical_from : Services → F64 → String → List String → List String → F64
  unfolding lexical_field_score normalize_name fmax64
  lexical_from sv best query tokens [] = best
  lexical_from sv best query tokens (field ∷ fields) =
      lexical_from sv (fmax64 best (lexical_field_score query tokens (normalize_name sv field)))
        query tokens fields

  -- `lexical_score`
  abbrev pub lexical_score : Services → String → List String → List String → F64
  lexical_score sv query tokens fields = lexical_from sv zero64 query tokens fields

  unfoldable pub semantic_score : Option (List F32) → List F32 → String → String → F64
  semantic_score none passage active generation = zero64
  semantic_score (some query) passage active generation =
      if is_empty active
        || (not (str_eq active generation)
            || (not (length query == length passage) || is_nil query))
      then zero64
      else sc.similarity query passage

abbrev pub raised : Option F64 → F64 → F64
raised none score = score
raised (some old) score = fmax64 old score

-- `entry(id).and_modify(|current| current.max(score)).or_insert(score)`
unfoldable pub raise : Map F64 → String → F64 → Map F64
unfolding get insert fmax64
raise m id score = insert m id (raised (get m id) score)

-- `entry(id).or_insert(score)`
unfoldable pub or_insert : Map F64 → String → F64 → Map F64
unfolding get insert
or_insert m id score = if contains_key m id then m else insert m id score

module _ (sv : Services) (sc : Scores) (q : Query) where
  abbrev pub the_query : String
  the_query = normalize_name sv q.query

  abbrev pub tokens : List String
  tokens = split_whitespace (normalize_name sv q.query)

  abbrev pub lexical : List String → F64
  lexical fields = lexical_score sc sv the_query tokens fields

  abbrev pub combined : List F32 → String → List String → F64
  combined embedding generation fields =
      fmax64 (semantic_score sc q.query_embedding embedding q.embedding_generation_id generation)
        (lexical fields)

  unfoldable pub score_entities : Map GraphEntity → Map F64 → Map F64
  unfolding normalize_name lexical_from semantic_score fmax64 flt64 insert
  score_entities [] scores = scores
  score_entities ((id, e) ∷ m) scores =
      let score =
        combined e.embedding e.embedding_generation_id
          (e.normalized_name ∷ e.entity_type ∷ e.aliases) in
      score_entities m
        (if contains q.entity_ids id && flt64 zero64 score then insert scores id score else scores)

  abbrev pub raise_eligible : String → F64 → Map F64 → Map F64
  raise_eligible id score scores =
      if contains q.entity_ids id then raise scores id score else scores

  abbrev pub relation_score : GraphRelation → F64
  relation_score r =
      lexical (r.predicate ∷ r.relation_type ∷ map (λ (e : GraphEvidence). e.quote) r.evidence)

  -- `score == 0.0` for a score that is not NaN
  unfoldable pub score_relations : Map GraphRelation → Map F64 → Map F64
  unfolding normalize_name lexical_from raise flt64
  score_relations [] scores = scores
  score_relations ((id, r) ∷ m) scores =
      let score = relation_score r in
      let is_zero = not (flt64 zero64 score || flt64 score zero64) in
      score_relations m (
        if not (contains q.relation_ids id) || is_zero
        then scores
        else raise_eligible r.object_entity_id score
            (raise_eligible r.subject_entity_id score scores))
