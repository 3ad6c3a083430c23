-- ===== src/Graph/Upsert/Evidence.antt =====
-- src/graph/mod.rs: the evidence of a candidate, which has to be quoted from a source of its batch.
use Prim.Native.Nat.{Ordering}
use Prim.Native.String.{compare, count, len}
use text.Mathlib.Text.{find?, get?}
use opencode_native_memory.Prelude.{
  ℕ, Bool, true, false, not, ◌&&◌, none, some, List, [], ◌∷◌, String, str_eq, leb, ◌==◌, length,
  take, all, is_some, if◌then◌else◌,
}
use opencode_native_memory.Prelude.Map.{Map, get}
use opencode_native_memory.Prelude.Result.{Result, ok, err, ensure, ok_or, ◌>>=◌, ◌>>◌}
use opencode_native_memory.Prelude.Text.{is_empty}
use opencode_native_memory.Graph.Defs.{GraphScope, GraphEvidence, GraphSource}
use opencode_native_memory.Graph.Validate.{validate_name, same_scope}
use opencode_native_memory.Graph.Upsert.{
  GraphEvidenceInput, UpsertError, from_graph, evidence_count, bad_quote, unknown_unit, bad_offsets,
  quote_missing, no_evidence, crosses_scopes,
}

abbrev pub max_graph_evidence : ℕ
max_graph_evidence = 8

-- `sort_by` is stable
module _ {ℓ} {A : Type ℓ} (leq same : A → A → Bool) where
  unfoldable pub insert_by : A → List A → List A
  insert_by x [] = x ∷ []
  insert_by x (y ∷ ys) = let rest = insert_by x ys in if leq x y then x ∷ y ∷ ys else y ∷ rest

  unfoldable pub sort_by : List A → List A
  unfolding insert_by
  sort_by [] = []
  sort_by (x ∷ xs) = insert_by x (sort_by xs)

  -- `dedup_by`: an element goes if it is the same as the one that is kept before it
  unfoldable pub dedup_after : A → List A → List A
  dedup_after last [] = []
  dedup_after last (x ∷ xs) =
      let gone = dedup_after last xs in
      let stays = dedup_after x xs in if same x last then gone else x ∷ stays

  unfoldable pub dedup_by : List A → List A
  unfolding dedup_after
  dedup_by [] = []
  dedup_by (x ∷ xs) = x ∷ dedup_after x xs

-- the order of tuples
abbrev pub then_leb : Ordering → Bool → Bool
then_leb Ordering.lt rest = true
then_leb Ordering.eq rest = rest
then_leb Ordering.gt rest = false

abbrev pub evidence_leb : GraphEvidence → GraphEvidence → Bool
evidence_leb l r = then_leb (compare l.source_memory_id r.source_memory_id) (
    then_leb (compare l.source_unit_id r.source_unit_id)
      (then_leb (compare l.quote r.quote) (leb l.occurrence_index r.occurrence_index)))

abbrev pub same_evidence : GraphEvidence → GraphEvidence → Bool
same_evidence l r =
    str_eq l.source_memory_id r.source_memory_id
    && (str_eq l.source_unit_id r.source_unit_id
        && (str_eq l.quote r.quote && l.occurrence_index == r.occurrence_index))

unfoldable pub dedup_evidence : List GraphEvidence → List GraphEvidence
unfolding sort_by dedup_by
dedup_evidence evidence =
    take max_graph_evidence
      (dedup_by evidence_leb same_evidence (sort_by evidence_leb same_evidence evidence))

-- whether the bytes of `text` from `start` to `end` are those of `quote`
abbrev pub is_slice : String → ℕ → ℕ → String → Bool
is_slice text start end quote = elim (get? text start end) [
  | none ↦ false
  | some part ↦ str_eq part quote
]

-- how a quote is looked for in the text of its source
unfoldable pub check_quote : GraphEvidenceInput → String → Result UpsertError (Unit {0})
check_quote i text = elim i.utf8_start [
  | none ↦ ensure (is_some (find? text i.quote)) quote_missing
  | some start ↦ elim i.utf8_end [
    | none ↦ ensure (is_some (find? text i.quote)) quote_missing
    | some end ↦ (do
      ensure (leb start end && leb end (len text)) bad_offsets
      ensure (is_slice text start end i.quote) bad_offsets)
  ]
]

abbrev pub evidence_from : GraphEvidenceInput → GraphSource → GraphEvidence
evidence_from i s = record {
  source_memory_id = s.source_memory_id;
  source_unit_id = s.source_unit_id;
  content_hash = s.content_hash;
  extraction_revision = s.extraction_revision;
  scope = s.scope;
  quote = i.quote;
  occurrence_index = i.occurrence_index;
  utf8_start = i.utf8_start;
  utf8_end = i.utf8_end;
}

unfoldable pub one_evidence :
    Map GraphSource → GraphEvidenceInput → Result UpsertError GraphEvidence
unfolding validate_name check_quote
one_evidence sources i = do
  from_graph (validate_name i.source_unit_id)
  ensure (not (is_empty i.quote) && leb (count i.quote) 1024) bad_quote
  s ← ok_or (get sources i.source_unit_id) unknown_unit
  check_quote i s.text
  ok (evidence_from i s)

unfoldable pub all_evidence :
    Map GraphSource → List GraphEvidenceInput → Result UpsertError (List GraphEvidence)
unfolding one_evidence
all_evidence sources [] = ok []
all_evidence sources (i ∷ is) =
    let rest = all_evidence sources is in one_evidence sources i >>= λ e. rest >>= λ es. ok (e ∷ es)

unfoldable pub validate_evidence :
    Map GraphSource → List GraphEvidenceInput → Result UpsertError (List GraphEvidence)
unfolding all_evidence dedup_evidence
validate_evidence sources inputs = do
  ensure (leb 1 (length inputs) && leb (length inputs) max_graph_evidence) evidence_count
  es ← all_evidence sources inputs
  ok (dedup_evidence es)

unfoldable pub evidence_scope : List GraphEvidence → Result UpsertError GraphScope
unfolding same_scope all
evidence_scope [] = err no_evidence
evidence_scope (e ∷ es) = do
  ensure (all (λ (x : GraphEvidence). same_scope x.scope e.scope) (e ∷ es)) crosses_scopes
  ok e.scope

-- the evidence of a candidate, and its scope
unfoldable pub grounds :
    Map GraphSource → List GraphEvidenceInput → Result UpsertError (List GraphEvidence × GraphScope)
unfolding validate_evidence evidence_scope
grounds sources inputs = do
  evidence ← validate_evidence sources inputs
  scope ← evidence_scope evidence
  ok (evidence, scope)
