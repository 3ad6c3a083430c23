-- ===== src/Graph/Upsert/Grounded.antt =====
-- src/graph/mod.rs: where the evidence in a graph comes from after an upsert.
use Prim.Native.String.{count}
use text.Mathlib.Text.{find?}
use opencode_native_memory.Prelude.{
  ℕ, Bool, true, not, ◌&&◌, ◌||◌, ◌≡◌, inl, inr, Bool-cases, none, some, List, [], ◌∷◌, String,
  str_eq, eq_refl, all, any, is_some, leb, arith, unwrap_or, subst,
}
use opencode_native_memory.Prelude.Map.{get}
use opencode_native_memory.Prelude.Text.{is_empty}
use opencode_native_memory.Prelude.Values.{all-weaken}
use opencode_native_memory.Prelude.Result.{
  Result, ok, ensure, ok_or, ◌>>=◌, ◌>>◌, >>=-eq-ok, ok-inj,
}
use opencode_native_memory.Float.{F32, F64}
use opencode_native_memory.Graph.Defs.{
  GraphScope, GraphEvidence, GraphMention, GraphSource, GraphState,
}
use opencode_native_memory.Graph.Validate.{validate_graph, validate_name, same_scope}
use opencode_native_memory.Graph.Upsert.{
  Services, GraphEvidenceInput, UpsertError, from_graph, bad_quote, unknown_unit,
}
use opencode_native_memory.Graph.Upsert.Evidence.{
  is_slice, check_quote, evidence_from, one_evidence,
}
use opencode_native_memory.Graph.Upsert.Apply.{Material, GraphUpsertOutcome, source_by_unit}
use opencode_native_memory.Graph.Upsert.Passes.{apply_upsert}
use opencode_native_memory.Graph.Upsert.Sound.{mention_ok, relation_ok, fact_ok, sound}
use opencode_native_memory.Graph.Upsert.Sound.Applied.{apply_upsert-sound}
use opencode_native_memory.Graph.Upsert.Valid.{evidence_passes, valid-sound}

-- The quote stands in the text, at the place that the evidence names if it names one.
unfoldable pub stands_in : String → GraphEvidence → Bool
stands_in text e = elim e.utf8_start [
  | none ↦ is_some (find? text e.quote)
  | some start ↦ elim e.utf8_end [
    | none ↦ is_some (find? text e.quote)
    | some end ↦ is_slice text start end e.quote
  ]
]

-- The evidence names this source, its version and its scope, and quotes it.
unfoldable pub quotes : GraphEvidence → GraphSource → Bool
unfolding stands_in same_scope
quotes e s =
    str_eq e.source_memory_id s.source_memory_id
    && (str_eq e.source_unit_id s.source_unit_id
        && (str_eq e.content_hash s.content_hash
            && (str_eq e.extraction_revision s.extraction_revision
                && (same_scope e.scope s.scope && (not (is_empty e.quote) && stands_in s.text e)))))

same_scope_refl : (s : GraphScope) → same_scope s s ≡ true
unfolding same_scope
same_scope_refl s = ground (arith, eq_refl s.project_id, eq_refl (unwrap_or s.scope_key ""))

check_quote-stands :
    (i : GraphEvidenceInput) (s : GraphSource)
    → check_quote i s.text ≡ ok tt
    → stands_in s.text (evidence_from i s) ≡ true
unfolding check_quote stands_in
check_quote-stands i s h = ground (arith, h)

get-source_by_unit :
    (test : GraphSource → Bool) (sources : List GraphSource) (unit : String) {s : GraphSource}
    → get (source_by_unit sources) unit ≡ some s
    → test s ≡ true
    → any test sources ≡ true
unfolding get any
get-source_by_unit test [] unit h t = cc
get-source_by_unit test (x ∷ xs) unit {s = s} h t =
    elim (Bool-cases (str_eq x.source_unit_id unit)) [
      | inl here ↦
          let same : some x ≡ some s = ground (arith, here, h) in
          let found : test x ≡ true = ground (arith, same, t) in ground (arith, found)
      | inr other ↦
          ground (arith, get-source_by_unit test xs unit {s = s} (ground (arith, other, h)) t)
    ]

one_evidence-quotes :
    (sources : List GraphSource) (i : GraphEvidenceInput) (e : GraphEvidence)
    → one_evidence (source_by_unit sources) i ≡ ok e
    → any (quotes e) sources ≡ true
unfolding one_evidence quotes
one_evidence-quotes sources i e h =
    let m = source_by_unit sources in
    let found = ok_or (get m i.source_unit_id) unknown_unit in
    let finish : GraphSource → Result UpsertError GraphEvidence =
      λ s. check_quote i s.text >> ok (evidence_from i s) in
    let guard : Result UpsertError (Unit {0}) =
      ensure (not (is_empty i.quote) && leb (count i.quote) 1024) bad_quote in
    let (_, _, h) =
      >>=-eq-ok (from_graph (validate_name i.source_unit_id)) (λ _. guard >> (found >>= finish))
        h in
    let (_, nonempty, h) = >>=-eq-ok guard (λ _. found >>= finish) h in
    let (s, hs, h) = >>=-eq-ok found finish h in
    let (_, quoted, h) = >>=-eq-ok (check_quote i s.text) (λ _. ok (evidence_from i s)) h in
    subst (λ x. any (quotes x) sources ≡ true) (ok-inj h)
      (get-source_by_unit (quotes (evidence_from i s)) sources i.source_unit_id {s = s}
        (ground (arith, hs))
        (ground (
          arith,
          nonempty,
          check_quote-stands i s,
          quoted,
          same_scope_refl s.scope,
          eq_refl s.source_memory_id,
          eq_refl s.source_unit_id,
          eq_refl s.content_hash,
          eq_refl s.extraction_revision,
        )))

sound-passes :
    (p : GraphEvidence → Bool) (s : GraphState) → sound p s ≡ true → evidence_passes p s ≡ true
unfolding sound evidence_passes
sound-passes p s h = ground (
  arith,
  h,
  all-weaken (mention_ok p s.entities) (λ (m : GraphMention). p m.evidence) s.mentions
      (λ m k. ground (arith, k)),
  all-weaken (relation_ok p s.entities) (λ (_, r). all p r.evidence) s.relations
      (λ (_, r) k. ground (arith, k)),
  all-weaken (fact_ok p s.entities s.facts) (λ (_, f). all p f.evidence) s.facts
      (λ (_, f) k. ground (arith, k)),
)

passes-weaken :
    (p r : GraphEvidence → Bool) (s : GraphState)
    → ((e : GraphEvidence) → p e ≡ true → r e ≡ true)
    → evidence_passes p s ≡ true
    → evidence_passes r s ≡ true
unfolding evidence_passes
passes-weaken p r s to h = ground (
  arith,
  h,
  all-weaken (λ (m : GraphMention). p m.evidence) (λ m. r m.evidence) s.mentions
      (λ m k. to m.evidence k),
  all-weaken (λ (_, x). all p x.evidence) (λ (_, x). all r x.evidence) s.relations
      (λ (_, x) k. all-weaken p r x.evidence to k),
  all-weaken (λ (_, f). all p f.evidence) (λ (_, f). all r f.evidence) s.facts
      (λ (_, f) k. all-weaken p r f.evidence to k),
)

-- An upsert brings no evidence into the graph but quotations from the sources of its batch: if the
-- evidence of a graph that passes the store's validation is known, then after the upsert the
-- evidence of every mention, relation and fact is known or quotes one of the batch's sources: it has
-- the memory, unit, content hash, revision and scope of that source, and a quote that is not empty
-- and stands in the source's text, at the offsets of the evidence if it has both.
pub apply_upsert-grounded :
    (sv : Services) (q : Material) (now_ms : ℕ) (digest : Material → String) (norm : List F32 → F64)
    (s next : GraphState) (outcome : GraphUpsertOutcome) (known : GraphEvidence → Bool)
    → validate_graph norm s ≡ ok tt
    → evidence_passes known s ≡ true
    → apply_upsert sv q now_ms digest s ≡ ok (outcome, next)
    → evidence_passes (λ e. known e || any (quotes e) q.sources) next ≡ true
apply_upsert-grounded sv q now_ms digest norm s next outcome known valid before made =
    let p = λ (e : GraphEvidence). known e || any (quotes e) q.sources in
    sound-passes p next (
      apply_upsert-sound p sv q now_ms
        (λ i e h. ground (arith, one_evidence-quotes q.sources i e h)) digest s outcome next
        (valid-sound norm s valid p (passes-weaken known p s (λ e k. ground (arith, k)) before))
        made)
