-- ===== src/Graph/Upsert/References.antt =====
-- src/graph/mod.rs: what the ids in a graph refer to after an upsert.
use opencode_native_memory.Prelude.{
  ℕ, Bool, true, ◌&&◌, ◌≡◌, refl, List, [], ◌∷◌, String, all, arith,
}
use opencode_native_memory.Prelude.Map.{contains_key}
use opencode_native_memory.Prelude.Values.{all-weaken}
use opencode_native_memory.Prelude.Result.{ok}
use opencode_native_memory.Float.{F32, F64}
use opencode_native_memory.Graph.Defs.{GraphEvidence, GraphMention, GraphState}
use opencode_native_memory.Graph.Validate.{validate_graph}
use opencode_native_memory.Graph.Upsert.{Services}
use opencode_native_memory.Graph.Upsert.Apply.{Material, GraphUpsertOutcome}
use opencode_native_memory.Graph.Upsert.Passes.{apply_upsert}
use opencode_native_memory.Graph.Upsert.Sound.{mention_ok, relation_ok, fact_ok, sound}
use opencode_native_memory.Graph.Upsert.Sound.Applied.{apply_upsert-sound}
use opencode_native_memory.Graph.Upsert.Valid.{evidence_passes, valid-sound}

abbrev anything : GraphEvidence → Bool
anything _ = true

all-true : {A : Type 0} (xs : List A) → all (λ _. true) xs ≡ true
unfolding all
all-true [] = refl
all-true (x ∷ xs) = ground (arith, all-true xs)

passes-anything : (s : GraphState) → evidence_passes anything s ≡ true
unfolding evidence_passes
passes-anything s = ground (
  arith,
  all-true s.mentions,
  all-weaken (λ _. true) (λ (_, r). all anything r.evidence) s.relations
      (λ (_, r) _. all-true r.evidence) (all-true s.relations),
  all-weaken (λ _. true) (λ (_, f). all anything f.evidence) s.facts
      (λ (_, f) _. all-true f.evidence) (all-true s.facts),
)

-- An upsert into a graph that passes the store's validation, whatever its material, leaves no id of
-- a mention's entity, of a relation's two entities, of a fact's entities or causes, or of an
-- observation's facts that refers to nothing.
pub apply_upsert-references :
    (sv : Services) (q : Material) (now_ms : ℕ) (digest : Material → String) (norm : List F32 → F64)
    (s next : GraphState) (outcome : GraphUpsertOutcome)
    → validate_graph norm s ≡ ok tt
    → apply_upsert sv q now_ms digest s ≡ ok (outcome, next)
    → (all (λ (m : GraphMention). contains_key next.entities m.entity_id) next.mentions ≡ true)
      × (all
            (λ (_, r).
              contains_key next.entities r.subject_entity_id
              && contains_key next.entities r.object_entity_id)
            next.relations
          ≡ true)
      × (all
            (λ (_, f).
              all (contains_key next.entities) f.entity_ids
              && all (contains_key next.facts) f.causal_fact_ids)
            next.facts
          ≡ true)
      × (all (λ (_, o). all (contains_key next.facts) o.source_fact_ids) next.observations ≡ true)
unfolding sound
apply_upsert-references sv q now_ms digest norm s next outcome valid made =
    let before = valid-sound norm s valid anything (passes-anything s) in
    let after =
      apply_upsert-sound anything sv q now_ms (λ i e _. refl) digest s outcome next before made in
    let es = next.entities in
    let fs = next.facts in
    (
      all-weaken (mention_ok anything es) (λ m. contains_key es m.entity_id) next.mentions
          (λ m k. ground (arith, k)) (ground (arith, after)),
      all-weaken (relation_ok anything es)
          (λ (_, r). contains_key es r.subject_entity_id && contains_key es r.object_entity_id)
          next.relations (λ (_, r) k. ground (arith, k)) (ground (arith, after)),
      all-weaken (fact_ok anything es fs)
          (λ (_, f). all (contains_key es) f.entity_ids && all (contains_key fs) f.causal_fact_ids)
          next.facts (λ (_, f) k. ground (arith, k)) (ground (arith, after)),
      ground (arith, after),
    )
