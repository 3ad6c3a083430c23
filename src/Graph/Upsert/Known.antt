-- ===== src/Graph/Upsert/Known.antt =====
-- src/graph/mod.rs: the ids that the builders of `apply_upsert` look up stand for what the graph has.
use opencode_native_memory.Prelude.{
  ℕ, Bool, true, ◌==◌, ◌≡◌, inl, inr, refl, ap, unwrap_or, subst, Bool-cases, Option, none, some,
  List, [], ◌∷◌, String, str_eq, eq_iff, eq_refl, all, map, arith,
}
use mathlib.Core.Option
use opencode_native_memory.Prelude.Map.{Map, get, insert, modify, contains_key, get-insert}
use opencode_native_memory.Prelude.Values.{all-weaken}
use opencode_native_memory.Prelude.Result.{ok, ensure, ok_or, ◌>>=◌, >>=-eq-ok}
use opencode_native_memory.Graph.Defs.{GraphScope, GraphEntity, DerivedFact, GraphState}
use opencode_native_memory.Graph.Validate.{same_scope}
use opencode_native_memory.Graph.Erase.{collect_set}
use opencode_native_memory.Graph.Upsert.{
  Services, insert_id, extend_ids, unaccepted_cause, unaccepted_fact, causal_crosses_scope,
}
use opencode_native_memory.Graph.Upsert.Resolve.{
  matches, only, is_called, normalize_name, resolve_mention_entity,
}
use opencode_native_memory.Graph.Upsert.Facts.{
  Accepted, accepted_fact, add_found, mentioned_entities, causal_ids,
}
use opencode_native_memory.Graph.Upsert.Observations.{source_facts}

module _ {ℓ} {V : Type ℓ} where
  pub contains_key-insert :
      (m : Map V) (k : String) (v : V) (j : String)
      → contains_key m j ≡ true
      → contains_key (insert m k v) j ≡ true
  contains_key-insert m k v j h = ground (arith, h, get-insert m k v j)

  pub insert-contains_key : (m : Map V) (k : String) (v : V) → contains_key (insert m k v) k ≡ true
  insert-contains_key m k v = ground (arith, get-insert m k v k, eq_refl k)

  pub all-modify_by :
      (p : String × V → Bool) (f : V → V) (m : Map V) (k : String)
      → ((j : String) (v : V) → p (j, v) ≡ true → p (j, f v) ≡ true)
      → all p m ≡ true
      → all p (modify m k f) ≡ true
  unfolding all modify
  all-modify_by p f [] k keep h = refl
  all-modify_by p f ((j, v) ∷ m) k keep h = ground (arith, h, keep j v, all-modify_by p f m k keep)

own_keys : {V : Type 0} (m : Map V) → all (λ (k, _). contains_key m k) m ≡ true
unfolding all get
own_keys [] = refl
own_keys ((k, v) ∷ m) = ground (
  arith,
  eq_refl k,
  all-weaken (λ (j, _). contains_key m j) (λ (j, _). contains_key ((k, v) ∷ m) j) m
      (λ (j, _) h. ground (arith, h)) (own_keys m),
)

module _ (p : String → Bool) where
  all-insert_id :
      (ids : List String) (id : String)
      → all p ids ≡ true
      → p id ≡ true
      → all p (insert_id ids id) ≡ true
  unfolding all
  all-insert_id ids id h e = ground (arith, h, e)

  all-add_found :
      (ids : List String) (o : Option String)
      → all p ids ≡ true
      → ((id : String) → o ≡ some id → p id ≡ true)
      → all p (add_found ids o) ≡ true
  all-add_found ids none h to = h
  all-add_found ids (some id) h to = all-insert_id ids id h (to id refl)

  pub all-extend_ids :
      (ids more : List String)
      → all p ids ≡ true
      → all p more ≡ true
      → all p (extend_ids ids more) ≡ true
  unfolding all extend_ids
  all-extend_ids ids [] h e = h
  all-extend_ids ids (x ∷ xs) h e =
      all-extend_ids (insert_id ids x) xs (all-insert_id ids x h (ground (arith, e)))
        (ground (arith, e))

  pub all-collect_set : (ids : List String) → all p ids ≡ true → all p (collect_set ids) ≡ true
  unfolding all collect_set
  all-collect_set [] h = refl
  all-collect_set (x ∷ xs) h = ground (arith, h, all-collect_set xs)

  only-all : (ids : List String) {id : String} → all p ids ≡ true → only ids ≡ some id → p id ≡ true
  unfolding all
  only-all [] h e = cc
  only-all (x ∷ []) h e = ground (arith, h, e)
  only-all (x ∷ y ∷ ids) h e = cc

abbrev pub entity_ok : String × GraphEntity → Bool
entity_ok (k, e) = str_eq k e.entity_id

matches-known :
    (test : GraphEntity → Bool) (known : String → Bool) (m : Map GraphEntity)
    → all (λ (k, e). entity_ok (k, e)) m ≡ true
    → all (λ (k, _). known k) m ≡ true
    → all known (matches test m) ≡ true
unfolding matches all
matches-known test known [] keyed h = refl
matches-known test known ((k, e) ∷ m) keyed h =
    let at : known e.entity_id ≡ true =
      subst (λ i. known i ≡ true) ((eq_iff k e.entity_id).0 (ground (arith, keyed)))
        (ground (arith, h)) in
    ground (arith, at, keyed, h, matches-known test known m)

module _ (sv : Services) (s : GraphState) (keyed : all entity_ok s.entities ≡ true) where
  pub resolve_mention_entity-known :
      (scope : GraphScope) (mention : String) {id : String}
      → resolve_mention_entity sv s scope mention ≡ some id
      → contains_key s.entities id ≡ true
  unfolding resolve_mention_entity
  resolve_mention_entity-known scope mention e =
      only-all (contains_key s.entities)
        (matches (is_called scope (normalize_name sv mention)) s.entities)
        (matches-known (is_called scope (normalize_name sv mention)) (contains_key s.entities)
          s.entities keyed (own_keys s.entities))
        e

  pub mentioned_entities-known :
      (scope : GraphScope) (mentions : List String)
      → all (contains_key s.entities) (mentioned_entities sv s scope mentions) ≡ true
  unfolding mentioned_entities all
  mentioned_entities-known scope [] = refl
  mentioned_entities-known scope (m ∷ ms) =
      all-add_found (contains_key s.entities) (mentioned_entities sv s scope ms)
        (resolve_mention_entity sv s scope m) (mentioned_entities-known scope ms)
        (λ id e. resolve_mention_entity-known scope m e)

-- the facts that are accepted so far are among those of the graph
abbrev pub accepted_ok : Map DerivedFact → ℕ × DerivedFact → Bool
accepted_ok facts (_, f) = contains_key facts f.fact_id

module _ (facts : Map DerivedFact) (accepted : Accepted)
    (known : all (accepted_ok facts) accepted ≡ true) where
  accepted_fact-in :
      (rest : Accepted) (index : ℕ) {f : DerivedFact}
      → all (accepted_ok facts) rest ≡ true
      → accepted_fact rest index ≡ some f
      → contains_key facts f.fact_id ≡ true
  unfolding accepted_fact all
  accepted_fact-in [] index h e = cc
  accepted_fact-in ((i, g) ∷ rest) index {f = f} h e = elim (Bool-cases (i == index)) [
    | inl here ↦
        let at : contains_key facts g.fact_id ≡ true = ground (arith, h) in
        let same : some g ≡ some f = ground (arith, here, e) in
        ground
          (arith, at, ap (λ o. unwrap_or (Option.map (λ (x : DerivedFact). x.fact_id) o) "") same)
    | inr other ↦ accepted_fact-in rest index {f = f} (ground (arith, h)) (ground (arith, other, e))
  ]

  pub causal_ids-known :
      (scope : GraphScope) (ids : List String) (indexes : List ℕ) {found : List String}
      → all (contains_key facts) ids ≡ true
      → causal_ids accepted scope ids indexes ≡ ok found
      → all (contains_key facts) found ≡ true
  unfolding causal_ids
  causal_ids-known scope ids [] h e = ground (arith, h, e)
  causal_ids-known scope ids (i ∷ is) h e =
      let (f, hf, rest) =
        >>=-eq-ok (ok_or (accepted_fact accepted i) unaccepted_cause)
          (λ (f : DerivedFact). ensure (same_scope f.scope scope) causal_crosses_scope >>= λ _.
            causal_ids accepted scope (insert_id ids f.fact_id) is)
          e in
      let (_, _, last) =
        >>=-eq-ok (ensure (same_scope f.scope scope) causal_crosses_scope)
          (λ _. causal_ids accepted scope (insert_id ids f.fact_id) is) rest in
      causal_ids-known scope (insert_id ids f.fact_id) is
        (all-insert_id (contains_key facts) ids f.fact_id h
          (accepted_fact-in accepted i {f = f} known (ground (arith, hf))))
        last

  pub source_facts-known :
      (indexes : List ℕ) {fs : List DerivedFact}
      → source_facts accepted indexes ≡ ok fs
      → all (contains_key facts) (map (λ (f : DerivedFact). f.fact_id) fs) ≡ true
  unfolding source_facts all
  source_facts-known [] e = ground (arith, e)
  source_facts-known (i ∷ is) {fs = fs} e =
      let (f, hf, rest) =
        >>=-eq-ok (ok_or (accepted_fact accepted i) unaccepted_fact)
          (λ f. source_facts accepted is >>= λ fs. ok (f ∷ fs)) e in
      let (more, hm, last) =
        >>=-eq-ok (source_facts accepted is) (λ (fs : List DerivedFact). ok (f ∷ fs)) rest in
      ground (
        arith,
        last,
        accepted_fact-in accepted i {f = f} known (ground (arith, hf)),
        source_facts-known is hm,
      )
