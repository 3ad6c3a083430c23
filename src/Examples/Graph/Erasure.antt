-- ===== src/Examples/Graph/Erasure.antt =====
-- The erasure of a memory from a small graph.
use opencode_native_memory.Prelude.{
  true, ◌&&◌, ◌≡◌, inl, some, none, refl, List, [], ◌∷◌, String, all, any, retain,
}
use opencode_native_memory.Prelude.Map.{get, contains_key}
use opencode_native_memory.Prelude.Result.{ok, err}
use opencode_native_memory.Prelude.Text.{trim, any_char}
use opencode_native_memory.Float.{within64}
use opencode_native_memory.Graph.Defs.{GraphRelation, DerivedFact, GraphObservation, GraphMention}
use opencode_native_memory.Graph.Validate.{validate_graph, missing_reference}
use opencode_native_memory.Graph.Store.{GraphStore}
use opencode_native_memory.Graph.Store.Atomic.{current, files_ok}
use opencode_native_memory.Graph.Store.History.{smooth}
use opencode_native_memory.Graph.Erase.{erased, erase_sources}
use opencode_native_memory.Graph.Erase.Durable.{Forgets, erase_sources-durable}
use opencode_native_memory.Graph.Erase.References.{erased-references}
use opencode_native_memory.Examples.Graph.{encoding, small_graph, no_norm}

abbrev deleted : List String
deleted = "m1" ∷ []

pub small_graph-valid : validate_graph no_norm small_graph ≡ ok tt
unfolding validate_graph trim any_char within64 all get
small_graph-valid = refl

-- The fact still names the entity, which is gone, so that the erased graph is refused.
dangling_entity : validate_graph no_norm (erased deleted small_graph) ≡ err missing_reference
unfolding validate_graph erased retain any trim any_char within64 all get
dangling_entity = refl

abbrev small_store : GraphStore
small_store = record {
  state = small_graph;
  files = record { encoding = encoding; main = some small_graph; pending = none };
}

abbrev other_memory : List String
other_memory = "m2" ∷ []

small_store-valid : files_ok no_norm small_store.files ≡ true
unfolding validate_graph trim any_char within64 all get
small_store-valid = refl

erased_m2 : (erase_sources no_norm other_memory smooth "t" small_store).0 ≡ ok tt
unfolding erase_sources validate_graph trim any_char within64 all get any retain
erased_m2 = refl

erase_sources-durable_example :
    Forgets other_memory
      (current (erase_sources no_norm other_memory smooth "t" small_store).1.files)
erase_sources-durable_example =
    erase_sources-durable no_norm "m2" [] smooth "t" small_store small_store-valid (refl, inl refl)
      erased_m2

erased-references_example :
    let next = erased deleted small_graph in
    (all (λ (m : GraphMention). contains_key next.entities m.entity_id) next.mentions ≡ true)
    × (all
          (λ (e : String × GraphRelation).
            contains_key next.entities e.1.subject_entity_id
            && contains_key next.entities e.1.object_entity_id)
          next.relations
        ≡ true)
    × (all
          (λ (e : String × DerivedFact). all (contains_key next.facts) e.1.causal_fact_ids)
          next.facts
        ≡ true)
    × (all
          (λ (e : String × GraphObservation). all (contains_key next.facts) e.1.source_fact_ids)
          next.observations
        ≡ true)
erased-references_example = erased-references deleted small_graph no_norm small_graph-valid
