-- ===== src/Graph/Erase/Durable.antt =====
-- src/graph/mod.rs: an erasure or a purge that is acknowledged outlives the process.
use opencode_native_memory.Prelude.{true, ◌≡◌, inl, inr, sym, subst, List, ◌∷◌, String, all, arith}
use opencode_native_memory.Prelude.Result.{ok}
use opencode_native_memory.Float.{F32, F64}
use opencode_native_memory.Graph.Defs.{GraphState, GraphMention}
use opencode_native_memory.Graph.Store.{Outcomes, GraphStore, numbered, commit_state}
use opencode_native_memory.Graph.Store.Atomic.{current, files_ok, Near, commit_state-atomic}
use opencode_native_memory.Graph.Erase.{erased, erase_sources}
use opencode_native_memory.Graph.Erase.Forgets.{
  fact_alive, observation_alive, is_alive, relation_alive, run_alive, job_alive, erased-forgets,
}

-- Nothing in the graph rests on the memories.
abbrev pub Forgets : List String → GraphState → Type 0
Forgets ids s =
    (all (λ (_, f). fact_alive ids f) s.facts ≡ true)
    × (all (λ (_, o). observation_alive ids o) s.observations ≡ true)
    × (all (λ (m : GraphMention). is_alive ids m.evidence.source_memory_id) s.mentions ≡ true)
    × (all (λ (_, r). relation_alive ids r) s.relations ≡ true)
    × (all (λ (_, r). run_alive ids r) s.runs ≡ true)
    × (all (λ (_, j). job_alive ids j) s.jobs ≡ true)

module _ (norm : List F32 → F64) where
  committed-current :
      (o : Outcomes) (id : String) (changed : GraphState) (g : GraphStore)
      → files_ok norm g.files ≡ true
      → Near norm g
      → (commit_state norm o id changed g).0 ≡ ok tt
      → current (commit_state norm o id changed g).1.files ≡ numbered g.state changed
  committed-current o id changed g fine near done =
      elim (commit_state-atomic norm o id changed g fine near) [
        | inl (_, _, is) ↦ is
        | inr (failed, _) ↦ absurd (ground (arith, done, failed))
      ]

  -- When an erasure of some memories answers with success, from files that are valid and not further
  -- than a commit from the memory, the graph that the files stand for, and that the next start
  -- loads, has no fact, observation, mention, relation or run that names one of those memories, and
  -- no job with such a source that has not ended.
  pub erase_sources-durable :
      (first : String) (rest : List String) (o : Outcomes) (id : String) (g : GraphStore)
      → files_ok norm g.files ≡ true
      → Near norm g
      → (erase_sources norm (first ∷ rest) o id g).0 ≡ ok tt
      → Forgets (first ∷ rest) (current (erase_sources norm (first ∷ rest) o id g).1.files)
  unfolding erase_sources
  erase_sources-durable first rest o id g fine near done =
      let changed = erased (first ∷ rest) g.state in
      subst (Forgets (first ∷ rest)) (sym (committed-current o id changed g fine near done))
        (erased-forgets (first ∷ rest) g.state)
