-- ===== src/State/Acyclic.antt =====
-- src/storage/state.rs: chains of `superseded_by` links, and what the cycle check excludes.
pub mod Pigeonhole
use opencode_native_memory.Prelude.{
  ℕ, zero, suc, ◌≤◌, ◌<◌, Bool, true, false, ◌≡◌, ◌≢◌, refl, sym, ap, ◌∙◌, inl, inr, Option, none,
  some, List, String, str_eq, eq_iff, eq_refl, arith, length, Bool-cases, Option-cases,
}
use opencode_native_memory.Prelude.Map.{Map, get}
use opencode_native_memory.Prelude.Result.{ok, for_each, >>-eq-ok}
use opencode_native_memory.State.Defs.{MemoryMetadata}
use opencode_native_memory.State.Validate.{
  points_to, validate_links, chase, detect_supersession_cycles, validate_relations,
}
use opencode_native_memory.State.Relations.{for_each-get}

-- `Chain records n a b`: from `a`, following `superseded_by` `n + 1` times leads to `b`.
pub data Chain (records : Map MemoryMetadata) : ℕ → String → String → Type 0 where
  link :
      {a b : String} (m : MemoryMetadata)
      → get records a ≡ some m
      → m.superseded_by ≡ some b
      → Chain records zero a b
  longer :
      {n : ℕ} {a b c : String} (m : MemoryMetadata)
      → get records a ≡ some m
      → m.superseded_by ≡ some b
      → Chain records n b c
      → Chain records (suc n) a c

abbrev pub IsAcyclic : Map MemoryMetadata → Type 0
IsAcyclic records = (n : ℕ) (a : String) → ¬ Chain records n a a

-- `n + 1` rounds of the inner loop find every cycle through `start` of at most `n + 1` links.
chase_complete :
    (records : Map MemoryMetadata) (start : String) {n : ℕ} (k : ℕ) (current : String)
    → Chain records n current start
    → n < k
    → chase records start k current ≢ ok tt
unfolding chase
chase_complete records start zero current c h e = omega arith
chase_complete records start (suc k) current (link m found next) h e =
    ground (arith, found, next, eq_refl start)
chase_complete records start (suc k) current (longer {b = b} m found next rest) h e =
    ground (arith, found, next, e, chase_complete records start k b rest)

starts :
    (records : Map MemoryMetadata) {n : ℕ} {a b : String}
    → Chain records n a b
    → (m : MemoryMetadata) × (get records a ≡ some m)
starts records (link m found next) = (m, found)
starts records (longer m found next rest) = (m, found)

-- A state whose relations are accepted has no cycle of successors with at most as many links as
-- there are memories.
pub validate_relations-no_cycle :
    (records : Map MemoryMetadata) (n : ℕ) (a : String)
    → validate_relations records ≡ ok tt
    → n < length records
    → ¬ Chain records n a a
unfolding validate_relations detect_supersession_cycles
validate_relations-no_cycle records n a h short c =
    let (m, found) = starts records c in
    let searched = (>>-eq-ok (for_each (validate_links records) records) _ h).1 in
    chase_complete records a (length records) a c short (
      for_each-get (λ (start, _). chase records start (length records) start) records a searched
        found)
