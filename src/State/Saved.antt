-- ===== src/State/Saved.antt =====
-- src/storage/state.rs: what a save that succeeds has written, and what loading it gives.
use mathlib.Core.Option
use opencode_native_memory.Prelude.{
  true, not, ◌&&◌, ◌≡◌, refl, none, some, List, [], ◌∷◌, String, arith, map, ◌⊎◌,
}
use opencode_native_memory.Prelude.Map.{Map, get}
use opencode_native_memory.Prelude.Text.{trim, is_empty}
use opencode_native_memory.State.Defs.{MemoryMetadata, MemoryState}
use opencode_native_memory.State.Validate.{contains}
use opencode_native_memory.State.Ids.{distinct}
use opencode_native_memory.State.Save.{normalize_metadata}

pub get-normalized :
    (m : Map MemoryMetadata) (id : String)
    → get (map (λ (k, v). (k, normalize_metadata v)) m) id
      ≡ Option.map normalize_metadata (get m id)
unfolding get
get-normalized [] id = refl
get-normalized ((k, v) ∷ m) id = ground (arith, get-normalized m id)

-- The first list has the ids of the second that are not blank, trimmed, each of them once.
pub record IsTidy (tidy ids : List String) : Type 0 where
  pub once : distinct tidy ≡ true
  pub same : (id : String) → contains tidy id ≡ (contains (map trim ids) id && not (is_empty id))

-- What the file holds of a memory.
pub record IsWritten (given held : MemoryMetadata) : Type 0 where
  pub supersedes : IsTidy held.supersedes given.supersedes
  pub conflict_with : IsTidy held.conflict_with given.conflict_with

-- The file has a memory under the ids of the given state only, and each as it should be written.
abbrev pub SameMemories : MemoryState → MemoryState → Type 0
SameMemories s file =
    (id : String)
    → ((get s.records id ≡ none) × (get file.records id ≡ none))
      ⊎ ((given : MemoryMetadata) × (held : MemoryMetadata) × (get s.records id ≡ some given)
          × (get file.records id ≡ some held)
          × IsWritten given held)
