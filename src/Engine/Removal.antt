-- ===== src/Engine/Removal.antt =====
-- src/engine/mod.rs: `remove_state_record`, which takes a memory out of the state and mends the
-- links that led through it.
pub mod Fate
pub mod Preserves
pub mod Acyclic
use opencode_native_memory.Prelude.{
  Bool, not, Option, none, some, List, [], ◌∷◌, ◌++◌, String, str_eq, retain, if◌then◌else◌,
}
use opencode_native_memory.Prelude.Map.{Map, get, remove, modify}
use opencode_native_memory.State.Defs.{MemoryMetadata, MemoryState}
use opencode_native_memory.State.Validate.{contains, points_to}

-- `list.retain(|entry| entry != id)`
unfoldable pub without : List String → String → List String
without ids id = retain (λ entry. not (str_eq entry id)) ids

-- `other.conflict_with.retain(...)`
unfoldable pub drop_conflict : String → MemoryMetadata → MemoryMetadata
unfolding without
drop_conflict id other = record other { conflict_with = without other.conflict_with id }

-- A predecessor that still names the deleted memory is handed to its successor.
unfoldable pub relink : String → Option String → MemoryMetadata → MemoryMetadata
relink id successor_id predecessor =
    if points_to predecessor.superseded_by id
    then record predecessor { superseded_by = successor_id }
    else predecessor

-- the loop that pushes each predecessor that is not there yet
unfoldable pub push_missing : List String → List String → List String
push_missing supersedes [] = supersedes
push_missing supersedes (p ∷ ps) =
    push_missing (if contains supersedes p then supersedes else supersedes ++ p ∷ []) ps

unfoldable pub adopt : String → List String → MemoryMetadata → MemoryMetadata
unfolding without push_missing
adopt id predecessors successor = record successor {
  supersedes = push_missing (without successor.supersedes id) predecessors;
}

-- `for id in ids { if let Some(other) = records.get_mut(id) { *other = f(other) } }`
unfoldable pub modify_all :
    Map MemoryMetadata → List String → (MemoryMetadata → MemoryMetadata) → Map MemoryMetadata
modify_all records [] f = records
modify_all records (id ∷ ids) f = modify_all (modify records id f) ids f

abbrev pub modify_some :
    Map MemoryMetadata → Option String → (MemoryMetadata → MemoryMetadata) → Map MemoryMetadata
modify_some records none f = records
modify_some records (some id) f = modify records id f

-- the changes to `records` once the memory `deleted` is found at `id`
unfoldable pub unlink : Map MemoryMetadata → String → MemoryMetadata → Map MemoryMetadata
unlink records id deleted =
    let r1 = modify_all records deleted.conflict_with (drop_conflict id) in
    let r2 = modify_all r1 deleted.supersedes (relink id deleted.superseded_by) in
    let r3 = modify_some r2 deleted.superseded_by (adopt id deleted.supersedes) in remove r3 id

unfoldable pub remove_state_record : MemoryState → String → MemoryState
unfolding unlink
remove_state_record s id = elim (get s.records id) [
  | none ↦ s
  | some deleted ↦ record s {
    records = unlink s.records id deleted;
    record_revisions = remove s.record_revisions id;
  }
]
