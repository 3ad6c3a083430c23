-- ===== src/Engine/Deletion.antt =====
-- src/engine/mod.rs: the deletion of memories. The ids are first saved in `pending_deletes`, then the
-- documents are deleted, then the records are; opening the store repeats what was left. The reason
-- and the time of a deletion, and the fingerprint of a memory, are arguments.
mod Parts
pub mod Recovery
pub mod Atomic
unfoldable pub use Parts.*
use Prim.Native.Char.{code}
use Prim.Native.String.{[] as nil_text, ◌∷◌ as cons_char}
use opencode_native_memory.Prelude.{
  ℕ, ◌+◌, Bool, true, false, not, ◌&&◌, ◌||◌, ◌==◌, Option, none, some, List, [], ◌∷◌, ◌++◌, String,
  leb, length, map, take, retain, all, if◌then◌else◌,
}
use opencode_native_memory.Prelude.Int.{ℤ}
use opencode_native_memory.Prelude.Map.{Map, get, insert, remove, contains_key}
use opencode_native_memory.Prelude.Writes.{Write}
use opencode_native_memory.Prelude.Result.{Result, ok, err, ensure, ok_or, for_each, ◌>>=◌, ◌>>◌}
use opencode_native_memory.Prelude.Text.{byte_length, all_chars}
use opencode_native_memory.Float.{F32, F64}
use opencode_native_memory.Contract.{MemoryKind, MemoryScope, DeleteReason}
use opencode_native_memory.State.Defs.{PendingDocument, Tombstone, MemoryMetadata, MemoryState}
use opencode_native_memory.State.Validate.{contains}
use opencode_native_memory.State.Save.{SaveError, Saved, save}
use opencode_native_memory.Lifecycle.{LifecycleError, ensure_delete_allowed}
use opencode_native_memory.Engine.Removal.{without, remove_state_record}
use opencode_native_memory.Graph.Validate.{GraphError}
use opencode_native_memory.Graph.Store.{GraphStore}
use opencode_native_memory.Graph.Store as GraphFiles
use opencode_native_memory.Graph.Erase.{erase_sources}

-- the end of both functions, once the documents are deleted
abbrev pub save_forgotten :
    {A : Type 0} → A → Write → List String → Stores → Result DeleteError A × Stores
save_forgotten reply outcome ids e =
    let saved = save outcome e.file (forget_all e.state ids) in
    let e' : Stores = record e { state = saved.state; file = saved.file } in
    elim saved.result [ ok _ ↦ (ok reply, e') | err x ↦ (err (state_unsaved x), e') ]

-- `collection.delete` and `collection.flush`
abbrev pub delete_and :
    {A : Type 0}
    → DeleteOutcomes
    → List String
    → Stores
    → (Stores → Result DeleteError A × Stores)
    → Result DeleteError A × Stores
delete_and o found e next =
    if not o.delete
    then (
      err delete_failed,
      record e { documents = delete_documents e.documents (take o.written found) },
    )
    else let e' : Stores = record e { documents = delete_documents e.documents found } in
      if not o.flush then (err flush_failed, e') else next e'

-- one document's tombstone, and its place in the journal of deletions
abbrev pub mark : Option Tombstone → String → MemoryState → MemoryState
mark tombstone id s = record s {
  tombstones = elim tombstone [
    | none ↦ s.tombstones
    | some t ↦ insert s.tombstones t.fingerprint t
  ];
  pending_deletes =
      if contains s.pending_deletes id then s.pending_deletes else s.pending_deletes ++ id ∷ [];
}

unfoldable pub mark_all :
    (PendingDocument → MemoryMetadata → Option Tombstone)
    → Map PendingDocument
    → MemoryState
    → Result DeleteError (Unit {0}) × MemoryState
mark_all tombstone_of [] s = (ok tt, s)
mark_all tombstone_of ((id, d) ∷ ds) s = elim (get s.records id) [
  | none ↦ (err metadata_missing, s)
  | some m ↦ mark_all tombstone_of ds (mark (tombstone_of d m) id s)
]

-- `delete_internal` from its first save on
unfoldable pub finish_delete :
    DeleteOutcomes
    → (requested tombstones_created : ℕ) → List String
    → Stores
    → Result DeleteError DeleteResponse × Stores
unfolding delete_documents forget_all
finish_delete o requested tombstones_created found e =
    let saved = save o.first_save e.file e.state in
    let e' : Stores = record e { state = saved.state; file = saved.file } in
    elim saved.result [
      | err x ↦ (err (state_unsaved x), e')
      | ok _ ↦
          if is_nil found
          then (ok (record { requested = requested; deleted = 0; tombstones_created = 0 }), e')
          else delete_and o found e' (
              save_forgotten
                (record {
                  requested = requested;
                  deleted = o.success_count;
                  tombstones_created = tombstones_created;
                })
                o.last_save found)
    ]

module _ (norm : List F32 → F64) where
  unfoldable pub recover_pending_deletes :
      DeleteOutcomes → String → Stores → Result DeleteError (Unit {0}) × Stores
  unfolding erase_sources fetch_documents delete_documents forget_all
  recover_pending_deletes o transaction_id e =
      let ids = e.state.pending_deletes in
      let (erasure, graph) = erase_sources norm ids o.graph transaction_id e.graph in
      let e1 : Stores = record e { graph = graph } in
      let found = map (λ (id, _). id) (fetch_documents e.documents ids) in
      if is_nil ids then (ok tt, e) else elim erasure [
        | err x ↦ (err (erasure_failed x), e1)
        | ok _ ↦
            if not o.fetch
            then (err fetch_failed, e1)
            else if is_nil found
            then save_forgotten tt o.last_save ids e1
            else delete_and o found e1 (save_forgotten tt o.last_save ids)
      ]

  unfoldable pub delete_internal :
      (PendingDocument → MemoryMetadata → Tombstone)
      → Bool
      → DeleteOutcomes
      → String
      → List String
      → Stores
      → Result DeleteError DeleteResponse × Stores
  unfolding check_delete fetch_documents erase_sources mark_all finish_delete
  delete_internal tombstone_of create_tombstones o transaction_id ids e =
      let documents = fetch_documents e.documents ids in
      let found = map (λ (id, _). id) documents in
      let (erasure, graph) = erase_sources norm ids o.graph transaction_id e.graph in
      let (marked, state) =
        mark_all (λ d m. if create_tombstones then some (tombstone_of d m) else none) documents
          e.state in
      let created = if create_tombstones then length documents else 0 in
      let e1 : Stores = record e { graph = graph } in
      let e2 : Stores = record e1 { state = state } in
      elim (check_delete o.fetch ids e) [
        | err x ↦ (err x, e)
        | ok _ ↦ elim erasure [
          | err x ↦ (err (erasure_failed x), e1)
          | ok _ ↦ elim marked [
            | err x ↦ (err x, e2)
            | ok _ ↦ finish_delete o (length ids) created found e2
          ]
        ]
      ]
