-- ===== src/Engine/Deletion/Atomic.antt =====
-- src/engine/mod.rs: how far a deletion can get.
use opencode_native_memory.Prelude.{
  ℕ, length, Bool, true, false, ◌&&◌, ◌||◌, ◌≡◌, ◌⊎◌, ◌∙◌, ap, sym, inl, inr, Option, none, some,
  List, [], ◌∷◌, String, str_eq, eq_iff, any, any-append, map, arith, Bool-cases, Option-cases,
  if◌then◌else◌, subst,
}
use opencode_native_memory.Prelude.Map.{Map, get}
use opencode_native_memory.Prelude.Result.{is_ok, Result, ok, err}
use opencode_native_memory.Prelude.Writes.{Write, written}
use opencode_native_memory.Float.{F32, F64}
use opencode_native_memory.State.Defs.{PendingDocument, Tombstone, MemoryMetadata, MemoryState}
use opencode_native_memory.State.Validate.{contains}
use opencode_native_memory.State.Save.{
  SaveError, save, save-err, save-written, Result-cases, normalize_relations,
}
use opencode_native_memory.Graph.Erase.{erase_sources}
use opencode_native_memory.Engine.Deletion.{
  DeleteError, DeleteResponse, DeleteOutcomes, Stores, fetch_documents, delete_documents,
  forget_all, mark, mark_all, save_forgotten, check_delete, finish_delete, delete_internal,
}
use opencode_native_memory.Engine.Deletion.Recovery.{
  IsGone, fetched, contains-fetched, deleted-absent, save_forgotten-IsGone,
}

contains-mark :
    (t : Option Tombstone) (k : String) (s : MemoryState) (id : String)
    → contains (mark t k s).pending_deletes id ≡ (contains s.pending_deletes id || str_eq k id)
unfolding any
contains-mark t k s id = elim (Bool-cases (contains s.pending_deletes k)) [
  | inl there ↦ ground (arith, there, eq_iff k id)
  | inr fresh ↦
      ground (arith, fresh, any-append (λ entry. str_eq entry id) s.pending_deletes (k ∷ []))
]

contains-mark_all :
    (tombstone_of : PendingDocument → MemoryMetadata → Option Tombstone)
    (documents : Map PendingDocument) (s : MemoryState) (id : String)
    → (mark_all tombstone_of documents s).0 ≡ ok tt
    → contains (mark_all tombstone_of documents s).1.pending_deletes id
      ≡ (contains s.pending_deletes id || contains (map (λ (k, _). k) documents) id)
unfolding mark_all any
contains-mark_all tombstone_of [] s id done = ground arith
contains-mark_all tombstone_of ((k, d) ∷ ds) s id done = elim (Option-cases (get s.records k)) [
  | inl missing ↦ absurd (ground (arith, done, missing))
  | inr (m, found) ↦ ground (
    arith,
    found,
    done,
    contains-mark_all tombstone_of ds (mark (tombstone_of d m) k s) id,
    contains-mark (tombstone_of d m) k s id,
  )
]

saved-pending :
    (outcome : Write) (file s : MemoryState)
    → (save outcome file s).result ≡ ok tt
    → (save outcome file s).file.pending_deletes ≡ s.pending_deletes
unfolding save normalize_relations
saved-pending outcome file s h = ground (arith, h, save-written outcome file s h)

-- A deletion of a memory that succeeds has reached its end. One that fails has come to the journal in
-- the file of the state, or has changed neither that file nor the collection, or has failed only after
-- it reached its end.
abbrev pub Reached : String → Stores → Result DeleteError DeleteResponse × Stores → Type 0
Reached id e (reply, e') =
    ((is_ok reply ≡ true) × IsGone id e')
    ⊎ ((is_ok reply ≡ false)
        × ((contains e'.file.pending_deletes id ≡ true)
            ⊎ (((e'.file ≡ e.file) × (e'.documents ≡ e.documents)) ⊎ IsGone id e')))

-- What a first save leaves of the file that is in the journal, or unchanged.
journaled_or_kept :
    (outcome : Write) (file s : MemoryState) (id : String) {x : SaveError}
    → (save outcome file s).result ≡ err x
    → contains s.pending_deletes id ≡ true
    → (contains (save outcome file s).file.pending_deletes id ≡ true)
      ⊎ ((save outcome file s).file ≡ file)
journaled_or_kept outcome file s id failed marked =
    let (_, either) = save-err outcome file s failed in
    elim either [
      | inl kept ↦ inr kept
      | inr (sound, same) ↦ inl (
          ap (λ (f : MemoryState). contains f.pending_deletes id) same
          ∙ ap (λ ps. contains ps id) (saved-pending written file s sound)
          ∙ marked)
    ]

module _ (o : DeleteOutcomes) (requested created : ℕ) (ids : List String) (e : Stores) where
  -- The last save failed after the new file was in place.
  finish_delete-IsGone :
      (id : String) {x : SaveError}
      → let found = fetched e.documents ids in
        let first = save o.first_save e.file e.state in
        let forgotten = forget_all first.state found in
        contains found id ≡ true
        → contains ids id ≡ true
        → first.result ≡ ok tt
        → (o.delete && o.flush) ≡ true
        → (save o.last_save first.file forgotten).result ≡ err x
        → (save written first.file forgotten).result ≡ ok tt
        → (save o.last_save first.file forgotten).file ≡ (save written first.file forgotten).file
        → IsGone id (finish_delete o requested created found e).1
  unfolding finish_delete any
  finish_delete-IsGone id here asked saved flushed failed sound same =
      let found = fetched e.documents ids in
      let first = save o.first_save e.file e.state in
      let e1 : Stores = record e { state = first.state; file = first.file } in
      let e2 : Stores = record e1 { documents = delete_documents e.documents found } in
      let (absent, records, pending) =
        save_forgotten-IsGone tt written found e2 id sound here
          (deleted-absent e.documents ids id asked) in
      (
        ground (arith, saved, here, flushed, failed, absent, sound),
        ground (arith, saved, here, flushed, failed, sound, same, records),
        ground (arith, saved, here, flushed, failed, sound, same, pending),
      )

  finish_delete-Reached :
      (id : String)
      → contains (fetched e.documents ids) id ≡ true
      → contains ids id ≡ true
      → contains e.state.pending_deletes id ≡ true
      → Reached id e (finish_delete o requested created (fetched e.documents ids) e)
  unfolding finish_delete any
  finish_delete-Reached id here asked marked =
      let found = fetched e.documents ids in
      let first = save o.first_save e.file e.state in
      let e1 : Stores = record e { state = first.state; file = first.file } in
      let e2 : Stores = record e1 { documents = delete_documents e.documents found } in
      let last = save o.last_save first.file (forget_all first.state found) in
      let response : DeleteResponse = record {
        requested = requested;
        deleted = o.success_count;
        tombstones_created = created;
      } in
      elim (Result-cases first.result) [
        | inl (x, failed) ↦ elim (journaled_or_kept o.first_save e.file e.state id failed marked) [
          | inl noted ↦ inr (ground (arith, failed), inl (ground (arith, failed, noted)))
          | inr kept ↦ inr (
            ground (arith, failed),
            inr (inl (ground (arith, failed, kept), ground (arith, failed))),
          )
        ]
        | inr saved ↦
            let journaled : contains first.file.pending_deletes id ≡ true =
              ap (λ ps. contains ps id) (saved-pending o.first_save e.file e.state saved)
              ∙ marked in
            elim (Bool-cases (o.delete && o.flush)) [
              | inr stuck ↦ inr (
                ground (arith, saved, here, stuck),
                inl (ground (arith, saved, journaled, here, stuck)),
              )
              | inl flushed ↦ elim (Result-cases last.result) [
                | inl (x, failed) ↦
                    let (_, either) =
                      save-err o.last_save first.file (forget_all first.state found) failed in
                    inr (
                      ground (arith, saved, here, flushed, failed),
                      elim either [
                        | inl kept ↦
                            inl (ground (arith, saved, journaled, here, flushed, failed, kept))
                        | inr (sound, same) ↦ inr (
                            inr
                              (finish_delete-IsGone id here asked saved flushed failed sound same))
                      ],
                    )
                | inr done ↦
                    let eq : finish_delete o requested created found e
                        ≡ save_forgotten response o.last_save found e2 =
                      ground (arith, saved, here, flushed) in
                    inl (
                      ground (arith, saved, here, flushed, done),
                      subst (λ r. IsGone id r.1) (sym eq)
                          (save_forgotten-IsGone response o.last_save found e2 id done here
                            (deleted-absent e.documents ids id asked)),
                    )
              ]
            ]
      ]

module _ (norm : List F32 → F64) where
  -- A deletion of memories, of which the collection has the document of this one: if it answers with
  -- success, then the collection has no such document any more, and the file of the state no record
  -- of the memory and no entry in its journal of deletions. If it fails, then the memory is in the
  -- journal of deletions in that file, or the file and the collection are as they were, or the memory
  -- is gone from both all the same.
  pub delete_internal-Reached :
      (tombstone_of : PendingDocument → MemoryMetadata → Tombstone) (create_tombstones : Bool)
      (o : DeleteOutcomes) (transaction_id : String) (ids : List String) (e : Stores) (id : String)
      → contains (fetched e.documents ids) id ≡ true
      → Reached id e (delete_internal norm tombstone_of create_tombstones o transaction_id ids e)
  unfolding delete_internal fetched
  delete_internal-Reached tombstone_of create_tombstones o transaction_id ids e id here =
      let documents = fetch_documents e.documents ids in
      let (erasure, graph) = erase_sources norm ids o.graph transaction_id e.graph in
      let tombstone = λ (d : PendingDocument) (m : MemoryMetadata).
        if create_tombstones then some (tombstone_of d m) else none in
      let (marked, state) = mark_all tombstone documents e.state in
      let created = if create_tombstones then length documents else 0 in
      let e2 : Stores = record e { graph = graph; state = state } in
      let whole = delete_internal norm tombstone_of create_tombstones o transaction_id ids e in
      let asked : contains ids id ≡ true =
        ground (arith, here, contains-fetched e.documents ids id) in
      elim (Result-cases (check_delete o.fetch ids e)) [
        | inl (x, bad) ↦
            inr (ground (arith, bad), inr (inl (ground (arith, bad), ground (arith, bad))))
        | inr good ↦ elim (Result-cases erasure) [
          | inl (x, kept) ↦ inr (
            ground (arith, good, kept),
            inr (inl (ground (arith, good, kept), ground (arith, good, kept))),
          )
          | inr erased ↦ elim (Result-cases marked) [
            | inl (x, lost) ↦ inr (
              ground (arith, good, erased, lost),
              inr (inl (ground (arith, good, erased, lost), ground (arith, good, erased, lost))),
            )
            | inr done ↦
                let eq : whole ≡ finish_delete o (length ids) created (fetched e.documents ids) e2 =
                  ground (arith, good, erased, done) in
                let noted : contains state.pending_deletes id ≡ true =
                  ground (arith, here, contains-mark_all tombstone documents e.state id done) in
                subst (Reached id e) (sym eq)
                  (finish_delete-Reached o (length ids) created ids e2 id here asked noted)
          ]
        ]
      ]
