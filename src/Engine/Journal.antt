-- ===== src/Engine/Journal.antt =====
-- src/engine/mod.rs: the batch-upsert journal. A batch is first saved in `pending_upserts`, then
-- written to the vector collection, then made effective; opening the store repeats what was left.
pub mod Batch
pub mod Documents
pub mod Recovery
use opencode_native_memory.Prelude.{
  ℕ, Bool, true, false, not, Option, none, some, List, [], ◌∷◌, String, ◌==◌, is_none_or, length,
  map, take, all, if◌then◌else◌,
}
use opencode_native_memory.Prelude.Map.{Map, get, insert, contains_key}
use opencode_native_memory.Prelude.Writes.{Write}
use opencode_native_memory.Prelude.Result.{Result, ok, err, ensure, ◌>>=◌, ◌>>◌}
use opencode_native_memory.State.Defs.{PendingDocument, PendingUpsert, MemoryState}
use opencode_native_memory.State.Validate.{StateError, contains, validate}
use opencode_native_memory.State.Save.{SaveError, Saved, save, sort}
use opencode_native_memory.Engine.Upsert.{ApplyError, apply_pending_upserts_to_state}

pub data EngineError : Type 0 where
  batch_empty duplicate_id already_pending pending_missing : EngineError
  apply_failed : ApplyError → EngineError
  prospective_invalid : StateError → EngineError
  save_failed : SaveError → EngineError
  graph_failed dimension_mismatch write_failed : EngineError

-- `state` is in memory, `file` on disk; `documents` is the vector collection, and `dimension` that
-- of the embedder, if one is loaded.
pub record Engine : Type 0 where
  pub state : MemoryState
  pub file : MemoryState
  pub documents : Map PendingDocument
  pub dimension : Option ℕ

-- How the calls of the file system, the graph store and the collection turn out. A failing write of
-- a batch may have written its first `written` documents.
pub record Outcomes : Type 0 where
  pub first_save : Write
  pub graph : Bool
  pub write : Bool
  pub written : ℕ
  pub last_save : Write

abbrev pub Outcome : Type 0
Outcome = Result EngineError (Unit {0}) × Engine

abbrev pub pending_id : PendingUpsert → String
pending_id p = p.document.id

-- `pending_upserts.insert(...)` for each item
unfoldable pub insert_pending : Map PendingUpsert → List PendingUpsert → Map PendingUpsert
insert_pending m [] = m
insert_pending m (p ∷ ps) = insert_pending (insert m (pending_id p) p) ps

unfoldable pub upsert_documents : Map PendingDocument → List PendingUpsert → Map PendingDocument
upsert_documents m [] = m
upsert_documents m (p ∷ ps) = upsert_documents (insert m (pending_id p) p.document) ps

abbrev pub fits_dimension : Option ℕ → PendingUpsert → Bool
fits_dimension dimension p = is_none_or dimension (λ d. length p.document.embedding == d)

abbrev pub is_nil : List PendingUpsert → Bool
is_nil [] = true
is_nil (_ ∷ _) = false

-- `write_pending_documents`, with the check of `build_pending_document`
unfoldable pub write_pending_documents : Outcomes → List PendingUpsert → Engine → Outcome
unfolding upsert_documents all
write_pending_documents o pending e =
    if is_nil pending
    then (err batch_empty, e)
    else if not (all (fits_dimension e.dimension) pending)
    then (err dimension_mismatch, e)
    else if o.write
    then (ok tt, record e { documents = upsert_documents e.documents pending })
    else (
      err write_failed,
      record e { documents = upsert_documents e.documents (take o.written pending) },
    )

-- the items that the journal holds for `ids`
unfoldable pub collect : Map PendingUpsert → List String → Result EngineError (List PendingUpsert)
collect m [] = ok []
collect m (id ∷ ids) =
    let rest = collect m ids in
    elim (get m id) [
      | none ↦ err pending_missing
      | some p ↦ elim rest [ err e ↦ err e | ok ps ↦ ok (p ∷ ps) ]
    ]

-- `save_state`, and what a failing save puts back in memory
abbrev after_save : MemoryState → Saved → Engine → Outcome
after_save previous saved e = elim saved.result [
  | ok _ ↦ (ok tt, record e { state = saved.state; file = saved.file })
  | err x ↦ (err (save_failed x), record e { state = previous; file = saved.file })
]

-- the part of `finalize_pending_upserts` after the batch is collected
unfoldable pub finalize_batch : Write → List PendingUpsert → Engine → Outcome
finalize_batch last_save pending e =
    let (r, s) = apply_pending_upserts_to_state pending e.state in
    elim r [
      | err x ↦ (err (apply_failed x), record e { state = s })
      | ok _ ↦ after_save e.state (save last_save e.file s) e
    ]

unfoldable pub finalize_pending_upserts : Write → List String → Engine → Outcome
unfolding collect finalize_batch
finalize_pending_upserts last_save ids e = elim (collect e.state.pending_upserts ids) [
  | err x ↦ (err x, e)
  | ok pending ↦ finalize_batch last_save pending e
]

abbrev and_then : Outcome → (Engine → Outcome) → Outcome
and_then (ok _, e) f = f e
and_then (err x, e) f = (err x, e)

-- `invalidate_graph_sources_for_upserts`, `write_pending_documents` and `finalize_pending_upserts`,
-- which commit and recovery run in this order
unfoldable pub complete : Outcomes → List String → List PendingUpsert → Engine → Outcome
unfolding write_pending_documents
complete o ids pending e =
    if not o.graph
    then (err graph_failed, e)
    else and_then (write_pending_documents o pending e) (finalize_pending_upserts o.last_save ids)

unfoldable pub check_fresh :
    List String → Map PendingUpsert → List String → Result EngineError (Unit {0})
check_fresh seen journal [] = ok tt
check_fresh seen journal (id ∷ ids) =
    let rest = check_fresh (id ∷ seen) journal ids in
    do
      ensure (not (contains seen id)) duplicate_id
      ensure (not (contains_key journal id)) already_pending
      rest

-- the trial run on a copy of the state
try_batch : MemoryState → List PendingUpsert → Result EngineError (Unit {0})
try_batch s pending =
    let prospective = record s { pending_upserts = insert_pending s.pending_upserts pending } in
    let (r, s') = apply_pending_upserts_to_state pending prospective in
    elim r [
      | err x ↦ err (apply_failed x)
      | ok _ ↦ elim (validate s') [ err x ↦ err (prospective_invalid x) | ok _ ↦ ok tt ]
    ]

unfoldable pub check_batch : MemoryState → List PendingUpsert → Result EngineError (Unit {0})
unfolding check_fresh try_batch
check_batch s pending = do
  ensure (not (is_nil pending)) batch_empty
  check_fresh [] s.pending_upserts (map pending_id pending)
  try_batch s pending

-- the first half of `commit_pending_upserts`, up to and including the save of the journal
unfoldable pub journal_batch : Write → List PendingUpsert → Engine → Outcome
unfolding check_batch insert_pending
journal_batch first_save pending e =
    let s = e.state in
    elim (check_batch s pending) [
      | err x ↦ (err x, e)
      | ok _ ↦
          after_save s
            (save first_save e.file
              (record s { pending_upserts = insert_pending s.pending_upserts pending }))
            e
    ]

unfoldable pub commit_pending_upserts : Outcomes → List PendingUpsert → Engine → Outcome
commit_pending_upserts o pending e =
    and_then (journal_batch o.first_save pending e) (complete o (map pending_id pending) pending)

abbrev pub keys : Map PendingUpsert → List String
keys m = map (λ (id, _). id) m

-- `recover_pending_upserts`, once the ids are sorted
unfoldable pub recover_ids : Outcomes → List String → Engine → Outcome
recover_ids o ids e =
    if length ids == 0 then (ok tt, e) else elim (collect e.state.pending_upserts ids) [
      | err x ↦ (err x, e)
      | ok pending ↦ complete o ids pending e
    ]

unfoldable pub recover_pending_upserts : Outcomes → Engine → Outcome
unfolding recover_ids
recover_pending_upserts o e = recover_ids o (sort (keys e.state.pending_upserts)) e

-- The process ends, and the store is opened again from its file.
abbrev pub reopen : Engine → Engine
reopen e = record e { state = e.file }
