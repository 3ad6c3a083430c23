-- ===== src/Engine/Deletion/Parts.antt =====
-- src/engine/mod.rs: what a deletion works on, its checks, and its single steps.
use Prim.Native.Char.{code}
use Prim.Native.String.{[] as nil_text, ◌∷◌ as cons_char}
use opencode_native_memory.Prelude.{
  ℕ, Bool, true, false, not, ◌&&◌, ◌||◌, ◌==◌, Option, none, some, List, [], ◌∷◌, String, leb,
  length, if◌then◌else◌,
}
use opencode_native_memory.Prelude.Map.{Map, get, remove}
use opencode_native_memory.Prelude.Writes.{Write}
use opencode_native_memory.Prelude.Result.{Result, ok, err, ensure, ok_or, for_each, ◌>>=◌, ◌>>◌}
use opencode_native_memory.Prelude.Text.{byte_length, all_chars}
use opencode_native_memory.State.Defs.{PendingDocument, MemoryState}
use opencode_native_memory.State.Save.{SaveError}
use opencode_native_memory.Lifecycle.{LifecycleError, ensure_delete_allowed}
use opencode_native_memory.Engine.Removal.{without, remove_state_record}
use opencode_native_memory.Graph.Validate.{GraphError}
use opencode_native_memory.Graph.Store.{GraphStore}
use opencode_native_memory.Graph.Store as GraphFiles

pub data DeleteError : Type 0 where
  no_ids too_many_ids invalid_id metadata_missing fetch_failed delete_failed flush_failed :
      DeleteError
  deletion_refused : LifecycleError → DeleteError
  erasure_failed : GraphError → DeleteError
  state_unsaved : SaveError → DeleteError

pub record DeleteResponse : Type 0 where
  pub requested : ℕ
  pub deleted : ℕ
  pub tombstones_created : ℕ

-- The state in memory and its file, the vector collection, and the graph.
pub record Stores : Type 0 where
  pub state : MemoryState
  pub file : MemoryState
  pub documents : Map PendingDocument
  pub graph : GraphStore

-- How the calls turn out. A failing deletion may have deleted its first `written` documents, and
-- `success_count` is what the collection reports.
pub record DeleteOutcomes : Type 0 where
  pub graph : GraphFiles.Outcomes
  pub fetch : Bool
  pub first_save : Write
  pub delete : Bool
  pub written : ℕ
  pub success_count : ℕ
  pub flush : Bool
  pub last_save : Write

abbrev pub max_id_count : ℕ
max_id_count = 100

strip_prefix : String → String → Option String
strip_prefix nil_text s = some s
strip_prefix (cons_char p ps) nil_text = none
strip_prefix (cons_char p ps) (cons_char c s) =
    let rest = strip_prefix ps s in if code p == code c then rest else none

abbrev is_hexdigit : ℕ → Bool
is_hexdigit c =
    (leb 0x30 c && leb c 0x39) || (leb 0x41 c && leb c 0x46) || (leb 0x61 c && leb c 0x66)

unfoldable pub is_memory_id : String → Bool
unfolding strip_prefix
is_memory_id id =
    byte_length id == 36
    && elim (strip_prefix "mem_" id) [ none ↦ false | some rest ↦ all_chars is_hexdigit rest ]

abbrev pub is_nil {ℓ} : {A : Type ℓ} → List A → Bool
is_nil [] = true
is_nil (_ ∷ _) = false

unfoldable pub validate_ids : List String → Result DeleteError (Unit {0})
unfolding is_memory_id
validate_ids ids = do
  ensure (not (is_nil ids)) no_ids
  ensure (leb (length ids) max_id_count) too_many_ids
  for_each (λ id. ensure (is_memory_id id) invalid_id) ids

-- `fetch_documents`: the documents that the collection has, each with its key
unfoldable pub fetch_documents : Map PendingDocument → List String → Map PendingDocument
fetch_documents documents [] = []
fetch_documents documents (id ∷ ids) =
    let rest = fetch_documents documents ids in
    elim (get documents id) [ none ↦ rest | some d ↦ (id, d) ∷ rest ]

unfoldable pub delete_documents : Map PendingDocument → List String → Map PendingDocument
delete_documents documents [] = documents
delete_documents documents (id ∷ ids) = delete_documents (remove documents id) ids

-- a record and its place in the journal of deletions
abbrev pub forget : MemoryState → String → MemoryState
forget s id =
    let s' = remove_state_record s id in
    record s' { pending_deletes = without s'.pending_deletes id }

unfoldable pub forget_all : MemoryState → List String → MemoryState
forget_all s [] = s
forget_all s (id ∷ ids) = forget_all (forget s id) ids

abbrev pub refused_as : {A : Type 0} → Result LifecycleError A → Result DeleteError A
refused_as (ok a) = ok a
refused_as (err e) = err (deletion_refused e)

unfoldable pub check_deletable :
    MemoryState → String × PendingDocument → Result DeleteError (Unit {0})
check_deletable s (id, d) = do
  m ← ok_or (get s.records id) metadata_missing
  refused_as (ensure_delete_allowed m)

-- the checks of `delete_internal`, which come before any change
unfoldable pub check_delete : Bool → List String → Stores → Result DeleteError (Unit {0})
unfolding validate_ids check_deletable fetch_documents
check_delete fetch ids e = do
  validate_ids ids
  ensure fetch fetch_failed
  for_each (check_deletable e.state) (fetch_documents e.documents ids)
