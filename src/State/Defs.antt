-- ===== src/State/Defs.antt =====
-- src/storage/state.rs: the records that make up the lifecycle state.
use opencode_native_memory.Prelude.{ℕ, Bool, Option, List, [], String, is_some}
use opencode_native_memory.Prelude.Int.{ℤ}
use opencode_native_memory.Prelude.Map.{Map}
use opencode_native_memory.Float.{F32}
use opencode_native_memory.Contract.{
  MemoryKind, MemoryScope, MemoryOrigin, DeleteReason, CodeAnchor, FeedbackEvent, FeedbackStats,
}
use opencode_native_memory.Taxonomy.Defs.{MemoryTaxonomy}

pub record MemoryMetadata : Type 0 where
  pub scope : MemoryScope
  pub scope_key : Option String
  pub origin : MemoryOrigin
  pub expires_at_ms : Option ℤ
  pub half_life_days : F32
  pub code_anchors : List CodeAnchor
  pub feedback : FeedbackStats
  pub shared_source : Option String
  pub pinned : Bool
  pub locked : Bool
  pub lock_reason : Option String
  pub taxonomy : MemoryTaxonomy
  pub confidence : F32
  pub superseded_by : Option String
  pub supersedes : List String
  pub conflict_with : List String

unfoldable pub is_superseded : MemoryMetadata → Bool
is_superseded m = is_some m.superseded_by

pub record Tombstone : Type 0 where
  pub fingerprint : String
  pub kind : MemoryKind
  pub scope : MemoryScope
  pub scope_key : Option String
  pub deleted_at_ms : ℤ
  pub reason : DeleteReason

pub record RetrievalRecord : Type 0 where
  pub query_hash : String
  pub memory_ids : List String
  pub created_at_ms : ℤ
  pub events : List FeedbackEvent
  pub event_memory_ids : Map (List String)

pub record PendingDocument : Type 0 where
  pub id : String
  pub title : String
  pub content : String
  pub search_text : String
  pub kind : MemoryKind
  pub importance : F32
  pub tags : List String
  pub source : String
  pub content_hash : String
  pub created_at_ms : ℤ
  pub updated_at_ms : ℤ
  pub embedding : List F32

pub record PendingUpsert : Type 0 where
  pub document : PendingDocument
  pub metadata : MemoryMetadata
  pub predecessor_ids : List String
  pub revive_fingerprint : Option String

abbrev pub state_schema_version : ℕ
state_schema_version = 4

-- `pending_deletes` is a `HashSet`: a list in which order and repetition mean nothing.
pub record MemoryState : Type 0 where
  pub schema_version : ℕ
  pub generation : ℕ
  pub records : Map MemoryMetadata
  pub tombstones : Map Tombstone
  pub retrievals : Map RetrievalRecord
  pub pending_deletes : List String
  pub pending_upserts : Map PendingUpsert
  pub record_revisions : Map ℤ

-- `MemoryState::default`
abbrev pub default_state : MemoryState
default_state = record {
  schema_version = state_schema_version;
  generation = 0;
  records = [];
  tombstones = [];
  retrievals = [];
  pending_deletes = [];
  pending_upserts = [];
  record_revisions = [];
}
