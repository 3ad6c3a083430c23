-- ===== src/Examples/Data.antt =====
-- Sample memories, requests and batches.
use opencode_native_memory.Prelude.{true, false, none, some, List, [], ◌∷◌, String}
use opencode_native_memory.Prelude.Int.{pos}
use opencode_native_memory.Prelude.Map.{Map}
use opencode_native_memory.Float.{scaled, whole}
use opencode_native_memory.Contract.{
  MemoryKind, MemoryScope, MemoryOrigin, UpdateRequest, FeedbackStats,
}
use opencode_native_memory.Taxonomy.Defs.{MemoryTaxonomy}
use opencode_native_memory.State.Defs.{
  MemoryMetadata, MemoryState, PendingDocument, PendingUpsert, default_state,
}
use opencode_native_memory.Engine.Journal.{Engine}

abbrev no_feedback : FeedbackStats
no_feedback = record { injected_count = 0; used_count = 0; ignored_count = 0; error_count = 0 }

abbrev pub plain : MemoryMetadata
plain = record {
  scope = MemoryScope.project;
  scope_key = none;
  origin = MemoryOrigin.manual;
  expires_at_ms = some (pos 10);
  half_life_days = whole 1;
  code_anchors = [];
  feedback = no_feedback;
  shared_source = none;
  pinned = false;
  locked = false;
  lock_reason = none;
  taxonomy = MemoryTaxonomy.decision;
  confidence = scaled 1 148;
  superseded_by = none;
  supersedes = [];
  conflict_with = [];
}

abbrev pub locked_memory : MemoryMetadata
locked_memory = record plain { locked = true; lock_reason = some "curated" }

-- `a` was superseded by `b`, which was superseded by `c`; `b` conflicts with `d`.
abbrev pub linked : Map MemoryMetadata
linked =
    ("a", record plain { superseded_by = some "b" })
    ∷ (
      "b",
      record plain { superseded_by = some "c"; supersedes = "a" ∷ []; conflict_with = "d" ∷ [] },
    )
    ∷ ("c", record plain { supersedes = "b" ∷ [] })
    ∷ ("d", record plain { conflict_with = "b" ∷ [] })
    ∷ []

abbrev pub linked_state : MemoryState
linked_state = record default_state { records = linked }

abbrev pub no_change : UpdateRequest
no_change = record {
  id = "a";
  expected_updated_at_ms = none;
  content = none;
  title = none;
  kind = none;
  importance = none;
  tags = none;
  scope = none;
  scope_key = none;
  expires_in_days = none;
  clear_expiry = false;
  code_paths = none;
  pinned = none;
  lock_action = none;
  lock_reason = none;
  taxonomy = none;
  confidence = none;
  conflict_with = none;
  session_scope_key = none;
  agent_scope_key = none;
}

abbrev pub document : String → PendingDocument
document id = record {
  id = id;
  title = "title";
  content = "content";
  search_text = "title content";
  kind = MemoryKind.fact;
  importance = scaled 1 148;
  tags = [];
  source = "agent";
  content_hash = "hash";
  created_at_ms = pos 1;
  updated_at_ms = pos 2;
  embedding = whole 1 ∷ [];
}

-- Two new memories, of which the second replaces the stored memory `c`.
abbrev pub batch : List PendingUpsert
batch =
    record {
      document = document "e";
      metadata = plain;
      predecessor_ids = [];
      revive_fingerprint = none;
    }
    ∷ record {
      document = document "f";
      metadata = record plain { supersedes = "c" ∷ [] };
      predecessor_ids = "c" ∷ [];
      revive_fingerprint = none;
    }
    ∷ []

abbrev pub engine : Engine
engine = record { state = linked_state; file = linked_state; documents = []; dimension = some 1 }
