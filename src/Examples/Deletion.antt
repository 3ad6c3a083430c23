-- ===== src/Examples/Deletion.antt =====
-- Deletions of memories at concrete inputs.
use opencode_native_memory.Prelude.{true, ◌≡◌, refl, none, [], ◌∷◌, String, any, all, retain}
use opencode_native_memory.Prelude.Int.{pos}
use opencode_native_memory.Prelude.Map.{get, insert, remove, modify}
use opencode_native_memory.Prelude.Text.{trim, all_chars, byte_length}
use opencode_native_memory.Prelude.Writes.{written}
use opencode_native_memory.Prelude.Result.{ok, is_ok}
use opencode_native_memory.Float.{in_unit}
use opencode_native_memory.Contract.{DeleteReason}
use opencode_native_memory.State.Defs.{
  MemoryMetadata, MemoryState, PendingDocument, Tombstone, default_state,
}
use opencode_native_memory.State.Validate.{contains, validate}
use opencode_native_memory.State.Save.{save}
use opencode_native_memory.Graph.Defs.{default_graph}
use opencode_native_memory.Graph.Validate.{validate_graph}
use opencode_native_memory.Graph.Erase.{erase_sources}
use opencode_native_memory.Graph.Store.History.{smooth}
use opencode_native_memory.Engine.Removal.{remove_state_record, modify_all}
use opencode_native_memory.Lifecycle.{ensure_delete_allowed}
use opencode_native_memory.Engine.Deletion.{
  Stores, fetch_documents, DeleteOutcomes, recover_pending_deletes, delete_internal,
}
use opencode_native_memory.Engine.Deletion.Recovery.{
  IsGone, fetched, recover_pending_deletes-IsGone,
}
use opencode_native_memory.Engine.Deletion.Atomic.{Reached, delete_internal-Reached}
use opencode_native_memory.Examples.Data.{plain, document}
use opencode_native_memory.Examples.Graph.{encoding, no_norm}

abbrev memory_id : String
memory_id = "mem_0123456789abcdef0123456789abcdef"

abbrev all_well : DeleteOutcomes
all_well = record {
  graph = smooth;
  fetch = true;
  first_save = written;
  delete = true;
  written = 0;
  success_count = 1;
  flush = true;
  last_save = written;
}

abbrev one_memory : MemoryState
one_memory = record default_state { records = (memory_id, plain) ∷ [] }

abbrev stores_with : MemoryState → Stores
stores_with s = record {
  state = s;
  file = s;
  documents = (memory_id, document memory_id) ∷ [];
  graph = record {
    state = default_graph;
    files = record { encoding = encoding; main = none; pending = none };
  };
}

abbrev interrupted : Stores
interrupted = stores_with (record one_memory { pending_deletes = memory_id ∷ [] })

recovered : (recover_pending_deletes no_norm all_well "t" interrupted).0 ≡ ok tt
unfolding recover_pending_deletes save validate validate_graph erase_sources get insert remove
    modify any all retain in_unit trim remove_state_record modify_all
recovered = refl

recover_pending_deletes-IsGone_example :
    IsGone memory_id (recover_pending_deletes no_norm all_well "t" interrupted).1
unfolding any
recover_pending_deletes-IsGone_example =
    recover_pending_deletes-IsGone no_norm all_well "t" interrupted memory_id recovered refl

abbrev tombstone : PendingDocument → MemoryMetadata → Tombstone
tombstone d m = record {
  fingerprint = d.content_hash;
  kind = d.kind;
  scope = m.scope;
  scope_key = m.scope_key;
  deleted_at_ms = pos 5;
  reason = DeleteReason.obsolete;
}

stored : contains (fetched (stores_with one_memory).documents (memory_id ∷ [])) memory_id ≡ true
unfolding fetched fetch_documents get any
stored = refl

delete_internal-Reached_example :
    Reached memory_id (stores_with one_memory) (
      delete_internal no_norm tombstone true all_well "t" (memory_id ∷ []) (stores_with one_memory))
delete_internal-Reached_example =
    delete_internal-Reached no_norm tombstone true all_well "t" (memory_id ∷ [])
      (stores_with one_memory) memory_id stored

-- the deletion that this applies to succeeds
deleted :
    is_ok
      (delete_internal no_norm tombstone true all_well "t"
        (memory_id ∷ [])
        (stores_with one_memory)).0
    ≡ true
unfolding delete_internal save validate validate_graph erase_sources get insert remove modify any
    all retain in_unit trim byte_length all_chars ensure_delete_allowed remove_state_record
    modify_all
deleted = refl
