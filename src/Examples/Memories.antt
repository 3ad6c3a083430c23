-- ===== src/Examples/Memories.antt =====
-- Lifecycle, relations and journal at concrete inputs.
use opencode_native_memory.Prelude.{true, false, ◌≡◌, refl, inr, none, map}
use opencode_native_memory.Prelude.Writes.{written}
use opencode_native_memory.Prelude.Result.{ok}
use opencode_native_memory.Prelude.Map.{get, insert, remove, modify}
use opencode_native_memory.Prelude.{any, all, retain}
use opencode_native_memory.Float.{in_unit}
use opencode_native_memory.State.Validate.{validate, validate_relations}
use opencode_native_memory.State.Relations.{IsReciprocal, validate_relations-IsReciprocal}
use opencode_native_memory.State.Save.{save, sort}
use opencode_native_memory.State.Acyclic.{IsAcyclic}
use opencode_native_memory.State.Acyclic.Pigeonhole.{validate_relations-IsAcyclic}
use opencode_native_memory.Engine.Removal.{remove_state_record}
use opencode_native_memory.Engine.Removal.Acyclic.{remove_state_record-keeps}
use opencode_native_memory.Engine.Journal.{
  journal_batch, commit_pending_upserts, recover_pending_upserts, reopen, Outcomes, pending_id,
}
use opencode_native_memory.Engine.Journal.Recovery.{SameStore, all_well, recovery}
use opencode_native_memory.Engine.Upsert.{apply_pending_upserts_to_state}
use opencode_native_memory.Examples.Data.{linked, linked_state, batch, engine}

linked-accepted : validate_relations linked ≡ ok tt
unfolding validate_relations get any
linked-accepted = refl

validate_relations-IsReciprocal_example : IsReciprocal linked
validate_relations-IsReciprocal_example = validate_relations-IsReciprocal linked linked-accepted

abbrev interrupted : Outcomes
interrupted = record {
  first_save = written;
  graph = true;
  write = false;
  written = 1;
  last_save = written;
}

batch-journaled : (journal_batch written batch engine).0 ≡ ok tt
unfolding journal_batch save validate apply_pending_upserts_to_state get insert remove modify any
    all retain in_unit
batch-journaled = refl

batch-sorted : sort (map pending_id batch) ≡ map pending_id batch
unfolding sort
batch-sorted = refl

recovery_example :
    SameStore
      (recover_pending_upserts all_well
        (reopen (commit_pending_upserts interrupted batch engine).1))
      (commit_pending_upserts all_well batch engine)
recovery_example =
    recovery interrupted batch engine refl batch-sorted batch-journaled refl (inr refl)

validate_relations-IsAcyclic_example : IsAcyclic linked
validate_relations-IsAcyclic_example = validate_relations-IsAcyclic linked linked-accepted

remove_state_record-keeps_example :
    IsReciprocal (remove_state_record linked_state "b").records
    × IsAcyclic (remove_state_record linked_state "b").records
    × (get (remove_state_record linked_state "b").records "b" ≡ none)
remove_state_record-keeps_example =
    remove_state_record-keeps linked_state "b"
      (validate_relations-IsReciprocal linked linked-accepted)
      (validate_relations-IsAcyclic linked linked-accepted)
