-- ===== src/Examples/Policies.antt =====
-- The lifecycle policy and the taxonomy at concrete inputs.
use opencode_native_memory.Prelude.{◌≤◌, ◌≡◌, ◌↔◌, refl, true, false, none, some, arith}
use opencode_native_memory.Prelude.Int.{pos}
use opencode_native_memory.Prelude.Result.{ok}
use opencode_native_memory.Contract.{MemoryScope, unlock, UpdateRequest}
use opencode_native_memory.Taxonomy.Defs.{MemoryTaxonomy, as_str}
use opencode_native_memory.Taxonomy.Infer.{parse}
use opencode_native_memory.Taxonomy.Wire.{parse_iff}
use opencode_native_memory.State.Defs.{MemoryMetadata}
use opencode_native_memory.Validation.Scan.{quiet, default_policy}
use opencode_native_memory.Lifecycle.{
  LifecycleValues, resolve_update_with_policy, is_expired, expiry_from_days,
  has_locked_forbidden_mutation, has_record_mutation,
}
use opencode_native_memory.Lifecycle.Expiry.{expiry_from_days_exact}
use opencode_native_memory.Lifecycle.Locks.{
  AsksNothing, resolve_update-locked, resolve_update-IsLifecycle, IsLifecycle,
}
use opencode_native_memory.Examples.Data.{plain, locked_memory, no_change}

abbrev still_locked : LifecycleValues
still_locked = record { pinned = false; locked = true; lock_reason = some "curated" }

abbrev freed : LifecycleValues
freed = record { pinned = false; locked = false; lock_reason = none }

abbrev unlock_request : UpdateRequest
unlock_request = record no_change { lock_action = some unlock }

resolve_update-locked_example : AsksNothing no_change × (true ≡ true) × (false ≡ false)
unfolding resolve_update_with_policy has_locked_forbidden_mutation has_record_mutation
resolve_update-locked_example =
    resolve_update-locked quiet locked_memory no_change MemoryScope.project default_policy
      {v = still_locked} refl refl refl

resolve_update-IsLifecycle_example : IsLifecycle MemoryScope.repository freed
unfolding resolve_update_with_policy has_locked_forbidden_mutation has_record_mutation
resolve_update-IsLifecycle_example =
    resolve_update-IsLifecycle quiet plain no_change MemoryScope.repository default_policy
      {v = freed} refl (λ _. refl) refl

abbrev month : MemoryMetadata
month = record plain { expires_at_ms = some (pos 2592000001) }

expiry_from_days_exact_example : (is_expired month (pos 5) ≡ true) ↔ (2592000001 ≤ 5)
unfolding expiry_from_days
expiry_from_days_exact_example = expiry_from_days_exact month 1 30 5 (omega arith) refl refl

parse_iff_example :
    (parse "decision" ≡ ok MemoryTaxonomy.decision) ↔ ("decision" ≡ as_str MemoryTaxonomy.decision)
parse_iff_example = parse_iff "decision" MemoryTaxonomy.decision
