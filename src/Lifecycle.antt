-- ===== src/Lifecycle.antt =====
-- src/lifecycle.rs: expiry, pinning and locking. The proofs are in the children.
pub mod Expiry
pub mod Locks
use Prim.Native.String.{count}
use opencode_native_memory.Prelude.{
  ℕ, ◌*◌, ◌/◌, Bool, true, false, not, ◌&&◌, ◌||◌, Option, none, some, String, leb, is_some,
  is_some_and, is_none, unwrap_or, min, if◌then◌else◌,
}
use opencode_native_memory.Prelude.Int.{ℤ, pos, pos_part, leb_ℤ, saturating_add, saturating_sub}
use opencode_native_memory.Prelude.Result.{Result, ok, err, ensure, ◌>>=◌, ◌>>◌}
use opencode_native_memory.Prelude.Text.{trim, is_empty, contains_char}
use opencode_native_memory.Float.{F32, whole}
use opencode_native_memory.Contract.{
  MemoryKind, decision, preference, fact, pattern, gotcha, summary, MemoryScope, LockAction, lock,
  unlock, UpdateRequest,
}
use opencode_native_memory.State.Defs.{MemoryMetadata}
use opencode_native_memory.State.Validate.{is_repository}
use opencode_native_memory.Validation.Scan.{
  Scanners, ValidationPolicy, ScanError, scan_sensitive_with_policy,
}

abbrev pub millis_per_day : ℕ
millis_per_day = 86400000

abbrev pub max_lock_reason_chars : ℕ
max_lock_reason_chars = 240

pub record LifecycleValues : Type 0 where
  pub pinned : Bool
  pub locked : Bool
  pub lock_reason : Option String

pub data LifecycleError : Type 0 where
  reason_without_lock unlock_not_alone locked_mutation repository_pin_or_lock : LifecycleError
  reason_too_long reason_with_nul : LifecycleError
  reason_sensitive : ScanError → LifecycleError
  locked_overwrite locked_delete : LifecycleError

unfoldable pub default_half_life_days : MemoryKind → F32
default_half_life_days decision = whole 730
default_half_life_days preference = whole 365
default_half_life_days gotcha = whole 365
default_half_life_days fact = whole 180
default_half_life_days pattern = whole 270
default_half_life_days summary = whole 14

abbrev after_days : ℤ → ℕ → ℤ
after_days now days = saturating_add now (pos (days * millis_per_day))

unfoldable pub default_expiry : MemoryKind → ℤ → Option ℤ
default_expiry decision created = none
default_expiry preference created = none
default_expiry fact created = some (after_days created 365)
default_expiry pattern created = some (after_days created 540)
default_expiry gotcha created = some (after_days created 730)
default_expiry summary created = some (after_days created 30)

unfoldable pub expiry_from_days : ℤ → Option ℕ → Option ℤ
expiry_from_days now none = none
expiry_from_days now (some days) = some (after_days now days)

unfoldable pub is_expired : MemoryMetadata → ℤ → Bool
is_expired m now = not m.pinned && is_some_and m.expires_at_ms (λ e. leb_ℤ e now)

unfoldable pub is_prunable_expired : MemoryMetadata → ℤ → Bool
unfolding is_expired
is_prunable_expired m now = not m.locked && is_expired m now

-- the integer part of `retention_factor`: whole days of age, at most `u16::MAX`
unfoldable pub bounded_age : ℤ → ℤ → ℕ
bounded_age now updated_at = min (pos_part (saturating_sub now updated_at) / millis_per_day) 65535

unfoldable pub has_record_mutation : UpdateRequest → Bool
has_record_mutation r =
    is_some r.content
    || is_some r.title
    || is_some r.kind
    || is_some r.importance
    || is_some r.tags
    || is_some r.scope
    || is_some r.scope_key
    || is_some r.expires_in_days
    || r.clear_expiry
    || is_some r.code_paths
    || is_some r.pinned
    || is_some r.taxonomy
    || is_some r.confidence
    || is_some r.conflict_with

unfoldable pub has_locked_forbidden_mutation : UpdateRequest → Bool
has_locked_forbidden_mutation r =
    is_some r.content
    || is_some r.title
    || is_some r.kind
    || is_some r.importance
    || is_some r.tags
    || is_some r.scope
    || is_some r.scope_key
    || is_some r.expires_in_days
    || r.clear_expiry
    || is_some r.code_paths
    || is_some r.pinned
    || is_some r.taxonomy
    || is_some r.confidence
    || is_some r.conflict_with

abbrev pub is_lock : Option LockAction → Bool
is_lock (some lock) = true
is_lock (some unlock) = false
is_lock none = false

abbrev pub is_unlock : Option LockAction → Bool
is_unlock (some unlock) = true
is_unlock (some lock) = false
is_unlock none = false

module _ (scanners : Scanners) where
  scan_reason : ValidationPolicy → String → Result LifecycleError (Unit {0})
  scan_reason policy reason = elim (scan_sensitive_with_policy scanners policy reason) [
    | ok _ ↦ ok tt
    | err e ↦ err (reason_sensitive e)
  ]

  unfoldable pub normalize_lock_reason :
      String → ValidationPolicy → Result LifecycleError (Option String)
  unfolding scan_reason
  normalize_lock_reason raw policy = do
    let reason = trim raw
    ensure (leb (count reason) max_lock_reason_chars) reason_too_long
    ensure (not (contains_char 0 reason)) reason_with_nul
    scan_reason policy reason
    ok (if is_empty reason then none else some reason)

  -- the `match request.lock_action` of `resolve_update_with_policy`
  apply_lock_action :
      Option LockAction
      → Option String
      → ValidationPolicy
      → LifecycleValues
      → Result LifecycleError LifecycleValues
  apply_lock_action (some lock) none policy values = ok (record values { locked = true })
  apply_lock_action (some lock) (some raw) policy values = do
    reason ← normalize_lock_reason raw policy
    ok (record values { locked = true; lock_reason = reason })
  apply_lock_action (some unlock) reason policy values =
      ok (record values { locked = false; lock_reason = none })
  apply_lock_action none reason policy values = ok values

  unfoldable pub resolve_update_with_policy :
      MemoryMetadata
      → UpdateRequest
      → MemoryScope
      → ValidationPolicy
      → Result LifecycleError LifecycleValues
  unfolding apply_lock_action
  resolve_update_with_policy m request target_scope policy = do
    ensure (is_none request.lock_reason || is_lock request.lock_action) reason_without_lock
    ensure (not (is_unlock request.lock_action) || not (has_record_mutation request))
        unlock_not_alone
    ensure
        (not (m.locked && not (is_unlock request.lock_action))
          || not (has_locked_forbidden_mutation request))
        locked_mutation
    values ← apply_lock_action request.lock_action request.lock_reason policy (record {
      pinned = unwrap_or request.pinned m.pinned;
      locked = m.locked;
      lock_reason = m.lock_reason;
    })
    ensure (not (is_repository target_scope) || (not values.pinned && not values.locked))
        repository_pin_or_lock
    ok values

unfoldable pub ensure_store_overwrite_allowed : MemoryMetadata → Result LifecycleError (Unit {0})
ensure_store_overwrite_allowed m = ensure (not m.locked) locked_overwrite

unfoldable pub ensure_delete_allowed : MemoryMetadata → Result LifecycleError (Unit {0})
ensure_delete_allowed m = ensure (not m.locked) locked_delete
