-- ===== src/Lifecycle/Locks.antt =====
-- src/lifecycle.rs: what an update may do to a locked memory, and what it leaves behind.
use opencode_native_memory.Prelude.{
  ◌≡◌, Bool, true, false, Option, none, some, String, arith, is_none_or, unwrap_or,
}
use opencode_native_memory.Prelude.Result.{ok, >>=-eq-ok}
use opencode_native_memory.Contract.{MemoryScope, UpdateRequest, LockAction, lock, unlock}
use opencode_native_memory.State.Defs.{MemoryMetadata}
use opencode_native_memory.State.Validate.{valid_reason}
use opencode_native_memory.Validation.Scan.{Scanners, ValidationPolicy}
use opencode_native_memory.Lifecycle.{
  LifecycleValues, is_unlock, has_record_mutation, has_locked_forbidden_mutation,
  normalize_lock_reason, apply_lock_action, resolve_update_with_policy,
}

-- An update that asks for none of the guarded changes leaves the pin alone.
record_mutation-pinned :
    (r : UpdateRequest) (b : Bool) → has_record_mutation r ≡ false → unwrap_or r.pinned b ≡ b
unfolding has_record_mutation
record_mutation-pinned r b h = ground arith

locked_mutation-pinned :
    (r : UpdateRequest) (b : Bool)
    → has_locked_forbidden_mutation r ≡ false
    → unwrap_or r.pinned b ≡ b
unfolding has_locked_forbidden_mutation
locked_mutation-pinned r b h = ground arith

-- A request that leaves alone what the lock of a memory protects.
pub record AsksNothing (r : UpdateRequest) : Type 0 where
  pub content : r.content ≡ none
  pub title : r.title ≡ none
  pub kind : r.kind ≡ none
  pub importance : r.importance ≡ none
  pub tags : r.tags ≡ none
  pub scope : r.scope ≡ none
  pub scope_key : r.scope_key ≡ none
  pub expires_in_days : r.expires_in_days ≡ none
  pub code_paths : r.code_paths ≡ none
  pub pinned : r.pinned ≡ none
  pub taxonomy : r.taxonomy ≡ none
  pub confidence : r.confidence ≡ none
  pub conflict_with : r.conflict_with ≡ none
  pub expiry_kept : r.clear_expiry ≡ false

mutation-AsksNothing : (r : UpdateRequest) → has_locked_forbidden_mutation r ≡ false → AsksNothing r
unfolding has_locked_forbidden_mutation
mutation-AsksNothing r h = record {
  content = ground arith;
  title = ground arith;
  kind = ground arith;
  importance = ground arith;
  tags = ground arith;
  scope = ground arith;
  scope_key = ground arith;
  expires_in_days = ground arith;
  code_paths = ground arith;
  pinned = ground arith;
  taxonomy = ground arith;
  confidence = ground arith;
  conflict_with = ground arith;
  expiry_kept = ground arith;
}

-- A normalised reason is short, free of NUL, and absent rather than empty.
normalize_lock_reason-valid :
    (scanners : Scanners) (raw : String) (policy : ValidationPolicy) {o : Option String}
    → normalize_lock_reason scanners raw policy ≡ ok o
    → is_none_or o valid_reason ≡ true
unfolding normalize_lock_reason
normalize_lock_reason-valid scanners raw policy h = ground arith

abbrev PlainReason : LifecycleValues → Type 0
PlainReason v =
    (v.locked ≡ false → v.lock_reason ≡ none) × (is_none_or v.lock_reason valid_reason ≡ true)

apply_lock_action-PlainReason :
    (scanners : Scanners) (action : Option LockAction) (reason : Option String)
    (policy : ValidationPolicy) (values : LifecycleValues) {w : LifecycleValues}
    → PlainReason values
    → apply_lock_action scanners action reason policy values ≡ ok w
    → PlainReason w
unfolding apply_lock_action
apply_lock_action-PlainReason scanners (some lock) none policy values plain h = ground arith
apply_lock_action-PlainReason scanners (some lock) (some raw) policy values plain h =
    let (o, n, e) = >>=-eq-ok (normalize_lock_reason scanners raw policy) _ h in
    ground (arith, normalize_lock_reason-valid scanners raw policy n)
apply_lock_action-PlainReason scanners (some unlock) reason policy values plain h = ground arith
apply_lock_action-PlainReason scanners none reason policy values plain h = ground arith

-- What the lifecycle part of `MemoryMetadata::validate` asks.
pub record IsLifecycle (scope : MemoryScope) (v : LifecycleValues) : Type 0 where
  pub reason_needs_lock : v.locked ≡ false → v.lock_reason ≡ none
  pub reason_valid : is_none_or v.lock_reason valid_reason ≡ true
  pub repository_plain : scope ≡ MemoryScope.repository → (v.pinned ≡ false) × (v.locked ≡ false)

module _ (scanners : Scanners) (m : MemoryMetadata) (r : UpdateRequest) (target : MemoryScope)
    (policy : ValidationPolicy) {v : LifecycleValues}
    (resolved : resolve_update_with_policy scanners m r target policy ≡ ok v) where
  -- An accepted update of a locked memory that is not an unlock asks for no change of the content,
  -- title, kind, importance, tags, scope, scope key, expiry, code paths, pin, taxonomy, confidence or
  -- conflicts; the memory stays locked and keeps its pin.
  pub resolve_update-locked :
      m.locked ≡ true
      → is_unlock r.lock_action ≡ false
      → AsksNothing r × (v.locked ≡ true) × (v.pinned ≡ m.pinned)
  unfolding resolve_update_with_policy
  resolve_update-locked l u =
      let plain : has_locked_forbidden_mutation r ≡ false = ground arith in
      (
        mutation-AsksNothing r plain,
        ground (arith, locked_mutation-pinned r m.pinned),
        ground (arith, locked_mutation-pinned r m.pinned),
      )

  -- An accepted unlock changes nothing else: it carries no other mutation, clears the lock and its
  -- reason, and keeps the pin.
  pub resolve_update-unlock :
      is_unlock r.lock_action ≡ true
      → (has_record_mutation r ≡ false)
        × (v.locked ≡ false)
        × (v.lock_reason ≡ none)
        × (v.pinned ≡ m.pinned)
  unfolding resolve_update_with_policy
  resolve_update-unlock u = ground (arith, record_mutation-pinned r m.pinned)

  -- The values an update resolves to pass the lifecycle checks of the state's validation, when the
  -- memory's own lock reason passed them.
  pub resolve_update-IsLifecycle :
      (m.locked ≡ false → m.lock_reason ≡ none)
      → is_none_or m.lock_reason valid_reason ≡ true
      → IsLifecycle target v
  unfolding resolve_update_with_policy
  resolve_update-IsLifecycle plain valid =
      let start : LifecycleValues = record {
        pinned = unwrap_or r.pinned m.pinned;
        locked = m.locked;
        lock_reason = m.lock_reason;
      } in
      ground (
        arith,
        apply_lock_action-PlainReason scanners r.lock_action r.lock_reason policy start {w = v}
            (plain, valid),
      )
