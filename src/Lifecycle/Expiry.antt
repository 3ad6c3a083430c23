-- ===== src/Lifecycle/Expiry.antt =====
-- src/lifecycle.rs: when a memory counts as expired, and which expired memories may be pruned.
use opencode_native_memory.Prelude.{
  ℕ, ◌+◌, ◌*◌, ◌≤◌, ◌<◌, ◌^◌, ◌≡◌, ◌↔◌, true, false, some, arith, inl, inr, Option-cases,
}
use opencode_native_memory.Prelude.Int.{ℤ, pos, ◌≤ℤ◌}
use opencode_native_memory.State.Defs.{MemoryMetadata}
use opencode_native_memory.Lifecycle.{
  millis_per_day, expiry_from_days, is_expired, is_prunable_expired,
}

-- Once expired, a memory stays expired: no later clock reading undoes it.
pub is_expired_mono :
    (m : MemoryMetadata) (now later : ℤ)
    → now ≤ℤ later
    → is_expired m now ≡ true
    → is_expired m later ≡ true
unfolding is_expired
is_expired_mono m now later h e = ground arith

-- A memory is pruned exactly when it is neither pinned nor locked and its expiry time has come.
pub is_prunable_expired_iff :
    (m : MemoryMetadata) (now : ℤ)
    → (is_prunable_expired m now ≡ true) ↔ (
        (m.pinned ≡ false)
        × (m.locked ≡ false)
        × ((e : ℤ) × (m.expires_at_ms ≡ some e) × (e ≤ℤ now)))
unfolding is_prunable_expired
is_prunable_expired_iff m now = elim (Option-cases m.expires_at_ms) [
  | inl never ↦ (λ h. ground arith, λ h. ground (arith, h.2.1))
  | inr (e, at) ↦
      (λ h. (ground arith, ground arith, (e, at, ground arith)), λ h. ground (arith, h.2.1))
]

-- An unpinned memory stored at `now` with a life of `days` days is expired exactly from
-- `days * 86400000` milliseconds later, when that time is within the range of `i64`.
pub expiry_from_days_exact :
    (m : MemoryMetadata) (now days t : ℕ)
    → now + days * millis_per_day < 2 ^ 63
    → m.pinned ≡ false
    → m.expires_at_ms ≡ expiry_from_days (pos now) (some days)
    → (is_expired m (pos t) ≡ true) ↔ (now + days * millis_per_day ≤ t)
unfolding is_expired expiry_from_days
expiry_from_days_exact m now days t fits p e = ground arith
