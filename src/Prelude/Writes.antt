-- ===== src/Prelude/Writes.antt =====
-- src/storage/state.rs and src/graph/atomic.rs: how the replacement of a file by a new text ends.
use opencode_native_memory.Prelude.{Bool, true, false}

-- With the new text in place, with the new text in place and the directory not synced, which is an
-- error, or with an error that leaves the old text.
pub data Write : Type 0 where
  written unsynced refused : Write

abbrev pub write_ok : Write → Bool
write_ok written = true
write_ok unsynced = false
write_ok refused = false
