-- ===== src/State/Validate.antt =====
-- src/storage/state.rs: what `validate` checks before a state is saved and after it is loaded.
use Prim.Native.String.{count}
use opencode_native_memory.Prelude.{
  ℕ, zero, suc, Bool, true, false, not, ◌&&◌, ◌||◌, Option, none, some, List, String, str_eq, leb,
  ◌==◌, is_some_and, is_none, is_none_or, length, any, all, if◌then◌else◌,
}
use opencode_native_memory.Prelude.Int.{ℤ, pos, leb_ℤ}
use opencode_native_memory.Prelude.Map.{Map, get, contains_key}
use opencode_native_memory.Prelude.Result.{Result, ok, err, ensure, for_each, ◌>>◌}
use opencode_native_memory.Prelude.Text.{is_blank, contains_char}
use opencode_native_memory.Float.{is_finite, in_unit}
use opencode_native_memory.Contract.{MemoryScope}
use opencode_native_memory.State.Defs.{
  MemoryMetadata, PendingDocument, PendingUpsert, MemoryState, state_schema_version,
}

pub data StateError : Type 0 where
  unlocked_with_reason lock_reason_invalid repository_lifecycle : StateError
  confidence_not_finite confidence_out_of_range : StateError
  supersedes_itself conflicts_with_itself : StateError
  blank_successor blank_predecessor blank_conflict : StateError
  pending_id_blank pending_importance pending_timestamps pending_embedding : StateError
  pending_key_mismatch pending_supersedes_itself : StateError
  schema_version_mismatch revision_without_record revision_negative : StateError
  dangling_predecessor dangling_successor dangling_conflict : StateError
  predecessor_not_reciprocal successor_not_reciprocal conflict_not_symmetric : StateError
  supersession_cycle : StateError
  -- the panic of `records[id]` at a missing key
  index_panic : StateError

abbrev pub is_repository : MemoryScope → Bool
is_repository MemoryScope.repository = true
is_repository MemoryScope.session = false
is_repository MemoryScope.agent = false
is_repository MemoryScope.project = false

-- `list.iter().any(|entry| entry == id)`
abbrev pub contains : List String → String → Bool
contains ids id = any (λ entry. str_eq entry id) ids

-- `option.as_deref() == Some(id)`
abbrev pub points_to : Option String → String → Bool
points_to o id = is_some_and o (λ s. str_eq s id)

abbrev pub valid_reason : String → Bool
valid_reason reason = leb (count reason) 240 && not (contains_char 0 reason)

-- `MemoryMetadata::validate`
unfoldable pub validate_metadata : MemoryMetadata → String → Result StateError (Unit {0})
validate_metadata m id = do
  ensure (m.locked || is_none m.lock_reason) unlocked_with_reason
  ensure (is_none_or m.lock_reason valid_reason) lock_reason_invalid
  ensure (not (is_repository m.scope) || (not m.pinned && not m.locked)) repository_lifecycle
  ensure (is_finite m.confidence) confidence_not_finite
  ensure (in_unit m.confidence) confidence_out_of_range
  ensure (not (points_to m.superseded_by id)) supersedes_itself
  ensure (not (contains m.supersedes id)) supersedes_itself
  ensure (not (contains m.conflict_with id)) conflicts_with_itself
  ensure (not (is_some_and m.superseded_by is_blank)) blank_successor
  ensure (all (λ sid. not (is_blank sid)) m.supersedes) blank_predecessor
  ensure (all (λ cid. not (is_blank cid)) m.conflict_with) blank_conflict

-- `PendingDocument::validate`
unfoldable pub validate_document : PendingDocument → Result StateError (Unit {0})
validate_document d = do
  ensure (not (is_blank d.id)) pending_id_blank
  ensure (is_finite d.importance && in_unit d.importance) pending_importance
  ensure (leb_ℤ (pos 0) d.created_at_ms && leb_ℤ d.created_at_ms d.updated_at_ms) pending_timestamps
  ensure (not (leb (length d.embedding) 0) && all is_finite d.embedding) pending_embedding

-- `PendingUpsert::validate`
unfoldable pub validate_pending : PendingUpsert → String → Result StateError (Unit {0})
unfolding validate_document validate_metadata
validate_pending p key = do
  validate_document p.document
  ensure (str_eq p.document.id key) pending_key_mismatch
  ensure (not (contains p.predecessor_ids key)) pending_supersedes_itself
  validate_metadata p.metadata key

-- `let other = &self.records[id];`, then a check on it
abbrev pub check_other :
    Map MemoryMetadata
    → String
    → (MemoryMetadata → Bool)
    → StateError
    → Result StateError (Unit {0})
check_other records id test e = elim (get records id) [
  | none ↦ err index_panic
  | some other ↦ ensure (test other) e
]

-- `if let Some(id) = option { f(id)?; }`
abbrev pub if_some :
    Option String → (String → Result StateError (Unit {0})) → Result StateError (Unit {0})
if_some none f = ok tt
if_some (some id) f = f id

-- the reciprocity checks for one link of the memory `id`
abbrev pub check_predecessor : Map MemoryMetadata → String → String → Result StateError (Unit {0})
check_predecessor records id sid =
    check_other records sid (λ o. points_to o.superseded_by id) predecessor_not_reciprocal

abbrev pub check_successor : Map MemoryMetadata → String → String → Result StateError (Unit {0})
check_successor records id sid =
    check_other records sid (λ o. contains o.supersedes id) successor_not_reciprocal

abbrev pub check_conflict : Map MemoryMetadata → String → String → Result StateError (Unit {0})
check_conflict records id cid =
    check_other records cid (λ o. contains o.conflict_with id) conflict_not_symmetric

-- the body of the loop in `validate_relations`
unfoldable pub validate_links :
    Map MemoryMetadata → String × MemoryMetadata → Result StateError (Unit {0})
validate_links records (id, m) = do
  for_each (λ sid. ensure (contains_key records sid) dangling_predecessor) m.supersedes
  if_some m.superseded_by (λ sid. ensure (contains_key records sid) dangling_successor)
  for_each (λ cid. ensure (contains_key records cid) dangling_conflict) m.conflict_with
  for_each (check_predecessor records id) m.supersedes
  if_some m.superseded_by (check_successor records id)
  for_each (check_conflict records id) m.conflict_with

-- the inner loop of `detect_supersession_cycles`, `n` rounds from `current`
unfoldable pub chase : Map MemoryMetadata → String → ℕ → String → Result StateError (Unit {0})
chase records start zero current = ok tt
chase records start (suc n) current = elim (get records current) [
  | none ↦ ok tt
  | some m ↦ elim m.superseded_by [
    | none ↦ ok tt
    | some next ↦
        let rest = chase records start n next in
        if str_eq next start then err supersession_cycle else rest
  ]
]

unfoldable pub detect_supersession_cycles : Map MemoryMetadata → Result StateError (Unit {0})
unfolding chase for_each
detect_supersession_cycles records =
    for_each (λ (start, _). chase records start (length records) start) records

unfoldable pub validate_relations : Map MemoryMetadata → Result StateError (Unit {0})
unfolding for_each validate_links detect_supersession_cycles
validate_relations records = do
  for_each (validate_links records) records
  detect_supersession_cycles records

unfoldable pub validate_revision : Map MemoryMetadata → String × ℤ → Result StateError (Unit {0})
validate_revision records (id, updated_at_ms) = do
  ensure (contains_key records id) revision_without_record
  ensure (leb_ℤ (pos 0) updated_at_ms) revision_negative

-- `MemoryState::validate`
unfoldable pub validate : MemoryState → Result StateError (Unit {0})
unfolding validate_metadata validate_pending validate_revision validate_relations for_each
validate s = do
  ensure (s.schema_version == state_schema_version) schema_version_mismatch
  for_each (λ (id, m). validate_metadata m id) s.records
  for_each (λ (id, p). validate_pending p id) s.pending_upserts
  for_each (validate_revision s.records) s.record_revisions
  validate_relations s.records
