-- ===== src/Engine/Upsert.antt =====
-- src/engine/mod.rs: `apply_pending_upserts_to_state`, which makes a journaled batch effective.
use opencode_native_memory.Prelude.{
  Bool, true, false, not, ◌&&◌, Option, none, some, List, [], ◌∷◌, ◌++◌, String, ltb, length, all,
  retain, if◌then◌else◌,
}
use opencode_native_memory.Prelude.Int.{ℤ}
use opencode_native_memory.Prelude.Map.{get, insert, remove, modify}
use opencode_native_memory.Prelude.Result.{Result, ok, err}
use opencode_native_memory.Float.{F32, scaled, fmin}
use opencode_native_memory.State.Defs.{MemoryMetadata, PendingUpsert, MemoryState}
use opencode_native_memory.State.Validate.{contains}
use opencode_native_memory.State.Save.{dedup_from}
use opencode_native_memory.Engine.Removal.{without, drop_conflict}

pub data ApplyError : Type 0 where
  predecessors_inconsistent predecessor_missing conflict_target_missing : ApplyError

-- `.iter().cloned().collect::<HashSet<_>>()`
abbrev to_set : List String → List String
to_set ids = dedup_from [] ids

-- the equality of two sets
unfoldable pub same_set : List String → List String → Bool
same_set a b = all (contains b) a && all (contains a) b

unfoldable pub difference : List String → List String → List String
difference a b = retain (λ x. not (contains b x)) a

pub record Prepared : Type 0 where
  pub item : PendingUpsert
  pub old_conflicts : List String
  pub new_conflicts : List String

conflicts_of : Option MemoryMetadata → List String
unfolding dedup_from
conflicts_of none = []
conflicts_of (some m) = to_set m.conflict_with

-- the first loop, which builds `prepared`
unfoldable pub prepare : MemoryState → PendingUpsert → Result ApplyError Prepared
unfolding conflicts_of same_set dedup_from
prepare s item =
    if same_set (to_set item.predecessor_ids) (to_set item.metadata.supersedes)
    then ok (record {
      item = item;
      old_conflicts = conflicts_of (get s.records item.document.id);
      new_conflicts = to_set item.metadata.conflict_with;
    })
    else err predecessors_inconsistent

unfoldable pub prepare_all : MemoryState → List PendingUpsert → Result ApplyError (List Prepared)
unfolding prepare
prepare_all s [] = ok []
prepare_all s (item ∷ items) =
    let rest = prepare_all s items in
    elim (prepare s item) [
      | err e ↦ err e
      | ok p ↦ elim rest [ err e ↦ err e | ok ps ↦ ok (p ∷ ps) ]
    ]

abbrev set_revision : String → ℤ → MemoryState → MemoryState
set_revision id at s = record s { record_revisions = insert s.record_revisions id at }

-- whether dropping `id` from the conflicts of `other` shortens them
abbrev loses_conflict : String → Option MemoryMetadata → Bool
loses_conflict id none = false
loses_conflict id (some other) =
    ltb (length (without other.conflict_with id)) (length other.conflict_with)

-- the loop over `old_conflicts.difference(new_conflicts)`
unfoldable pub detach_all : String → ℤ → List String → MemoryState → MemoryState
unfolding drop_conflict
detach_all id at [] s = s
detach_all id at (removed ∷ rest) s =
    let s' = record s { records = modify s.records removed (drop_conflict id) } in
    detach_all id at rest
      (if loses_conflict id (get s.records removed) then set_revision removed at s' else s')

half : F32
half = scaled 1 148

is_nil : List String → Bool
is_nil [] = true
is_nil (_ ∷ _) = false

capped : List String → MemoryMetadata → MemoryMetadata
unfolding half is_nil
capped conflicts m =
    if is_nil conflicts then m else record m { confidence = fmin m.confidence half }

abbrev revive : Option String → MemoryState → MemoryState
revive none s = s
revive (some fingerprint) s = record s { tombstones = remove s.tombstones fingerprint }

-- the body of the loop that installs every target
unfoldable pub install : Prepared → MemoryState → MemoryState
unfolding detach_all capped difference
install p s =
    let id = p.item.document.id in
    let at = p.item.document.updated_at_ms in
    let s1 = detach_all id at (difference p.old_conflicts p.new_conflicts) s in
    let s2 = record s1 {
      records = insert s1.records id (capped p.new_conflicts p.item.metadata);
    } in
    let s3 = set_revision id at (revive p.item.revive_fingerprint s2) in
    record s3 { pending_upserts = remove s3.pending_upserts id }

unfoldable pub install_all : List Prepared → MemoryState → MemoryState
unfolding install
install_all [] s = s
install_all (p ∷ ps) s = install_all ps (install p s)

-- The second half may fail part of the way, with the changes made so far.
abbrev Step : Type 0
Step = MemoryState → Result ApplyError (Unit {0}) × MemoryState

abbrev and_then :
    Result ApplyError (Unit {0}) × MemoryState → Step → Result ApplyError (Unit {0}) × MemoryState
and_then (ok _, s) f = f s
and_then (err e, s) f = (err e, s)

link_predecessor : String → ℤ → String → Step
link_predecessor id at predecessor_id s = elim (get s.records predecessor_id) [
  | none ↦ (err predecessor_missing, s)
  | some _ ↦ (
    ok tt,
    set_revision predecessor_id at (record s {
      records =
          modify s.records predecessor_id
            (λ (m : MemoryMetadata). record m { superseded_by = some id });
    }),
  )
]

-- the change to a conflict target: the link, and the cap on its confidence
unfoldable pub add_conflict : String → MemoryMetadata → MemoryMetadata
unfolding half
add_conflict id other = record other {
  conflict_with =
      if contains other.conflict_with id
      then other.conflict_with
      else other.conflict_with ++ id ∷ [];
  confidence = fmin other.confidence half;
}

link_conflict : String → ℤ → String → Step
unfolding add_conflict
link_conflict id at conflict_id s = elim (get s.records conflict_id) [
  | none ↦ (err conflict_target_missing, s)
  | some other ↦
      let s' = record s { records = modify s.records conflict_id (add_conflict id) } in
      (ok tt, if contains other.conflict_with id then s' else set_revision conflict_id at s')
]

run_steps : (String → Step) → List String → Step
run_steps f [] s = (ok tt, s)
run_steps f (id ∷ ids) s = and_then (f id s) (run_steps f ids)

unfoldable pub link : Prepared → Step
unfolding link_predecessor link_conflict run_steps
link p s =
    let id = p.item.document.id in
    let at = p.item.document.updated_at_ms in
    and_then (run_steps (link_predecessor id at) p.item.predecessor_ids s)
      (run_steps (link_conflict id at) p.new_conflicts)

unfoldable pub link_all : List Prepared → Step
unfolding link
link_all [] s = (ok tt, s)
link_all (p ∷ ps) s = and_then (link p s) (link_all ps)

unfoldable pub apply_pending_upserts_to_state : List PendingUpsert → Step
unfolding prepare_all install_all link_all
apply_pending_upserts_to_state pending s = elim (prepare_all s pending) [
  | err e ↦ (err e, s)
  | ok prepared ↦ link_all prepared (install_all prepared s)
]
