-- ===== src/Engine/Removal/Fate.antt =====
-- src/engine/mod.rs: what `remove_state_record` makes of each remaining memory.
use mathlib.Core.Option
use opencode_native_memory.Prelude.{
  false, not, ◌&&◌, ◌||◌, ◌≡◌, refl, inl, inr, Option, none, some, List, [], ◌∷◌, ◌++◌, String,
  str_eq, eq_iff, eq_refl, arith, retain, retain-retain, any, any-append, Bool-cases, Option-cases,
  if◌then◌else◌,
}
use opencode_native_memory.Prelude.Map.{Map, get, modify, get-modify, get-remove}
use opencode_native_memory.State.Defs.{MemoryMetadata}
use opencode_native_memory.State.Validate.{contains, points_to}
use opencode_native_memory.Engine.Removal.{
  without, drop_conflict, relink, push_missing, adopt, modify_all, modify_some, unlink,
}

pub contains-without :
    (ids : List String) (id x : String)
    → contains (without ids id) x ≡ (not (str_eq x id) && contains ids x)
unfolding without retain any
contains-without [] id x = ground arith
contains-without (y ∷ ids) id x =
    ground (arith, contains-without ids id x, eq_iff y id, eq_iff x id, eq_iff y x)

pub contains-push_missing :
    (ids ps : List String) (x : String)
    → contains (push_missing ids ps) x ≡ (contains ids x || contains ps x)
unfolding push_missing any
contains-push_missing ids [] x = ground arith
contains-push_missing ids (p ∷ ps) x = elim (Bool-cases (contains ids p)) [
  | inl here ↦ ground (arith, here, contains-push_missing ids ps x, eq_iff p x)
  | inr fresh ↦ ground (
    arith,
    fresh,
    contains-push_missing (ids ++ p ∷ []) ps x,
    any-append (λ entry. str_eq entry x) ids (p ∷ []),
  )
]

pub get-modify_all :
    (f : MemoryMetadata → MemoryMetadata)
    → ((o : MemoryMetadata) → f (f o) ≡ f o)
    → (records : Map MemoryMetadata) (ids : List String) (j : String)
    → get (modify_all records ids f) j
      ≡ (if contains ids j then Option.map f (get records j) else get records j)
unfolding modify_all any
get-modify_all f again records [] j = refl
get-modify_all f again records (id ∷ ids) j = elim (Option-cases (get records j)) [
  | inl missing ↦ ground (
    arith,
    missing,
    get-modify_all f again (modify records id f) ids j,
    get-modify records id f j,
  )
  | inr (o, found) ↦ ground (
    arith,
    found,
    again o,
    get-modify_all f again (modify records id f) ids j,
    get-modify records id f j,
  )
]

drop_conflict-again :
    (id : String) (o : MemoryMetadata) → drop_conflict id (drop_conflict id o) ≡ drop_conflict id o
unfolding drop_conflict without
drop_conflict-again id o = rw retain-retain

relink-again :
    (id : String) (s : Option String) (o : MemoryMetadata)
    → relink id s (relink id s o) ≡ relink id s o
unfolding relink
relink-again id s o = ground arith

-- What becomes of the memory `o` at `j` when `deleted` is removed at `id`.
unfoldable pub fate : String → MemoryMetadata → String → MemoryMetadata → MemoryMetadata
unfolding drop_conflict relink adopt
fate id deleted j o =
    let o1 = if contains deleted.conflict_with j then drop_conflict id o else o in
    let o2 = if contains deleted.supersedes j then relink id deleted.superseded_by o1 else o1 in
    if points_to deleted.superseded_by j then adopt id deleted.supersedes o2 else o2

get-modify_some :
    (records : Map MemoryMetadata) (s : Option String) (f : MemoryMetadata → MemoryMetadata)
    (j : String)
    → get (modify_some records s f) j
      ≡ (if points_to s j then Option.map f (get records j) else get records j)
get-modify_some records none f j = refl
get-modify_some records (some id) f j = get-modify records id f j

pub get-unlink_self :
    (records : Map MemoryMetadata) (id : String) (deleted : MemoryMetadata)
    → get (unlink records id deleted) id ≡ none
unfolding unlink
get-unlink_self records id deleted = simp (get-remove, eq_refl)

pub get-unlink :
    (records : Map MemoryMetadata) (id : String) (deleted : MemoryMetadata) (j : String)
    → str_eq id j ≡ false
    → get (unlink records id deleted) j ≡ Option.map (fate id deleted j) (get records j)
unfolding unlink fate
get-unlink records id deleted j Apart =
    let r1 = modify_all records deleted.conflict_with (drop_conflict id) in
    let r2 = modify_all r1 deleted.supersedes (relink id deleted.superseded_by) in
    let r3 = modify_some r2 deleted.superseded_by (adopt id deleted.supersedes) in
    let e1 =
      get-modify_all (drop_conflict id) (drop_conflict-again id) records deleted.conflict_with j in
    let e2 =
      get-modify_all (relink id deleted.superseded_by) (relink-again id deleted.superseded_by) r1
        deleted.supersedes j in
    let e3 = get-modify_some r2 deleted.superseded_by (adopt id deleted.supersedes) j in
    let e4 = get-remove r3 id j in ground (arith, Apart, e1, e2, e3, e4)
