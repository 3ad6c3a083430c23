-- ===== src/State/Save.antt =====
-- src/storage/state.rs: normalisation of the relations, loading and saving. The file is what its text
-- decodes to: the last state that was renamed over it.
use Prim.Native.Nat.{Ordering}
use Prim.Native.String.{compare}
use opencode_native_memory.Prelude.{
  ℕ, ◌+◌, ◌-◌, ◌^◌, min, Bool, true, false, not, ◌≡◌, ◌⊎◌, inl, inr, refl, Option, none, some, List,
  [], ◌∷◌, String, arith, map, retain, if◌then◌else◌,
}
use opencode_native_memory.Prelude.Result.{Result, ok, err}
use opencode_native_memory.Prelude.Text.{trim, is_empty}
use opencode_native_memory.Prelude.Writes.{Write, written, unsynced, refused}
use opencode_native_memory.State.Defs.{MemoryMetadata, MemoryState, default_state}
use opencode_native_memory.State.Validate.{StateError, contains, validate}

abbrev pub u64_max : ℕ
u64_max = 2 ^ 64 - 1

-- `Vec::<String>::sort`, by the order of the UTF-8 bytes
abbrev pub str_leb : String → String → Bool
str_leb a b = elim (compare a b) [ Ordering.gt ↦ false | _ ↦ true ]

unfoldable pub insert_sorted : String → List String → List String
insert_sorted x [] = x ∷ []
insert_sorted x (y ∷ ys) = if str_leb x y then x ∷ y ∷ ys else y ∷ insert_sorted x ys

unfoldable pub sort : List String → List String
unfolding insert_sorted
sort [] = []
sort (x ∷ xs) = insert_sorted x (sort xs)

-- `filter(|id| seen.insert(id.clone()))`: the first occurrence of each
unfoldable pub dedup_from : List String → List String → List String
dedup_from seen [] = []
dedup_from seen (x ∷ xs) =
    let fresh = dedup_from (x ∷ seen) xs in
    let rest = dedup_from seen xs in if contains seen x then rest else x ∷ fresh

unfoldable pub normalize_id_list : List String → List String
unfolding sort dedup_from retain trim
normalize_id_list ids = sort (dedup_from [] (retain (λ id. not (is_empty id)) (map trim ids)))

normalize_successor : Option String → Option String
normalize_successor none = none
normalize_successor (some sid) = if is_empty (trim sid) then none else some (trim sid)

unfoldable pub normalize_metadata : MemoryMetadata → MemoryMetadata
unfolding normalize_id_list normalize_successor
normalize_metadata m = record m {
  superseded_by = normalize_successor m.superseded_by;
  supersedes = normalize_id_list m.supersedes;
  conflict_with = normalize_id_list m.conflict_with;
}

-- `MemoryState::normalize_relations`
unfoldable pub normalize_relations : MemoryState → MemoryState
unfolding normalize_metadata
normalize_relations s = record s { records = map (λ (id, m). (id, normalize_metadata m)) s.records }

pub data SaveError : Type 0 where
  invalid_state : StateError → SaveError
  write_failed : SaveError

-- `MemoryState::load`, of the file if there is one
unfoldable pub load : Option MemoryState → Result StateError MemoryState
load none = ok default_state
load (some s) = elim (validate s) [ err e ↦ err e | ok _ ↦ ok s ]

-- The in-memory state after the call, and the file.
pub record Saved : Type 0 where
  pub result : Result SaveError (Unit {0})
  pub state : MemoryState
  pub file : MemoryState

-- `MemoryState::save`. The write fails before the new file is renamed over the old one, or after it,
-- when the directory cannot be synced.
unfoldable pub save : Write → MemoryState → MemoryState → Saved
unfolding normalize_relations
save outcome file s =
    let n = normalize_relations s in
    let next = record n { generation = min (n.generation + 1) u64_max } in
    elim (validate n) [
      | err e ↦ record { result = err (invalid_state e); state = n; file = file }
      | ok _ ↦ elim outcome [
        | written ↦ record { result = ok tt; state = next; file = next }
        | unsynced ↦ record { result = err write_failed; state = n; file = next }
        | refused ↦ record { result = err write_failed; state = n; file = file }
      ]
    ]

pub Result-cases : {E : Type 0} (r : Result E (Unit {0})) → ((x : E) × (r ≡ err x)) ⊎ (r ≡ ok tt)
Result-cases (err x) = inl (x, refl)
Result-cases (ok _) = inr refl

Write-cases : (w : Write) → (w ≡ written) ⊎ ((w ≡ unsynced) ⊎ (w ≡ refused))
Write-cases written = inl refl
Write-cases unsynced = inr (inl refl)
Write-cases refused = inr (inr refl)

-- `validate` does not read the generation.
validate-generation :
    (s : MemoryState) (g : ℕ) → validate (record s { generation = g }) ≡ validate s
unfolding validate
validate-generation s g = refl

-- A save that succeeds is one whose write did.
pub save-written :
    (outcome : Write) (file s : MemoryState)
    → (save outcome file s).result ≡ ok tt
    → outcome ≡ written
unfolding save
save-written written file s h = refl
save-written unsynced file s h = ground (arith, h)
save-written refused file s h = ground (arith, h)

-- A save that succeeds writes the state that stays in memory, which is valid, under the next
-- generation.
pub save-ok :
    (file s : MemoryState)
    → (save written file s).result ≡ ok tt
    → ((save written file s).file ≡ (save written file s).state)
      × (validate (save written file s).file ≡ ok tt)
      × ((save written file s).file.generation ≡ min (s.generation + 1) u64_max)
unfolding save
save-ok file s h =
    let n = normalize_relations s in
    ground (arith, validate-generation n (min (n.generation + 1) u64_max))

-- A save that fails leaves the generation in memory alone, and the file as it was or as a save that
-- succeeds would have left it.
pub save-err :
    (outcome : Write) (file s : MemoryState) {e : SaveError}
    → (save outcome file s).result ≡ err e
    → ((save outcome file s).state.generation ≡ s.generation)
      × (((save outcome file s).file ≡ file)
          ⊎ (((save written file s).result ≡ ok tt)
              × ((save outcome file s).file ≡ (save written file s).file)))
unfolding save
save-err outcome file s h =
    let n = normalize_relations s in
    elim (Result-cases (validate n)) [
      | inl (x, bad) ↦ (ground (arith, h, bad), inl (ground (arith, bad)))
      | inr good ↦ elim (Write-cases outcome) [
        | inl sent ↦ absurd (ground (arith, h, good, sent))
        | inr (inl late) ↦
            (ground (arith, h, good, late), inr (ground (arith, good), ground (arith, good, late)))
        | inr (inr early) ↦ (ground (arith, h, good, early), inl (ground (arith, good, early)))
      ]
    ]
