-- ===== src/Engine/Removal/Preserves.antt =====
-- src/engine/mod.rs: `remove_state_record` keeps the links between the other memories reciprocal.
use mathlib.Core.Option
use opencode_native_memory.Prelude.{
  true, false, not, ◌&&◌, ◌||◌, ◌≡◌, sym, ap, ◌∙◌, subst, inl, inr, none, some, String, str_eq,
  eq_iff, eq_refl, arith, Bool-cases, Option-cases, if◌then◌else◌,
}
use opencode_native_memory.Prelude.Map.{Map, get}
use opencode_native_memory.State.Defs.{MemoryMetadata, MemoryState}
use opencode_native_memory.State.Validate.{contains, points_to}
use opencode_native_memory.State.Relations.{IsReciprocal, points_to_iff}
use opencode_native_memory.Engine.Removal.{unlink, without, remove_state_record}
use opencode_native_memory.Engine.Removal.Fate.{
  fate, get-unlink, get-unlink_self, contains-without, contains-push_missing,
}

abbrev Apart : String → String → Type 0
Apart id j = str_eq id j ≡ false

Apart-sym : (a b : String) → Apart a b → Apart b a
Apart-sym a b h = ground (arith, eq_iff a b, eq_iff b a)

module _ (id : String) (d : MemoryMetadata) (j : String) (o : MemoryMetadata) where
  fate-conflict_with :
      (x : String)
      → contains (fate id d j o).conflict_with x
        ≡ (not (contains d.conflict_with j && str_eq x id) && contains o.conflict_with x)
  unfolding fate
  fate-conflict_with x = ground (arith, contains-without o.conflict_with id x)

  fate-supersedes :
      (x : String)
      → contains (fate id d j o).supersedes x ≡ (
          if points_to d.superseded_by j
          then (not (str_eq x id) && contains o.supersedes x) || contains d.supersedes x
          else contains o.supersedes x)
  unfolding fate
  fate-supersedes x = ground (
    arith,
    contains-without o.supersedes id x,
    contains-push_missing (without o.supersedes id) d.supersedes x,
  )

  pub fate-superseded_by : (fate id d j o).superseded_by ≡ (
      if contains d.supersedes j && points_to o.superseded_by id
      then d.superseded_by
      else o.superseded_by)
  unfolding fate
  fate-superseded_by = ground arith

-- A memory that is left after the removal comes from another one that was there before.
pub survivor :
    (records : Map MemoryMetadata) (id : String) (d : MemoryMetadata) (j : String)
    (m : MemoryMetadata)
    → get (unlink records id d) j ≡ some m
    → (o : MemoryMetadata) × Apart id j × (get records j ≡ some o) × (m ≡ fate id d j o)
survivor records id d j m h = elim (Bool-cases (str_eq id j)) [
  | inl same ↦
      cc
        (ap (λ k. get (unlink records id d) k) ((eq_iff id j).0 same), get-unlink_self records id d)
  | inr other ↦ elim (Option-cases (get records j)) [
    | inl missing ↦ ground (arith, missing, get-unlink records id d j other)
    | inr (o, found) ↦ (o, other, found, ground (arith, found, get-unlink records id d j other))
  ]
]

module _ (records : Map MemoryMetadata) (id : String) (d : MemoryMetadata)
    (recip : IsReciprocal records) (at : get records id ≡ some d)
    (proper : points_to d.superseded_by id ≡ false) where
  remains :
      (j : String) (o : MemoryMetadata)
      → Apart id j
      → get records j ≡ some o
      → get (unlink records id d) j ≡ some (fate id d j o)
  remains j o other found = get-unlink records id d j other ∙ ap (Option.map (fate id d j)) found

  -- A memory found at `id` is the one that is removed.
  same_record :
      (k : String) (o : MemoryMetadata) → str_eq id k ≡ true → get records k ≡ some o → o ≡ d
  same_record k o same found = cc (ap (get records) ((eq_iff id k).0 same), found, at)

  unlink-conflicts :
      (j cid : String) (m : MemoryMetadata)
      → get (unlink records id d) j ≡ some m
      → contains m.conflict_with cid ≡ true
      → (o : MemoryMetadata) × (get (unlink records id d) cid ≡ some o)
        × (contains o.conflict_with j ≡ true)
  unlink-conflicts j cid m h c =
      let (o, other, found, e) = survivor records id d j m h in
      let c' = ap (λ (x : MemoryMetadata). contains x.conflict_with cid) (sym e) ∙ c in
      let law = fate-conflict_with id d j o cid in
      let kept : contains o.conflict_with cid ≡ true = ground (arith, c', law) in
      let (oc, found', back) = recip.conflicts j cid o found kept in
      let other' : Apart id cid = elim (Bool-cases (str_eq id cid)) [
        | inr ne ↦ ne
        | inl same ↦
            let back' =
              ap (λ (x : MemoryMetadata). contains x.conflict_with j)
                (sym (same_record cid oc same found'))
              ∙ back in
            ground (arith, c', law, same, back', eq_iff id cid, eq_iff cid id)
      ] in
      (
        fate id d cid oc,
        remains cid oc other' found',
        ground (arith, fate-conflict_with id d cid oc j, other, back, Apart-sym id j),
      )

  not_own_predecessor : ¬ (contains d.supersedes id ≡ true)
  not_own_predecessor c =
      let (o, found, back) = recip.predecessors id id d at c in
      let own =
        ap (λ (x : MemoryMetadata). x.superseded_by) (sym (same_record id o (eq_refl id) found)) in
      cc (proper, ap (λ x. points_to x id) (own ∙ back), eq_refl id)

  unlink-predecessors :
      (j sid : String) (m : MemoryMetadata)
      → get (unlink records id d) j ≡ some m
      → contains m.supersedes sid ≡ true
      → (o : MemoryMetadata) × (get (unlink records id d) sid ≡ some o) × (o.superseded_by ≡ some j)
  unlink-predecessors j sid m h c =
      let (o, other, found, e) = survivor records id d j m h in
      let c' = ap (λ (x : MemoryMetadata). contains x.supersedes sid) (sym e) ∙ c in
      let law = fate-supersedes id d j o sid in
      elim (Bool-cases (contains o.supersedes sid)) [
        | inl old ↦
            let (os, found', back) = recip.predecessors j sid o found old in
            let other' : Apart id sid = elim (Bool-cases (str_eq id sid)) [
              | inr ne ↦ ne
              | inl same ↦
                  let own =
                    ap (λ (x : MemoryMetadata). x.superseded_by)
                      (sym (same_record sid os same found'))
                    ∙ back in
                  let into = ap (λ x. points_to x j) own ∙ eq_refl j in
                  absurd (
                    not_own_predecessor
                      (ground (arith, into, law, c', same, eq_iff id sid, eq_iff sid id)))
            ] in
            (
              fate id d sid os,
              remains sid os other' found',
              ground (arith, fate-superseded_by id d sid os, back, Apart-sym id j other),
            )
        | inr adopted ↦
            let into : points_to d.superseded_by j ≡ true = ground (arith, adopted, law, c') in
            let from : contains d.supersedes sid ≡ true = ground (arith, adopted, law, c') in
            let (os, found', back) = recip.predecessors id sid d at from in
            let other' : Apart id sid = elim (Bool-cases (str_eq id sid)) [
              | inr ne ↦ ne
              | inl same ↦ absurd (
                  not_own_predecessor (
                    subst (λ k. contains d.supersedes k ≡ true) (sym ((eq_iff id sid).0 same))
                      from))
            ] in
            (
              fate id d sid os,
              remains sid os other' found',
              ground (
                arith,
                fate-superseded_by id d sid os,
                back,
                from,
                eq_refl id,
                points_to_iff d.superseded_by j into,
              ),
            )
      ]

  unlink-successors :
      (j sid : String) (m : MemoryMetadata)
      → get (unlink records id d) j ≡ some m
      → m.superseded_by ≡ some sid
      → (o : MemoryMetadata) × (get (unlink records id d) sid ≡ some o)
        × (contains o.supersedes j ≡ true)
  unlink-successors j sid m h c =
      let (o, other, found, e) = survivor records id d j m h in
      let c' = ap (λ (x : MemoryMetadata). x.superseded_by) (sym e) ∙ c in
      let law = fate-superseded_by id d j o in
      elim (Bool-cases (contains d.supersedes j && points_to o.superseded_by id)) [
        | inl relinked ↦
            let next : d.superseded_by ≡ some sid = ground (arith, relinked, law, c') in
            let (os, found', back) = recip.successors id sid d at next in
            let other' : Apart id sid =
              ground (arith, proper, next, eq_iff id sid, eq_iff sid id) in
            (
              fate id d sid os,
              remains sid os other' found',
              ground (arith, fate-supersedes id d sid os j, next, relinked, eq_refl sid),
            )
        | inr kept ↦
            let next : o.superseded_by ≡ some sid = ground (arith, kept, law, c') in
            let (os, found', back) = recip.successors j sid o found next in
            let other' : Apart id sid = elim (Bool-cases (str_eq id sid)) [
              | inr ne ↦ ne
              | inl same ↦
                  let listed =
                    ap (λ (x : MemoryMetadata). contains x.supersedes j)
                      (sym (same_record sid os same found'))
                    ∙ back in
                  ground (arith, kept, listed, next, same, eq_iff id sid, eq_iff sid id)
            ] in
            (
              fate id d sid os,
              remains sid os other' found',
              ground (arith, fate-supersedes id d sid os j, back, Apart-sym id j other),
            )
      ]

  unlink-IsReciprocal : IsReciprocal (unlink records id d)
  unlink-IsReciprocal = record {
    predecessors = λ j sid m h c. unlink-predecessors j sid m h c;
    successors = λ j sid m h c. unlink-successors j sid m h c;
    conflicts = λ j cid m h c. unlink-conflicts j cid m h c;
  }

-- No memory names itself as its successor.
abbrev pub IsProper : Map MemoryMetadata → Type 0
IsProper records =
    (id : String) (m : MemoryMetadata)
    → get records id ≡ some m
    → points_to m.superseded_by id ≡ false

-- Removing a memory from a state with reciprocal links, in which no memory is its own successor,
-- leaves a state with reciprocal links, and without the memory.
pub remove_state_record-IsReciprocal :
    (s : MemoryState) (id : String)
    → IsReciprocal s.records
    → IsProper s.records
    → IsReciprocal (remove_state_record s id).records
      × (get (remove_state_record s id).records id ≡ none)
unfolding remove_state_record
remove_state_record-IsReciprocal s id recip proper = elim (Option-cases (get s.records id)) [
  | inl missing ↦ rw (missing, remove_state_record) (recip, missing)
  | inr (d, found) ↦
      rw (found, remove_state_record)
        (
          unlink-IsReciprocal s.records id d recip found (proper id d found),
          get-unlink_self s.records id d,
        )
]
