-- ===== src/Engine/Removal/Acyclic.antt =====
-- src/engine/mod.rs: `remove_state_record` makes no cycle of successors.
use opencode_native_memory.Prelude.{
  ℕ, suc, ◌&&◌, ◌≡◌, sym, ap, ◌∙◌, inl, inr, none, some, String, arith, Bool-cases, Option-cases,
}
use opencode_native_memory.Prelude.Map.{Map, get}
use opencode_native_memory.State.Defs.{MemoryMetadata, MemoryState}
use opencode_native_memory.State.Validate.{contains, points_to}
use opencode_native_memory.State.Relations.{IsReciprocal, points_to_iff}
use opencode_native_memory.State.Acyclic.{Chain, link, longer, IsAcyclic}
use opencode_native_memory.Engine.Removal.{unlink, remove_state_record}
use opencode_native_memory.Engine.Removal.Preserves.{
  survivor, fate-superseded_by, IsProper, remove_state_record-IsReciprocal,
}

module _ (records : Map MemoryMetadata) (id : String) (d : MemoryMetadata)
    (at : get records id ≡ some d) where
  -- One link after the removal is one or two links before it.
  lengthen :
      {n : ℕ} (a b c : String) (m : MemoryMetadata)
      → get (unlink records id d) a ≡ some m
      → m.superseded_by ≡ some b
      → Chain records n b c
      → (k : ℕ) × Chain records k a c
  lengthen {n} a b c m h next rest =
      let (o, other, found, e) = survivor records id d a m h in
      let law = fate-superseded_by id d a o in
      let next' = ap (λ (x : MemoryMetadata). x.superseded_by) (sym e) ∙ next in
      elim (Bool-cases (contains d.supersedes a && points_to o.superseded_by id)) [
        | inl relinked ↦ (
          suc (suc n),
          longer o found (points_to_iff o.superseded_by id (ground (arith, relinked)))
              (longer d at (ground (arith, relinked, law, next')) rest),
        )
        | inr kept ↦ (suc n, longer o found (ground (arith, kept, law, next')) rest)
      ]

  shortest :
      (a b : String) (m : MemoryMetadata)
      → get (unlink records id d) a ≡ some m
      → m.superseded_by ≡ some b
      → (k : ℕ) × Chain records k a b
  shortest a b m h next =
      let (o, other, found, e) = survivor records id d a m h in
      let law = fate-superseded_by id d a o in
      let next' = ap (λ (x : MemoryMetadata). x.superseded_by) (sym e) ∙ next in
      elim (Bool-cases (contains d.supersedes a && points_to o.superseded_by id)) [
        | inl relinked ↦ (
          1,
          longer o found (points_to_iff o.superseded_by id (ground (arith, relinked)))
              (link d at (ground (arith, relinked, law, next'))),
        )
        | inr kept ↦ (0, link o found (ground (arith, kept, law, next')))
      ]

  earlier :
      {n : ℕ} {a b : String} → Chain (unlink records id d) n a b → (k : ℕ) × Chain records k a b
  earlier (link {a = a} {b = b} m h next) = shortest a b m h next
  earlier (longer {a = a} {b = b} {c = c} m h next rest) =
      let (k, rest') = earlier rest in lengthen a b c m h next rest'

Acyclic-IsProper : (records : Map MemoryMetadata) → IsAcyclic records → IsProper records
Acyclic-IsProper records none_cycles id m found = elim (Bool-cases (points_to m.superseded_by id)) [
  | inr ne ↦ ne
  | inl own ↦ absurd (none_cycles 0 id (link m found (points_to_iff m.superseded_by id own)))
]

remove_state_record-IsAcyclic :
    (s : MemoryState) (id : String)
    → IsAcyclic s.records
    → IsAcyclic (remove_state_record s id).records
unfolding remove_state_record
remove_state_record-IsAcyclic s id acyclic = elim (Option-cases (get s.records id)) [
  | inl missing ↦ rw (missing, remove_state_record) acyclic
  | inr (d, found) ↦
      rw (found, remove_state_record)
        (λ n a c. let (k, c') = earlier s.records id d found c in acyclic k a c')
]

-- Removing a memory from a state with reciprocal links and no cycle of successors leaves a state
-- with reciprocal links and no cycle of successors, without that memory.
pub remove_state_record-keeps :
    (s : MemoryState) (id : String)
    → IsReciprocal s.records
    → IsAcyclic s.records
    → IsReciprocal (remove_state_record s id).records
      × IsAcyclic (remove_state_record s id).records
      × (get (remove_state_record s id).records id ≡ none)
remove_state_record-keeps s id recip acyclic =
    let (r, gone) =
      remove_state_record-IsReciprocal s id recip (Acyclic-IsProper s.records acyclic) in
    (r, remove_state_record-IsAcyclic s id acyclic, gone)
