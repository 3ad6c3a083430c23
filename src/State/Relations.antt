-- ===== src/State/Relations.antt =====
-- src/storage/state.rs: what a state that passes `validate_relations` satisfies.
use opencode_native_memory.Prelude.{
  Bool, true, ◌≡◌, ap, subst, inl, inr, Option, none, some, List, [], ◌∷◌, String, str_eq, eq_iff,
  arith, any, Bool-cases, Option-cases,
}
use opencode_native_memory.Prelude.Map.{Map, get, contains_key}
use opencode_native_memory.Prelude.Result.{Result, ok, ensure, for_each, >>-eq-ok}
use opencode_native_memory.State.Defs.{MemoryMetadata}
use opencode_native_memory.State.Validate.{
  StateError, dangling_predecessor, dangling_successor, dangling_conflict, contains, points_to,
  check_other, check_predecessor, check_successor, check_conflict, if_some, validate_links,
  validate_relations,
}

-- `other.superseded_by == Some(id)`, as an equation
pub points_to_iff : (o : Option String) (id : String) → points_to o id ≡ true → o ≡ some id
points_to_iff none id h = cc
points_to_iff (some s) id h = ap some ((eq_iff s id).0 h)

pub for_each-get {ℓ} :
    {E : Type 0} {V : Type ℓ} (f : String × V → Result E (Unit {0})) (m : Map V) (k : String)
    {v : V}
    → for_each f m ≡ ok tt
    → get m k ≡ some v
    → f (k, v) ≡ ok tt
unfolding for_each get
for_each-get f [] k h e = cc
for_each-get f ((j, w) ∷ m) k h e =
    let (first, rest) = >>-eq-ok (f (j, w)) (for_each f m) h in
    elim (Bool-cases (str_eq j k)) [
      | inl same ↦ ground (arith, same, eq_iff j k, first)
      | inr differs ↦ for_each-get f m k rest (ground (arith, differs))
    ]

for_each-contains :
    {E : Type 0} (f : String → Result E (Unit {0})) (ids : List String) (x : String)
    → for_each f ids ≡ ok tt
    → contains ids x ≡ true
    → f x ≡ ok tt
unfolding for_each any
for_each-contains f [] x h e = cc
for_each-contains f (y ∷ ids) x h e =
    let (first, rest) = >>-eq-ok (f y) (for_each f ids) h in
    elim (Bool-cases (str_eq y x)) [
      | inl same ↦ ground (arith, same, eq_iff y x, first)
      | inr differs ↦ for_each-contains f ids x rest (ground (arith, differs))
    ]

-- The links between memories are reciprocal: each predecessor names its successor, each successor
-- lists its predecessor, and conflicts go both ways.
pub record IsReciprocal (records : Map MemoryMetadata) : Type 0 where
  pub predecessors :
      (id sid : String) (m : MemoryMetadata)
      → get records id ≡ some m
      → contains m.supersedes sid ≡ true
      → (o : MemoryMetadata) × (get records sid ≡ some o) × (o.superseded_by ≡ some id)
  pub successors :
      (id sid : String) (m : MemoryMetadata)
      → get records id ≡ some m
      → m.superseded_by ≡ some sid
      → (o : MemoryMetadata) × (get records sid ≡ some o) × (contains o.supersedes id ≡ true)
  pub conflicts :
      (id cid : String) (m : MemoryMetadata)
      → get records id ≡ some m
      → contains m.conflict_with cid ≡ true
      → (o : MemoryMetadata) × (get records cid ≡ some o) × (contains o.conflict_with id ≡ true)

check_other-ok :
    (records : Map MemoryMetadata) (id : String) (test : MemoryMetadata → Bool) (e : StateError)
    → check_other records id test e ≡ ok tt
    → (o : MemoryMetadata) × (get records id ≡ some o) × (test o ≡ true)
check_other-ok records id test e h = elim (Option-cases (get records id)) [
  | inl missing ↦ ground (arith, missing)
  | inr (o, found) ↦ (o, found, ground (arith, found))
]

-- An accepted entry passed the three reciprocity loops.
links-parts :
    (records : Map MemoryMetadata) (id : String) (m : MemoryMetadata)
    → validate_links records (id, m) ≡ ok tt
    → (for_each (check_predecessor records id) m.supersedes ≡ ok tt)
      × (if_some m.superseded_by (check_successor records id) ≡ ok tt)
      × (for_each (check_conflict records id) m.conflict_with ≡ ok tt)
unfolding validate_links
links-parts records id m h =
    let known = λ (e : StateError) (sid : String). ensure (contains_key records sid) e in
    let (_, h1) = >>-eq-ok (for_each (known dangling_predecessor) m.supersedes) _ h in
    let (_, h2) = >>-eq-ok (if_some m.superseded_by (known dangling_successor)) _ h1 in
    let (_, h3) = >>-eq-ok (for_each (known dangling_conflict) m.conflict_with) _ h2 in
    let (p, h4) = >>-eq-ok _ _ h3 in let (s, c) = >>-eq-ok _ _ h4 in (p, s, c)

links-ok :
    (records : Map MemoryMetadata) (id : String) (m : MemoryMetadata)
    → validate_relations records ≡ ok tt
    → get records id ≡ some m
    → validate_links records (id, m) ≡ ok tt
unfolding validate_relations
links-ok records id m h e = for_each-get (validate_links records) records id (>>-eq-ok _ _ h).0 e

-- A state whose relations `validate_relations` accepts has reciprocal links.
pub validate_relations-IsReciprocal :
    (records : Map MemoryMetadata) → validate_relations records ≡ ok tt → IsReciprocal records
validate_relations-IsReciprocal records h = record {
  predecessors = λ id sid m e c.
      let parts = links-parts records id m (links-ok records id m h e) in
      let (o, found, back) =
        check_other-ok records sid _ _
          (for_each-contains (check_predecessor records id) m.supersedes sid parts.0 c) in
      (o, found, points_to_iff o.superseded_by id back);
  successors = λ id sid m e c.
      let parts = links-parts records id m (links-ok records id m h e) in
      check_other-ok records sid _ _
        (subst (λ x. if_some x (check_successor records id) ≡ ok tt) c parts.1);
  conflicts = λ id cid m e c.
      let parts = links-parts records id m (links-ok records id m h e) in
      check_other-ok records cid _ _
        (for_each-contains (check_conflict records id) m.conflict_with cid parts.2 c);
}
