-- ===== src/State/Ids.antt =====
-- src/storage/state.rs and src/capture.rs: what the normalisation of a list of ids gives.
use opencode_native_memory.Prelude.{
  ◌≡◌, ap, inl, inr, refl, Bool, true, false, not, ◌&&◌, ◌||◌, arith, Bool-cases, List, [], ◌∷◌,
  String, str_eq, eq_iff, eq_refl, map, retain, any,
}
use opencode_native_memory.Prelude.Text.{trim, is_empty}
use opencode_native_memory.State.Validate.{contains}
use opencode_native_memory.State.Save.{insert_sorted, sort, dedup_from, normalize_id_list}

-- No id occurs twice.
unfoldable pub distinct : List String → Bool
distinct [] = true
distinct (x ∷ xs) = not (contains xs x) && distinct xs

contains-insert_sorted :
    (x : String) (xs : List String) (y : String)
    → contains (insert_sorted x xs) y ≡ (str_eq x y || contains xs y)
unfolding insert_sorted any
contains-insert_sorted x [] y = refl
contains-insert_sorted x (z ∷ zs) y = ground (arith, contains-insert_sorted x zs y)

contains-sort : (xs : List String) (y : String) → contains (sort xs) y ≡ contains xs y
unfolding sort any
contains-sort [] y = refl
contains-sort (x ∷ xs) y = ground (arith, contains-insert_sorted x (sort xs) y, contains-sort xs y)

distinct-insert_sorted :
    (x : String) (xs : List String)
    → contains xs x ≡ false
    → distinct xs ≡ true
    → distinct (insert_sorted x xs) ≡ true
unfolding insert_sorted distinct any
distinct-insert_sorted x [] fresh d = refl
distinct-insert_sorted x (z ∷ zs) fresh d = ground (
  arith,
  fresh,
  d,
  eq_iff x z,
  eq_iff z x,
  contains-insert_sorted x zs z,
  distinct-insert_sorted x zs,
)

distinct-sort : (xs : List String) → distinct xs ≡ true → distinct (sort xs) ≡ true
unfolding sort distinct
distinct-sort [] d = refl
distinct-sort (x ∷ xs) d =
    ground (arith, d, contains-sort xs x, distinct-sort xs, distinct-insert_sorted x (sort xs))

contains-dedup_from :
    (seen xs : List String) (y : String)
    → contains (dedup_from seen xs) y ≡ (contains xs y && not (contains seen y))
unfolding dedup_from any
contains-dedup_from seen [] y = refl
contains-dedup_from seen (x ∷ xs) y =
    ground (arith, contains-dedup_from seen xs y, contains-dedup_from (x ∷ seen) xs y, eq_iff x y)

distinct-dedup_from : (seen xs : List String) → distinct (dedup_from seen xs) ≡ true
unfolding dedup_from distinct any
distinct-dedup_from seen [] = refl
distinct-dedup_from seen (x ∷ xs) = ground (
  arith,
  distinct-dedup_from seen xs,
  distinct-dedup_from (x ∷ seen) xs,
  contains-dedup_from (x ∷ seen) xs x,
  eq_refl x,
)

contains-retain :
    (xs : List String) (y : String)
    → contains (retain (λ id. not (is_empty id)) xs) y ≡ (contains xs y && not (is_empty y))
unfolding retain any
contains-retain [] y = refl
contains-retain (x ∷ xs) y = elim (Bool-cases (str_eq x y)) [
  | inl same ↦ ground (arith, same, contains-retain xs y, ap is_empty ((eq_iff x y).0 same))
  | inr other ↦ ground (arith, other, contains-retain xs y)
]

-- Normalising a list of ids keeps exactly the ids that are not blank, trimmed, each of them once.
pub normalize_id_list-distinct :
    (ids : List String) (id : String)
    → (distinct (normalize_id_list ids) ≡ true)
      × (contains (normalize_id_list ids) id ≡ (contains (map trim ids) id && not (is_empty id)))
unfolding normalize_id_list any
normalize_id_list-distinct ids id =
    let kept = retain (λ x. not (is_empty x)) (map trim ids) in
    let once = dedup_from [] kept in
    (
      distinct-sort once (distinct-dedup_from [] kept),
      ground (
        arith,
        contains-sort once id,
        contains-dedup_from [] kept id,
        contains-retain (map trim ids) id,
      ),
    )
