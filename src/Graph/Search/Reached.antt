-- ===== src/Graph/Search/Reached.antt =====
-- src/graph/mod.rs: the loop of a search that follows relations ends, and scores eligible entities only.
use opencode_native_memory.Prelude.{
  ℕ, zero, suc, ◌+◌, ◌≤◌, Bool, true, false, not, ◌≡◌, ◌⊎◌, refl, ap, inl, inr, Bool-cases, some,
  List, [], ◌∷◌, String, str_eq, eq_iff, eq_refl, length, length-append, take, all, any, retain,
  arith, leb,
}
use opencode_native_memory.Prelude.Map.{Map}
use opencode_native_memory.Prelude.Values.{all-insert}
use opencode_native_memory.State.Validate.{contains}
use opencode_native_memory.Float.{F64}
use opencode_native_memory.Graph.Defs.{GraphRelation}
use opencode_native_memory.Graph.Upsert.Sound.{all-take}
use opencode_native_memory.Graph.Search.{Scores, Query}
use opencode_native_memory.Graph.Search.Scoring.{or_insert}
use opencode_native_memory.Graph.Search.Rounds.{Walk, visit, visit_all, neighbors, expand, walk}

queue_cases : {A : Type 0} (xs : List A) → (xs ≡ []) ⊎ (x : A) × (rest : List A) × (xs ≡ x ∷ rest)
queue_cases [] = inl refl
queue_cases (x ∷ rest) = inr (x, rest, refl)

-- how many of the ids are not visited
abbrev pub unseen : List String → List String → ℕ
unseen ids visited = length (retain (λ id. not (contains visited id)) ids)

unseen_le :
    (ids visited : List String) (id : String) → unseen ids (id ∷ visited) ≤ unseen ids visited
unfolding retain any
unseen_le [] visited id = ground arith
unseen_le (x ∷ xs) visited id = ground (arith, unseen_le xs visited id)

unseen_lt :
    (ids visited : List String) (id : String)
    → contains ids id ≡ true
    → contains visited id ≡ false
    → unseen ids (id ∷ visited) + 1 ≤ unseen ids visited
unfolding retain any
unseen_lt [] visited id here new = ground (arith, here)
unseen_lt (x ∷ xs) visited id here new = elim (Bool-cases (str_eq x id)) [
  | inl same ↦ ground (
    arith,
    same,
    new,
    unseen_le xs visited id,
    ap (contains visited) ((eq_iff x id).0 same),
    ap (str_eq id) ((eq_iff x id).0 same),
    eq_refl id,
  )
  | inr other ↦ ground (arith, other, here, new, unseen_lt xs visited id)
]

module _ (sc : Scores) (q : Query) (relations : Map GraphRelation) where
  abbrev pub eligible : String → Bool
  eligible id = contains q.entity_ids id

  abbrev pub scored : Walk → Bool
  scored w = all (λ (id, _). eligible id) w.scores

  abbrev pub work : Walk → ℕ
  work w = length w.queue + unseen q.entity_ids w.visited

  neighbors-all : (id : String) (m : Map GraphRelation) → all eligible (neighbors q id m) ≡ true
  unfolding neighbors all
  neighbors-all id [] = refl
  neighbors-all id ((k, r) ∷ m) = ground (arith, neighbors-all id m)

  visit-work :
      (depth : ℕ) (id : String) (w : Walk)
      → eligible id ≡ true
      → (work (visit sc depth id w) ≤ work w)
        × (scored w ≡ true → scored (visit sc depth id w) ≡ true)
  unfolding or_insert all
  visit-work depth id w h = elim (Bool-cases (contains w.visited id)) [
    | inl old ↦ (ground (arith, old), λ k. ground (arith, old, k))
    | inr new ↦ (
      ground (
        arith,
        new,
        unseen_lt q.entity_ids w.visited id,
        h,
        length-append w.queue ((id, depth + 1) ∷ []),
      ),
      λ k. ground (
        arith,
        new,
        k,
        h,
        all-insert (λ (x : String × F64). eligible x.0) w.scores id (sc.nearby depth),
      ),
    )
  ]

  visit_all-work :
      (depth : ℕ) (ids : List String) (w : Walk)
      → all eligible ids ≡ true
      → (work (visit_all sc depth ids w) ≤ work w)
        × (scored w ≡ true → scored (visit_all sc depth ids w) ≡ true)
  unfolding visit_all all
  visit_all-work depth [] w h = (ground arith, λ k. k)
  visit_all-work depth (id ∷ ids) w h =
      let (less, keep) = visit-work depth id w (ground (arith, h)) in
      let (rest, keeps) = visit_all-work depth ids (visit sc depth id w) (ground (arith, h)) in
      (omega (arith, less, rest), λ k. keeps (keep k))

  expand-work :
      (id : String) (depth : ℕ) (w : Walk)
      → (work (expand q sc relations id depth w) ≤ work w)
        × (scored w ≡ true → scored (expand q sc relations id depth w) ≡ true)
  unfolding expand
  expand-work id depth w = elim (Bool-cases (leb q.max_depth depth)) [
    | inl deep ↦ (ground (arith, deep), λ k. ground (arith, deep, k))
    | inr shallow ↦
        let next = visit_all-work depth (take q.max_fanout (neighbors q id relations)) w (
          all-take eligible q.max_fanout (neighbors q id relations) (neighbors-all id relations)) in
        (ground (arith, shallow, next.0), λ k. ground (arith, shallow, next.1 k))
  ]

  -- The loop ends within its rounds.
  pub walk_ends :
      (fuel : ℕ) (w : Walk)
      → work w ≤ fuel
      → scored w ≡ true
      → (t : Walk) × (walk q sc relations fuel w ≡ some t) × (scored t ≡ true)
  unfolding walk
  walk_ends zero w h k = elim (queue_cases w.queue) [
    | inl empty ↦ (w, ground (arith, empty), k)
    | inr (_, _, e) ↦ ground (arith, h, ap length e)
  ]
  walk_ends (suc fuel) w h k = elim (queue_cases w.queue) [
    | inl empty ↦ (w, ground (arith, empty), k)
    | inr ((id, depth), rest, e) ↦
        let popped : Walk = record w { queue = rest } in
        let (less, keep) = expand-work id depth popped in
        let (t, ends, good) =
          walk_ends fuel (expand q sc relations id depth popped)
            (omega (arith, less, h, ap length e)) (keep k) in
        (t, ground (arith, e, ends), good)
  ]
