-- ===== src/Graph/Upsert/Built.antt =====
-- src/graph/mod.rs: what a pass of `apply_upsert` over its candidates keeps, and the lists that it
-- sorts.
use mathlib.Core.List.{◌++◌ as append}
use opencode_native_memory.Prelude.{ℕ, ◌+◌, Bool, true, ◌≡◌, refl, List, [], ◌∷◌, all, arith}
use opencode_native_memory.Prelude.Result.{Result, ok, err}
use opencode_native_memory.Graph.Upsert.{UpsertError}
use opencode_native_memory.Graph.Upsert.Evidence.{insert_by, sort_by, dedup_after, dedup_by}
use opencode_native_memory.Graph.Upsert.Apply.{Refusals, Batch, judge, build_all}

module _ {A : Type 0} (leq same : A → A → Bool) (p : A → Bool) where
  all-insert_by :
      (x : A) (xs : List A) → p x ≡ true → all p xs ≡ true → all p (insert_by leq same x xs) ≡ true
  unfolding insert_by all
  all-insert_by x [] hx h = ground (arith, hx)
  all-insert_by x (y ∷ ys) hx h = ground (arith, hx, h, all-insert_by x ys)

  pub all-sort_by : (xs : List A) → all p xs ≡ true → all p (sort_by leq same xs) ≡ true
  unfolding sort_by all
  all-sort_by [] h = refl
  all-sort_by (x ∷ xs) h = ground (arith, h, all-sort_by xs, all-insert_by x (sort_by leq same xs))

  all-dedup_after :
      (x : A) (xs : List A) → all p xs ≡ true → all p (dedup_after leq same x xs) ≡ true
  unfolding dedup_after all
  all-dedup_after x [] h = refl
  all-dedup_after x (y ∷ ys) h = ground (arith, h, all-dedup_after x ys, all-dedup_after y ys)

  pub all-dedup_by : (xs : List A) → all p xs ≡ true → all p (dedup_by leq same xs) ≡ true
  unfolding dedup_by all
  all-dedup_by [] h = refl
  all-dedup_by (x ∷ xs) h = ground (arith, h, all-dedup_after x xs)

module _ {C A S : Type 0} (I : List (ℕ × A) → S → Type 0)
    (refuse : ℕ → UpsertError → Refusals → Refusals)
    (build : List (ℕ × A) → C → S → Result UpsertError (A × S))
    (step : (accepted : List (ℕ × A)) (c : C) (s : S) (index : ℕ) (a : A) (next : S)
      → I accepted s
      → build accepted c s ≡ ok (a, next)
      → I (append accepted ((index, a) ∷ [])) next) where
  judge-keeps :
      (index : ℕ) (c : C) (b : Batch A S) (r : Result UpsertError (A × S))
      → build b.accepted c b.state ≡ r
      → I b.accepted b.state
      → let next = judge refuse index r b in I next.accepted next.state
  judge-keeps index c b (err reason) e h = h
  judge-keeps index c b (ok (a, s)) e h = step b.accepted c b.state index a s h e

  -- What a candidate that is accepted keeps, a whole pass keeps.
  pub build_all-keeps :
      (index : ℕ) (cs : List C) (b : Batch A S)
      → I b.accepted b.state
      → let next = build_all refuse build index cs b in I next.accepted next.state
  unfolding build_all
  build_all-keeps index [] b h = h
  build_all-keeps index (c ∷ cs) b h =
      build_all-keeps (index + 1) cs (judge refuse index (build b.accepted c b.state) b)
        (judge-keeps index c b (build b.accepted c b.state) refl h)
