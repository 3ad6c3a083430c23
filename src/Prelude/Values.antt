-- ===== src/Prelude/Values.antt =====
-- Tests of every value of a map or a list, and what keeps them. A `BTreeMap` is an association list in
-- which no key occurs twice.
use Prim.Native.String.{String}
use mathlib.Core.Path.{◌≡◌, refl, sym, subst}
use mathlib.Core.Logic.{inl, inr}
use mathlib.Core.Bool.{Bool, true, ◌&&◌}
use mathlib.Core.Option
use mathlib.Core.Option.{Option, none, some}
use mathlib.Core.List.{List, [], ◌∷◌, ◌++◌}
use native.Mathlib.Omega.{arith}
use text.Mathlib.Text.{◌==◌ as str_eq}
use text.Mathlib.TextEquality.{eq_iff}
use opencode_native_memory.Prelude.Tests.{is_none, Bool-cases}
use opencode_native_memory.Prelude.Lists.{all, retain}
use opencode_native_memory.Prelude.Map.{
  Map, get, insert, remove, modify, map_values, get-insert, get-remove, get-modify,
}

-- No key occurs twice, as in every `BTreeMap`.
unfoldable pub distinct_keys {ℓ} : {V : Type ℓ} → Map V → Bool
distinct_keys [] = true
distinct_keys ((k, _) ∷ m) = is_none (get m k) && distinct_keys m

abbrev pub kept {ℓ} : {V : Type ℓ} → (String × V → Bool) → Map V → Bool
kept p m = distinct_keys m && all p m

module _ {ℓ} {A : Type ℓ} (p q : A → Bool) where
  pub all-retain : (xs : List A) → all p (retain p xs) ≡ true
  unfolding all retain
  all-retain [] = refl
  all-retain (x ∷ xs) = ground (arith, all-retain xs)

  pub all-retain-keep : (xs : List A) → all q xs ≡ true → all q (retain p xs) ≡ true
  unfolding all retain
  all-retain-keep [] h = refl
  all-retain-keep (x ∷ xs) h = ground (arith, h, all-retain-keep xs)

  pub all-both : (xs : List A) → all p xs ≡ true → all q xs ≡ true → all (λ x. p x && q x) xs ≡ true
  unfolding all
  all-both [] h k = refl
  all-both (x ∷ xs) h k = ground (arith, h, k, all-both xs)

  pub all-append : (xs ys : List A) → all p xs ≡ true → all p ys ≡ true → all p (xs ++ ys) ≡ true
  unfolding all
  all-append [] ys h k = k
  all-append (x ∷ xs) ys h k = ground (arith, h, all-append xs ys)

module _ {ℓ} {V : Type ℓ} (f : V → V) (p q : V → Bool) where
  pub all-values-to :
      (m : Map V)
      → ((v : V) → q v ≡ true → p (f v) ≡ true)
      → all (λ (_, v). q v) m ≡ true
      → all (λ (_, v). p v) (map_values f m) ≡ true
  unfolding all map_values
  all-values-to [] to h = refl
  all-values-to ((k, v) ∷ m) to h = ground (arith, h, to v, all-values-to m to)

  pub all-values :
      (m : Map V) → ((v : V) → p (f v) ≡ true) → all (λ (_, v). p v) (map_values f m) ≡ true
  unfolding all map_values
  all-values [] to = refl
  all-values ((k, v) ∷ m) to = ground (arith, to v, all-values m to)

  pub get-values :
      (m : Map V) (k : String) {v : V}
      → all (λ (_, v). p v) m ≡ true
      → get m k ≡ some v
      → p v ≡ true
  unfolding all get
  get-values [] k h e = cc
  get-values ((j, w) ∷ m) k {v = v} h e = elim (Bool-cases (str_eq j k)) [
    | inl same ↦ ground (arith, h, e, same)
    | inr other ↦ get-values m k (ground (arith, h)) (ground (arith, e, other))
  ]

pub all-weaken :
    {A : Type 0} (p q : A → Bool) (xs : List A)
    → ((x : A) → p x ≡ true → q x ≡ true)
    → all p xs ≡ true
    → all q xs ≡ true
unfolding all
all-weaken p q [] to h = refl
all-weaken p q (x ∷ xs) to h = ground (arith, h, to x, all-weaken p q xs to)

module _ {ℓ} {V : Type ℓ} (p : String × V → Bool) where
  pub all-insert :
      (m : Map V) (k : String) (v : V)
      → all p m ≡ true
      → p (k, v) ≡ true
      → all p (insert m k v) ≡ true
  unfolding all insert
  all-insert [] k v h e = ground (arith, e)
  all-insert ((j, w) ∷ m) k v h e = ground (arith, h, e, all-insert m k v)

  all-remove : (m : Map V) (k : String) → all p m ≡ true → all p (remove m k) ≡ true
  unfolding all remove
  all-remove [] k h = refl
  all-remove ((j, w) ∷ m) k h = ground (arith, h, all-remove m k)

  pub all-modify :
      (m : Map V) (k : String) (v : V)
      → all p m ≡ true
      → p (k, v) ≡ true
      → all p (modify m k (λ _. v)) ≡ true
  unfolding all modify
  all-modify [] k v h e = refl
  all-modify ((j, w) ∷ m) k v h e = elim (Bool-cases (str_eq j k)) [
    | inl same ↦ ground (arith, same, h, subst (λ i. p (i, v) ≡ true) (sym ((eq_iff j k).0 same)) e)
    | inr other ↦ ground (arith, other, h, e, all-modify m k v)
  ]

  pub all-map_values :
      (f : V → V) (m : Map V)
      → ((k : String) (v : V) → p (k, v) ≡ true → p (k, f v) ≡ true)
      → all p m ≡ true
      → all p (map_values f m) ≡ true
  unfolding all map_values
  all-map_values f [] keep h = refl
  all-map_values f ((j, w) ∷ m) keep h = ground (arith, h, keep j w, all-map_values f m keep)

  pub all-get :
      (m : Map V) (k : String) {v : V} → all p m ≡ true → get m k ≡ some v → p (k, v) ≡ true
  unfolding all get
  all-get [] k h e = cc
  all-get ((j, w) ∷ m) k {v = v} h e = elim (Bool-cases (str_eq j k)) [
    | inl same ↦
        let at : p (j, v) ≡ true = ground (arith, same, h, e) in
        subst (λ i. p (i, v) ≡ true) ((eq_iff j k).0 same) at
    | inr other ↦ all-get m k (ground (arith, h)) (ground (arith, other, e))
  ]

module _ {ℓ} {V : Type ℓ} where
  distinct_keys-insert :
      (m : Map V) (k : String) (v : V)
      → distinct_keys m ≡ true
      → distinct_keys (insert m k v) ≡ true
  unfolding distinct_keys insert get
  distinct_keys-insert [] k v h = refl
  distinct_keys-insert ((j, w) ∷ m) k v h =
      ground (arith, h, eq_iff j k, eq_iff k j, get-insert m k v j, distinct_keys-insert m k v)

  distinct_keys-remove :
      (m : Map V) (k : String) → distinct_keys m ≡ true → distinct_keys (remove m k) ≡ true
  unfolding distinct_keys remove
  distinct_keys-remove [] k h = refl
  distinct_keys-remove ((j, w) ∷ m) k h =
      ground (arith, h, get-remove m k j, distinct_keys-remove m k)

  distinct_keys-modify :
      (m : Map V) (k : String) (f : V → V)
      → distinct_keys m ≡ true
      → distinct_keys (modify m k f) ≡ true
  unfolding distinct_keys modify
  distinct_keys-modify [] k f h = refl
  distinct_keys-modify ((j, w) ∷ m) k f h =
      ground (arith, h, get-modify m k f j, distinct_keys-modify m k f)

  pub get-map_values :
      (f : V → V) (m : Map V) (k : String) → get (map_values f m) k ≡ Option.map f (get m k)
  unfolding get map_values
  get-map_values f [] k = refl
  get-map_values f ((j, w) ∷ m) k = ground (arith, get-map_values f m k)

  distinct_keys-map_values :
      (f : V → V) (m : Map V) → distinct_keys m ≡ true → distinct_keys (map_values f m) ≡ true
  unfolding distinct_keys map_values
  distinct_keys-map_values f [] h = refl
  distinct_keys-map_values f ((j, w) ∷ m) h =
      ground (arith, h, get-map_values f m j, distinct_keys-map_values f m)

module _ {ℓ} {V : Type ℓ} (p : String × V → Bool) (m : Map V) where
  pub kept-insert :
      (k : String) (v : V) → kept p m ≡ true → p (k, v) ≡ true → kept p (insert m k v) ≡ true
  kept-insert k v h e = ground (arith, h, all-insert p m k v, e, distinct_keys-insert m k v)

  pub kept-remove : (k : String) → kept p m ≡ true → kept p (remove m k) ≡ true
  kept-remove k h = ground (arith, h, all-remove p m k, distinct_keys-remove m k)

  pub kept-modify :
      (k : String) (v : V) → kept p m ≡ true → p (k, v) ≡ true → kept p (modify m k (λ _. v)) ≡ true
  kept-modify k v h e = ground (arith, h, all-modify p m k v, e, distinct_keys-modify m k (λ _. v))

  pub kept-map_values :
      (f : V → V)
      → ((k : String) (v : V) → p (k, v) ≡ true → p (k, f v) ≡ true)
      → kept p m ≡ true
      → kept p (map_values f m) ≡ true
  kept-map_values f keep h =
      ground (arith, h, all-map_values p f m keep, distinct_keys-map_values f m)

  pub kept-get : (k : String) {v : V} → kept p m ≡ true → get m k ≡ some v → p (k, v) ≡ true
  kept-get k h e = all-get p m k (ground (arith, h)) e
