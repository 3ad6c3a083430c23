-- ===== src/Prelude/Map.antt =====
-- `HashMap` with text keys, as an association list. The order of its entries stands for the
-- arbitrary order in which Rust iterates over one.
use Prim.Native.String.{String}
use mathlib.Core.Path.{◌≡◌, refl}
use mathlib.Core.Bool.{Bool}
use mathlib.Core.Option
use mathlib.Core.Option.{Option, none, some}
use mathlib.Core.List.{List, [], ◌∷◌}
use native.Mathlib.Omega.{arith}
use text.Mathlib.Text.{◌==◌ as str_eq}
use text.Mathlib.TextEquality.{eq_iff}
use opencode_native_memory.Prelude.Tests.{if◌then◌else◌, is_some}

abbrev pub Map {ℓ} : Type ℓ → Type ℓ
Map V = List (String × V)

module _ {ℓ} {V : Type ℓ} where
  unfoldable pub get : Map V → String → Option V
  get [] k = none
  get ((j, v) ∷ m) k = if str_eq j k then some v else get m k

  -- The entry keeps its place if the key is there, and else goes last.
  unfoldable pub insert : Map V → String → V → Map V
  insert [] k v = (k, v) ∷ []
  insert ((j, w) ∷ m) k v = if str_eq j k then (k, v) ∷ m else (j, w) ∷ insert m k v

  unfoldable pub remove : Map V → String → Map V
  remove [] k = []
  remove ((j, v) ∷ m) k = let rest = remove m k in if str_eq j k then rest else (j, v) ∷ rest

  -- `if let Some(v) = m.get_mut(k) { *v = f(v) }`
  unfoldable pub modify : Map V → String → (V → V) → Map V
  modify [] k f = []
  modify ((j, v) ∷ m) k f = if str_eq j k then (j, f v) ∷ m else (j, v) ∷ modify m k f

  abbrev pub contains_key : Map V → String → Bool
  contains_key m k = is_some (get m k)

  pub get-insert :
      (m : Map V) (k : String) (v : V) (j : String)
      → get (insert m k v) j ≡ (if str_eq k j then some v else get m j)
  unfolding get insert
  get-insert [] k v j = refl
  get-insert ((i, w) ∷ m) k v j =
      ground (arith, eq_iff k j, eq_iff i k, eq_iff i j, get-insert m k v j)

  pub get-remove :
      (m : Map V) (k j : String) → get (remove m k) j ≡ (if str_eq k j then none else get m j)
  unfolding get remove
  get-remove [] k j = ground arith
  get-remove ((i, w) ∷ m) k j = ground (arith, eq_iff k j, eq_iff i k, eq_iff i j, get-remove m k j)

  pub get-modify :
      (m : Map V) (k : String) (f : V → V) (j : String)
      → get (modify m k f) j ≡ (if str_eq k j then Option.map f (get m j) else get m j)
  unfolding get modify
  get-modify [] k f j = ground arith
  get-modify ((i, w) ∷ m) k f j =
      ground (arith, eq_iff k j, eq_iff i k, eq_iff i j, get-modify m k f j)

-- `for v in m.values_mut() { *v = f(v) }`
unfoldable pub map_values {ℓ} : {V : Type ℓ} → (V → V) → Map V → Map V
map_values f [] = []
map_values f ((k, v) ∷ m) = (k, f v) ∷ map_values f m

pub ruleset map_laws = (get-insert, get-remove, get-modify)
