-- ===== src/State/Acyclic/Pigeonhole.antt =====
-- src/storage/state.rs: the rounds of the cycle check are enough, since a shortest cycle visits each
-- memory once at most.
use opencode_native_memory.Prelude.{
  ℕ, zero, suc, ◌≤◌, ◌<◌, true, false, not, ◌≡◌, ◌⊎◌, refl, ap, subst, inl, inr, some, List, [],
  ◌∷◌, String, str_eq, eq_iff, arith, length, map, any, retain, length-retain-le, Bool-cases,
}
use opencode_native_memory.Prelude.Map.{Map, get}
use opencode_native_memory.Prelude.Result.{ok}
use opencode_native_memory.State.Defs.{MemoryMetadata}
use opencode_native_memory.State.Validate.{contains, validate_relations}
use opencode_native_memory.State.Acyclic.{
  Chain, link, longer, IsAcyclic, validate_relations-no_cycle,
}

abbrev others : String → List String → List String
others x ys = retain (λ y. not (str_eq y x)) ys

length-others :
    (x : String) (ys : List String) → contains ys x ≡ true → length (others x ys) < length ys
unfolding any retain
length-others x [] h = cc
length-others x (y ∷ ys) h = elim (Bool-cases (str_eq y x)) [
  | inl same ↦ ground (arith, same, length-retain-le (λ z. not (str_eq z x)) ys)
  | inr differs ↦ ground (arith, differs, length-others x ys)
]

contains-others :
    (x : String) (ys : List String) (z : String)
    → str_eq x z ≡ false
    → contains ys z ≡ true
    → contains (others x ys) z ≡ true
unfolding any retain
contains-others x [] z apart h = cc
contains-others x (y ∷ ys) z apart h =
    ground (arith, contains-others x ys z apart, eq_iff y x, eq_iff y z, eq_iff x z)

-- No text occurs twice.
abbrev Distinct : List String → Type 0
Distinct [] = Unit
Distinct (x ∷ xs) = (contains xs x ≡ false) × Distinct xs

abbrev Within : List String → List String → Type 0
Within [] ys = Unit
Within (x ∷ xs) ys = (contains ys x ≡ true) × Within xs ys

Within-others :
    (x : String) (xs ys : List String)
    → contains xs x ≡ false
    → Within xs ys
    → Within xs (others x ys)
unfolding any
Within-others x [] ys h w = tt
Within-others x (z ∷ xs) ys h w = (
  contains-others x ys z (ground (arith, eq_iff x z, eq_iff z x)) w.0,
  Within-others x xs ys (ground arith) w.1,
)

length-Distinct : (xs ys : List String) → Distinct xs → Within xs ys → length xs ≤ length ys
length-Distinct [] ys d w = omega arith
length-Distinct (x ∷ xs) ys d w =
    let shorter = length-others x ys w.0 in
    omega (arith, shorter, length-Distinct xs (others x ys) d.1 (Within-others x xs ys d.0 w.1))

module _ (records : Map MemoryMetadata) where
  nodes : {n : ℕ} {a b : String} → Chain records n a b → List String
  nodes (link {a = a} m found next) = a ∷ []
  nodes (longer {a = a} m found next rest) = a ∷ nodes rest

  length-nodes : {n : ℕ} {a b : String} (c : Chain records n a b) → length (nodes c) ≡ suc n
  unfolding nodes
  length-nodes (link m found next) = refl
  length-nodes (longer m found next rest) = ap suc (length-nodes rest)

  -- A node on the way starts a chain to the same end that is no longer.
  from_node :
      {n : ℕ} {a b : String} (c : Chain records n a b) (x : String)
      → contains (nodes c) x ≡ true
      → (k : ℕ) × (k ≤ n) × Chain records k x b
  unfolding nodes any
  from_node (link {a = a} {b = b} m found next) x h = (
    0,
    omega arith,
    subst (λ y. Chain records 0 y b) ((eq_iff a x).0 (ground arith)) (link m found next),
  )
  from_node (longer {n = n} {a = a} {c = c} m found next rest) x h =
      elim (Bool-cases (str_eq a x)) [
        | inl same ↦ (
          suc n,
          omega arith,
          subst (λ y. Chain records (suc n) y c) ((eq_iff a x).0 same) (longer m found next rest),
        )
        | inr differs ↦
            let (k, le, chain) = from_node rest x (ground (arith, differs)) in
            (k, omega (arith, le), chain)
      ]

  shorten :
      {n : ℕ} {a b : String} (c : Chain records n a b)
      → Distinct (nodes c) ⊎ ((k : ℕ) × (k < n) × Chain records k a b)
  unfolding nodes any
  shorten (link m found next) = inl (refl, tt)
  shorten (longer {a = a} m found next rest) = elim (shorten rest) [
    | inr (k, lt, chain) ↦ inr (suc k, omega (arith, lt), longer m found next chain)
    | inl distinct ↦ elim (Bool-cases (contains (nodes rest) a)) [
      | inl again ↦ let (k, le, chain) = from_node rest a again in inr (k, omega (arith, le), chain)
      | inr fresh ↦ inl (fresh, distinct)
    ]
  ]

keys-get :
    (m : Map MemoryMetadata) (id : String) (v : MemoryMetadata)
    → get m id ≡ some v
    → contains (map (λ (k, _). k) m) id ≡ true
unfolding get any
keys-get [] id v h = cc
keys-get ((j, w) ∷ m) id v h = elim (Bool-cases (str_eq j id)) [
  | inl same ↦ ground (arith, same)
  | inr differs ↦ ground (arith, differs, keys-get m id v (ground (arith, differs)))
]

length-keys : (m : Map MemoryMetadata) → length (map (λ (k, _). k) m) ≡ length m
length-keys [] = refl
length-keys (e ∷ m) = ap suc (length-keys m)

nodes-Within :
    (records : Map MemoryMetadata) {n : ℕ} {a b : String} (c : Chain records n a b)
    → Within (nodes records c) (map (λ (k, _). k) records)
unfolding nodes
nodes-Within records (link {a = a} m found next) = (keys-get records a m found, tt)
nodes-Within records (longer {a = a} m found next rest) =
    (keys-get records a m found, nodes-Within records rest)

-- A chain can be cut to one with at most as many links as there are memories.
cut :
    (records : Map MemoryMetadata) (fuel : ℕ) {n : ℕ} {a b : String}
    → n < fuel
    → Chain records n a b
    → (k : ℕ) × (k < length records) × Chain records k a b
cut records zero h c = elim h [ ]
cut records (suc fuel) {n = n} h c = elim (shorten records c) [
  | inr (k, lt, chain) ↦ cut records fuel {n = k} (omega (arith, lt, h)) chain
  | inl distinct ↦ (
    n,
    omega (
      arith,
      length-Distinct (nodes records c) (map (λ (k, _). k) records) distinct
          (nodes-Within records c),
      length-nodes records c,
      length-keys records,
    ),
    c,
  )
]

-- A state whose relations are accepted has no cycle of successors, of any length.
pub validate_relations-IsAcyclic :
    (records : Map MemoryMetadata) → validate_relations records ≡ ok tt → IsAcyclic records
validate_relations-IsAcyclic records h n a c =
    let (k, lt, chain) = cut records (suc n) (omega arith) c in
    validate_relations-no_cycle records k a h lt chain
