-- ===== src/Prelude/Result.antt =====
-- `anyhow::Result`: a value or an error, with `?` as the bind and `ensure!` as a guard.
use mathlib.Core.Path.{◌≡◌, refl}
use mathlib.Core.Bool.{Bool, true, false}
use mathlib.Core.Option.{Option, none, some}
use mathlib.Core.List.{List, [], ◌∷◌}

pub data Result {ℓ} (Failure : Type 0) (Value : Type ℓ) : Type ℓ where
  err : Failure → Result Failure Value
  ok : Value → Result Failure Value

abbrev pub is_ok {ℓ} : {E : Type 0} {A : Type ℓ} → Result E A → Bool
is_ok (ok _) = true
is_ok (err _) = false

-- `Option::ok_or_else`
abbrev pub ok_or {ℓ} : {E : Type 0} {A : Type ℓ} → Option A → E → Result E A
ok_or (some a) e = ok a
ok_or none e = err e

-- `ensure!(test, error)`
abbrev pub ensure : {E : Type 0} → Bool → E → Result E (Unit {0})
ensure false reason = err reason
ensure true reason = ok tt

module _ {ℓ κ} {E : Type 0} {A : Type ℓ} {B : Type κ} where
  -- `let a = first?; next(a)`
  infixl 5 ◌>>=◌
  abbrev pub ◌>>=◌ : Result E A → (A → Result E B) → Result E B
  err reason >>= next = err reason
  ok value >>= next = next value

  pub >>=-eq-ok :
      (first : Result E A) (next : A → Result E B) {b : B}
      → (first >>= next) ≡ ok b
      → (a : A) × (first ≡ ok a) × (next a ≡ ok b)
  >>=-eq-ok (err reason) next h = cc
  >>=-eq-ok (ok value) next h = (value, refl, h)

module _ {ℓ} {E : Type 0} {B : Type ℓ} where
  -- `first?; rest`
  infixl 5 ◌>>◌
  abbrev pub ◌>>◌ : Result E (Unit {0}) → Result E B → Result E B
  first >> rest = first >>= λ _. rest

pub >>-eq-ok :
    {E : Type 0} (first rest : Result E (Unit {0}))
    → (first >> rest) ≡ ok tt
    → (first ≡ ok tt) × (rest ≡ ok tt)
>>-eq-ok (err reason) rest h = cc
>>-eq-ok (ok _) rest h = (refl, h)

-- `for x in xs { f(x)?; }`
unfoldable pub for_each {ℓ} :
    {E : Type 0} {A : Type ℓ} → (A → Result E (Unit {0})) → List A → Result E (Unit {0})
for_each f [] = ok tt
for_each f (x ∷ xs) = let rest = for_each f xs in f x >> rest

-- Two values are the same if the results are.
pub ok-inj {ℓ} : {E : Type 0} {A : Type ℓ} {a b : A} → ◌≡◌ {A = Result E A} (ok a) (ok b) → a ≡ b
ok-inj h = cc
