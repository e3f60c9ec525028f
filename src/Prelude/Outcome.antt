-- ===== src/Prelude/Outcome.antt =====
-- What a run of the compiler's code can do: return a value, return its error, panic, or (in a
-- model that recurs on fuel) not have returned within the fuel.
use mathlib.Core.Path.{◌≡◌, refl}
use mathlib.Core.List.{List, [], ◌∷◌}

pub data Outcome {ℓ} (E : Type 0) (A : Type ℓ) : Type ℓ where
  ok : A → Outcome E A
  err : E → Outcome E A
  panic : Outcome E A
  out_of_fuel : Outcome E A

-- The rest of the run goes on with a value; anything else ends it.
infixl 1 ◌>>=◌
abbrev pub ◌>>=◌ {ℓ κ} :
    {E : Type 0} {A : Type ℓ} {B : Type κ} → Outcome E A → (A → Outcome E B) → Outcome E B
panic >>= rest = panic
out_of_fuel >>= rest = out_of_fuel
err problem >>= rest = err problem
ok value >>= rest = rest value

-- `iter.map(f).collect::<Result<Vec<_>, _>>()`: the first failure is the result.
abbrev pub map_m {ℓ κ} :
    {E : Type 0} {A : Type ℓ} {B : Type κ} → (A → Outcome E B) → List A → Outcome E (List B)
map_m f [] = ok []
map_m f (x ∷ xs) = f x >>= λ y. map_m f xs >>= λ ys. ok (y ∷ ys)

module _ {ℓ κ} {E : Type 0} {A : Type ℓ} {B : Type κ} where
  -- A run that returns went through a value of its first part.
  pub >>=-eq-ok :
      (run : Outcome E A) (rest : A → Outcome E B) {result : B}
      → (run >>= rest) ≡ ok result
      → (value : A) × (run ≡ ok value) × (rest value ≡ ok result)
  >>=-eq-ok panic rest ends = cc
  >>=-eq-ok out_of_fuel rest ends = cc
  >>=-eq-ok (err problem) rest ends = cc
  >>=-eq-ok (ok value) rest ends = (value, refl, ends)
