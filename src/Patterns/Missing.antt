-- ===== src/Patterns/Missing.antt =====
-- `missing_patterns` and `missing_patterns_inner` of src/patterns/pat.rs.
--
-- The source recurs until no column is left; the model takes fuel, one for each column on the way.
pub mod Rows
pub mod Shape
pub mod Sound
use kli.Prelude.{
  ℕ, zero, suc, Bool, true, false, List, [], ◌∷◌, ◌++◌, map, if◌then◌else◌, length, take, drop,
}
use kli.Prelude.Outcome.{Outcome, ok, panic, out_of_fuel, ◌>>=◌, map_m}
use kli.Types.{DefId, Ty, Ctxt}
use kli.Types.Inhabited.{NoError}
use kli.Patterns.Ctors.{Constructor, missing, ctor_eq, constructors_of_ty, fields_of}
use kli.Patterns.Pat.{
  Pat, pat, Row, wild, with_indices, specialize, seen_constructors, split_constructors,
}

abbrev pub is_empty {ℓ} : {A : Type ℓ} → List A → Bool
is_empty [] = true
is_empty (_ ∷ _) = false

abbrev pub concat {ℓ} : {A : Type ℓ} → List (List A) → List A
concat [] = []
concat (xs ∷ xss) = xs ++ concat xss

-- The pattern of a constructor that no row has, with a wildcard for each field.
unfoldable pub absent_pattern : Ctxt → Ty → Constructor → Outcome NoError Pat
absent_pattern ctxt head c = do
  ts ← fields_of ctxt head c
  ok (pat head c (with_indices 0 (map wild ts)))

-- The rows that one missing row of the specialized matrix stands for.
unfoldable pub rebuild :
    Ctxt → Ty → Constructor → ℕ → List Constructor → Row → Outcome NoError (List Row)
unfolding ctor_eq absent_pattern
rebuild ctxt head c count absent row =
    if ctor_eq c missing
    then map_m (λ d. absent_pattern ctxt head d >>= λ p. ok (p ∷ row)) absent
    else ok ((pat head c (with_indices 0 (take count row)) ∷ drop count row) ∷ [])

-- The body of the loop over the constructors; `rec` is the recursive call.
unfoldable pub missing_for :
    Ctxt
    → (List Ty → List Row → Outcome NoError (List Row))
    → Ty
    → List Ty
    → List Row
    → List Constructor
    → Constructor
    → Outcome NoError (List Row)
unfolding rebuild
missing_for ctxt rec head rest matrix absent c = do
  ts ← fields_of ctxt head c
  specialized ← specialize c ts matrix
  rows ← rec (ts ++ rest) specialized
  rebuilt ← map_m (rebuild ctxt head c (length ts) absent) rows
  ok (concat rebuilt)

abbrev pub with_missing : List Constructor → List Constructor → List Constructor
with_missing present absent = if is_empty absent then present else present ++ missing ∷ []

unfoldable pub missing_patterns_inner :
    Ctxt → DefId → ℕ → List Ty → List Row → Outcome NoError (List Row)
missing_patterns_inner ctxt from zero ts matrix = out_of_fuel
missing_patterns_inner ctxt from (suc n) [] matrix = ok (if is_empty matrix then [] ∷ [] else [])
missing_patterns_inner ctxt from (suc n) (head ∷ rest) matrix = do
  set ← constructors_of_ty ctxt n from head
  let (present, absent) = split_constructors set (seen_constructors matrix)
  rows ←
      map_m (missing_for ctxt (missing_patterns_inner ctxt from n) head rest matrix absent)
        (with_missing present absent)
  ok (concat rows)

-- `row.swap_remove(0)`, which panics on an empty row.
abbrev pub first_of_row : Row → Outcome NoError Pat
first_of_row [] = panic
first_of_row (p ∷ _) = ok p

-- `missing_patterns`.
unfoldable pub missing_patterns : Ctxt → DefId → ℕ → Ty → List Pat → Outcome NoError (List Pat)
unfolding missing_patterns_inner
missing_patterns ctxt from fuel t patterns = do
  rows ← missing_patterns_inner ctxt from fuel (t ∷ []) (map (λ p. p ∷ []) patterns)
  map_m first_of_row rows
