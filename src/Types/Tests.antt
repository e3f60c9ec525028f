-- ===== src/Types/Tests.antt =====
-- The cases of a concrete type, and the theorems of `Types.Cases` at them.
use kli.Prelude.{ℕ, ◌<◌, ◌≡◌, refl, none, List, [], ◌∷◌, arith}
use kli.Prelude.Outcome.{ok}
use kli.Types.{Case, TypeDefInfo, TagType, variant_def}
use kli.Types.Cases.{
  case_value, case_value-fits, case_with_id, case_with_id-found, case_at, tag_bound,
}

abbrev second : Case
second = record { id = 8; name = 2; field = none }

abbrev two_cases : List Case
two_cases = record { id = 7; name = 1; field = none } ∷ second ∷ []

abbrev two : TypeDefInfo
two = record { name = 0; kind = variant_def two_cases }

case_value-fits_example :
    (tag : TagType) × (n : ℕ) × (case_value two 1 ≡ ok (tag, n)) × (n < tag_bound tag)
case_value-fits_example = case_value-fits two two_cases 1 refl (omega arith) (omega arith)

second-with_id : case_with_id two 8 ≡ ok (1, second)
unfolding case_with_id
second-with_id = refl

case_with_id-found_example : (case_at two 1 ≡ ok second) × (second.id ≡ 8)
case_with_id-found_example = case_with_id-found two 8 1 second second-with_id
