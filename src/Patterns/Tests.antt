-- ===== src/Patterns/Tests.antt =====
-- The pattern check on concrete patterns, and the theorems of `Patterns` at them.
use kli.Prelude.{◌≡◌, refl, Bool, true, false, none, some, List, [], ◌∷◌}
use kli.Prelude.Outcome.{ok}
use kli.Types.{Ty, nil, cons, Ctxt, Case, variant_def, bind}
use kli.Types.Inhabited.{is_uninhabited}
use kli.Patterns.Ctors.{
  cases, constructors_of_ty, fields_of, Constructor, def_constructors, inhabited_cases, record_ctor,
}
use kli.Patterns.Pat.{
  Pat, pat, Fields, specialize, seen_constructors, split_constructors, specialize_row,
  place_patterns, with_indices, contains, wild,
}
use kli.Patterns.Missing.{missing_for}
use kli.Patterns.Convert.{
  Pattern, pattern_of, PatternKind, bare_case, binding, record_pat, pattern_field, no_fields,
}
use kli.Patterns.Values.{Value, Values, con, none_left, next, HasType, case_value, done}
use kli.Patterns.Visit.{check_patterns}
use kli.Patterns.Inhabited.{is_uninhabited_sound}
use kli.Patterns.Covered.{Listed, constructors_of_ty-covers}

-- `type t = a | b(never)`.
abbrev cases_of_t : List Case
cases_of_t =
    record { id = 1; name = 10; field = none }
    ∷ record { id = 2; name = 20; field = some (record { id = 3; name = 0 }) }
    ∷ []

abbrev sample_ctxt : Ctxt
sample_ctxt = record {
  type_def = λ _. record { name = 0; kind = variant_def cases_of_t };
  type_of = λ _. Ty.never;
  same_module = λ _ _. true;
  is_opaque = λ _. false;
  is_type_recursive = λ _. false;
}

abbrev pair_type : Ty
pair_type = Ty.tuple (cons Ty.bool (cons Ty.bool nil))

abbrev bool_pattern : Bool → Pattern
bool_pattern b = pattern_of Ty.bool (PatternKind.bool b)

abbrev pair_pattern : Pattern → Pattern → Pattern
pair_pattern p q =
    pattern_of pair_type (record_pat (pattern_field 0 p (pattern_field 1 q no_fields)))

abbrev any_bool : Pattern
any_bool = pattern_of Ty.bool binding

-- (true, _), (false, true), (_, false)
abbrev three_pairs : List Pattern
three_pairs =
    pair_pattern (bool_pattern true) any_bool
    ∷ pair_pattern (bool_pattern false) (bool_pattern true)
    ∷ pair_pattern any_bool (bool_pattern false)
    ∷ []

-- Without the last one the pair (false, false) is reported.
two_pairs_fail :
    check_patterns sample_ctxt 0 9 pair_type (
      pair_pattern (bool_pattern true) any_bool
      ∷ pair_pattern (bool_pattern false) (bool_pattern true)
      ∷ [])
    ≡ ok (
        pat pair_type record_ctor (
          Fields.cons
            (pat Ty.bool (Constructor.bool false) Fields.nil)
            0
            (Fields.cons (pat Ty.bool (Constructor.bool false) Fields.nil) 1 Fields.nil))
        ∷ [])
unfolding check_patterns missing_for constructors_of_ty fields_of specialize seen_constructors
    split_constructors specialize_row place_patterns with_indices contains
two_pairs_fail = refl

abbrev false_false : Value
false_false = con record_ctor (
    next (con (Constructor.bool false) none_left)
      (next (con (Constructor.bool false) none_left) none_left))

abbrev type_t : Ty
type_t = Ty.named 0 0 nil

-- The case that holds a `never` needs no pattern.
case_a_passes :
    check_patterns sample_ctxt 0 9 type_t (pattern_of type_t (bare_case 10) ∷ []) ≡ ok []
unfolding check_patterns missing_for constructors_of_ty fields_of specialize seen_constructors
    split_constructors specialize_row place_patterns with_indices contains is_uninhabited bind
case_a_passes = refl

abbrev case_a : Value
case_a = con (Constructor.case 10) none_left

case_a-HasType : HasType sample_ctxt type_t case_a
case_a-HasType =
    case_value cases_of_t (record { id = 1; name = 10; field = none }) 10 refl refl done

cases_that_count : constructors_of_ty sample_ctxt 3 0 type_t ≡ ok (cases (10 ∷ []))
unfolding constructors_of_ty def_constructors inhabited_cases is_uninhabited bind
cases_that_count = refl

constructors_of_ty-covers_example : Listed (cases (10 ∷ [])) (Constructor.case 10)
constructors_of_ty-covers_example =
    constructors_of_ty-covers sample_ctxt 3 0 type_t case_a (cases (10 ∷ [])) cases_that_count
      case_a-HasType

-- (bool, never) has no value.
abbrev empty_pair : Ty
empty_pair = Ty.tuple (cons Ty.bool (cons Ty.never nil))

empty_pair_is_reported : is_uninhabited sample_ctxt 2 empty_pair ≡ ok true
unfolding is_uninhabited
empty_pair_is_reported = refl

is_uninhabited_sound_example : ¬ HasType sample_ctxt empty_pair false_false
is_uninhabited_sound_example =
    is_uninhabited_sound sample_ctxt 2 empty_pair false_false empty_pair_is_reported

abbrev two_bools : Values
two_bools =
    next (con (Constructor.bool true) none_left)
      (next (con (Constructor.bool false) none_left) none_left)

-- The matrix with the rows (true, _), (false, _).
abbrev two_rows : List (List Pat)
two_rows =
    (pat Ty.bool (Constructor.bool true) Fields.nil ∷ wild Ty.bool ∷ [])
    ∷ (pat Ty.bool (Constructor.bool false) Fields.nil ∷ wild Ty.bool ∷ [])
    ∷ []
