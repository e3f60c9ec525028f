-- ===== src/Patterns/Ctors.antt =====
-- src/patterns/ctors.rs: the constructors of a type, and the types of a constructor's fields.
use kli.Prelude.{
  ℕ, Bool, true, false, not, ◌&&◌, Option, none, some, List, [], ◌∷◌, map, ◌==◌, if◌then◌else◌,
}
use kli.Prelude.Outcome.{Outcome, ok, panic, ◌>>=◌}
use kli.Types.{
  Symbol, DefId, Ty, Tys, infer, tuple, named, to_list, Ctxt, Case, TypeDefKind, record_def,
  variant_def, field_type,
}
use kli.Types.Inhabited.{NoError, any_m, case_uninhabited, is_uninhabited}

-- An `Int` holds a literal of the source, a `u64`, so it is never negative.
pub data Constructor : Type 0 where
  bool : Bool → Constructor
  int : ℕ → Constructor
  wildcard : Constructor
  record_ctor : Constructor
  case : Symbol → Constructor
  non_exhaustive : Constructor
  missing : Constructor
  char : ℕ → Constructor

-- The derived equality.
unfoldable pub ctor_eq : Constructor → Constructor → Bool
ctor_eq (bool true) (bool b) = b
ctor_eq (bool false) (bool b) = not b
ctor_eq (int m) (int n) = m == n
ctor_eq wildcard wildcard = true
ctor_eq record_ctor record_ctor = true
ctor_eq (case m) (case n) = m == n
ctor_eq non_exhaustive non_exhaustive = true
ctor_eq missing missing = true
ctor_eq (char m) (char n) = m == n
ctor_eq _ _ = false

pub data ConstructorSet : Type 0 where
  bools : ConstructorSet
  never : ConstructorSet
  open_set : ConstructorSet
  record_set : ConstructorSet
  cases : List Symbol → ConstructorSet

-- The names of the cases that have a value.
unfoldable pub inhabited_cases : Ctxt → ℕ → Tys → List Case → Outcome NoError (List Symbol)
inhabited_cases ctxt fuel args [] = ok []
inhabited_cases ctxt fuel args (c ∷ cs) = do
  empty ← case_uninhabited ctxt (is_uninhabited ctxt fuel) args c
  rest ← inhabited_cases ctxt fuel args cs
  ok (if empty then rest else c.name ∷ rest)

unfoldable pub def_constructors : Ctxt → ℕ → Tys → TypeDefKind → Outcome NoError ConstructorSet
unfolding inhabited_cases
def_constructors ctxt fuel args (record_def fields) = do
  empty ← any_m (λ f. is_uninhabited ctxt fuel (field_type ctxt args f)) fields
  ok (if empty then never else record_set)
def_constructors ctxt fuel args (variant_def cs) = do
  names ← inhabited_cases ctxt fuel args cs
  ok (cases names)

-- `constructors_of_ty`, asked from the definition `from`.
unfoldable pub constructors_of_ty : Ctxt → ℕ → DefId → Ty → Outcome NoError ConstructorSet
unfolding def_constructors
constructors_of_ty ctxt fuel from Ty.bool = ok bools
constructors_of_ty ctxt fuel from Ty.never = ok never
constructors_of_ty ctxt fuel from (tuple _) = ok record_set
constructors_of_ty ctxt fuel from (infer _) = panic
constructors_of_ty ctxt fuel from (named id _ args) =
    if not (ctxt.same_module id from) && ctxt.is_opaque id
    then ok open_set
    else def_constructors ctxt fuel args (ctxt.type_def id).kind
constructors_of_ty ctxt fuel from _ = ok open_set

-- `cases.iter().find(|case| case.name == name)`.
abbrev pub find_case : Symbol → List Case → Option Case
find_case name [] = none
find_case name (c ∷ cs) = if c.name == name then some c else find_case name cs

-- The types of the payload of a case: one, or none.
abbrev pub payload_types : Ctxt → Tys → Case → List Ty
payload_types ctxt args c = elim c.field [ some f ↦ field_type ctxt args f ∷ [] | none ↦ [] ]

abbrev pub record_fields : Ctxt → Tys → TypeDefKind → Outcome NoError (List Ty)
record_fields ctxt args (record_def fields) = ok (map (field_type ctxt args) fields)
record_fields ctxt args (variant_def _) = panic

abbrev pub case_fields : Ctxt → Tys → Symbol → TypeDefKind → Outcome NoError (List Ty)
case_fields ctxt args name (record_def fields) = ok (map (field_type ctxt args) fields)
case_fields ctxt args name (variant_def cs) = elim (find_case name cs) [
  | some c ↦ ok (payload_types ctxt args c)
  | none ↦ panic
]

abbrev pub fields_of_record : Ctxt → Ty → Outcome NoError (List Ty)
fields_of_record ctxt (named id _ args) = record_fields ctxt args (ctxt.type_def id).kind
fields_of_record ctxt (tuple ts) = ok (to_list ts)
fields_of_record ctxt _ = panic

abbrev pub fields_of_case : Ctxt → Symbol → Ty → Outcome NoError (List Ty)
fields_of_case ctxt name (named id _ args) = case_fields ctxt args name (ctxt.type_def id).kind
fields_of_case ctxt name _ = panic

-- `fields_of`.
unfoldable pub fields_of : Ctxt → Ty → Constructor → Outcome NoError (List Ty)
fields_of ctxt t record_ctor = fields_of_record ctxt t
fields_of ctxt t (case name) = fields_of_case ctxt name t
fields_of ctxt t _ = ok []
