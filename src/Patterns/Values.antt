-- ===== src/Patterns/Values.antt =====
-- What a value of a type is, and when a pattern matches it: the meaning against which the check of
-- src/patterns is proved. It does not refer to the constructor sets that the check computes.
use kli.Prelude.{
  ℕ, zero, suc, ◌≡◌, ◌⊎◌, Bool, true, false, ◌&&◌, ◌||◌, Option, none, some, List, [], ◌∷◌, map,
  length, All, ◌≢◌,
}
use kli.Types.{
  Symbol, DefId, Ty, Tys, tuple, named, box, to_list, Ctxt, Field, Case, record_def, variant_def,
  field_type,
}
use kli.Patterns.Ctors.{
  Constructor, wildcard, record_ctor, case, non_exhaustive, missing, ctor_eq, find_case,
  payload_types,
}
use kli.Patterns.Pat.{Pat, pat, Fields, nil, cons, Row}

-- A value is a constructor with the values of its fields. Of a type that cannot be taken apart the
-- values are atoms: literals, or any constructor but `missing`, with no field. A box has a value if its
-- content has one, and no pattern looks into it.
mutual
  pub data Value : Type 0 where
    con : Constructor → Values → Value

  pub data Values : Type 0 where
    none_left : Values
    next : Value → Values → Values

abbrev pub head_of : Value → Constructor
head_of (con d _) = d

abbrev pub parts_of : Value → Values
parts_of (con _ ws) = ws

abbrev pub append : Values → Values → Values
append none_left vs = vs
append (next w ws) vs = next w (append ws vs)

abbrev pub value_at : Values → ℕ → Option Value
value_at none_left i = none
value_at (next w ws) zero = some w
value_at (next w ws) (suc i) = value_at ws i

abbrev pub count : Values → ℕ
count none_left = 0
count (next _ ws) = suc (count ws)

-- The types whose values cannot be taken apart by patterns of fields.
abbrev pub IsAtomic : Ty → Type 0
IsAtomic (Ty.int _) = Unit
IsAtomic (Ty.int_var _) = Unit
IsAtomic Ty.char = Unit
IsAtomic Ty.unknown = Unit
IsAtomic (Ty.param _ _) = Unit
IsAtomic (Ty.function _ _) = Unit
IsAtomic (Ty.array _) = Unit
IsAtomic Ty.string = Unit
IsAtomic (Ty.uninit _) = Unit
IsAtomic (Ty.raw_ptr _) = Unit
IsAtomic _ = ⊥

mutual
  pub data HasType (ctxt : Ctxt) : Ty → Value → Type 0 where
    bool_value : (b : Bool) → HasType ctxt Ty.bool (con (Constructor.bool b) none_left)
    atom : (t : Ty) (d : Constructor) → IsAtomic t → d ≢ missing → HasType ctxt t (con d none_left)
    boxed :
        {t : Ty} {v : Value}
        → HasType ctxt t v
        → HasType ctxt (box t) (con non_exhaustive none_left)
    tuple_value :
        {ts : Tys} {ws : Values}
        → HasTypes ctxt (to_list ts) ws
        → HasType ctxt (tuple ts) (con record_ctor ws)
    record_value :
        {id : DefId} {name : Symbol} {args : Tys} {ws : Values} (fs : List Field)
        → (ctxt.type_def id).kind ≡ record_def fs
        → HasTypes ctxt (map (field_type ctxt args) fs) ws
        → HasType ctxt (named id name args) (con record_ctor ws)
    case_value :
        {id : DefId} {name : Symbol} {args : Tys} {ws : Values} (cs : List Case) (c : Case)
        (case_name : Symbol)
        → (ctxt.type_def id).kind ≡ variant_def cs
        → find_case case_name cs ≡ some c
        → HasTypes ctxt (payload_types ctxt args c) ws
        → HasType ctxt (named id name args) (con (case case_name) ws)

  pub data HasTypes (ctxt : Ctxt) : List Ty → Values → Type 0 where
    done : HasTypes ctxt [] none_left
    more :
        {t : Ty} {ts : List Ty} {v : Value} {vs : Values}
        → HasType ctxt t v
        → HasTypes ctxt ts vs
        → HasTypes ctxt (t ∷ ts) (next v vs)

-- A wildcard matches every value; any other pattern matches the values of its constructor whose
-- fields its own fields match.
unfoldable mutual
  pub matches : Pat → Value → Bool
  matches (pat _ c fs) (con d ws) = ctor_eq c wildcard || (ctor_eq c d && matches_fields fs ws)

  pub matches_fields : Fields → Values → Bool
  matches_fields nil ws = true
  matches_fields (cons p i fs) ws =
      elim (value_at ws i) [ none ↦ false | some w ↦ matches p w ] && matches_fields fs ws

-- A row matches a row of values of the same length.
unfoldable pub matches_row : Row → Values → Bool
matches_row [] none_left = true
matches_row [] (next _ _) = false
matches_row (p ∷ ps) none_left = false
matches_row (p ∷ ps) (next v vs) = matches p v && matches_row ps vs

-- Some row of the matrix matches.
abbrev pub HasMatch : List Row → Values → Type 0
HasMatch [] vs = ⊥
HasMatch (row ∷ matrix) vs = (matches_row row vs ≡ true) ⊎ HasMatch matrix vs

-- The patterns that the conversion produces: none stands for missing constructors, and no field is
-- given twice.
abbrev pub IsAbsent : ℕ → Fields → Type 0
IsAbsent i nil = Unit
IsAbsent i (cons _ j fs) = (i ≢ j) × IsAbsent i fs

unfoldable mutual
  pub IsPattern : Pat → Type 0
  IsPattern (pat _ c fs) = (ctor_eq c missing ≡ false) × IsFields fs

  pub IsFields : Fields → Type 0
  IsFields nil = Unit
  IsFields (cons p i fs) = IsPattern p × IsAbsent i fs × IsFields fs

-- A matrix of such patterns with `k` columns.
abbrev pub IsMatrix : ℕ → List Row → Type 0
IsMatrix k = All λ row. (length row ≡ k) × All IsPattern row
