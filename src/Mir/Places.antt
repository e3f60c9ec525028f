-- ===== src/Mir/Places.antt =====
-- The places, constants and locals of src/mir/mod.rs, with the types of places, operands and rvalues.
use kli.Prelude.{
  ℕ, suc, Bool, true, false, Option, none, some, List, [], ◌∷◌, ◌++◌, ◌==◌, if◌then◌else◌,
  get_elem?,
}
use kli.Prelude.Int.{ℤ, pos}
use kli.Prelude.Outcome.{Outcome, ok, panic, ◌>>=◌, map_m}
use kli.Types.{
  Symbol, FieldId, CaseId, Ty, Tys, nil, cons, from_list, to_list, Ctxt, Field, field_type,
}
use kli.Types.Integer.{IntegerSize, int8, int64, IntegerKind, signed, unsigned}
use kli.Types.Inhabited.{NoError}
use kli.Types.Cases.{case_at, payload_type, fields}
use kli.Mir.Syntax.{
  Local, PlaceProjection, field, constant_index, index, case_downcast, deref, PlaceBase, local,
  return_place, Place, ConstValue, Constant, Operand, load, constant, AggregateKind, BinaryOp,
  overflow, wrapping, greater, divide, equals, lesser, bitwise_and, bitwise_or, shift_left,
  shift_right, offset, Rvalue, LocalKind, LocalInfo, Body,
}

-- `Place::as_base_only` and the builders of places.
unfoldable pub as_base_only : Place → Option PlaceBase
as_base_only p = elim p.projections [ [] ↦ some p.base | _ ∷ _ ↦ none ]

unfoldable pub local_place : Local → Place
local_place l = record { base = local l; projections = [] }

unfoldable pub return_place_only : Place
return_place_only = record { base = return_place; projections = [] }

abbrev pub push : PlaceProjection → Place → Place
push projection p = record p { projections = p.projections ++ projection ∷ [] }

unfoldable pub with_field : FieldId → Place → Place
with_field f = push (field f)

unfoldable pub with_index : Local → Place → Place
with_index l = push (index l)

unfoldable pub with_deref : Place → Place
with_deref = push deref

unfoldable pub with_constant_index : ℕ → Place → Place
with_constant_index i = push (constant_index i)

unfoldable pub with_case_downcast : CaseId → Symbol → Place → Place
with_case_downcast c name = push (case_downcast c name)

-- `ConstValue::as_scalar` and the constants.
unfoldable pub as_scalar : ConstValue → Option ℤ
as_scalar (ConstValue.scalar value) = some value
as_scalar _ = none

unfoldable pub integer : IntegerKind → ℤ → Constant
integer kind value = record { ty = Ty.int kind; value = ConstValue.scalar value }

unfoldable pub const_int : IntegerSize → ℤ → Constant
unfolding integer
const_int size value = integer (signed size) value

unfoldable pub const_uint : IntegerSize → ℕ → Constant
unfolding integer
const_uint size value = integer (unsigned size) (pos value)

unfoldable pub const_zero : IntegerKind → Constant
unfolding const_int const_uint
const_zero (signed size) = const_int size (pos 0)
const_zero (unsigned size) = const_uint size 0

unfoldable pub const_bool : Bool → Constant
const_bool b = record { ty = Ty.bool; value = ConstValue.scalar (pos (if b then 1 else 0)) }

unfoldable pub const_char : ℕ → Constant
const_char c = record { ty = Ty.char; value = ConstValue.scalar (pos c) }

unfoldable pub const_zero_sized : Ty → Constant
const_zero_sized t = record { ty = t; value = ConstValue.zero_sized }

unfoldable pub const_unit : Constant
unfolding const_zero_sized
const_unit = const_zero_sized (Ty.tuple nil)

-- The type of `field_info` of src/types/mod.rs.
abbrev pub some_field : Ctxt → Tys → Option Field → Option Ty
some_field ctxt args none = none
some_field ctxt args (some f) = some (field_type ctxt args f)

unfoldable pub field_info : Ctxt → Ty → FieldId → Outcome NoError (Option Ty)
field_info ctxt (Ty.tuple ts) f = ok (get_elem? (to_list ts) f)
field_info ctxt (Ty.named id _ args) f =
    fields (ctxt.type_def id) >>= λ fs. ok (some_field ctxt args (get_elem? fs f))
field_info ctxt _ f = ok none

abbrev pub or_panic : Option Ty → Outcome NoError Ty
or_panic none = panic
or_panic (some t) = ok t

abbrev pub element_type : Ty → Outcome NoError Ty
element_type (Ty.array t) = ok t
element_type _ = panic

abbrev pub pointee : Ty → Outcome NoError Ty
pointee (Ty.box t) = ok t
pointee (Ty.raw_ptr t) = ok t
pointee _ = panic

abbrev pub downcast_type : Ctxt → CaseId → Ty → Outcome NoError Ty
downcast_type ctxt c (Ty.named id _ args) =
    case_at (ctxt.type_def id) c >>= λ case. ok (payload_type ctxt args case)
downcast_type ctxt c _ = panic

-- `apply_projection_to_type`.
unfoldable pub apply_projection_to_type : Ctxt → PlaceProjection → Ty → Outcome NoError Ty
unfolding field_info
apply_projection_to_type ctxt (field f) t = field_info ctxt t f >>= or_panic
apply_projection_to_type ctxt (index _) t = element_type t
apply_projection_to_type ctxt (constant_index _) t = element_type t
apply_projection_to_type ctxt deref t = pointee t
apply_projection_to_type ctxt (case_downcast c _) t = downcast_type ctxt c t

abbrev pub local_type : Option LocalInfo → Outcome NoError Ty
local_type none = panic
local_type (some info) = ok info.ty

-- `type_of` of a place base, a place and an operand; an index out of range panics.
unfoldable pub base_type : List LocalInfo → Ty → PlaceBase → Outcome NoError Ty
base_type locals return_type (local l) = local_type (get_elem? locals l)
base_type locals return_type return_place = ok return_type

unfoldable pub project : Ctxt → List PlaceProjection → Ty → Outcome NoError Ty
unfolding apply_projection_to_type
project ctxt [] t = ok t
project ctxt (p ∷ ps) t = apply_projection_to_type ctxt p t >>= project ctxt ps

module _ (ctxt : Ctxt) (locals : List LocalInfo) (return_type : Ty) where
  unfoldable pub place_type : Place → Outcome NoError Ty
  unfolding base_type project
  place_type p = base_type locals return_type p.base >>= project ctxt p.projections

  unfoldable pub operand_type : Operand → Outcome NoError Ty
  unfolding place_type
  operand_type (constant c) = ok c.ty
  operand_type (load p) = place_type p

  abbrev pub binary_type : BinaryOp → Ty → Ty
  binary_type (overflow _) t = Ty.tuple (cons t (cons Ty.bool nil))
  binary_type (wrapping _) t = t
  binary_type bitwise_and t = t
  binary_type bitwise_or t = t
  binary_type shift_left t = t
  binary_type shift_right t = t
  binary_type divide t = t
  binary_type equals t = Ty.bool
  binary_type lesser t = Ty.bool
  binary_type greater t = Ty.bool
  binary_type offset t = t

  -- The result does not always depend on the type of the left operand, which is then not asked for.
  abbrev pub is_comparison : BinaryOp → Bool
  is_comparison equals = true
  is_comparison lesser = true
  is_comparison greater = true
  is_comparison _ = false

  abbrev pub aggregate_type : AggregateKind → List Operand → Outcome NoError Ty
  aggregate_type AggregateKind.string operands = ok Ty.string
  aggregate_type (AggregateKind.array t) operands = ok (Ty.array t)
  aggregate_type (AggregateKind.variant id _ args) operands =
      ok (Ty.named id (ctxt.type_def id).name args)
  aggregate_type (AggregateKind.named_record id args) operands =
      ok (Ty.named id (ctxt.type_def id).name args)
  aggregate_type AggregateKind.tuple operands =
      map_m operand_type operands >>= λ ts. ok (Ty.tuple (from_list ts))

  abbrev pub return_of : Ty → Outcome NoError Ty
  return_of (Ty.function _ r) = ok r
  return_of _ = panic

  abbrev pub pointer_to_elements : Ty → Outcome NoError Ty
  pointer_to_elements (Ty.array t) = ok (Ty.raw_ptr t)
  pointer_to_elements Ty.string = ok (Ty.raw_ptr (Ty.int (unsigned int8)))
  pointer_to_elements _ = panic

  -- `Rvalue::type_of`.
  unfoldable pub rvalue_type : Rvalue → Outcome NoError Ty
  unfolding operand_type
  rvalue_type (Rvalue.gc_alloc t _) = ok (Ty.raw_ptr t)
  rvalue_type Rvalue.read_line = ok Ty.string
  rvalue_type (Rvalue.uninit_zeroed t) = ok t
  rvalue_type (Rvalue.use_of o) = operand_type o
  rvalue_type (Rvalue.len _) = ok (Ty.int (unsigned int64))
  rvalue_type (Rvalue.call f _) = operand_type f >>= return_of
  rvalue_type (Rvalue.binary op l r) =
      if is_comparison op then ok Ty.bool else (operand_type l >>= λ t. ok (binary_type op t))
  rvalue_type (Rvalue.aggregate kind operands) = aggregate_type kind operands
  rvalue_type (Rvalue.cast _ _ t) = ok t
  rvalue_type (Rvalue.discriminant _) = ok (Ty.int (unsigned int64))
  rvalue_type (Rvalue.array_ptr p) = place_type p >>= pointer_to_elements

-- `can_remove_if_unused`.
unfoldable pub can_remove_if_unused : Rvalue → Bool
can_remove_if_unused (Rvalue.gc_alloc _ _) = false
can_remove_if_unused (Rvalue.call _ _) = false
can_remove_if_unused Rvalue.read_line = false
can_remove_if_unused _ = true

abbrev pub is_param : LocalKind → Bool
is_param (LocalKind.param _) = true
is_param _ = false

-- `params_iter`, from the local `i` on, and `param_types`.
unfoldable pub params_from : Local → List LocalInfo → List Local
params_from i [] = []
params_from i (info ∷ infos) =
    let rest = params_from (suc i) infos in if is_param info.kind then i ∷ rest else rest

unfoldable pub params_iter : Body → List Local
unfolding params_from
params_iter body = params_from 0 body.locals

unfoldable pub param_types : List LocalInfo → List Ty
param_types [] = []
param_types (info ∷ infos) =
    let rest = param_types infos in if is_param info.kind then info.ty ∷ rest else rest

abbrev pub is_var : ℕ → LocalKind → Bool
is_var id (LocalKind.var v) = v.id == id
is_var id (LocalKind.param (some v)) = v.id == id
is_var id _ = false

-- `local_for_var`, from the local `i` on.
unfoldable pub local_for_var : ℕ → Local → List LocalInfo → Option Local
local_for_var id i [] = none
local_for_var id i (info ∷ infos) =
    if is_var id info.kind then some i else local_for_var id (suc i) infos
