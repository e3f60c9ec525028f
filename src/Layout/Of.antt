-- ===== src/Layout/Of.antt =====
-- `calculate_layout` of src/layout/mod.rs, over the layouts of the parts of a type.
--
-- The source recurs through the definitions of named types without a bound; the model takes fuel,
-- one for each type on the way down.
pub mod Whole
pub mod Enough
use kli.Prelude.{ℕ, zero, suc, true, false, Option, none, some, List, [], ◌∷◌}
use kli.Prelude.Outcome.{Outcome, ok, err, out_of_fuel, ◌>>=◌, map_m}
use kli.Types.{
  Ty, Tys, infer, unknown, int, int_var, bool, char, never, param, function, tuple, array, named,
  string, box, uninit, raw_ptr, to_list, Ctxt, Field, Case, TypeDefKind, record_def, variant_def,
  field_type, tag_type,
}
use kli.Types.Integer.{IntegerKind, signed_and_size, int32, int64}
use kli.Layout.Size.{LayoutError, too_generic}
use kli.Layout.Defs.{
  Layout, layout, LayoutKind, size, alignment, from_scalar, pointer_layout, zst, uninhabited_layout,
  Scalar,
}
use kli.Layout.Aggregate.{aggregate_layout, record_layout}
use kli.Layout.Variant.{variant_layout}

unfoldable pub integer_layout : IntegerKind → Layout
integer_layout k = let (signed, s) = signed_and_size k in from_scalar (Scalar.int signed s)

module _ (ctxt : Ctxt) (layout_of : Ty → Outcome LayoutError Layout) where
  -- The payload of a case, at the generic arguments of the type.
  unfoldable pub case_layout : Tys → Case → Outcome LayoutError Layout
  unfolding zst
  case_layout args c = elim c.field [ some f ↦ layout_of (field_type ctxt args f) | none ↦ ok zst ]

  -- The two branches of a named type.
  unfoldable pub named_layout : Tys → TypeDefKind → Outcome LayoutError Layout
  unfolding case_layout
  named_layout args (record_def fields) =
      map_m (λ f. layout_of (field_type ctxt args f)) fields >>= record_layout
  named_layout args (variant_def cases) =
      map_m (case_layout args) cases >>= variant_layout (tag_type cases)

unfoldable pub calculate_layout : Ctxt → ℕ → Ty → Outcome LayoutError Layout
calculate_layout ctxt zero t = out_of_fuel
calculate_layout ctxt (suc n) (raw_ptr _) = ok (pointer_layout false)
calculate_layout ctxt (suc n) (uninit t) = do
  l ← calculate_layout ctxt n t
  ok (layout (size l) (alignment l) (LayoutKind.uninit l))
calculate_layout ctxt (suc n) (infer _) = err LayoutError.unknown
calculate_layout ctxt (suc n) unknown = err LayoutError.unknown
calculate_layout ctxt (suc n) (int_var _) = err LayoutError.unknown
calculate_layout ctxt (suc n) (int k) = ok (integer_layout k)
calculate_layout ctxt (suc n) bool = ok (layout 1 0 (LayoutKind.scalar Scalar.bool))
calculate_layout ctxt (suc n) char = ok (from_scalar (Scalar.int false int32))
calculate_layout ctxt (suc n) never = ok (uninhabited_layout zst)
calculate_layout ctxt (suc n) (param _ _) = err too_generic
calculate_layout ctxt (suc n) (function _ _) = ok (pointer_layout true)
calculate_layout ctxt (suc n) (box _) = ok (pointer_layout true)
calculate_layout ctxt (suc n) (array _) =
    aggregate_layout ((0, pointer_layout true) ∷ (1, from_scalar (Scalar.int false int64)) ∷ [])
calculate_layout ctxt (suc n) string =
    aggregate_layout ((0, pointer_layout true) ∷ (1, from_scalar (Scalar.int false int64)) ∷ [])
calculate_layout ctxt (suc n) (tuple ts) =
    map_m (calculate_layout ctxt n) (to_list ts) >>= record_layout
calculate_layout ctxt (suc n) (named id _ args) =
    named_layout ctxt (calculate_layout ctxt n) args (ctxt.type_def id).kind
