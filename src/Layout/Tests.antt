-- ===== src/Layout/Tests.antt =====
-- Layouts of concrete types, and the theorems of `Layout` at them.
use kli.Prelude.{
  ℕ, ◌+◌, ◌≤◌, ◌<◌, ◌≡◌, ◌≢◌, refl, true, false, some, [], ◌∷◌, List, arith, get_elem?, All-get,
  ◌↔◌,
}
use kli.Prelude.Arith.{IsMultiple}
use kli.Prelude.Outcome.{ok, out_of_fuel}
use kli.Types.{Ty, nil, cons, Ctxt, record_def, tag_uint8, CaseId}
use kli.Types.Integer.{
  unsigned, int8, int32, int64, literal_too_large, literal_check-exact, modulus, signed_and_size,
}
use kli.Layout.Size.{Size, in_bytes, align_to, align_to-least, add}
use kli.Layout.Defs.{
  Layout, layout, scalar, Scalar, size, alignment, scalar_size, scalar_align, from_scalar,
}
use kli.Layout.Aggregate.{
  aggregate_layout, place_fields, place_field, index_mut, start, sort_fields, insert_field,
  enumerate, record_layout,
}
use kli.Layout.Aggregate.Place.{IsPlacement, aggregate_layout-IsPlacement}
use kli.Layout.Aggregate.Sorted.{IsRecord, record_layout-IsRecord}
use kli.Layout.Aggregate.Total.{record_layout-total, top_align, padded_size}
use kli.Layout.Variant.{variant_layout, biggest, downcast_layout}
use kli.Layout.Variant.Payload.{Holds, variant_layout-Holds, payload_offset, prefixed}
use kli.Layout.Variant.Overrun.{variant_layout_overrun}
use kli.Layout.Of.{calculate_layout, integer_layout}
use kli.Layout.Of.Enough.{calculate_layout-ends}
use kli.Layout.Of.Whole.{IsWhole, calculate_layout-IsWhole}

abbrev int_of : ℕ → ℕ → Layout
int_of s a = layout s a (scalar (Scalar.int false int32))

abbrev three_fields : List Layout
three_fields = int_of 1 0 ∷ int_of 8 3 ∷ int_of 4 2 ∷ []

abbrev sample_ctxt : Ctxt
sample_ctxt = record {
  type_def = λ _. record { name = 0; kind = record_def [] };
  type_of = λ _. Ty.unknown;
  same_module = λ _ _. true;
  is_opaque = λ _. false;
  is_type_recursive = λ _. false;
}

abbrev pair_type : Ty
pair_type = Ty.tuple (cons Ty.bool (cons (Ty.int (unsigned int64)) nil))

-- Every field of a record is padded to the alignment of the whole.
size_of_three :
    (r : Layout) × (record_layout three_fields ≡ ok r) × (size r ≡ 24) × (alignment r ≡ 3)
unfolding record_layout aggregate_layout place_fields place_field index_mut start sort_fields
    insert_field enumerate align_to add
size_of_three = (_, refl, refl, refl)

literal_check-exact_example :
    (literal_too_large 300 (unsigned int8) ≡ false) ↔ (300 < modulus (unsigned int8))
literal_check-exact_example = literal_check-exact 300 (unsigned int8)

align_to-least_example :
    (r : Size) × (align_to 13 3 ≡ ok r)
    × IsMultiple (in_bytes 3) r
    × (13 ≤ r)
    × ((t : ℕ) → IsMultiple (in_bytes 3) t → 13 ≤ t → r ≤ t)
align_to-least_example = align_to-least 13 3 (omega arith)

record_layout-total_example :
    (r : Layout) × (record_layout three_fields ≡ ok r)
    × (alignment r ≡ top_align three_fields)
    × (size r ≡ padded_size (top_align three_fields) three_fields)
record_layout-total_example = record_layout-total three_fields (omega arith)

record_layout-IsRecord_example : IsRecord three_fields (size_of_three.0)
record_layout-IsRecord_example =
    record_layout-IsRecord three_fields (size_of_three.0) size_of_three.1

abbrev two_fields : List (ℕ × Layout)
two_fields = (0, int_of 8 3) ∷ (1, int_of 1 0) ∷ []

place_two : (r : Layout) × (aggregate_layout two_fields ≡ ok r)
unfolding aggregate_layout place_fields place_field index_mut start align_to add
place_two = (_, refl)

aggregate_layout-IsPlacement_example : IsPlacement two_fields place_two.0
aggregate_layout-IsPlacement_example =
    aggregate_layout-IsPlacement two_fields place_two.0 (omega arith) place_two.1

abbrev big_case : Layout
big_case = int_of 16 3

variant_layout-Holds_example :
    (r : Layout) × (variant_layout tag_uint8 (big_case ∷ int_of 4 2 ∷ []) ≡ ok r)
    × ((c : CaseId) (l : Layout) → get_elem? (big_case ∷ int_of 4 2 ∷ []) c ≡ some l → Holds r c l)
unfolding biggest
variant_layout-Holds_example =
    variant_layout-Holds tag_uint8 big_case (int_of 4 2 ∷ []) (omega arith) (2, refl) weaker
  where
    weaker :
        (c : CaseId) (l : Layout)
        → get_elem? (big_case ∷ int_of 4 2 ∷ []) c ≡ some l
        → alignment l ≤ alignment (biggest big_case (int_of 4 2 ∷ []))
    weaker c l h = All-get (λ l. alignment l ≤ 3) (big_case ∷ int_of 4 2 ∷ []) c l (omega arith) h

-- A pair of `Int32`s beside an `Int64`.
variant_layout_overrun_example :
    (r : Layout) × (variant_layout tag_uint8 (int_of 8 2 ∷ int_of 8 3 ∷ []) ≡ ok r)
    × (alignment r ≡ 2)
    × (downcast_layout r 1 ≡ ok (prefixed 1 0 (int_of 8 3)))
    × (size r < payload_offset 1 0 (int_of 8 3) + 8)
    × (¬ Holds r 1 (int_of 8 3))
variant_layout_overrun_example =
    variant_layout_overrun 8 2 3 (scalar (Scalar.int false int32)) (scalar (Scalar.int false int32))
      (omega arith) (omega arith) (1, refl) (omega arith)

pair_layout : (l : Layout) × (calculate_layout sample_ctxt 2 pair_type ≡ ok l)
unfolding calculate_layout integer_layout from_scalar scalar_size scalar_align signed_and_size
    record_layout aggregate_layout place_fields place_field index_mut start sort_fields insert_field
    enumerate align_to add
pair_layout = (_, refl)

calculate_layout-IsWhole_example : IsWhole pair_layout.0
calculate_layout-IsWhole_example =
    calculate_layout-IsWhole sample_ctxt 2 pair_type pair_layout.0 pair_layout.1

calculate_layout-ends_example : calculate_layout sample_ctxt 2 pair_type ≢ out_of_fuel
calculate_layout-ends_example = calculate_layout-ends sample_ctxt 2 pair_type (tt, (tt, tt))
