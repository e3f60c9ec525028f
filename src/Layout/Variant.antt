-- ===== src/Layout/Variant.antt =====
-- `variant_layout` and `Layout::prefixed_by` of src/layout/mod.rs, and the part of
-- `project_downcast` of src/codegen/mod.rs that finds the payload of a case.
pub mod Payload
pub mod Overrun
use kli.Prelude.{
  ℕ, zero, suc, max, Bool, true, false, Option, none, some, List, [], ◌∷◌, leb, if◌then◌else◌, ◌==◌,
}
use kli.Prelude.Outcome.{Outcome, ok, panic, ◌>>=◌}
use kli.Types.{CaseId, TagType, tag_uint8, tag_uint64, tag_never}
use kli.Types.Integer.{int8, int64}
use kli.Layout.Size.{Size, Align, LayoutError, add, align_to}
use kli.Layout.Defs.{
  Scalar, pointer, int, TagEncoding, uninhabited, field, niche, Layout, layout, LayoutKind,
  aggregate, variant, scalar, size, alignment, kind, field_layouts, Layouts, no_layouts,
  next_layout, layouts, zst, uninhabited_layout, scalar_size, scalar_align, is_align_1_zst,
}

-- The size, the scalar and the alignment of the tag.
abbrev pub tag_parts : TagType → Size × Scalar × Align
tag_parts tag_uint64 = (8, int false int64, 3)
tag_parts tag_uint8 = (1, int false int8, 0)
tag_parts tag_never = (1, int false int8, 0)

-- `iter.reduce`, from the first layout on: the first one of the greatest size.
unfoldable pub biggest : Layout → List Layout → Layout
biggest acc [] = acc
biggest acc (l ∷ ls) = biggest (if leb (size l) (size acc) then acc else l) ls

-- A non-null pointer, which leaves the zero free for another case.
abbrev pub is_non_null : LayoutKind → Bool
is_non_null (scalar (pointer non_null)) = non_null
is_non_null _ = false

abbrev pub only_sized : Bool → Bool → Layout → Layout → Option (CaseId × Layout)
only_sized false true first second = some (0, first)
only_sized true false first second = some (1, second)
only_sized _ _ first second = none

abbrev pub non_null_only : Option (CaseId × Layout) → Option (CaseId × Layout)
non_null_only none = none
non_null_only (some (c, l)) = if is_non_null (kind l) then some (c, l) else none

-- The `if let` chain: of exactly two cases one takes no memory and the other is a non-null pointer.
unfoldable pub niche_case : List Layout → Option (CaseId × Layout)
niche_case (first ∷ second ∷ []) =
    non_null_only (only_sized (is_align_1_zst first) (is_align_1_zst second) first second)
niche_case _ = none

abbrev pub other_case : CaseId → CaseId
other_case untagged = if untagged == 0 then 1 else 0

-- The branch of a tag in front of the payload.
unfoldable pub tagged_layout : TagType → List Layout → Layout → Outcome LayoutError Layout
tagged_layout tag cases big = do
  let (tag_size, tag_scalar, tag_align) = tag_parts tag
  let max_align = max tag_align (alignment big)
  total ← add tag_size (size big)
  total ← align_to total max_align
  ok (layout total max_align (variant (field tag_scalar) (layouts cases)))

-- `variant_layout`, at the layouts of the cases; a case with no payload has the layout `zst`.
unfoldable pub variant_layout : TagType → List Layout → Outcome LayoutError Layout
unfolding zst uninhabited_layout
variant_layout tag [] = ok (uninhabited_layout zst)
variant_layout tag (l ∷ ls) = elim (niche_case (l ∷ ls)) [
  | some (untagged, non_zero) ↦ ok (
      layout (size non_zero) (alignment non_zero)
        (variant (niche untagged (other_case untagged) (pointer false)) (layouts (l ∷ ls))))
  | none ↦ tagged_layout tag (l ∷ ls) (biggest l ls)
]

-- `Layout::prefixed_by`.
unfoldable pub prefixed_by : Size → Align → Layout → Outcome LayoutError Layout
prefixed_by prefix align l = do
  let align' = max align (alignment l)
  total ← add prefix (size l)
  total ← align_to total align'
  offset ← align_to prefix align'
  ok (
      layout total (alignment l) (
        aggregate (field_layouts ((0, l) ∷ []))
          (record { index_in_memory = 0; offset = offset } ∷ [])))

-- The prefix that `project_downcast` passes over, by the encoding of the tag.
unfoldable pub downcast_prefix : TagEncoding → Align → Size × Align
unfolding scalar_size scalar_align
downcast_prefix (field s) align = (scalar_size s, scalar_align s)
downcast_prefix uninhabited align = (0, 0)
downcast_prefix (niche _ _ _) align = (0, align)

-- `cases[case]`, which panics out of range.
unfoldable pub payload_layout : Layouts → CaseId → Outcome LayoutError Layout
payload_layout no_layouts c = panic
payload_layout (next_layout l ls) zero = ok l
payload_layout (next_layout l ls) (suc c) = payload_layout ls c

-- The layout under which `project_downcast` reads the payload of a case.
unfoldable pub downcast_layout : Layout → CaseId → Outcome LayoutError Layout
unfolding downcast_prefix prefixed_by payload_layout
downcast_layout (layout s a (variant tag cases)) c =
    let (prefix, align) = downcast_prefix tag a in
    payload_layout cases c >>= prefixed_by prefix align
downcast_layout _ c = panic
