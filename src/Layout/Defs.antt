-- ===== src/Layout/Defs.antt =====
-- The layouts of src/layout/mod.rs.
use kli.Prelude.{ℕ, Bool, true, false, ◌&&◌, Option, none, some, List, [], ◌∷◌, ◌==◌, if◌then◌else◌}
use kli.Types.{FieldId, CaseId}
use kli.Types.Integer.{IntegerSize, int8, int32, int64, IntegerKind, signed, unsigned}
use kli.Layout.Size.{Size, Align}

pub data Scalar : Type 0 where
  bool : Scalar
  pointer : Bool → Scalar
  int : Bool → IntegerSize → Scalar

pub data TagEncoding : Type 0 where
  uninhabited : TagEncoding
  field : Scalar → TagEncoding
  niche : CaseId → CaseId → Scalar → TagEncoding

pub record FieldOffset : Type 0 where
  pub index_in_memory : ℕ
  pub offset : Size

-- `Layout` and `LayoutKind`, with the vectors of layouts that they hold.
mutual
  pub data Layout : Type 0 where
    layout : Size → Align → LayoutKind → Layout

  pub data LayoutKind : Type 0 where
    aggregate : FieldLayouts → List FieldOffset → LayoutKind
    variant : TagEncoding → Layouts → LayoutKind
    scalar : Scalar → LayoutKind
    uninit : Layout → LayoutKind

  pub data FieldLayouts : Type 0 where
    no_fields : FieldLayouts
    field_layout : FieldId → Layout → FieldLayouts → FieldLayouts

  pub data Layouts : Type 0 where
    no_layouts : Layouts
    next_layout : Layout → Layouts → Layouts

abbrev pub size : Layout → Size
size (layout s _ _) = s

abbrev pub alignment : Layout → Align
alignment (layout _ a _) = a

abbrev pub kind : Layout → LayoutKind
kind (layout _ _ k) = k

abbrev pub field_layouts : List (FieldId × Layout) → FieldLayouts
field_layouts [] = no_fields
field_layouts ((f, l) ∷ fs) = field_layout f l (field_layouts fs)

abbrev pub layouts : List Layout → Layouts
layouts [] = no_layouts
layouts (l ∷ ls) = next_layout l (layouts ls)

-- `Scalar::signed`, `Scalar::integer_size` and `Scalar::integer_kind`.
unfoldable pub is_signed : Scalar → Bool
is_signed (int below_zero _) = below_zero
is_signed _ = false

unfoldable pub integer_size : Scalar → IntegerSize
integer_size bool = int8
integer_size (pointer _) = int64
integer_size (int _ s) = s

unfoldable pub integer_kind : Scalar → IntegerKind
unfolding is_signed integer_size
integer_kind s = if is_signed s then signed (integer_size s) else unsigned (integer_size s)

-- `Scalar::size` and `Scalar::align`.
unfoldable pub scalar_size : Scalar → Size
scalar_size bool = 1
scalar_size (pointer _) = 8
scalar_size (int _ int64) = 8
scalar_size (int _ int32) = 4
scalar_size (int _ int8) = 1

unfoldable pub scalar_align : Scalar → Align
scalar_align bool = 0
scalar_align (int _ int8) = 0
scalar_align (int _ int32) = 2
scalar_align (int _ int64) = 3
scalar_align (pointer _) = 3

-- `Layout::from_scalar`, `Layout::pointer`, `Layout::zst` and `Layout::uninhabited`.
unfoldable pub from_scalar : Scalar → Layout
unfolding scalar_size scalar_align
from_scalar s = layout (scalar_size s) (scalar_align s) (scalar s)

unfoldable pub pointer_layout : Bool → Layout
pointer_layout non_null = layout 8 3 (scalar (pointer non_null))

unfoldable pub zst : Layout
zst = layout 0 0 (aggregate no_fields [])

unfoldable pub uninhabited_layout : Layout → Layout
uninhabited_layout l = layout (size l) (alignment l) (variant uninhabited no_layouts)

-- `Layout::is_zero_sized` and `Layout::is_align_1_zst`.
abbrev pub is_zero_sized : Layout → Bool
is_zero_sized l = size l == 0

abbrev pub is_align_1_zst : Layout → Bool
is_align_1_zst l = size l == 0 && alignment l == 0

-- `Layout::as_scalar` and `Layout::is_uninhabited`.
abbrev pub as_scalar : Layout → Option Scalar
as_scalar (layout _ _ (scalar s)) = some s
as_scalar _ = none

abbrev pub is_uninhabited : Layout → Bool
is_uninhabited (layout _ _ (variant uninhabited _)) = true
is_uninhabited _ = false
