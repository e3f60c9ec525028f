-- ===== src/Layout/Aggregate.antt =====
-- `aggregate_layout` and `record_layout` of src/layout/mod.rs.
pub mod Place
pub mod Sorted
pub mod Total
use kli.Prelude.{ℕ, suc, max, List, [], ◌∷◌, ltb, leb, if◌then◌else◌, length, set, replicate}
use kli.Prelude.Outcome.{Outcome, ok, panic, ◌>>=◌}
use kli.Types.{FieldId}
use kli.Layout.Size.{Size, Align, LayoutError, add, align_to}
use kli.Layout.Defs.{Layout, layout, aggregate, FieldOffset, size, alignment, field_layouts}

-- The variables that the closure over the fields changes.
pub record Placing : Type 0 where
  pub offset : Size
  pub max_align : Align
  pub positions : List FieldOffset

-- `field_positions[field] = …`, which panics out of range.
unfoldable pub index_mut :
    List FieldOffset → FieldId → FieldOffset → Outcome LayoutError (List FieldOffset)
index_mut ps f p = if ltb f (length ps) then ok (set ps f p) else panic

-- The closure, at the `i`-th field.
unfoldable pub place_field : ℕ → FieldId × Layout → Placing → Outcome LayoutError Placing
place_field i (f, l) st = do
  let max_align = max (alignment l) st.max_align
  offset ← align_to st.offset max_align
  positions ← index_mut st.positions f (record { index_in_memory = i; offset = offset })
  next ← add offset (size l)
  next ← align_to next max_align
  ok (record { offset = next; max_align = max_align; positions = positions })

unfoldable pub place_fields : ℕ → List (FieldId × Layout) → Placing → Outcome LayoutError Placing
place_fields i [] st = ok st
place_fields i (f ∷ fs) st = place_field i f st >>= place_fields (suc i) fs

-- `map_or(Align::BYTE, …)` on the first field.
abbrev pub first_align : List (FieldId × Layout) → Align
first_align [] = 0
first_align ((_, l) ∷ _) = alignment l

-- `FieldOffset::default()`.
abbrev pub default_offset : FieldOffset
default_offset = record { index_in_memory = 0; offset = 0 }

unfoldable pub start : List (FieldId × Layout) → Placing
start fields = record {
  offset = 0;
  max_align = first_align fields;
  positions = replicate (length fields) default_offset;
}

unfoldable pub aggregate_layout : List (FieldId × Layout) → Outcome LayoutError Layout
aggregate_layout fields = do
  st ← place_fields 0 fields (start fields)
  total ← align_to st.offset st.max_align
  ok (layout total st.max_align (aggregate (field_layouts fields) st.positions))

-- `sort_by_key` with the reversed alignment: the standard library's sort is stable, so a field
-- goes before the fields behind it whose alignment is no greater.
unfoldable pub insert_field : FieldId × Layout → List (FieldId × Layout) → List (FieldId × Layout)
insert_field x [] = x ∷ []
insert_field x (y ∷ ys) =
    if leb (alignment y.1) (alignment x.1) then x ∷ y ∷ ys else y ∷ insert_field x ys

unfoldable pub sort_fields : List (FieldId × Layout) → List (FieldId × Layout)
unfolding insert_field
sort_fields [] = []
sort_fields (x ∷ xs) = insert_field x (sort_fields xs)

-- `iter_enumerated` from the id `i` on.
unfoldable pub enumerate : FieldId → List Layout → List (FieldId × Layout)
enumerate i [] = []
enumerate i (l ∷ ls) = (i, l) ∷ enumerate (suc i) ls

-- `record_layout`, at the layouts of the fields.
unfoldable pub record_layout : List Layout → Outcome LayoutError Layout
record_layout fields = aggregate_layout (sort_fields (enumerate 0 fields))
