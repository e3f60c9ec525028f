-- ===== src/Layout/Aggregate/Total.antt =====
-- When `aggregate_layout` and `record_layout` return, and the size that they return.
use Prim.Native.Nat.add
use native.Mathlib.Nat.{add-zero, add_assoc}
use kli.Prelude.{
  ℕ, suc, ◌+◌, ◌≤◌, ◌<◌, ◌≡◌, refl, ap, ◌∙◌, max, List, [], ◌∷◌, arith, length, set, replicate,
  length-set, length-replicate, leb, All, Bool-cases, inl, inr,
}
use kli.Prelude.Arith.{IsMultiple, IsMultiple-add}
use kli.Prelude.Outcome.{ok}
use kli.Types.{FieldId}
use kli.Layout.Size.{
  Size, Align, in_bytes, round_up, le-round_up, round_up-IsMultiple, u64_bound, align_to,
  align_to-at, add, add-ok, round_up_at_multiple, round_up_multiple,
}
use kli.Layout.Defs.{Layout, layout, aggregate, FieldOffset, size, alignment, field_layouts}
use kli.Layout.Aggregate.{
  index_mut, place_field, place_fields, start, first_align, default_offset, aggregate_layout,
  sort_fields, insert_field, enumerate, record_layout,
}
use kli.Layout.Aggregate.Place.{Fields}
use kli.Layout.Aggregate.Sorted.{All-sort}

-- The bytes that the fields take, each padded to the alignment of the whole.
abbrev pub packed_size : Align → Fields → Size
packed_size a [] = 0
packed_size a ((_, l) ∷ fs) = round_up (size l) a + packed_size a fs

index_mut-ok :
    (ps : List FieldOffset) (f : FieldId) (p : FieldOffset)
    → f < length ps
    → index_mut ps f p ≡ ok (set ps f p)
unfolding index_mut
index_mut-ok ps f p h = ground arith

module _ (a : Align) where
  -- One round, at an offset that is a multiple of the alignment of the whole.
  place_field-ok :
      (i : ℕ) (f : FieldId) (l : Layout) (o : Size) (ps : List FieldOffset)
      → alignment l ≤ a
      → f < length ps
      → IsMultiple (in_bytes a) o
      → o + round_up (size l) a < u64_bound
      → place_field i (f, l) (record { offset = o; max_align = a; positions = ps })
        ≡ ok (record {
          offset = o + round_up (size l) a;
          max_align = a;
          positions = set ps f (record { index_in_memory = i; offset = o });
        })
  unfolding place_field
  place_field-ok i f l o ps le range m room =
      let top : max (alignment l) a ≡ a = omega arith in
      let here : round_up o a ≡ o = round_up_multiple o a m in
      let there = round_up_at_multiple o (size l) a m in
      let first : align_to o a ≡ ok o =
        align_to-at o a o here (omega (arith, le-round_up (size l) a)) in
      let grow : add o (size l) ≡ ok (o + size l) =
        add-ok o (size l) (omega (arith, le-round_up (size l) a)) in
      let next : align_to (o + size l) a ≡ ok (o + round_up (size l) a) =
        align_to-at (o + size l) a (o + round_up (size l) a) there room in
      rw
        (
          top,
          first,
          index_mut-ok ps f (record { index_in_memory = i; offset = o }) range,
          grow,
          next,
        )
        refl

  -- The loop, from an offset that is a multiple of the alignment of the whole.
  place_fields-ok :
      (i : ℕ) (fs : Fields) (o : Size) (ps : List FieldOffset)
      → All (λ g. alignment g.1 ≤ a) fs
      → All (λ g. g.0 < length ps) fs
      → IsMultiple (in_bytes a) o
      → o + packed_size a fs < u64_bound
      → (qs : List FieldOffset) × (place_fields i fs
            (record { offset = o; max_align = a; positions = ps })
          ≡ ok (record { offset = o + packed_size a fs; max_align = a; positions = qs }))
  unfolding place_fields
  place_fields-ok i [] o ps le range m room = (ps, rw add-zero)
  place_fields-ok i ((f, l) ∷ fs) o ps (le, les) (range, ranges) m room =
      let p : FieldOffset = record { index_in_memory = i; offset = o } in
      let step = place_field-ok i f l o ps le range m (omega arith) in
      let (qs, rest) =
        place_fields-ok (suc i) fs (o + round_up (size l) a) (set ps f p) les
          (rw (length-set ps f p) ranges)
          (IsMultiple-add (in_bytes a) o (round_up (size l) a) m (round_up-IsMultiple (size l) a))
          (omega arith) in
      (qs, rw step (rest ∙ rw add_assoc))

  packed-IsMultiple : (fs : Fields) → IsMultiple (in_bytes a) (packed_size a fs)
  packed-IsMultiple [] = (0, omega arith)
  packed-IsMultiple ((f, l) ∷ fs) =
      IsMultiple-add (in_bytes a) (round_up (size l) a) (packed_size a fs)
        (round_up-IsMultiple (size l) a) (packed-IsMultiple fs)

aggregate_layout-ok :
    (fs : Fields)
    → All (λ g. alignment g.1 ≤ first_align fs) fs
    → All (λ g. g.0 < length fs) fs
    → packed_size (first_align fs) fs < u64_bound
    → (ps : List FieldOffset) × (aggregate_layout fs
        ≡ ok (
            layout
              (packed_size (first_align fs) fs)
              (first_align fs)
              (aggregate (field_layouts fs) ps)))
unfolding aggregate_layout start
aggregate_layout-ok fs le range room =
    let a = first_align fs in
    let none_placed = replicate (length fs) default_offset in
    let (qs, placed) =
      place_fields-ok a 0 fs 0 none_placed le
        (rw (length-replicate (length fs) default_offset) range) (0, omega arith) (omega arith) in
    let total =
      align_to-at (packed_size a fs) a (packed_size a fs)
        (round_up_multiple (packed_size a fs) a (packed-IsMultiple a fs)) room in
    (qs, rw (placed, add.zero, total) refl)

-- The greatest alignment of the fields, at least one byte.
abbrev pub top_align : List Layout → Align
top_align [] = 0
top_align (l ∷ ls) = max (alignment l) (top_align ls)

-- The sizes of the fields, each rounded up to the alignment.
abbrev pub padded_size : Align → List Layout → Size
padded_size a [] = 0
padded_size a (l ∷ ls) = round_up (size l) a + padded_size a ls

first_align-insert :
    (x : FieldId × Layout) (ys : Fields)
    → first_align (insert_field x ys) ≡ max (alignment x.1) (first_align ys)
unfolding insert_field
first_align-insert x [] = omega arith
first_align-insert (f, l) ((g, m) ∷ ys) = ground arith

packed-insert :
    (a : Align) (x : FieldId × Layout) (ys : Fields)
    → packed_size a (insert_field x ys) ≡ packed_size a (x ∷ ys)
unfolding insert_field
packed-insert a x [] = refl
packed-insert a (f, l) ((g, m) ∷ ys) = elim (Bool-cases (leb (alignment m) (alignment l))) [
  | inl e ↦ rw e
  | inr e ↦ rw e (omega (arith, packed-insert a (f, l) ys))
]

length-insert : (x : FieldId × Layout) (ys : Fields) → length (insert_field x ys) ≡ suc (length ys)
unfolding insert_field
length-insert x [] = refl
length-insert (f, l) ((g, m) ∷ ys) = elim (Bool-cases (leb (alignment m) (alignment l))) [
  | inl e ↦ rw e
  | inr e ↦ rw e (ap suc (length-insert (f, l) ys))
]

first_align-sort :
    (i : FieldId) (ls : List Layout) → first_align (sort_fields (enumerate i ls)) ≡ top_align ls
unfolding sort_fields enumerate
first_align-sort i [] = refl
first_align-sort i (l ∷ ls) =
    first_align-insert (i, l) (sort_fields (enumerate (suc i) ls))
    ∙ rw (first_align-sort (suc i) ls)

packed-sort :
    (a : Align) (i : FieldId) (ls : List Layout)
    → packed_size a (sort_fields (enumerate i ls)) ≡ padded_size a ls
unfolding sort_fields enumerate
packed-sort a i [] = refl
packed-sort a i (l ∷ ls) =
    packed-insert a (i, l) (sort_fields (enumerate (suc i) ls)) ∙ rw (packed-sort a (suc i) ls)

length-sort : (i : FieldId) (ls : List Layout) → length (sort_fields (enumerate i ls)) ≡ length ls
unfolding sort_fields enumerate
length-sort i [] = refl
length-sort i (l ∷ ls) =
    length-insert (i, l) (sort_fields (enumerate (suc i) ls)) ∙ ap suc (length-sort (suc i) ls)

top-bounds :
    (i : FieldId) (a : Align) (ls : List Layout)
    → top_align ls ≤ a
    → All (λ g. alignment g.1 ≤ a) (enumerate i ls)
unfolding enumerate
top-bounds i a [] h = tt
top-bounds i a (l ∷ ls) h = (omega arith, top-bounds (suc i) a ls (omega arith))

enumerate-range :
    (i n : ℕ) (ls : List Layout) → i + length ls ≤ n → All (λ g. g.0 < n) (enumerate i ls)
unfolding enumerate
enumerate-range i n [] h = tt
enumerate-range i n (l ∷ ls) h = (omega arith, enumerate-range (suc i) n ls (omega arith))

-- `record_layout` returns whenever the padded sizes of the fields sum to less than 2 ^ 64. The
-- alignment is the greatest of a field, and the size is the sum of the fields' sizes, each rounded
-- up to that alignment, whatever the order in which the fields are declared.
pub record_layout-total :
    (ls : List Layout)
    → padded_size (top_align ls) ls < u64_bound
    → (result : Layout) × (record_layout ls ≡ ok result)
      × (alignment result ≡ top_align ls)
      × (size result ≡ padded_size (top_align ls) ls)
unfolding record_layout
record_layout-total ls room =
    let fs = sort_fields (enumerate 0 ls) in
    let top : first_align fs ≡ top_align ls = first_align-sort 0 ls in
    let sum : packed_size (first_align fs) fs ≡ padded_size (top_align ls) ls =
      rw top (packed-sort (top_align ls) 0 ls) in
    let (ps, made) =
      aggregate_layout-ok fs
        (rw top (
          All-sort (λ g. alignment g.1 ≤ top_align ls) (enumerate 0 ls)
            (top-bounds 0 (top_align ls) ls (omega arith))))
        (rw (length-sort 0 ls) (
          All-sort (λ g. g.0 < length ls) (enumerate 0 ls)
            (enumerate-range 0 (length ls) ls (omega arith))))
        (rw sum room) in
    (
      layout (packed_size (first_align fs) fs) (first_align fs) (aggregate (field_layouts fs) ps),
      made,
      top,
      sum,
    )
