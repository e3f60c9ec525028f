-- ===== src/Layout/Of/Whole.antt =====
-- Every layout that `calculate_layout` returns is one that arrays can repeat.
use kli.Prelude.{
  ℕ, zero, suc, ◌≡◌, false, max, List, [], ◌∷◌, arith, All, Option-cases, inl, inr, All-get,
}
use kli.Prelude.Arith.{IsMultiple}
use kli.Prelude.Outcome.{Outcome, ok, map_m, >>=-eq-ok}
use kli.Types.{
  Ty, Tys, infer, unknown, int, int_var, bool, char, never, param, function, tuple, array, named,
  string, box, uninit, raw_ptr, to_list, Ctxt, Case, TypeDefKind, record_def, variant_def,
  field_type, tag_type, TagType,
}
use kli.Types.Integer.{IntegerKind, signed, unsigned, signed_and_size, int8, int32, int64}
use kli.Layout.Size.{LayoutError, in_bytes, add, align_to, align_to-eq_ok, round_up-IsMultiple}
use kli.Layout.Defs.{
  field_layouts, Layout, layout, LayoutKind, size, alignment, from_scalar, pointer_layout, zst,
  uninhabited_layout, Scalar, TagEncoding, layouts, scalar_size, scalar_align,
}
use kli.Layout.Aggregate.{
  aggregate_layout, record_layout, sort_fields, enumerate, place_fields, start,
}
use kli.Layout.Aggregate.Place.{Fields}
use kli.Layout.Variant.{other_case, variant_layout, tagged_layout, niche_case, biggest, tag_parts}
use kli.Layout.Variant.Payload.{niche_case-get}
use kli.Layout.Of.{integer_layout, case_layout, named_layout, calculate_layout}

-- The size is a multiple of the alignment.
abbrev pub IsWhole : Layout → Type 0
IsWhole l = IsMultiple (in_bytes (alignment l)) (size l)

abbrev Good : Outcome LayoutError Layout → Type 0
Good r = (l : Layout) → r ≡ ok l → IsWhole l

aggregate-IsWhole : (fs : Fields) → Good (aggregate_layout fs)
unfolding aggregate_layout
aggregate-IsWhole fs l h =
    let (st, h₁, h₂) = >>=-eq-ok (place_fields 0 fs (start fs)) _ h in
    let (total, h₃, h₄) = >>=-eq-ok (align_to st.offset st.max_align) _ h₂ in
    let e = align_to-eq_ok st.offset st.max_align h₃ in
    let made : layout total st.max_align (LayoutKind.aggregate (field_layouts fs) st.positions)
        ≡ l =
      cc in
    rw (← made, e) (round_up-IsMultiple st.offset st.max_align)

record-IsWhole : (ls : List Layout) → Good (record_layout ls)
unfolding record_layout
record-IsWhole ls = aggregate-IsWhole (sort_fields (enumerate 0 ls))

tagged-IsWhole :
    (tag : TagType) (cases : List Layout) (big : Layout) → Good (tagged_layout tag cases big)
unfolding tagged_layout
tagged-IsWhole tag cases big l h =
    let a = max (tag_parts tag).2 (alignment big) in
    let (sum, h₁, h₂) = >>=-eq-ok (add (tag_parts tag).0 (size big)) _ h in
    let (total, h₃, h₄) = >>=-eq-ok (align_to sum a) _ h₂ in
    let e = align_to-eq_ok sum a h₃ in
    let made : layout total a
          (LayoutKind.variant (TagEncoding.field (tag_parts tag).1) (layouts cases))
        ≡ l =
      cc in
    rw (← made, e) (round_up-IsMultiple sum a)

variant-IsWhole : (tag : TagType) (ls : List Layout) → All IsWhole ls → Good (variant_layout tag ls)
unfolding variant_layout uninhabited_layout zst
variant-IsWhole tag [] all l h =
    let made : uninhabited_layout zst ≡ l = cc in rw (← made) (0, omega arith)
variant-IsWhole tag (x ∷ xs) all l h = elim (Option-cases (niche_case (x ∷ xs))) [
  | inl e ↦ tagged-IsWhole tag (x ∷ xs) (biggest x xs) l (rw (e, variant_layout) at h)
  | inr ((c, nz), e) ↦
      let at = niche_case-get (x ∷ xs) c nz e in
      let made : layout (size nz) (alignment nz) (
            LayoutKind.variant (TagEncoding.niche c (other_case c) (Scalar.pointer false))
              (layouts (x ∷ xs)))
          ≡ l =
        cc (rw (e, variant_layout) at h) in
      rw (← made) (All-get IsWhole (x ∷ xs) c nz all at)
]

map_m-All {ℓ} :
    {A : Type ℓ} (f : A → Outcome LayoutError Layout)
    → ((x : A) → Good (f x))
    → (xs : List A) (ls : List Layout) → map_m f xs ≡ ok ls
    → All IsWhole ls
map_m-All f good [] ls h = let e : [] ≡ ls = cc in rw (← e) tt
map_m-All f good (x ∷ xs) ls h =
    let (l, h₁, h₂) = >>=-eq-ok (f x) _ h in
    let (rest, h₃, h₄) = >>=-eq-ok (map_m f xs) _ h₂ in
    let e : l ∷ rest ≡ ls = cc in rw (← e) (good x l h₁, map_m-All f good xs rest h₃)

module _ (ctxt : Ctxt) (layout_of : Ty → Outcome LayoutError Layout)
    (good : (t : Ty) → Good (layout_of t)) where
  case-IsWhole : (args : Tys) (c : Case) → Good (case_layout ctxt layout_of args c)
  unfolding case_layout zst
  case-IsWhole args c l h = elim (Option-cases c.field) [
    | inl e ↦ let made : zst ≡ l = cc (rw (e, case_layout) at h) in rw (← made) (0, omega arith)
    | inr (f, e) ↦ good (field_type ctxt args f) l (rw (e, case_layout) at h)
  ]

  named-IsWhole : (args : Tys) (def : TypeDefKind) → Good (named_layout ctxt layout_of args def)
  unfolding named_layout
  named-IsWhole args (record_def fields) l h =
      let (ls, h₁, h₂) = >>=-eq-ok (map_m (λ f. layout_of (field_type ctxt args f)) fields) _ h in
      record-IsWhole ls l h₂
  named-IsWhole args (variant_def cases) l h =
      let (ls, h₁, h₂) = >>=-eq-ok (map_m (case_layout ctxt layout_of args) cases) _ h in
      variant-IsWhole (tag_type cases) ls
        (map_m-All (case_layout ctxt layout_of args) (case-IsWhole args) cases ls h₁) l h₂

integer-IsWhole : (kind : IntegerKind) → IsWhole (integer_layout kind)
unfolding integer_layout from_scalar scalar_size scalar_align signed_and_size
integer-IsWhole (signed int8) = (1, omega arith)
integer-IsWhole (signed int32) = (1, omega arith)
integer-IsWhole (signed int64) = (1, omega arith)
integer-IsWhole (unsigned int8) = (1, omega arith)
integer-IsWhole (unsigned int32) = (1, omega arith)
integer-IsWhole (unsigned int64) = (1, omega arith)

Good-ok : (l : Layout) → IsWhole l → Good (ok l)
Good-ok l w m h = let e : l ≡ m = cc in rw (← e) w

-- The size of every layout that `calculate_layout` returns is a multiple of its alignment.
pub calculate_layout-IsWhole :
    (ctxt : Ctxt) (fuel : ℕ) (t : Ty) (l : Layout) → calculate_layout ctxt fuel t ≡ ok l → IsWhole l
unfolding calculate_layout pointer_layout uninhabited_layout zst from_scalar scalar_size
    scalar_align
calculate_layout-IsWhole ctxt zero t l h = cc
calculate_layout-IsWhole ctxt (suc n) (raw_ptr _) l h = Good-ok _ (1, omega arith) l h
calculate_layout-IsWhole ctxt (suc n) (uninit t) l h =
    let (inner, h₁, h₂) = >>=-eq-ok (calculate_layout ctxt n t) _ h in
    Good-ok _ (calculate_layout-IsWhole ctxt n t inner h₁) l h₂
calculate_layout-IsWhole ctxt (suc n) (infer _) l h = cc
calculate_layout-IsWhole ctxt (suc n) unknown l h = cc
calculate_layout-IsWhole ctxt (suc n) (int_var _) l h = cc
calculate_layout-IsWhole ctxt (suc n) (int k) l h =
    Good-ok (integer_layout k) (integer-IsWhole k) l h
calculate_layout-IsWhole ctxt (suc n) bool l h = Good-ok _ (1, omega arith) l h
calculate_layout-IsWhole ctxt (suc n) char l h = Good-ok _ (1, omega arith) l h
calculate_layout-IsWhole ctxt (suc n) never l h = Good-ok _ (0, omega arith) l h
calculate_layout-IsWhole ctxt (suc n) (param _ _) l h = cc
calculate_layout-IsWhole ctxt (suc n) (function _ _) l h = Good-ok _ (1, omega arith) l h
calculate_layout-IsWhole ctxt (suc n) (box _) l h = Good-ok _ (1, omega arith) l h
calculate_layout-IsWhole ctxt (suc n) (array _) l h = aggregate-IsWhole _ l h
calculate_layout-IsWhole ctxt (suc n) string l h = aggregate-IsWhole _ l h
calculate_layout-IsWhole ctxt (suc n) (tuple ts) l h =
    let (ls, h₁, h₂) = >>=-eq-ok (map_m (calculate_layout ctxt n) (to_list ts)) _ h in
    record-IsWhole ls l h₂
calculate_layout-IsWhole ctxt (suc n) (named id _ args) l h =
    named-IsWhole ctxt (calculate_layout ctxt n) (calculate_layout-IsWhole ctxt n) args
      (ctxt.type_def id).kind l h
