-- ===== src/Layout/Aggregate/Place.antt =====
-- Where `aggregate_layout` places the fields.
use kli.Prelude.{
  ℕ, suc, ◌+◌, ◌≤◌, ◌<◌, ◌≡◌, ◌≢◌, refl, sym, ◌∙◌, max, some, List, [], ◌∷◌, arith, length, set,
  get_elem?, All, get_elem?-set_self, get_elem?-set_ne,
}
use kli.Prelude.Arith.{IsMultiple, IsMultiple-pow2, IsMultiple-trans}
use kli.Prelude.Outcome.{ok, >>=-eq-ok}
use kli.Types.{FieldId}
use kli.Layout.Size.{
  Size, in_bytes, round_up, round_up-IsMultiple, le-round_up, align_to, align_to-eq_ok, add,
  add-eq_ok,
}
use kli.Layout.Defs.{Layout, layout, aggregate, FieldOffset, size, alignment, kind, field_layouts}
use kli.Layout.Aggregate.{Placing, index_mut, place_field, place_fields, start, aggregate_layout}

abbrev pub Fields : Type 0
Fields = List (FieldId × Layout)

-- No field id occurs twice.
abbrev pub Distinct : Fields → Type 0
Distinct [] = Unit
Distinct ((f, _) ∷ fs) = All (λ g. f ≢ g.0) fs × Distinct fs

-- The fields lie one behind the other between `lo` and `hi`, from the `i`-th in memory on, each
-- at a multiple of its alignment, and the table says where.
abbrev pub Placed : ℕ → Size → Fields → List FieldOffset → Size → Type 0
Placed i lo [] ps hi = lo ≤ hi
Placed i lo ((f, l) ∷ fs) ps hi =
    (o : Size) × (get_elem? ps f ≡ some (record { index_in_memory = i; offset = o }))
    × (lo ≤ o)
    × IsMultiple (in_bytes (alignment l)) o
    × Placed (suc i) (o + size l) fs ps hi

-- What one round of the loop does, if it does not panic.
record PlacingOf (i : ℕ) (f : FieldId) (l : Layout) (st st' : Placing) : Type 0 where
  in_range : f < length st.positions
  raised : st'.max_align ≡ max (alignment l) st.max_align
  stored :
      st'.positions
      ≡ set st.positions f (record {
        index_in_memory = i;
        offset = round_up st.offset (max (alignment l) st.max_align);
      })
  moved :
      st'.offset
      ≡ round_up
          (round_up st.offset (max (alignment l) st.max_align) + size l)
          (max (alignment l) st.max_align)

index_mut-eq_ok :
    (ps : List FieldOffset) (f : FieldId) (p : FieldOffset) {qs : List FieldOffset}
    → index_mut ps f p ≡ ok qs
    → (f < length ps) × (qs ≡ set ps f p)
unfolding index_mut
index_mut-eq_ok ps f p h = ground arith

place_field-eq_ok :
    (i : ℕ) (f : FieldId) (l : Layout) (st st' : Placing)
    → place_field i (f, l) st ≡ ok st'
    → PlacingOf i f l st st'
unfolding place_field
place_field-eq_ok i f l st st' h =
    let (o, ho, h₁) = >>=-eq-ok (align_to st.offset (max (alignment l) st.max_align)) _ h in
    let (ps, hps, h₂) =
      >>=-eq-ok (index_mut st.positions f (record { index_in_memory = i; offset = o })) _ h₁ in
    let (n, hn, h₃) = >>=-eq-ok (add o (size l)) _ h₂ in
    let (n', hn', h₄) = >>=-eq-ok (align_to n (max (alignment l) st.max_align)) _ h₃ in
    let eo = align_to-eq_ok st.offset (max (alignment l) st.max_align) ho in
    let (range, eps) = index_mut-eq_ok st.positions f _ hps in
    let en = add-eq_ok o (size l) hn in
    let en' = align_to-eq_ok n (max (alignment l) st.max_align) hn' in
    record { in_range = range; raised = cc; stored = cc; moved = cc }

place_fields-keeps :
    (i : ℕ) (fs : Fields) (st st' : Placing) (f : FieldId)
    → All (λ g. f ≢ g.0) fs
    → place_fields i fs st ≡ ok st'
    → get_elem? st'.positions f ≡ get_elem? st.positions f
unfolding place_fields
place_fields-keeps i [] st st' f d h = ground arith
place_fields-keeps i ((g, l) ∷ fs) st st' f (d, ds) h =
    let (st₁, h₁, h₂) = >>=-eq-ok (place_field i (g, l) st) _ h in
    let step = place_field-eq_ok i g l st st₁ h₁ in
    place_fields-keeps (suc i) fs st₁ st' f ds h₂
    ∙ rw step.stored (get_elem?-set_ne st.positions g f _ (λ e. d (sym e)))

Placed-weaken :
    (i : ℕ) (lo lo' : Size) (fs : Fields) (ps : List FieldOffset) (hi : Size)
    → lo' ≤ lo
    → Placed i lo fs ps hi
    → Placed i lo' fs ps hi
Placed-weaken i lo lo' [] ps hi h p = omega arith
Placed-weaken i lo lo' ((f, l) ∷ fs) ps hi h (o, e, le, m, rest) = (o, e, omega arith, m, rest)

-- What the loop has done when it ends.
record IsLaid (i : ℕ) (fs : Fields) (st st' : Placing) : Type 0 where
  placed : Placed i st.offset fs st'.positions st'.offset
  grown : st.max_align ≤ st'.max_align
  bounded : All (λ g. alignment g.1 ≤ st'.max_align) fs

place_fields-IsLaid :
    (i : ℕ) (fs : Fields) (st st' : Placing)
    → Distinct fs
    → place_fields i fs st ≡ ok st'
    → IsLaid i fs st st'
unfolding place_fields
place_fields-IsLaid i [] st st' d h = record {
  placed = ground arith;
  grown = ground arith;
  bounded = tt;
}
place_fields-IsLaid i ((f, l) ∷ fs) st st' (d, ds) h =
    let (st₁, h₁, h₂) = >>=-eq-ok (place_field i (f, l) st) _ h in
    let step = place_field-eq_ok i f l st st₁ h₁ in
    let rest = place_fields-IsLaid (suc i) fs st₁ st' ds h₂ in
    let a = max (alignment l) st.max_align in
    let o = round_up st.offset a in
    record {
      placed = (
        o,
        place_fields-keeps (suc i) fs st₁ st' f d h₂
            ∙ rw step.stored (get_elem?-set_self st.positions f _ step.in_range),
        le-round_up st.offset a,
        IsMultiple-trans (in_bytes (alignment l)) (in_bytes a) o
            (IsMultiple-pow2 (alignment l) a (omega arith)) (round_up-IsMultiple st.offset a),
        Placed-weaken (suc i) st₁.offset (o + size l) fs st'.positions st'.offset
            (omega (arith, step.moved, le-round_up (o + size l) a)) rest.placed,
      );
      grown = omega (arith, step.raised, rest.grown);
      bounded = (omega (arith, step.raised, rest.grown), rest.bounded);
    }

-- The result of `aggregate_layout`: the fields lie one behind the other, each at a multiple of its
-- alignment, inside the size; the size is a multiple of the alignment of the whole, which is at
-- least that of every field.
pub record IsPlacement (fs : Fields) (result : Layout) : Type 0 where
  pub positions : List FieldOffset
  pub shape : kind result ≡ aggregate (field_layouts fs) positions
  pub placed : Placed 0 0 fs positions (size result)
  pub whole : IsMultiple (in_bytes (alignment result)) (size result)
  pub bounded : All (λ g. alignment g.1 ≤ alignment result) fs

Placed-extend :
    (i : ℕ) (lo : Size) (fs : Fields) (ps : List FieldOffset) (hi hi' : Size)
    → hi ≤ hi'
    → Placed i lo fs ps hi
    → Placed i lo fs ps hi'
Placed-extend i lo [] ps hi hi' h p = omega arith
Placed-extend i lo ((f, l) ∷ fs) ps hi hi' h (o, e, le, m, rest) =
    (o, e, le, m, Placed-extend (suc i) (o + size l) fs ps hi hi' h rest)

-- Whenever `aggregate_layout` returns a layout for fields with distinct ids, it is a placement of
-- them: aligned, disjoint and inside the size, which is a multiple of the alignment.
pub aggregate_layout-IsPlacement :
    (fs : Fields) (result : Layout)
    → Distinct fs
    → aggregate_layout fs ≡ ok result
    → IsPlacement fs result
unfolding aggregate_layout start
aggregate_layout-IsPlacement fs result d h =
    let (st, h₁, h₂) = >>=-eq-ok (place_fields 0 fs (start fs)) _ h in
    let (total, h₃, h₄) = >>=-eq-ok (align_to st.offset st.max_align) _ h₂ in
    let laid = place_fields-IsLaid 0 fs (start fs) st d h₁ in
    let e = align_to-eq_ok st.offset st.max_align h₃ in
    let made : layout total st.max_align (aggregate (field_layouts fs) st.positions) ≡ result =
      cc in
    rw (← made) (record {
      positions = st.positions;
      shape = refl;
      placed =
          Placed-extend 0 0 fs st.positions st.offset total
            (omega (arith, e, le-round_up st.offset st.max_align)) laid.placed;
      whole = rw e (round_up-IsMultiple st.offset st.max_align);
      bounded = laid.bounded;
    })
