-- ===== src/Layout/Aggregate/Sorted.antt =====
-- `record_layout`: the fields sorted by alignment, placed, and found again by their ids.
use Prim.Native.Nat.add
use kli.Prelude.{
  ℕ, zero, suc, ◌+◌, ◌≤◌, ◌<◌, ◌≡◌, ◌≢◌, ◌⊎◌, inl, inr, refl, sym, ◌∙◌, some, List, [], ◌∷◌, arith,
  leb, get_elem?, All, Bool-cases,
}
use kli.Prelude.Arith.{IsMultiple}
use kli.Prelude.Outcome.{ok}
use kli.Types.{FieldId}
use kli.Layout.Size.{Size, in_bytes}
use kli.Layout.Defs.{Layout, aggregate, FieldOffset, size, alignment, kind, field_layouts}
use kli.Layout.Aggregate.{insert_field, sort_fields, enumerate, record_layout}
use kli.Layout.Aggregate.Place.{Fields, Distinct, Placed, aggregate_layout-IsPlacement}

-- The field `f` of layout `l` is one of the fields.
abbrev pub Has : Fields → FieldId → Layout → Type 0
Has [] f l = ⊥
Has ((g, m) ∷ fs) f l = ((g ≡ f) × (m ≡ l)) ⊎ Has fs f l

All-insert :
    (P : FieldId × Layout → Type 0) (x : FieldId × Layout) (ys : Fields)
    → P x
    → All P ys
    → All P (insert_field x ys)
unfolding insert_field
All-insert P x [] p h = (p, tt)
All-insert P x (y ∷ ys) p (q, h) = elim (Bool-cases (leb (alignment y.1) (alignment x.1))) [
  | inl e ↦ rw e (p, (q, h))
  | inr e ↦ rw e (q, All-insert P x ys p h)
]

Distinct-insert :
    (x : FieldId × Layout) (ys : Fields)
    → All (λ g. x.0 ≢ g.0) ys
    → Distinct ys
    → Distinct (insert_field x ys)
unfolding insert_field
Distinct-insert x [] a d = (tt, tt)
Distinct-insert x (y ∷ ys) (n, a) (b, d) = elim (Bool-cases (leb (alignment y.1) (alignment x.1))) [
  | inl e ↦ rw e ((n, a), (b, d))
  | inr e ↦ rw e (All-insert (λ g. y.0 ≢ g.0) x ys (λ e'. n (sym e')) b, Distinct-insert x ys a d)
]

pub All-sort : (P : FieldId × Layout → Type 0) (xs : Fields) → All P xs → All P (sort_fields xs)
unfolding sort_fields
All-sort P [] h = tt
All-sort P (x ∷ xs) (p, h) = All-insert P x (sort_fields xs) p (All-sort P xs h)

Distinct-sort : (xs : Fields) → Distinct xs → Distinct (sort_fields xs)
unfolding sort_fields
Distinct-sort [] d = tt
Distinct-sort ((f, l) ∷ xs) (a, d) =
    Distinct-insert (f, l) (sort_fields xs) (All-sort (λ g. f ≢ g.0) xs a) (Distinct-sort xs d)

All-enumerate : (i j : FieldId) (ls : List Layout) → i < j → All (λ g. i ≢ g.0) (enumerate j ls)
unfolding enumerate
All-enumerate i j [] h = tt
All-enumerate i j (l ∷ ls) h = (omega arith, All-enumerate i (suc j) ls (omega arith))

Distinct-enumerate : (i : FieldId) (ls : List Layout) → Distinct (enumerate i ls)
unfolding enumerate
Distinct-enumerate i [] = tt
Distinct-enumerate i (l ∷ ls) =
    (All-enumerate i (suc i) ls (omega arith), Distinct-enumerate (suc i) ls)

Has-insert_head : (x : FieldId × Layout) (ys : Fields) → Has (insert_field x ys) x.0 x.1
unfolding insert_field
Has-insert_head x [] = inl (refl, refl)
Has-insert_head x (y ∷ ys) = elim (Bool-cases (leb (alignment y.1) (alignment x.1))) [
  | inl e ↦ rw e (inl (refl, refl))
  | inr e ↦ rw e (inr (Has-insert_head x ys))
]

Has-insert_tail :
    (x : FieldId × Layout) (ys : Fields) (f : FieldId) (l : Layout)
    → Has ys f l
    → Has (insert_field x ys) f l
unfolding insert_field
Has-insert_tail x [] f l h = elim h [ ]
Has-insert_tail x (y ∷ ys) f l h = elim (Bool-cases (leb (alignment y.1) (alignment x.1))) [
  | inl e ↦ rw e (inr h)
  | inr e ↦ rw e (elim h [ inl p ↦ inl p | inr r ↦ inr (Has-insert_tail x ys f l r) ])
]

Has-sort : (xs : Fields) (f : FieldId) (l : Layout) → Has xs f l → Has (sort_fields xs) f l
unfolding sort_fields
Has-sort [] f l h = h
Has-sort ((g, m) ∷ xs) f l (inl (p, q)) = rw (← p, ← q) (Has-insert_head (g, m) (sort_fields xs))
Has-sort ((g, m) ∷ xs) f l (inr h) = Has-insert_tail (g, m) (sort_fields xs) f l (Has-sort xs f l h)

Has-enumerate :
    (i j : ℕ) (ls : List Layout) (l : Layout)
    → get_elem? ls j ≡ some l
    → Has (enumerate i ls) (i + j) l
unfolding enumerate
Has-enumerate i j [] l h = cc
Has-enumerate i zero (m ∷ ls) l h = inl (omega arith, cc)
Has-enumerate i (suc j) (m ∷ ls) l h =
    inr (let e : suc i + j ≡ i + suc j = omega arith in rw e at (Has-enumerate (suc i) j ls l h))

-- The slot that the table gives a field: inside `lo` and `hi`, at a multiple of the alignment.
pub record IsSlot (ps : List FieldOffset) (lo hi : Size) (f : FieldId) (l : Layout) : Type 0 where
  pub slot : FieldOffset
  pub found : get_elem? ps f ≡ some slot
  pub above : lo ≤ slot.offset
  pub below : slot.offset + size l ≤ hi
  pub aligned : IsMultiple (in_bytes (alignment l)) slot.offset

Placed-le :
    (i : ℕ) (lo : Size) (fs : Fields) (ps : List FieldOffset) (hi : Size)
    → Placed i lo fs ps hi
    → lo ≤ hi
Placed-le i lo [] ps hi h = h
Placed-le i lo ((f, l) ∷ fs) ps hi (o, e, le, m, rest) =
    omega (arith, Placed-le (suc i) (o + size l) fs ps hi rest)

Placed-IsSlot :
    (i : ℕ) (lo : Size) (fs : Fields) (ps : List FieldOffset) (hi : Size) (f : FieldId) (l : Layout)
    → Placed i lo fs ps hi
    → Has fs f l
    → IsSlot ps lo hi f l
Placed-IsSlot i lo [] ps hi f l p h = elim h [ ]
Placed-IsSlot i lo ((g, m) ∷ fs) ps hi f l (o, e, le, mult, rest) (inl (p, q)) =
    rw (← p, ← q)
      (record {
        slot = record { index_in_memory = i; offset = o };
        found = e;
        above = le;
        below = Placed-le (suc i) (o + size m) fs ps hi rest;
        aligned = mult;
      })
Placed-IsSlot i lo ((g, m) ∷ fs) ps hi f l (o, e, le, mult, rest) (inr h) =
    let s = Placed-IsSlot (suc i) (o + size m) fs ps hi f l rest h in
    record {
      slot = s.slot;
      found = s.found;
      above = omega (arith, s.above);
      below = s.below;
      aligned = s.aligned;
    }

⊎_swap : {A B : Type 0} → A ⊎ B → B ⊎ A
⊎_swap (inl a) = inr a
⊎_swap (inr b) = inl b

module _ (ps : List FieldOffset) (hi : Size) where
  -- The bytes of the two fields do not overlap.
  abbrev pub Apart : FieldId → Layout → FieldId → Layout → Type 0
  Apart f l g m =
      (p q : FieldOffset)
      → get_elem? ps f ≡ some p
      → get_elem? ps g ≡ some q
      → (p.offset + size l ≤ q.offset) ⊎ (q.offset + size m ≤ p.offset)

  -- A field lies behind the slot of the first one.
  Placed-behind :
      (i : ℕ) (o : Size) (fs : Fields) (f g : FieldId) (l m : Layout)
      → get_elem? ps f ≡ some (record { index_in_memory = i; offset = o })
      → Placed (suc i) (o + size l) fs ps hi
      → Has fs g m
      → Apart f l g m
  Placed-behind i o fs f g l m e rest h p q ep eq =
      let s = Placed-IsSlot (suc i) (o + size l) fs ps hi g m rest h in
      let pe : p ≡ record { index_in_memory = i; offset = o } = cc in
      let qe : q ≡ s.slot = cc in inl (rw (pe, qe) s.above)

  Placed-Apart :
      (i : ℕ) (lo : Size) (fs : Fields) (f g : FieldId) (l m : Layout)
      → Placed i lo fs ps hi
      → f ≢ g
      → Has fs f l
      → Has fs g m
      → Apart f l g m
  Placed-Apart i lo [] f g l m p n h k = elim h [ ]
  Placed-Apart i lo ((a, x) ∷ fs) f g l m p n (inl (u, v)) (inl (u', v')) = absurd (n (sym u ∙ u'))
  Placed-Apart i lo ((a, x) ∷ fs) f g l m (o, e, le, mult, rest) n (inl (u, v)) (inr k) =
      rw (← u, ← v) (Placed-behind i o fs a g x m e rest k)
  Placed-Apart i lo ((a, x) ∷ fs) f g l m (o, e, le, mult, rest) n (inr h) (inl (u, v)) =
      λ p q ep eq. rw (← v) (⊎_swap (Placed-behind i o fs a f x l e rest h q p (rw u eq) ep))
  Placed-Apart i lo ((a, x) ∷ fs) f g l m (o, e, le, mult, rest) n (inr h) (inr k) =
      Placed-Apart (suc i) (o + size x) fs f g l m rest n h k

-- What the layout of a record promises: a table with a slot for each field, inside the size and
-- aligned for the field, no two of them overlapping, and a size that is a multiple of an alignment
-- at least that of every field, so that in an array of such records every field is aligned.
pub record IsRecord (ls : List Layout) (result : Layout) : Type 0 where
  pub in_memory : Fields
  pub positions : List FieldOffset
  pub shape : kind result ≡ aggregate (field_layouts in_memory) positions
  pub slots :
      (f : FieldId) (l : Layout) → get_elem? ls f ≡ some l → IsSlot positions 0 (size result) f l
  pub apart :
      (f g : FieldId) (l m : Layout)
      → f ≢ g
      → get_elem? ls f ≡ some l
      → get_elem? ls g ≡ some m
      → Apart positions (size result) f l g m
  pub whole : IsMultiple (in_bytes (alignment result)) (size result)
  pub bounded :
      (f : FieldId) (l : Layout) → get_elem? ls f ≡ some l → alignment l ≤ alignment result

All-has :
    (P : Layout → Type 0) (fs : Fields) (f : FieldId) (l : Layout)
    → All (λ g. P g.1) fs
    → Has fs f l
    → P l
All-has P [] f l a h = elim h [ ]
All-has P ((g, m) ∷ fs) f l a (inl (p, q)) = rw (← q) a.0
All-has P ((g, m) ∷ fs) f l a (inr h) = All-has P fs f l a.1 h

-- Whenever `record_layout` returns a layout for the layouts of the fields, in the order of their
-- declaration, each field has a slot of its own.
pub record_layout-IsRecord :
    (ls : List Layout) (result : Layout) → record_layout ls ≡ ok result → IsRecord ls result
unfolding record_layout
record_layout-IsRecord ls result h =
    let fs = sort_fields (enumerate 0 ls) in
    let p =
      aggregate_layout-IsPlacement fs result
        (Distinct-sort (enumerate 0 ls) (Distinct-enumerate 0 ls)) h in
    let has = λ (f : FieldId) (l : Layout) (e : get_elem? ls f ≡ some l).
      Has-sort (enumerate 0 ls) f l (rw add.zero at (Has-enumerate 0 f ls l e)) in
    record {
      in_memory = fs;
      positions = p.positions;
      shape = p.shape;
      slots = λ f l e. Placed-IsSlot 0 0 fs p.positions (size result) f l p.placed (has f l e);
      apart = λ f g l m n e e'.
          Placed-Apart p.positions (size result) 0 0 fs f g l m p.placed n (has f l e) (has g m e');
      whole = p.whole;
      bounded = λ f l e. All-has (λ x. alignment x ≤ alignment result) fs f l p.bounded (has f l e);
    }
