-- ===== src/Layout/Of/Enough.antt =====
-- How much fuel `calculate_layout` needs: the depth to which types hold each other by value.
use kli.Prelude.{
  ℕ, zero, suc, Option-cases, inl, inr, ◌+◌, ◌-◌, ◌%◌, ◌==◌, ltb, max, length, ◌≢◌, Bool, true,
  false, Option, none, some, List, [], ◌∷◌, map, All, if◌then◌else◌,
}
use kli.Prelude.Outcome.{Outcome, ok, err, panic, out_of_fuel, map_m, ◌>>=◌}
use kli.Types.{
  Ty, Tys, infer, unknown, int, int_var, bool, char, never, param, function, tuple, array, named,
  string, box, uninit, raw_ptr, to_list, Ctxt, Field, Case, TypeDefKind, record_def, variant_def,
  field_type, tag_type, TagType, FieldId,
}
use kli.Layout.Size.{LayoutError, Size, Align, add, align_to, in_bytes, u64_bound}
use kli.Layout.Defs.{Layout, size, alignment}
use kli.Layout.Aggregate.{
  Placing, index_mut, place_field, place_fields, start, sort_fields, enumerate, aggregate_layout,
  record_layout,
}
use kli.Layout.Variant.{variant_layout, tagged_layout, niche_case, biggest, tag_parts}
use kli.Layout.Of.{case_layout, named_layout, calculate_layout}

-- The run ends: it is a value, an error or a panic.
data Answers {ℓ} {A : Type ℓ} : Outcome LayoutError A → Type ℓ where
  value : (a : A) → Answers (ok a)
  problem : (e : LayoutError) → Answers (err e)
  stopped : Answers panic

bind-Answers {ℓ κ} :
    {A : Type ℓ} {B : Type κ} (m : Outcome LayoutError A) (f : A → Outcome LayoutError B)
    → Answers m
    → ((a : A) → Answers (f a))
    → Answers (m >>= f)
bind-Answers (ok a) f hm hf = hf a
bind-Answers (err e) f hm hf = problem e
bind-Answers panic f hm hf = stopped
bind-Answers out_of_fuel f hm hf = elim hm [ ]

test-Answers {ℓ} :
    {A : Type ℓ} (b : Bool) (m k : Outcome LayoutError A)
    → Answers m
    → Answers k
    → Answers (if b then m else k)
test-Answers true m k hm hk = hm
test-Answers false m k hm hk = hk

option-Answers {ℓ κ} :
    {A : Type ℓ} {B : Type κ} (o : Option A) (m : Outcome LayoutError B)
    (f : A → Outcome LayoutError B)
    → Answers m
    → ((a : A) → Answers (f a))
    → Answers (elim o [ some a ↦ f a | none ↦ m ])
option-Answers none m f hm hf = hm
option-Answers (some a) m f hm hf = hf a

add-Answers : (a b : Size) → Answers (add a b)
unfolding add
add-Answers a b = test-Answers (ltb (a + b) u64_bound) (ok (a + b)) panic (value _) stopped

align_to-Answers : (s : Size) (a : Align) → Answers (align_to s a)
unfolding align_to
align_to-Answers s a = test-Answers (s % in_bytes a == 0) _ _ (value s) (
    test-Answers (s % in_bytes a == 0) _ _ (value s)
      (test-Answers (ltb (s + (in_bytes a - s % in_bytes a)) u64_bound) _ _ (value _) stopped))

place_fields-Answers :
    (i : ℕ) (fs : List (FieldId × Layout)) (st : Placing) → Answers (place_fields i fs st)
unfolding place_fields place_field index_mut
place_fields-Answers i [] st = value st
place_fields-Answers i ((f, l) ∷ fs) st =
    bind-Answers (place_field i (f, l) st) _
      (bind-Answers (align_to st.offset (max (alignment l) st.max_align)) _ (align_to-Answers _ _)
        (λ offset.
          bind-Answers (index_mut st.positions f (record { index_in_memory = i; offset = offset }))
            _ (test-Answers (ltb f (length st.positions)) _ _ (value _) stopped)
            (λ positions.
              bind-Answers (add offset (size l)) _ (add-Answers offset (size l)) (λ next.
                bind-Answers (align_to next (max (alignment l) st.max_align)) _
                  (align_to-Answers _ _) (λ next. value _)))))
      (place_fields-Answers (suc i) fs)

aggregate_layout-Answers : (fs : List (FieldId × Layout)) → Answers (aggregate_layout fs)
unfolding aggregate_layout
aggregate_layout-Answers fs =
    bind-Answers (place_fields 0 fs (start fs)) _ (place_fields-Answers 0 fs (start fs)) (λ st.
      bind-Answers (align_to st.offset st.max_align) _ (align_to-Answers _ _) (λ total. value _))

record_layout-Answers : (ls : List Layout) → Answers (record_layout ls)
unfolding record_layout
record_layout-Answers ls = aggregate_layout-Answers (sort_fields (enumerate 0 ls))

tagged_layout-Answers :
    (tag : TagType) (ls : List Layout) (big : Layout) → Answers (tagged_layout tag ls big)
unfolding tagged_layout
tagged_layout-Answers tag ls big =
    bind-Answers (add (tag_parts tag).0 (size big)) _ (add-Answers _ _) (λ total.
      bind-Answers (align_to total (max (tag_parts tag).2 (alignment big))) _ (align_to-Answers _ _)
        (λ total. value _))

variant_layout-Answers : (tag : TagType) (ls : List Layout) → Answers (variant_layout tag ls)
unfolding variant_layout
variant_layout-Answers tag [] = value _
variant_layout-Answers tag (l ∷ ls) =
    option-Answers (niche_case (l ∷ ls)) _ _ (tagged_layout-Answers tag (l ∷ ls) (biggest l ls))
      (λ found. value _)

map_m-Answers {ℓ} :
    {A : Type ℓ} (f : A → Outcome LayoutError Layout) (xs : List A)
    → All (λ x. Answers (f x)) xs
    → Answers (map_m f xs)
map_m-Answers f [] h = value []
map_m-Answers f (x ∷ xs) h =
    bind-Answers (f x) _ h.0
      (λ l. bind-Answers (map_m f xs) _ (map_m-Answers f xs h.1) (λ ls. value _))

-- The types that a value of the type holds in place: those behind a pointer are not among them.
abbrev pub payloads : Ctxt → Tys → List Case → List Ty
payloads ctxt args [] = []
payloads ctxt args (c ∷ cs) = elim c.field [
  | some f ↦ field_type ctxt args f ∷ payloads ctxt args cs
  | none ↦ payloads ctxt args cs
]

abbrev pub def_parts : Ctxt → Tys → TypeDefKind → List Ty
def_parts ctxt args (record_def fields) = map (field_type ctxt args) fields
def_parts ctxt args (variant_def cases) = payloads ctxt args cases

abbrev pub parts : Ctxt → Ty → List Ty
parts ctxt (uninit t) = t ∷ []
parts ctxt (tuple ts) = to_list ts
parts ctxt (named id _ args) = def_parts ctxt args (ctxt.type_def id).kind
parts ctxt _ = []

-- Types hold each other in place to less than the depth given.
abbrev pub IsNested : Ctxt → ℕ → Ty → Type 0
IsNested ctxt zero t = ⊥
IsNested ctxt (suc n) t = All (IsNested ctxt n) (parts ctxt t)

module _ (P : Ty → Type 0) (layout_of : Ty → Outcome LayoutError Layout)
    (answers : (t : Ty) → P t → Answers (layout_of t)) where
  All-Answers : (ts : List Ty) → All P ts → All (λ t. Answers (layout_of t)) ts
  All-Answers [] h = tt
  All-Answers (t ∷ ts) h = (answers t h.0, All-Answers ts h.1)

  fields-Answers :
      (ctxt : Ctxt) (args : Tys) (fs : List Field)
      → All P (map (field_type ctxt args) fs)
      → All (λ f. Answers (layout_of (field_type ctxt args f))) fs
  fields-Answers ctxt args [] h = tt
  fields-Answers ctxt args (f ∷ fs) h =
      (answers (field_type ctxt args f) h.0, fields-Answers ctxt args fs h.1)

  cases-Answers :
      (ctxt : Ctxt) (args : Tys) (cs : List Case)
      → All P (payloads ctxt args cs)
      → All (λ c. Answers (case_layout ctxt layout_of args c)) cs
  unfolding case_layout
  cases-Answers ctxt args [] h = tt
  cases-Answers ctxt args (c ∷ cs) h = elim (Option-cases c.field) [
    | inl e ↦ (rw (e, case_layout) (value _), cases-Answers ctxt args cs (rw e at h))
    | inr (f, e) ↦
        let held = rw e at h in
        (
          rw (e, case_layout) (answers (field_type ctxt args f) held.0),
          cases-Answers ctxt args cs held.1,
        )
  ]

  def-Answers :
      (ctxt : Ctxt) (args : Tys) (def : TypeDefKind)
      → All P (def_parts ctxt args def)
      → Answers (named_layout ctxt layout_of args def)
  unfolding named_layout
  def-Answers ctxt args (record_def fields) h =
      bind-Answers (map_m (λ f. layout_of (field_type ctxt args f)) fields) record_layout
        (map_m-Answers (λ f. layout_of (field_type ctxt args f)) fields
          (fields-Answers ctxt args fields h))
        record_layout-Answers
  def-Answers ctxt args (variant_def cases) h =
      bind-Answers (map_m (case_layout ctxt layout_of args) cases) (variant_layout (tag_type cases))
        (map_m-Answers (case_layout ctxt layout_of args) cases (cases-Answers ctxt args cases h))
        (variant_layout-Answers (tag_type cases))

nested-Answers :
    (ctxt : Ctxt) (n : ℕ) (t : Ty) → IsNested ctxt n t → Answers (calculate_layout ctxt n t)
unfolding calculate_layout
nested-Answers ctxt zero t h = absurd h
nested-Answers ctxt (suc n) (raw_ptr _) h = value _
nested-Answers ctxt (suc n) (uninit t) h =
    bind-Answers (calculate_layout ctxt n t) _ (nested-Answers ctxt n t h.0) (λ l. value _)
nested-Answers ctxt (suc n) (infer _) h = problem _
nested-Answers ctxt (suc n) unknown h = problem _
nested-Answers ctxt (suc n) (int_var _) h = problem _
nested-Answers ctxt (suc n) (int k) h = value _
nested-Answers ctxt (suc n) bool h = value _
nested-Answers ctxt (suc n) char h = value _
nested-Answers ctxt (suc n) never h = value _
nested-Answers ctxt (suc n) (param _ _) h = problem _
nested-Answers ctxt (suc n) (function _ _) h = value _
nested-Answers ctxt (suc n) (box _) h = value _
nested-Answers ctxt (suc n) (array _) h = aggregate_layout-Answers _
nested-Answers ctxt (suc n) string h = aggregate_layout-Answers _
nested-Answers ctxt (suc n) (tuple ts) h =
    bind-Answers (map_m (calculate_layout ctxt n) (to_list ts)) record_layout
      (map_m-Answers (calculate_layout ctxt n) (to_list ts) (
        All-Answers (IsNested ctxt n) (calculate_layout ctxt n) (nested-Answers ctxt n) (to_list ts)
          h))
      record_layout-Answers
nested-Answers ctxt (suc n) (named id _ args) h =
    def-Answers (IsNested ctxt n) (calculate_layout ctxt n) (nested-Answers ctxt n) ctxt args
      (ctxt.type_def id).kind h

ends : (o : Outcome LayoutError Layout) → Answers o → o ≢ out_of_fuel
ends (ok l) h e = cc
ends (err x) h e = cc
ends panic h e = cc
ends out_of_fuel h e = elim h [ ]

-- If the type holds types in place to less than the depth given as fuel, `calculate_layout` does not
-- run out of it: it returns a layout, an error, or panics.
pub calculate_layout-ends :
    (ctxt : Ctxt) (fuel : ℕ) (t : Ty)
    → IsNested ctxt fuel t
    → calculate_layout ctxt fuel t ≢ out_of_fuel
calculate_layout-ends ctxt fuel t h =
    ends (calculate_layout ctxt fuel t) (nested-Answers ctxt fuel t h)
