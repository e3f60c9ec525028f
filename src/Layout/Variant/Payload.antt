-- ===== src/Layout/Variant/Payload.antt =====
-- Whether the payload of a case lies inside the layout of its variant.
use native.Mathlib.Decide.{dec_le}
use kli.Prelude.{
  ℕ, zero, suc, false, ◌+◌, ◌≤◌, ◌<◌, ◌≡◌, refl, ◌∙◌, max, some, List, [], ◌∷◌, arith, get_elem?,
  leb, if◌then◌else◌, Bool-cases, inl, inr, Option-cases,
}
use kli.Prelude.Arith.{IsMultiple, IsMultiple-pow2, IsMultiple-trans, pow2_pos, pow2-le}
use kli.Prelude.Outcome.{ok}
use kli.Types.{CaseId, TagType, tag_uint8, tag_uint64, tag_never}
use kli.Layout.Size.{
  Size, Align, in_bytes, round_up, le-round_up, round_up-least, round_up-lt, round_up-IsMultiple,
  align_to, align_to-ok, u64_bound, add, add-ok, round_up_at_multiple, round_up_multiple,
}
use kli.Layout.Defs.{
  Layout, layout, Scalar, pointer, aggregate, variant, field, niche, layouts, FieldOffset, size,
  alignment, kind, field_layouts,
}
use kli.Layout.Aggregate.Sorted.{IsSlot}
use kli.Layout.Variant.{
  tag_parts, other_case, biggest, niche_case, tagged_layout, variant_layout, prefixed_by,
  downcast_layout, payload_layout,
}

round_up_mono : (s t : Size) (a b : Align) → s ≤ t → a ≤ b → round_up s a ≤ round_up t b
round_up_mono s t a b h k =
    round_up-least s a (round_up t b)
      (IsMultiple-trans (in_bytes a) (in_bytes b) (round_up t b) (IsMultiple-pow2 a b k)
        (round_up-IsMultiple t b))
      (omega (arith, le-round_up t b))

le-biggest : (acc : Layout) (ls : List Layout) → size acc ≤ size (biggest acc ls)
unfolding biggest
le-biggest acc [] = omega arith
le-biggest acc (l ∷ ls) = elim (Bool-cases (leb (size l) (size acc))) [
  | inl e ↦ rw e (le-biggest acc ls)
  | inr e ↦ rw e (ground (arith, le-biggest l ls))
]

-- No case is larger than the one that `reduce` finds.
get-le-biggest :
    (acc : Layout) (ls : List Layout) (c : ℕ) (l : Layout)
    → get_elem? ls c ≡ some l
    → size l ≤ size (biggest acc ls)
unfolding biggest
get-le-biggest acc [] c l h = cc
get-le-biggest acc (m ∷ ls) zero l h = elim (Bool-cases (leb (size m) (size acc))) [
  | inl e ↦ rw e (ground (arith, le-biggest acc ls))
  | inr e ↦ rw e (ground (arith, le-biggest m ls))
]
get-le-biggest acc (m ∷ ls) (suc c) l h =
    get-le-biggest (if leb (size m) (size acc) then acc else m) ls c l h

-- The payload that `project_downcast` reads: the slot of the only field of its layout.
abbrev pub payload_offset : Size → Align → Layout → Size
payload_offset prefix align l = round_up prefix (max align (alignment l))

round_up_zero : (a : Align) → round_up 0 a ≡ 0
round_up_zero a = omega (arith, round_up-least 0 a 0 (0, omega arith) (omega arith))

-- What a case is read under.
abbrev pub prefixed : Size → Align → Layout → Layout
prefixed prefix align l =
    layout (round_up (prefix + size l) (max align (alignment l))) (alignment l) (
      aggregate (field_layouts ((0, l) ∷ []))
        (record { index_in_memory = 0; offset = payload_offset prefix align l } ∷ []))

pub prefixed_by-ok :
    (prefix : Size) (align : Align) (l : Layout)
    → round_up (prefix + size l) (max align (alignment l)) < u64_bound
    → prefixed_by prefix align l ≡ ok (prefixed prefix align l)
unfolding prefixed_by
prefixed_by-ok prefix align l room =
    let a = max align (alignment l) in
    let grow : add prefix (size l) ≡ ok (prefix + size l) =
      add-ok prefix (size l) (omega (arith, le-round_up (prefix + size l) a)) in
    let end : align_to (prefix + size l) a ≡ ok (round_up (prefix + size l) a) =
      align_to-ok (prefix + size l) a room in
    let here : align_to prefix a ≡ ok (round_up prefix a) =
      align_to-ok prefix a
        (omega (arith, round_up_mono prefix (prefix + size l) a a (omega arith) (omega arith))) in
    rw (grow, end, here) refl

-- The layout `r` holds the case at a place inside the variant that is aligned for it.
pub record IsPayload (result l r : Layout) : Type 0 where
  pub positions : List FieldOffset
  pub shape : kind r ≡ aggregate (field_layouts ((0, l) ∷ [])) positions
  pub slot : IsSlot positions 0 (size result) 0 l

prefixed-IsPayload :
    (prefix : Size) (align : Align) (result l : Layout)
    → payload_offset prefix align l + size l ≤ size result
    → IsPayload result l (prefixed prefix align l)
prefixed-IsPayload prefix align result l fits =
    let a = max align (alignment l) in
    let offset = payload_offset prefix align l in
    record {
      positions = record { index_in_memory = 0; offset = offset } ∷ [];
      shape = refl;
      slot = record {
        slot = record { index_in_memory = 0; offset = offset };
        found = refl;
        above = omega arith;
        below = fits;
        aligned =
            IsMultiple-trans (in_bytes (alignment l)) (in_bytes a) offset
              (IsMultiple-pow2 (alignment l) a (omega arith)) (round_up-IsMultiple prefix a);
      };
    }

-- Behind a tag that is aligned at its own size, the payload of a case that is no larger and no more
-- strictly aligned than the biggest one ends before the biggest one does.
payload-le :
    (tag_align a b : Align) (s t : Size)
    → s ≤ t
    → b ≤ a
    → IsMultiple (in_bytes a) t
    → round_up (in_bytes tag_align) (max tag_align b) + s
      ≤ round_up (in_bytes tag_align + t) (max tag_align a)
payload-le tag_align a b s t h k m = elim (dec_le tag_align a) [
  | yes below ↦
      let top : max tag_align a ≡ a = omega arith in
      let turn : in_bytes tag_align + t ≡ t + in_bytes tag_align = omega arith in
      rw (top, turn, round_up_at_multiple t (in_bytes tag_align) a m)
        (omega (
          arith,
          round_up_mono (in_bytes tag_align) (in_bytes tag_align) (max tag_align b) a (omega arith)
              (omega arith),
        ))
  | no above ↦
      let top : max tag_align a ≡ tag_align = omega arith in
      let top' : max tag_align b ≡ tag_align = omega arith in
      let at : round_up (in_bytes tag_align) tag_align ≡ in_bytes tag_align =
        round_up_multiple (in_bytes tag_align) tag_align (1, omega arith) in
      rw (top, top') (omega (arith, at, le-round_up (in_bytes tag_align + t) tag_align))
]

-- The niche: of the two cases the one that is not the pointer takes no memory.
niche_case-le :
    (ls : List Layout) (c : CaseId) (big : Layout) (i : ℕ) (l : Layout)
    → niche_case ls ≡ some (c, big)
    → get_elem? ls i ≡ some l
    → size l ≤ size big
unfolding niche_case
niche_case-le [] c big i l h e = cc
niche_case-le (a ∷ []) c big i l h e = cc
niche_case-le (a ∷ b ∷ x ∷ ls) c big i l h e = cc
niche_case-le (a ∷ b ∷ []) c big zero l h e = ground arith
niche_case-le (a ∷ b ∷ []) c big (suc zero) l h e = ground arith
niche_case-le (a ∷ b ∷ []) c big (suc (suc i)) l h e = cc

-- Room for a case behind a prefix, up to the next multiple of the alignment.
abbrev pub HasRoom : Size → Align → Layout → Type 0
HasRoom prefix align l = prefix + size l + in_bytes (max align (alignment l)) ≤ u64_bound

tag_size-eq : (tag : TagType) → (tag_parts tag).0 ≡ in_bytes (tag_parts tag).2
tag_size-eq tag_uint8 = refl
tag_size-eq tag_uint64 = refl
tag_size-eq tag_never = refl

get-le-first :
    (first : Layout) (rest : List Layout) (c : ℕ) (l : Layout)
    → get_elem? (first ∷ rest) c ≡ some l
    → size l ≤ size (biggest first rest)
get-le-first first rest zero l h = ground (arith, le-biggest first rest)
get-le-first first rest (suc c) l h = get-le-biggest first rest c l h

module _ (result : Layout) where
  -- `project_downcast` to the case finds the payload, of the layout `l`, inside the variant.
  pub record Holds (c : CaseId) (l : Layout) : Type 0 where
    pub payload : Layout
    pub found : downcast_layout result c ≡ ok payload
    pub inside : IsPayload result l payload

-- What a tag in front of the biggest case gives.
abbrev pub tagged : TagType → List Layout → Layout → Layout
tagged tag cases big =
    let (prefix, s, align) = tag_parts tag in
    layout (round_up (prefix + size big) (max align (alignment big))) (max align (alignment big))
      (variant (field s) (layouts cases))

pub tagged_layout-ok :
    (tag : TagType) (cases : List Layout) (big : Layout)
    → HasRoom (tag_parts tag).0 (tag_parts tag).2 big
    → tagged_layout tag cases big ≡ ok (tagged tag cases big)
unfolding tagged_layout
tagged_layout-ok tag cases big room =
    let prefix = (tag_parts tag).0 in
    let a = max (tag_parts tag).2 (alignment big) in
    let end = round_up-lt (prefix + size big) a in
    let grow : add prefix (size big) ≡ ok (prefix + size big) =
      add-ok prefix (size big) (omega (arith, end, pow2_pos a)) in
    let up : align_to (prefix + size big) a ≡ ok (round_up (prefix + size big) a) =
      align_to-ok (prefix + size big) a (omega arith) in
    rw (grow, up) refl

-- The layout that the variant keeps for a case.
pub payload_layout-get :
    (ls : List Layout) (c : CaseId) (l : Layout)
    → get_elem? ls c ≡ some l
    → payload_layout (layouts ls) c ≡ ok l
unfolding payload_layout
payload_layout-get [] c l h = cc
payload_layout-get (x ∷ ls) zero l h = cc
payload_layout-get (x ∷ ls) (suc c) l h = payload_layout-get ls c l h

pub downcast-tagged :
    (tag : TagType) (cases : List Layout) (big l : Layout) (c : CaseId)
    → get_elem? cases c ≡ some l
    → downcast_layout (tagged tag cases big) c ≡ prefixed_by (tag_parts tag).0 (tag_parts tag).2 l
unfolding downcast_layout
downcast-tagged tag_uint8 cases big l c h = rw (payload_layout-get cases c l h) refl
downcast-tagged tag_uint64 cases big l c h = rw (payload_layout-get cases c l h) refl
downcast-tagged tag_never cases big l c h = rw (payload_layout-get cases c l h) refl

tagged-Holds :
    (tag : TagType) (cases : List Layout) (big l : Layout) (c : CaseId)
    → get_elem? cases c ≡ some l
    → HasRoom (tag_parts tag).0 (tag_parts tag).2 big
    → IsMultiple (in_bytes (alignment big)) (size big)
    → size l ≤ size big
    → alignment l ≤ alignment big
    → Holds (tagged tag cases big) c l
tagged-Holds tag cases big l c get room mult smaller weaker =
    let prefix = (tag_parts tag).0 in
    let align = (tag_parts tag).2 in
    let a = max align (alignment big) in
    record {
      payload = prefixed prefix align l;
      found =
          downcast-tagged tag cases big l c get
          ∙ prefixed_by-ok prefix align l (
              omega (
                arith,
                round_up-lt (prefix + size big) a,
                round_up_mono (prefix + size l) (prefix + size big) (max align (alignment l)) a
                    (omega arith) (omega arith),
              ));
      inside = prefixed-IsPayload prefix align (tagged tag cases big) l (
          rw (tag_size-eq tag) (
            payload-le align (alignment big) (alignment l) (size l) (size big) smaller weaker
              mult));
    }

pub niche_case-get :
    (ls : List Layout) (c : CaseId) (big : Layout)
    → niche_case ls ≡ some (c, big)
    → get_elem? ls c ≡ some big
unfolding niche_case
niche_case-get [] c big h = cc
niche_case-get (a ∷ []) c big h = cc
niche_case-get (a ∷ b ∷ x ∷ ls) c big h = cc
niche_case-get (a ∷ b ∷ []) c big h = ground arith

niche-Holds :
    (c : CaseId) (cases : List Layout) (big l : Layout) (i : CaseId) (s : Scalar) (a : Align)
    (total : Size)
    → get_elem? cases i ≡ some l
    → size l ≤ size big
    → alignment l ≤ a
    → alignment big ≤ a
    → size big ≤ total
    → total + in_bytes a ≤ u64_bound
    → Holds
        (layout (size big) (alignment big) (variant (niche c (other_case c) s) (layouts cases)))
        i
        l
unfolding downcast_layout
niche-Holds c cases big l i s a total get smaller weaker strict below room =
    let al = max (alignment big) (alignment l) in
    record {
      payload = prefixed 0 (alignment big) l;
      found = rw (payload_layout-get cases i l get) (
          prefixed_by-ok 0 (alignment big) l (
            omega (
              arith,
              round_up-lt total a,
              round_up_mono (0 + size l) total al a (omega arith) (omega arith),
            )));
      inside = prefixed-IsPayload 0 (alignment big) _ l (rw (round_up_zero al) (omega arith));
    }

-- A variant with a case is laid out if the biggest case has room behind the tag. If the size of the
-- biggest case is a multiple of its alignment, and no case is more strictly aligned than the
-- biggest one, then every case can be projected, by its id, to the layout that the variant keeps for
-- it, and its payload lies inside the size of the variant at a multiple of its alignment.
pub variant_layout-Holds :
    (tag : TagType) (first : Layout) (rest : List Layout)
    → HasRoom (tag_parts tag).0 (tag_parts tag).2 (biggest first rest)
    → IsMultiple (in_bytes (alignment (biggest first rest))) (size (biggest first rest))
    → ((c : CaseId) (l : Layout)
        → get_elem? (first ∷ rest) c ≡ some l
        → alignment l ≤ alignment (biggest first rest))
    → (result : Layout) × (variant_layout tag (first ∷ rest) ≡ ok result)
      × ((c : CaseId) (l : Layout) → get_elem? (first ∷ rest) c ≡ some l → Holds result c l)
unfolding variant_layout
variant_layout-Holds tag first rest room mult weaker =
    let big = biggest first rest in
    let smaller = get-le-first first rest in
    elim (Option-cases (niche_case (first ∷ rest))) [
      | inl e ↦ (
        tagged tag (first ∷ rest) big,
        rw (e, variant_layout) (tagged_layout-ok tag (first ∷ rest) big room),
        λ c l get.
            tagged-Holds tag (first ∷ rest) big l c get room mult (smaller c l get)
              (weaker c l get),
      )
      | inr ((c, nz), e) ↦
          let at = niche_case-get (first ∷ rest) c nz e in
          (
            layout (size nz) (alignment nz)
                (variant (niche c (other_case c) (pointer false)) (layouts (first ∷ rest))),
            rw (e, variant_layout) refl,
            λ i l get.
                niche-Holds c (first ∷ rest) nz l i (pointer false) (alignment big) (size big) get
                  (niche_case-le (first ∷ rest) c nz i l e get) (weaker i l get) (weaker c nz at)
                  (smaller c nz at)
                  (omega (arith, pow2-le (alignment big) (max (tag_parts tag).2 (alignment big)))),
          )
    ]
