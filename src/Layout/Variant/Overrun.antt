-- ===== src/Layout/Variant/Overrun.antt =====
-- The variants in which `variant_layout` takes the alignment of the wrong case.
use native.Mathlib.Nat.{pow-suc}
use kli.Prelude.{
  ℕ, zero, suc, ◌∙◌, ap, List, get_elem?, ◌+◌, ◌^◌, ◌≤◌, ◌<◌, ◌≡◌, none, some, [], ◌∷◌, arith, max,
}
use kli.Prelude.Arith.{IsMultiple, IsMultiple-pow2, IsMultiple-trans, pow2_pos, pow2-le}
use kli.Prelude.Outcome.{ok}
use kli.Types.{tag_uint8}
use kli.Layout.Size.{
  Size, Align, in_bytes, round_up, le-round_up, round_up-least, round_up-IsMultiple, u64_bound,
  round_up_at_multiple,
}
use kli.Layout.Defs.{Layout, layout, FieldOffset, LayoutKind, size, alignment}
use kli.Layout.Variant.{biggest, niche_case, variant_layout, downcast_layout}
use kli.Layout.Variant.Payload.{
  tagged, tagged_layout-ok, downcast-tagged, prefixed, prefixed_by-ok, payload_offset, Holds,
  IsPayload,
}

IsMultiple-pos : (m s : ℕ) → IsMultiple m s → 0 < s → m ≤ s
IsMultiple-pos m s (zero, e) h = omega arith
IsMultiple-pos m s (suc k, e) h = omega arith

round_up_one : (a : Align) → round_up 1 a ≡ in_bytes a
round_up_one a = omega (
  arith,
  round_up-least 1 a (in_bytes a) (1, omega arith) (pow2_pos a),
  IsMultiple-pos (in_bytes a) (round_up 1 a) (round_up-IsMultiple 1 a) (le-round_up 1 a),
)

pow2-lt : (a b : ℕ) → a < b → 2 ^ a < 2 ^ b
pow2-lt a b h = omega (arith, pow2-le (suc a) b (omega arith), pow2_pos a, pow-suc 2 a)

niche_case-sized :
    (s : Size) (a b : Align) (k k' : LayoutKind)
    → 0 < s
    → niche_case (layout s a k ∷ layout s b k' ∷ []) ≡ none
unfolding niche_case
niche_case-sized s a b k k' h = ground arith

biggest-weak :
    (s : Size) (a b : Align) (k k' : LayoutKind)
    → biggest (layout s a k) (layout s b k' ∷ []) ≡ layout s a k
unfolding biggest
biggest-weak s a b k k' = ground arith

inside-le :
    (prefix : Size) (align : Align) (result l : Layout)
    → IsPayload result l (prefixed prefix align l)
    → payload_offset prefix align l + size l ≤ size result
inside-le prefix align result l h =
    let at : h.positions
        ≡ record { index_in_memory = 0; offset = payload_offset prefix align l } ∷ [] =
      cc h.shape in
    let slot : h.slot.slot
        ≡ record { index_in_memory = 0; offset = payload_offset prefix align l } =
      cc (h.slot.found, ap (λ (ps : List FieldOffset). get_elem? ps 0) at) in
    rw slot at h.slot.below

module _ (s : Size) (a b : Align) (k k' : LayoutKind) where
  -- Two cases of the same size, of which the second is more strictly aligned than the first.
  abbrev weak : Layout
  weak = layout s a k

  abbrev strict : Layout
  strict = layout s b k'

  -- Let the cases be of the same positive size, a multiple of the alignment of the second, and let
  -- the size with twice that alignment be at most 2 ^ 64. Then the variant is laid out, with the
  -- alignment of the first case; `project_downcast` to the second case returns a layout, whose payload
  -- behind the one byte of the tag ends beyond the size of the variant.
  pub variant_layout_overrun :
      0 < s
      → a < b
      → IsMultiple (in_bytes b) s
      → s + in_bytes b + in_bytes b ≤ u64_bound
      → (result : Layout) × (variant_layout tag_uint8 (weak ∷ strict ∷ []) ≡ ok result)
        × (alignment result ≡ alignment weak)
        × (downcast_layout result 1 ≡ ok (prefixed 1 0 strict))
        × (size result < payload_offset 1 0 strict + size strict)
        × (¬ Holds result 1 strict)
  unfolding variant_layout
  variant_layout_overrun pos less mult room =
      let made =
        tagged_layout-ok tag_uint8 (weak ∷ strict ∷ []) weak
          (omega (arith, pow2-lt (max 0 a) b (omega arith), pow2_pos b)) in
      let weak_mult =
        IsMultiple-trans (in_bytes a) (in_bytes b) s (IsMultiple-pow2 a b (omega arith)) mult in
      let turn : 1 + s ≡ s + 1 = omega arith in
      let total : round_up (1 + s) a ≡ s + in_bytes a =
        rw turn (round_up_at_multiple s 1 a weak_mult ∙ ap (λ (t : ℕ). s + t) (round_up_one a)) in
      let top : max 0 a ≡ a = omega arith in
      let top' : max 0 b ≡ b = omega arith in
      let over : round_up (1 + s) (max 0 a) < round_up 1 (max 0 b) + s =
        rw (top, top', total, round_up_one b) (omega (arith, pow2-lt a b less)) in
      let read = prefixed_by-ok 1 0 strict (
        rw (top', turn, round_up_at_multiple s 1 b mult, round_up_one b)
          (omega (arith, pow2_pos b))) in
      let read' =
        downcast-tagged tag_uint8 (weak ∷ strict ∷ []) weak strict 1 (λ i. some strict) ∙ read in
      (
        tagged tag_uint8 (weak ∷ strict ∷ []) weak,
        rw (niche_case-sized s a b k k' pos, variant_layout, biggest-weak s a b k k') made,
        top,
        read',
        over,
        λ h.
            let same : h.payload ≡ prefixed 1 0 strict = cc (h.found, read') in
            omega (
              arith,
              inside-le 1 0 (tagged tag_uint8 (weak ∷ strict ∷ []) weak) strict
                  (rw same at h.inside),
            ),
      )
