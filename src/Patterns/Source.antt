-- ===== src/Patterns/Source.antt =====
-- When a pattern of the typed program, a `Pattern` of src/typed_ast.rs, matches a value: the meaning of
-- the source's patterns, which does not refer to what src/patterns/convert.rs makes of them.
use kli.Prelude.{
  ◌≡◌, ◌⊎◌, inl, inr, refl, ap, sym, Bool, true, false, Option, none, some, List, [], ◌∷◌, map,
  ==_iff, &&-left, &&-right,
}
use kli.Types.{Ty}
use kli.Patterns.Ctors.{Constructor, wildcard, record_ctor, ctor_eq}
use kli.Patterns.Values.{Value, Values, con, head_of, parts_of, value_at, matches, matches_fields}
use kli.Patterns.Missing.Sound.{AnyMatch}
use kli.Patterns.Convert.{
  Pattern, pattern_of, PatternKind, PatternFields, no_fields, pattern_field, record_pat, bare_case,
  binding, unit, pattern_to_pat, kind_to_pat, fields_to_pats,
}

-- A binding matches every value, and so does a pattern that was reported as an error. A literal and a
-- case without a payload match their constructor; a case with a payload matches its constructor if the
-- inner pattern matches the first part, and a record pattern matches if each of its fields does.
unfoldable mutual
  pub Matches : Pattern → Value → Type 0
  Matches (pattern_of _ k) v = MatchesKind k v

  pub MatchesKind : PatternKind → Value → Type 0
  MatchesKind PatternKind.err v = Unit
  MatchesKind binding v = Unit
  MatchesKind unit v = head_of v ≡ record_ctor
  MatchesKind (PatternKind.int n) v = head_of v ≡ Constructor.int n
  MatchesKind (PatternKind.bool b) v = head_of v ≡ Constructor.bool b
  MatchesKind (PatternKind.char c) v = head_of v ≡ Constructor.char c
  MatchesKind (bare_case name) v = head_of v ≡ Constructor.case name
  MatchesKind (PatternKind.case name p) v =
      (head_of v ≡ Constructor.case name)
      × ((w : Value) × (value_at (parts_of v) 0 ≡ some w) × Matches p w)
  MatchesKind (record_pat fs) v = (head_of v ≡ record_ctor) × MatchesFields fs (parts_of v)

  pub MatchesFields : PatternFields → Values → Type 0
  MatchesFields no_fields ws = Unit
  MatchesFields (pattern_field i p fs) ws =
      ((w : Value) × (value_at ws i ≡ some w) × Matches p w) × MatchesFields fs ws

-- Some pattern of the list matches the value.
abbrev pub AnyMatches : List Pattern → Value → Type 0
AnyMatches [] v = ⊥
AnyMatches (p ∷ ps) v = Matches p v ⊎ AnyMatches ps v

ctor_eq-eq : (c d : Constructor) → ctor_eq c d ≡ true → d ≡ c
unfolding ctor_eq
ctor_eq-eq (Constructor.bool true) (Constructor.bool true) h = refl
ctor_eq-eq (Constructor.bool false) (Constructor.bool false) h = refl
ctor_eq-eq (Constructor.int m) (Constructor.int n) h = ap Constructor.int (sym ((==_iff m n).0 h))
ctor_eq-eq (Constructor.char m) (Constructor.char n) h =
    ap Constructor.char (sym ((==_iff m n).0 h))
ctor_eq-eq (Constructor.case m) (Constructor.case n) h =
    ap Constructor.case (sym ((==_iff m n).0 h))
ctor_eq-eq wildcard wildcard h = refl
ctor_eq-eq record_ctor record_ctor h = refl
ctor_eq-eq Constructor.non_exhaustive Constructor.non_exhaustive h = refl
ctor_eq-eq Constructor.missing Constructor.missing h = refl
ctor_eq-eq _ _ h = cc

abbrev field_matches : Pattern → Option Value → Bool
field_matches p o = elim o [ none ↦ false | some w ↦ matches (pattern_to_pat p) w ]

field_at :
    (p : Pattern) (o : Option Value)
    → ((w : Value) → matches (pattern_to_pat p) w ≡ true → Matches p w)
    → field_matches p o ≡ true
    → (w : Value) × (o ≡ some w) × Matches p w
field_at p none rec h = cc
field_at p (some w) rec h = (w, refl, rec w h)

mutual
  unfolding Matches matches ctor_eq pattern_to_pat

  -- A value that the converted pattern matches is matched by the pattern.
  pub matches-Matches :
      (p : Pattern) (v : Value) → matches (pattern_to_pat p) v ≡ true → Matches p v
  matches-Matches (pattern_of t k) v h = kind-Matches k t v h

  kind-Matches :
      (k : PatternKind) (t : Ty) (v : Value) → matches (kind_to_pat t k) v ≡ true → MatchesKind k v
  kind-Matches PatternKind.err t v h = tt
  kind-Matches binding t v h = tt
  kind-Matches unit t (con d ws) h =
      ctor_eq-eq record_ctor d (&&-left (ctor_eq record_ctor d) true h)
  kind-Matches (PatternKind.int n) t (con d ws) h =
      ctor_eq-eq (Constructor.int n) d (&&-left (ctor_eq (Constructor.int n) d) true h)
  kind-Matches (PatternKind.bool true) t (con d ws) h =
      ctor_eq-eq (Constructor.bool true) d (&&-left (ctor_eq (Constructor.bool true) d) true h)
  kind-Matches (PatternKind.bool false) t (con d ws) h =
      ctor_eq-eq (Constructor.bool false) d (&&-left (ctor_eq (Constructor.bool false) d) true h)
  kind-Matches (PatternKind.char c) t (con d ws) h =
      ctor_eq-eq (Constructor.char c) d (&&-left (ctor_eq (Constructor.char c) d) true h)
  kind-Matches (bare_case name) t (con d ws) h =
      ctor_eq-eq (Constructor.case name) d (&&-left (ctor_eq (Constructor.case name) d) true h)
  kind-Matches (PatternKind.case name p) t (con d ws) h =
      let inside = &&-right (ctor_eq (Constructor.case name) d) _ h in
      let first = &&-left (field_matches p (value_at ws 0)) true inside in
      (
        ctor_eq-eq (Constructor.case name) d (&&-left (ctor_eq (Constructor.case name) d) _ h),
        field_at p (value_at ws 0) (matches-Matches p) first,
      )
  kind-Matches (record_pat fs) t (con d ws) h = (
    ctor_eq-eq record_ctor d (&&-left (ctor_eq record_ctor d) _ h),
    fields-Matches fs ws (&&-right (ctor_eq record_ctor d) _ h),
  )

  fields-Matches :
      (fs : PatternFields) (ws : Values)
      → matches_fields (fields_to_pats fs) ws ≡ true
      → MatchesFields fs ws
  fields-Matches no_fields ws h = tt
  fields-Matches (pattern_field i p fs) ws h =
      let rest = matches_fields (fields_to_pats fs) ws in
      (
        field_at p (value_at ws i) (matches-Matches p)
            (&&-left (field_matches p (value_at ws i)) rest h),
        fields-Matches fs ws (&&-right (field_matches p (value_at ws i)) rest h),
      )

pub AnyMatch-AnyMatches :
    (ps : List Pattern) (v : Value) → AnyMatch (map pattern_to_pat ps) v → AnyMatches ps v
AnyMatch-AnyMatches [] v h = h
AnyMatch-AnyMatches (p ∷ ps) v (inl h) = inl (matches-Matches p v h)
AnyMatch-AnyMatches (p ∷ ps) v (inr h) = inr (AnyMatch-AnyMatches ps v h)
